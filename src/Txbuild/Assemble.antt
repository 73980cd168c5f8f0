-- ===== src/Txbuild/Assemble.antt =====
-- What simulation's results change in a transaction, and what a signature covers.
use orcusapi.Base.{
  ℕ, ◌+◌, ◌≤◌, ◌≡◌, refl, some, ok, arith, Ensures, holds, Ensures-ok, Ensures-bind, Ensures-ok_or,
  Ensures-result,
}
use orcusapi.Base.Int.{ℤ, pos, negsuc}
use orcusapi.Std.Words.{max_u32, try_unsigned_of_signed}
use orcusapi.Xdr.Tx.{Transaction, V1Envelope, Envelope, TransactionExt}
use orcusapi.Sdk.{Sdk}
use orcusapi.Chain.{Chain}
use orcusapi.Txbuild.Authorized.{IsAuthorized, with_auth-IsAuthorized}
use orcusapi.Txbuild.{
  SimulationOutcome, assemble_transaction, with_auth, checked_add, inclusion_fee_stroops,
}

-- The assembled transaction `after` of `before`.
pub record IsAssembled (sim : SimulationOutcome) (before after : Transaction) : Type 0 where
  pub resource_fee : ℕ
  pub simulated : sim.min_resource_fee ≡ pos resource_fee
  pub exact_fee : after.fee ≡ resource_fee + 100
  pub fee_fits : after.fee ≤ max_u32
  pub footprint : after.ext ≡ TransactionExt.v1 sim.soroban_data
  pub source_kept : after.source_account ≡ before.source_account
  pub seq_num_kept : after.seq_num ≡ before.seq_num
  pub cond_kept : after.cond ≡ before.cond
  pub memo_kept : after.memo ≡ before.memo

module _ (sdk : Sdk) (chain : Chain) where
  try_unsigned_lem : (z : ℤ) (n : ℕ) → try_unsigned_of_signed max_u32 z ≡ some n → z ≡ pos n
  try_unsigned_lem (pos m) n e = ground arith
  try_unsigned_lem (negsuc m) n e = cc

  checked_add_lem : (a b n : ℕ) → checked_add sdk chain a b ≡ some n → (n ≡ a + b) × (n ≤ max_u32)
  checked_add_lem a b n e = ground arith

  -- The envelope before with the simulation's results.
  pub data IsAssembledFrom (sim : SimulationOutcome) (before : V1Envelope) : Envelope → Type 0 where
    assembled :
        {after : V1Envelope}
        → IsAssembled sim before.tx after.tx
        → with_auth sdk chain sim.auth_b64 before.tx.operations ≡ ok after.tx.operations
        → after.signatures ≡ before.signatures
        → IsAssembledFrom sim before (Envelope.tx after)

  pub assemble_transaction-IsAssembledFrom :
      (before : V1Envelope) (sim : SimulationOutcome)
      → Ensures
          (IsAssembledFrom sim before)
          (assemble_transaction sdk chain (Envelope.tx before) sim)
  unfolding assemble_transaction
  assemble_transaction-IsAssembledFrom before sim =
      Ensures-bind (Ensures-ok_or _ (try_unsigned_of_signed max_u32 sim.min_resource_fee))
        λ n simulated.
          Ensures-bind (Ensures-ok_or _ (checked_add sdk chain n inclusion_fee_stroops))
            λ fee added.
              Ensures-bind (Ensures-result (with_auth sdk chain sim.auth_b64 before.tx.operations))
                λ ops authorized.
                  let (exact, fits) = checked_add_lem n inclusion_fee_stroops fee added in
                  holds (
                    assembled
                      (record {
                        resource_fee = n;
                        simulated = try_unsigned_lem sim.min_resource_fee n simulated;
                        exact_fee = exact;
                        fee_fits = fits;
                        footprint = refl;
                        source_kept = refl;
                        seq_num_kept = refl;
                        cond_kept = refl;
                        memo_kept = refl;
                      })
                      authorized refl)

  IsAssembledFrom-inv :
      {before after : V1Envelope} {sim : SimulationOutcome}
      → IsAssembledFrom sim before (Envelope.tx after)
      → IsAssembled sim before.tx after.tx
        × IsAuthorized chain sim.auth_b64 before.tx.operations after.tx.operations
        × (after.signatures ≡ before.signatures)
  IsAssembledFrom-inv {before} {sim = sim} (assembled says authorized signed) = (
    says,
    Ensures-ok (with_auth-IsAuthorized chain sdk sim.auth_b64 before.tx.operations) authorized,
    signed,
  )

  -- An assembled transaction is the unsigned one with the simulation's results: its fee is the
  -- simulated resource fee plus the inclusion fee of 100 stroops, which fits 32 bits, its extension is
  -- the simulated footprint, the first operation, if it calls the host, holds the entries that the
  -- simulated authorization decodes to, in its order, in place of its own if there are any, the others
  -- are kept, and the account, the
  -- sequence number, the preconditions, the memo and the signatures are what they were.
  pub assemble_transaction-IsAssembled :
      (before after : V1Envelope) (sim : SimulationOutcome)
      → assemble_transaction sdk chain (Envelope.tx before) sim ≡ ok (Envelope.tx after)
      → IsAssembled sim before.tx after.tx
        × IsAuthorized chain sim.auth_b64 before.tx.operations after.tx.operations
        × (after.signatures ≡ before.signatures)
  assemble_transaction-IsAssembled before after sim h =
      IsAssembledFrom-inv (Ensures-ok (assemble_transaction-IsAssembledFrom before sim) h)
