-- ===== src/Txbuild/Invocation.antt =====
-- What the transaction of a call says.
use orcusapi.Base.{
  sym, ap, ◌∙◌, Ensures-ok, Ensures-weaken, no_pair, ℕ, ◌+◌, ◌≡◌, refl, some, none, List, [], ◌∷◌,
  String, length, Ensures, holds, Ensures-bind, Ensures-ok_or, Ensures-ensure,
}
use orcusapi.Base.Int.{ℤ, pos}
use orcusapi.Std.Words.{max_u32}
use orcusapi.Xdr.{Bytes, Opaque, Address, ScVal}
use orcusapi.Xdr.Tx.{
  Transaction, TransactionExt, V1Envelope, Envelope, Operation, OperationBody, HostFunction,
  Preconditions, Memo,
}
use orcusapi.Sdk.{Sdk}
use orcusapi.Chain.{Chain}
use orcusapi.Scval.Typing.{IsStringOf}
use orcusapi.Txbuild.{
  build_unsigned_invoke_tx, SimulationOutcome, set_auth, with_auth, assemble_transaction,
}
use orcusapi.Txbuild.Authorized.{AreDecoded, traverse-AreDecoded}
use orcusapi.Txbuild.Assemble.{IsAssembledFrom, assembled, assemble_transaction-IsAssembledFrom}

-- The only operation calls the function of the contract with the arguments and these entries.
pub record IsCallOf (sdk : Sdk) (contract_id name : String) (args : List ScVal) (auth : List Opaque)
    (ops : List Operation) : Type 0 where
  pub contract : Bytes
  pub symbol : Bytes
  pub of_contract : sdk.contract contract_id ≡ some contract
  pub of_name : IsStringOf sdk 32 name symbol
  pub alone :
      ops
      ≡ record {
        source_account = none;
        body =
            OperationBody.invoke_host_function
              (HostFunction.invoke_contract (record {
                contract_address = Address.contract contract;
                function_name = symbol;
                args = args;
              }))
              auth;
      }
        ∷ []

-- A transaction from the account at its next sequence number that calls the function.
pub record IsInvocation (sdk : Sdk) (contract_id name account : String) (seq : ℤ)
    (args : List ScVal) (auth : List Opaque) (tx : Transaction) : Type 0 where
  pub source : sdk.public_key account ≡ some tx.source_account
  pub next : tx.seq_num ≡ seq
  pub unconditional : tx.cond ≡ Preconditions.none_set
  pub no_memo : tx.memo ≡ Memo.no_memo
  pub operation : IsCallOf sdk contract_id name args auth tx.operations

-- An envelope of the current version that nobody has signed yet.
pub data IsUnsigned (P : Transaction → Type 0) : Envelope → Type 0 where
  unsigned : {e : V1Envelope} → e.signatures ≡ [] → P e.tx → IsUnsigned P (Envelope.tx e)

-- What simulation adds: the fee and the footprint.
pub record IsFunded (sim : SimulationOutcome) (P : Transaction → Type 0) (tx : Transaction)
    : Type 0 where
  pub resource_fee : ℕ
  pub simulated : sim.min_resource_fee ≡ pos resource_fee
  pub fee : tx.fee ≡ resource_fee + 100
  pub footprint : tx.ext ≡ TransactionExt.v1 sim.soroban_data
  pub says : P tx

module _ (sdk : Sdk) (contract_id name account : String) (seq : ℤ) (args : List ScVal) where
  pub build-IsInvocation :
      Ensures
        (IsUnsigned (IsInvocation sdk contract_id name account seq args []))
        (build_unsigned_invoke_tx sdk account seq contract_id name args)
  unfolding build_unsigned_invoke_tx
  build-IsInvocation = Ensures-bind (Ensures-ok_or _ (sdk.public_key account)) λ key of_account.
      Ensures-bind (Ensures-ok_or _ (sdk.contract contract_id)) λ contract of_contract.
        Ensures-bind (Ensures-ok_or _ (sdk.to_string_m 32 name)) λ symbol of_name.
          Ensures-bind (Ensures-ensure (sdk.fits max_u32 (length args)) _) λ _ _.
            Ensures-bind (Ensures-ensure (sdk.fits 100 1) _) λ _ _. holds (
              unsigned refl (record {
                source = of_account;
                next = refl;
                unconditional = refl;
                no_memo = refl;
                operation = record {
                  contract = contract;
                  symbol = symbol;
                  of_contract = of_contract;
                  of_name = of_name;
                  alone = refl;
                };
              }))

  module _ (chain : Chain) where
    set_auth-IsCallOf :
        (old auths : List Opaque) (ops : List Operation)
        → IsCallOf sdk contract_id name args old ops
        → Ensures (IsCallOf sdk contract_id name args auths) (set_auth sdk chain auths ops)
    unfolding set_auth
    set_auth-IsCallOf old auths ops h =
        rw (h.alone, set_auth)
          (Ensures-bind (Ensures-ensure (sdk.fits max_u32 (length auths)) _) λ _ _. holds (record {
            contract = h.contract;
            symbol = h.symbol;
            of_contract = h.of_contract;
            of_name = h.of_name;
            alone = refl;
          }))

    with_auth-IsCallOf :
        (b64s : List String) (ops : List Operation)
        → IsCallOf sdk contract_id name args [] ops
        → Ensures
            (λ r.
              (auth : List Opaque) × AreDecoded chain b64s auth
              × IsCallOf sdk contract_id name args auth r)
            (with_auth sdk chain b64s ops)
    unfolding with_auth
    with_auth-IsCallOf [] ops h = holds ([], no_pair, h)
    with_auth-IsCallOf (b ∷ bs) ops h =
        Ensures-bind (traverse-AreDecoded chain _ (b ∷ bs)) λ auths decoded.
          Ensures-weaken (set_auth-IsCallOf [] auths ops h) λ r says. (auths, decoded, says)

    -- The invocation, with the entries that these texts encode.
    pub record IsAuthorizedCall (b64s : List String) (tx : Transaction) : Type 0 where
      pub auth : List Opaque
      pub decoded : AreDecoded chain b64s auth
      pub invokes : IsInvocation sdk contract_id name account seq args auth tx

    IsAssembledFrom-IsFunded :
        {sim : SimulationOutcome} {before : V1Envelope} (r : Envelope)
        → before.signatures ≡ []
        → IsInvocation sdk contract_id name account seq args [] before.tx
        → IsAssembledFrom sdk chain sim before r
        → IsUnsigned (IsFunded sim (IsAuthorizedCall sim.auth_b64)) r
    IsAssembledFrom-IsFunded {before = before} _ none_yet says (assembled h authorized signed) =
        let (auth, decoded, calls) =
          Ensures-ok (with_auth-IsCallOf _ before.tx.operations says.operation) authorized in
        unsigned (signed ∙ none_yet) (record {
          resource_fee = h.resource_fee;
          simulated = h.simulated;
          fee = h.exact_fee;
          footprint = h.footprint;
          says = record {
            auth = auth;
            decoded = decoded;
            invokes = record {
              source = says.source ∙ ap some (sym h.source_kept);
              next = h.seq_num_kept ∙ says.next;
              unconditional = h.cond_kept ∙ says.unconditional;
              no_memo = h.memo_kept ∙ says.no_memo;
              operation = calls;
            };
          };
        })

    pub assemble-IsFunded :
        (e : Envelope) (sim : SimulationOutcome)
        → IsUnsigned (IsInvocation sdk contract_id name account seq args []) e
        → Ensures
            (IsUnsigned (IsFunded sim (IsAuthorizedCall sim.auth_b64)))
            (assemble_transaction sdk chain e sim)
    assemble-IsFunded _ sim (unsigned {e} none_yet says) =
        Ensures-weaken (assemble_transaction-IsAssembledFrom sdk chain e sim)
          λ r. IsAssembledFrom-IsFunded r none_yet says
