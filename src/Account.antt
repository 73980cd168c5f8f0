-- ===== src/Account.antt =====
-- `fetch_next_sequence_number` of src/txbuild.rs.
pub mod Next
use orcusapi.Base.{zero, suc, ◌==◌, [], ◌∷◌, String, ok, err, ok_or, first, if◌then◌else◌}
use orcusapi.Base.Int.{ℤ, pos, negsuc}
use orcusapi.Base.Text.{format}
use orcusapi.Std.Words.{max_i64}
use orcusapi.Xdr.{LedgerKey}
use orcusapi.Xdr.Tx.{LedgerEntry}
use orcusapi.Sdk.{Sdk}
use orcusapi.Chain.{Chain}
use orcusapi.World.{Network, Action, ◌>>=◌, lift}
use orcusapi.Rpc.{get_ledger_entries}
use orcusapi.Scval.Scalars.{Fallible}
use orcusapi.Txbuild.{array_field, as_str_field}

-- `n + 1` on `i64`, which wraps around in a release build
unfoldable pub next_i64 : ℤ → ℤ
next_i64 (pos n) = if n == max_i64 then negsuc max_i64 else pos (suc n)
next_i64 (negsuc zero) = pos 0
next_i64 (negsuc (suc n)) = negsuc n

module _ (chain : Chain) where
  unfoldable pub sequence_of : LedgerEntry → Fallible ℤ
  unfolding next_i64
  sequence_of (LedgerEntry.account n) = ok (next_i64 n)
  sequence_of (LedgerEntry.contract_code code) = err (
      format (
        "expected an Account ledger entry, got "
        ∷ chain.debug_ledger_entry (LedgerEntry.contract_code code)
        ∷ []))
  sequence_of (LedgerEntry.other x) = err (
      format (
        "expected an Account ledger entry, got "
        ∷ chain.debug_ledger_entry (LedgerEntry.other x)
        ∷ []))

  unfoldable pub fetch_next_sequence_number : Sdk → Network → String → Action String ℤ
  unfolding sequence_of
  fetch_next_sequence_number sdk net source_account = do
    pk ← lift (
        ok_or
          (format ("invalid source_account `" ∷ source_account ∷ "`: expected a G... strkey" ∷ []))
          (sdk.public_key source_account))
    key ← lift (chain.encode_ledger_key (LedgerKey.account pk))
    resp ← get_ledger_entries chain net (key ∷ [])
    entry ← lift (
        ok_or
          (format (
            "source account `" ∷ source_account ∷ "` was not found on-chain (has it been funded?)"
            ∷ []))
          (first (array_field "entries" resp)))
    xdr ← lift (as_str_field chain "xdr" entry)
    entry_data ← lift (ok_or "failed decoding Account ledger entry" (chain.decode_ledger_entry xdr))
    lift (sequence_of entry_data)
