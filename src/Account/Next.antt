-- ===== src/Account/Next.antt =====
-- The sequence number that a transaction takes, told from what the network has answered.
use orcusapi.Base.{
  ℕ, suc, ◌≡◌, ◌≢◌, ◌==◌, refl, Bool-cases, some, List, [], ◌∷◌, String, ok, first, inl, inr, arith,
  Ensures, holds, failed, Ensures-ok_or, Ensures-result,
}
use orcusapi.Base.Int.{ℤ, pos, negsuc}
use orcusapi.Std.Words.{max_i64}
use orcusapi.Json.{Json, string, obj, arr, get}
use orcusapi.Xdr.{Bytes, LedgerKey}
use orcusapi.Xdr.Tx.{LedgerEntry}
use orcusapi.Sdk.{Sdk}
use orcusapi.Chain.{Chain}
use orcusapi.World.{Request, Network, World}
use orcusapi.World.Returns.{Returns, Returns-bind, Returns-bind_lift, Returns-lift_same}
use orcusapi.World.Steps.{Steps}
use orcusapi.World.Answers.{HasAnswer, Steps-HasAnswer, call-HasAnswer}
use orcusapi.Rpc.{get_ledger_entries}
use orcusapi.Txbuild.{array_field}
use orcusapi.Txbuild.Simulation.{as_str_field-string}
use orcusapi.Account.{next_i64, sequence_of, fetch_next_sequence_number}

-- one more, on 64 bits with a sign
pub data IsSuccessor : ℤ → ℤ → Type 0 where
  above : {n : ℕ} → n ≢ max_i64 → IsSuccessor (pos n) (pos (suc n))
  wrapped : IsSuccessor (pos max_i64) (negsuc max_i64)
  to_zero : IsSuccessor (negsuc 0) (pos 0)
  below : {n : ℕ} → IsSuccessor (negsuc (suc n)) (negsuc n)

next_i64-IsSuccessor : (z : ℤ) → IsSuccessor z (next_i64 z)
unfolding next_i64
next_i64-IsSuccessor (pos n) = elim (Bool-cases (n == max_i64)) [
  | inl last ↦ let same : n ≡ max_i64 = ground arith in rw same wrapped
  | inr before ↦ rw (before, next_i64) (above (λ same. ground arith))
]
next_i64-IsSuccessor (negsuc ℕ.zero) = to_zero
next_i64-IsSuccessor (negsuc (suc n)) = below

module _ (sdk : Sdk) (chain : Chain) (net : Network) where
  -- Among the requests is one for the ledger entry of the account, whose answer has a sequence number
  -- that this one follows.
  pub record IsNextOf (account : String) (seq : ℤ) (sent : List Request) : Type 0 where
    pub account_key : Bytes
    pub ledger_key : String
    pub resp : Json
    pub entry : Json
    pub xdr : String
    pub current : ℤ
    pub of_account : sdk.public_key account ≡ some account_key
    pub encoded : chain.encode_ledger_key (LedgerKey.account account_key) ≡ ok ledger_key
    pub answered :
        HasAnswer chain net "getLedgerEntries"
          (obj (("keys", arr (string ledger_key ∷ [])) ∷ []))
          resp
          sent
    pub first_entry : first (array_field "entries" resp) ≡ some entry
    pub given : get "xdr" entry ≡ some (string xdr)
    pub read : chain.decode_ledger_entry xdr ≡ some (LedgerEntry.account current)
    pub follows : IsSuccessor current seq

  pub Steps-IsNextOf :
      {account : String} {seq : ℤ} {v w : World}
      → Steps sdk chain net v w
      → IsNextOf account seq v.sent
      → IsNextOf account seq w.sent
  Steps-IsNextOf steps h = record {
    account_key = h.account_key;
    ledger_key = h.ledger_key;
    resp = h.resp;
    entry = h.entry;
    xdr = h.xdr;
    current = h.current;
    of_account = h.of_account;
    encoded = h.encoded;
    answered = Steps-HasAnswer sdk chain net steps h.answered;
    first_entry = h.first_entry;
    given = h.given;
    read = h.read;
    follows = h.follows;
  }

  sequence_of-IsSuccessor :
      (e : LedgerEntry)
      → Ensures
          (λ seq. (n : ℤ) × (e ≡ LedgerEntry.account n) × IsSuccessor n seq)
          (sequence_of chain e)
  unfolding sequence_of
  sequence_of-IsSuccessor (LedgerEntry.account n) = holds (n, refl, next_i64-IsSuccessor n)
  sequence_of-IsSuccessor (LedgerEntry.contract_code code) = failed
  sequence_of-IsSuccessor (LedgerEntry.other x) = failed

  asked :
      (key : String) (w : World)
      → Returns
          (λ resp v.
            HasAnswer chain net "getLedgerEntries"
              (obj (("keys", arr (string key ∷ [])) ∷ []))
              resp
              v.sent)
          (get_ledger_entries chain net (key ∷ []) w)
  unfolding get_ledger_entries
  asked key w = call-HasAnswer chain net _ _ w

  pub fetch-IsNextOf :
      (account : String) (w : World)
      → Returns
          (λ seq v. IsNextOf account seq v.sent)
          (fetch_next_sequence_number chain sdk net account w)
  unfolding fetch_next_sequence_number
  fetch-IsNextOf account w =
      Returns-bind_lift _ w (Ensures-ok_or _ (sdk.public_key account)) λ pk of_account.
        Returns-bind_lift _ w (Ensures-result (chain.encode_ledger_key (LedgerKey.account pk)))
          λ key encoded. Returns-bind _ _ (asked key w) λ resp v answered.
            Returns-bind_lift _ v (Ensures-ok_or _ (first (array_field "entries" resp)))
              λ entry first_entry.
                Returns-bind_lift _ v (as_str_field-string chain "xdr" entry) λ xdr given.
                  Returns-bind_lift _ v (Ensures-ok_or _ (chain.decode_ledger_entry xdr)) λ e read.
                    Returns-lift_same v (sequence_of-IsSuccessor e) λ seq (n, same, follows).
                      record {
                        account_key = pk;
                        ledger_key = key;
                        resp = resp;
                        entry = entry;
                        xdr = xdr;
                        current = n;
                        of_account = of_account;
                        encoded = encoded;
                        answered = answered;
                        first_entry = first_entry;
                        given = given;
                        read = rw same at read;
                        follows = follows;
                      }
