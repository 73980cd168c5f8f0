-- ===== src/Tests/Network.antt =====
-- A chain with one contract and an RPC server that answers for it.
use orcusapi.Base.{
  ℕ, ◌≡◌, refl, true, false, Bool, none, some, List, [], ◌∷◌, ◌++◌, String, str_eq, Result, ok,
  if◌then◌else◌, ◌==◌, ◌&&◌, arith,
}
use orcusapi.Base.Int.{pos}
use orcusapi.Json.{Json, null, string, object, array, field, end, cons, nil, obj, arr}
use orcusapi.Xdr.{Bytes, ScVal, LedgerKey}
use orcusapi.Xdr.Spec.{Function, SpecEntry, function_v0, udt_struct_v0, UdtStruct, TypeDef}
use orcusapi.Xdr.Tx.{SorobanData, LedgerEntry, V1Envelope, Preconditions, Memo, TransactionExt}
use orcusapi.Chain.{Chain, custom_section, other_payload, RpcResponse}
use orcusapi.Spec.{ContractSpec}
use orcusapi.World.{Network, Request, response, World, Settings}
use orcusapi.Handlers.Headers.{CommonHeaders}
use orcusapi.Txbuild.{SimulationOutcome}

abbrev pub get_function : Function
get_function = record { doc = []; name = 4 ∷ []; inputs = []; outputs = TypeDef.u32 ∷ [] }

abbrev pub point : UdtStruct
point = record {
  doc = [];
  name = 3 ∷ [];
  fields =
      record { doc = []; name = 120 ∷ []; type_ = TypeDef.u32 }
      ∷ record { doc = []; name = 121 ∷ []; type_ = TypeDef.vec TypeDef.u32 }
      ∷ [];
}

abbrev pub contract_entries : List SpecEntry
contract_entries = function_v0 get_function ∷ udt_struct_v0 point ∷ []

abbrev pub contract_spec : ContractSpec
contract_spec = record {
  functions = get_function ∷ [];
  structs = ("Point", point) ∷ [];
  unions = [];
  enums = [];
  error_enums = [];
}

abbrev pub footprint : SorobanData
footprint = record { read_only = []; read_write = []; rest = [] }

abbrev response_of : Json → Result String RpcResponse
response_of v = ok (record { result = some v; error = none })

-- the response by what was asked for
abbrev answer : String → Result String RpcResponse
answer body =
    if str_eq body "code_key"
    then response_of (obj (("entries", arr (obj (("xdr", string "code") ∷ []) ∷ [])) ∷ []))
    else if str_eq body "account_key"
    then response_of (obj (("entries", arr (obj (("xdr", string "account") ∷ []) ∷ [])) ∷ []))
    else if str_eq body "simulateTransaction"
    then response_of (
        obj (
          ("transactionData", string "data")
          ∷ ("minResourceFee", string "900")
          ∷ ("results", arr (obj (("xdr", string "seven") ∷ []) ∷ []))
          ∷ []))
    else if str_eq body "sendTransaction"
    then response_of (obj (("status", string "PENDING") ∷ ("hash", string "h") ∷ []))
    else response_of (obj (("status", string "SUCCESS") ∷ []))

abbrev ledger_key_text : LedgerKey → String
ledger_key_text (LedgerKey.account k) = "account_key"
ledger_key_text (LedgerKey.contract_data o k d) = "data_key"
ledger_key_text (LedgerKey.contract_code h) = "code_key"
ledger_key_text (LedgerKey.other x) = "other_key"

abbrev same_bytes : Bytes → Bytes → Bool
same_bytes [] [] = true
same_bytes (a ∷ xs) (b ∷ ys) = (a == b) && same_bytes xs ys
same_bytes _ _ = false

abbrev pub chain : Chain
chain = record {
  encode_envelope = λ e. some "envelope";
  encode_ledger_key = λ k. ok (ledger_key_text k);
  decode_soroban_data = λ s. some footprint;
  decode_scval = λ s. some (ScVal.u32 7);
  decode_auth = λ s. none;
  decode_ledger_entry = λ s.
      if str_eq s "account"
      then some (LedgerEntry.account (pos 5))
      else some (LedgerEntry.contract_code (1 ∷ []));
  decode_meta = λ s. none;
  encode_payload = λ id tx. some (id ++ tx.fee ∷ []);
  private_key = λ s. if str_eq s "S" then some (7 ∷ []) else none;
  sha256 = λ b. b;
  sign = λ seed m. m;
  verifying_key = λ seed. seed;
  as_bytes = λ s. 1 ∷ [];
  show_json = λ v. "json";
  parse_json = λ s. none;
  parse_response = answer;
  debug_details = λ d. "";
  debug_ledger_entry = λ e. "";
  parse_all = λ w. ok other_payload ∷ ok (custom_section "contractspecv0" w) ∷ [];
  decode_entries = λ s. ok contract_entries;
  to_lowercase = λ s. s;
}

-- A signature is the message itself in `chain`; the keys are the seeds.
abbrev pub verify : Bytes → Bytes → Bytes → Bool
verify key message signature = same_bytes message signature

==-refl : (n : ℕ) → (n == n) ≡ true
==-refl n = ground arith

same_bytes_refl : (b : Bytes) → same_bytes b b ≡ true
same_bytes_refl [] = refl
same_bytes_refl (n ∷ b) = rw (==-refl n) (same_bytes_refl b)

pub sign-verifies :
    (seed message : Bytes)
    → verify (chain.verifying_key seed) message (chain.sign seed message) ≡ true
sign-verifies seed message = same_bytes_refl message

-- the key of a ledger entry that is asked for, or the method
abbrev asked : Request → Json → String
asked r (object (field k (array (cons (string s) nil)) end)) = s
asked r _ = r.method

abbrev pub net : Network
net sent r = response true "200" (asked r r.params)

abbrev pub hash : String
hash = "00000000000000000000000000000000"

abbrev pub settings : Settings
settings = record { network_passphrase = "net"; contract_wasm_hash = hash; contract_id = "C00" }

abbrev pub fresh : World
fresh = record { next_id = 1; sent = []; spec_cache = []; function_methods = ("get", true) ∷ [] }

abbrev pub warm : World
warm = record fresh { spec_cache = (hash, contract_spec) ∷ [] }

abbrev pub unsigned_headers : CommonHeaders
unsigned_headers = record { source_account = "G00"; sign = false; secret_key = none }

abbrev pub signed_headers : CommonHeaders
signed_headers = record { source_account = "G00"; sign = true; secret_key = some "S" }

abbrev pub unsigned : V1Envelope
unsigned = record {
  tx = record {
    source_account = 0 ∷ [];
    fee = 100;
    seq_num = pos 6;
    cond = Preconditions.none_set;
    memo = Memo.no_memo;
    operations = [];
    ext = TransactionExt.v0;
  };
  signatures = [];
}

abbrev pub simulated : SimulationOutcome
simulated = record {
  soroban_data = footprint;
  min_resource_fee = pos 900;
  result_json = none;
  auth_b64 = [];
  raw = null;
}
