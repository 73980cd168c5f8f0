-- ===== src/Xdr.antt =====
-- The types of the crate stellar_xdr that the source takes apart or builds, with the variants that it
-- names. The crate is not part of the repository. A payload that the source never looks into is the
-- byte string of its encoding.
pub mod Spec
pub mod Tx
use orcusapi.Base.{ℕ, Bool, List, [], ◌∷◌}
use orcusapi.Base.Int.{ℤ}

abbrev pub Bytes : Type 0
Bytes = List ℕ

abbrev pub Opaque : Type 0
Opaque = Bytes

-- `ScAddress`; `other` is what is neither an account nor a contract
pub data Address : Type 0 where
  account contract : Bytes → Address
  other : Opaque → Address

-- `UInt128Parts`
pub record UnsignedParts : Type 0 where
  pub hi : ℕ
  pub lo : ℕ

-- `Int128Parts`
pub record SignedParts : Type 0 where
  pub hi : ℤ
  pub lo : ℕ

-- `vec` and `map` hold `Some` list, `no_vec` and `no_map` stand for `None`.
mutual
  pub data ScVal : Type 0 where
    bool : Bool → ScVal
    void : ScVal
    error : Opaque → ScVal
    u32 u64 timepoint duration : ℕ → ScVal
    i32 i64 : ℤ → ScVal
    u128 : UnsignedParts → ScVal
    i128 : SignedParts → ScVal
    u256 i256 : Opaque → ScVal
    bytes string symbol : Bytes → ScVal
    vec : ScVec → ScVal
    no_vec : ScVal
    map : ScMap → ScVal
    no_map : ScVal
    address : Address → ScVal
    contract_instance : Opaque → ScVal
    ledger_key_contract_instance : ScVal
    ledger_key_nonce : ℤ → ScVal

  pub data ScVec : Type 0 where
    nil : ScVec
    cons : ScVal → ScVec → ScVec

  pub data ScMap : Type 0 where
    empty : ScMap
    entry : ScVal → ScVal → ScMap → ScMap

abbrev pub to_vec : List ScVal → ScVec
to_vec [] = nil
to_vec (v ∷ vs) = cons v (to_vec vs)

abbrev pub elements : ScVec → List ScVal
elements nil = []
elements (cons v vs) = v ∷ elements vs

-- `ScMapEntry` is a pair of key and value.
abbrev pub to_map : List (ScVal × ScVal) → ScMap
to_map [] = empty
to_map ((k, v) ∷ es) = entry k v (to_map es)

abbrev pub entries : ScMap → List (ScVal × ScVal)
entries empty = []
entries (entry k v es) = (k, v) ∷ entries es

-- `ContractDataDurability`
pub data Durability : Type 0 where
  temporary persistent : Durability

-- `LedgerKey`; `other` is a kind that the source does not name
pub data LedgerKey : Type 0 where
  account : Bytes → LedgerKey
  contract_data : Address → ScVal → Durability → LedgerKey
  contract_code : Bytes → LedgerKey
  other : Opaque → LedgerKey
