-- ===== src/Xdr/Tx.antt =====
-- The transaction types of stellar_xdr that src/txbuild.rs builds and takes apart.
use orcusapi.Base.{ℕ, Option, List}
use orcusapi.Base.Int.{ℤ}
use orcusapi.Xdr.{Bytes, Opaque, Address, ScVal, LedgerKey}

-- `SorobanTransactionData`: the footprint, and the rest of it as bytes
pub record SorobanData : Type 0 where
  pub read_only : List LedgerKey
  pub read_write : List LedgerKey
  pub rest : Opaque

pub record InvokeContractArgs : Type 0 where
  pub contract_address : Address
  pub function_name : Bytes
  pub args : List ScVal

pub data HostFunction : Type 0 where
  invoke_contract : InvokeContractArgs → HostFunction
  other : Opaque → HostFunction

-- `OperationBody`; `invoke_host_function` holds the function and the authorization entries
pub data OperationBody : Type 0 where
  invoke_host_function : HostFunction → List Opaque → OperationBody
  other : Opaque → OperationBody

pub record Operation : Type 0 where
  pub source_account : Option Bytes
  pub body : OperationBody

pub data TransactionExt : Type 0 where
  v0 : TransactionExt
  v1 : SorobanData → TransactionExt

pub data Preconditions : Type 0 where
  none_set : Preconditions
  other : Opaque → Preconditions

pub data Memo : Type 0 where
  no_memo : Memo
  other : Opaque → Memo

-- `source_account` is the ed25519 key of a `MuxedAccount`.
pub record Transaction : Type 0 where
  pub source_account : Bytes
  pub fee : ℕ
  pub seq_num : ℤ
  pub cond : Preconditions
  pub memo : Memo
  pub operations : List Operation
  pub ext : TransactionExt

pub record DecoratedSignature : Type 0 where
  pub hint : Bytes
  pub signature : Bytes

pub record V1Envelope : Type 0 where
  pub tx : Transaction
  pub signatures : List DecoratedSignature

pub data Envelope : Type 0 where
  tx : V1Envelope → Envelope
  other : Opaque → Envelope

-- `LedgerEntryData`
pub data LedgerEntry : Type 0 where
  account : (seq_num : ℤ) → LedgerEntry
  contract_code : (code : Bytes) → LedgerEntry
  other : Opaque → LedgerEntry

-- `TransactionMeta`, with what its `soroban_meta` says of the return value
pub data TransactionMeta : Type 0 where
  v3 : Option ScVal → TransactionMeta
  v4 : Option (Option ScVal) → TransactionMeta
  other : Opaque → TransactionMeta
