-- ===== src/Chain.antt =====
-- The code outside the repository that the transaction and network parts call: base64 XDR codecs,
-- strkeys of secret seeds, SHA-256, ed25519 and JSON text. A codec that fails gives `none` where the
-- source replaces the message by its own.
use orcusapi.Base.{Option, List, String, Result}
use orcusapi.Base.Int.{ℤ}
use orcusapi.Json.{Json}
use orcusapi.Xdr.{Bytes, Opaque, ScVal, LedgerKey}
use orcusapi.Xdr.Spec.{SpecEntry}
use orcusapi.Xdr.Tx.{Transaction, Envelope, SorobanData, LedgerEntry, TransactionMeta}

-- `JsonRpcError` and `JsonRpcResponse` of src/rpc.rs
pub record RpcError : Type 0 where
  pub code : ℤ
  pub message : String
  pub details : Option Json

pub record RpcResponse : Type 0 where
  pub result : Option Json
  pub error : Option RpcError

-- `wasmparser::Payload`: a custom section with its name and data, or anything else
pub data Payload : Type 0 where
  custom_section : (name : String) (contents : Bytes) → Payload
  other_payload : Payload

pub record Chain : Type 0 where
  -- `to_xdr_base64` and `from_xdr_base64`
  pub encode_envelope : Envelope → Option String
  pub encode_ledger_key : LedgerKey → Result String String
  pub decode_soroban_data : String → Option SorobanData
  pub decode_scval : String → Option ScVal
  pub decode_auth : String → Option Opaque
  pub decode_ledger_entry : String → Option LedgerEntry
  pub decode_meta : String → Option TransactionMeta
  -- `TransactionSignaturePayload::to_xdr` of a network id and a transaction
  pub encode_payload : Bytes → Transaction → Option Bytes
  -- `stellar_strkey::ed25519::PrivateKey::from_string`
  pub private_key : String → Option Bytes
  pub sha256 : Bytes → Bytes
  -- `SigningKey::sign` and `verifying_key().to_bytes()`, of a seed
  pub sign : Bytes → Bytes → Bytes
  pub verifying_key : Bytes → Bytes
  -- `str::as_bytes`
  pub as_bytes : String → Bytes
  -- `{self}` on a JSON value, `serde_json::from_str` on a value and on an RPC response
  pub show_json : Json → String
  pub parse_json : String → Option Json
  pub parse_response : String → Result String RpcResponse
  pub debug_details : Option Json → String
  pub debug_ledger_entry : LedgerEntry → String
  -- `wasmparser::Parser::parse_all`, up to its end, and `ScSpecEntry::read_xdr_iter` on a section
  pub parse_all : Bytes → List (Result String Payload)
  pub decode_entries : Bytes → Result String (List SpecEntry)
  -- `str::to_lowercase`, whose Unicode tables are not modelled
  pub to_lowercase : String → String
