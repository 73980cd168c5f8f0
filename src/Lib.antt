-- ===== src/Lib.antt =====
-- soroban-api-proxy: an HTTP server that shows one Soroban contract as a JSON API.
--
-- A request names a function of the contract. The handler looks up the contract's interface, turns the
-- JSON arguments into contract values by their types, builds a transaction, has the RPC server simulate
-- it, and returns it unsigned or signs, submits and polls for it.
--
-- The files and the code that they model:
--   Scval      src/scval.rs. Parts: the halves of 128-bit integers. Scalars, Enums, Udt, Convert:
--              `json_to_scval` and its helpers. Render: `scval_to_json` and `ledger_key_to_json`.
--              Typing says which values a type of the interface has. Fuel and RoundTrip hold proofs.
--   Spec       src/spec.rs: `ContractSpec`, and its JSON in Spec/Render.
--   Txbuild    src/txbuild.rs, but for the sequence number, which Account has. Txbuild/Assemble,
--              Sign, Invocation, Authorized and Simulation, and Account/Next, hold proofs. `field` and `as_str_field` are those of src/rpc.rs.
--   World      `AppState` of src/state.rs, the requests sent so far, and the monad of the handlers.
--              World/Steps has the atomic changes of the state that handlers make, World/Answers what
--              the network has answered to the requests sent.
--   Rpc        src/rpc.rs. Rpc/Traffic counts the requests that an action sends.
--   Source     src/contract_source.rs and the reading of the WASM section of src/spec.rs.
--              Source/Shared compares the cache with the chain.
--   Errors     src/error.rs.
--   Handlers   src/handlers.rs: Headers, and in Invoke the calls of functions. Invoke/Prepared,
--              Answered, Replies and Submitted say what a call that succeeds has done; Guards, Quiet, Submits
--              and Polling what it refuses, sends and waits for.
--   Probe      src/probe.rs.
--   Config     src/config.rs.
--   Startup    src/main.rs up to the router, and `AppState::new`.
--   Server     the routes of src/main.rs and the responses of their handlers; the states that the
--              running server can be in, and what clients see of them.
--   Json, Xdr  the values of serde_json and stellar_xdr that the code takes apart and builds.
--   Std, Base  what the code uses of Rust's standard library: integer parsing and printing, casts and
--              shifts, stable sorting, hash maps; and the shared helpers.
--   Tests      instances of the parameters, and the theorems at concrete inputs.
--
-- How the code is modelled. A `Result` with a message is `Fallible`; an async function is an action on
-- `World`, which keeps what it changed before it failed. `json_to_scval` recurses through the types of
-- the interface, which may refer to each other; its model runs on fuel. `enough` is the fuel it starts
-- with: each step either goes into the value, which pays for all types that can be met at the next
-- level, or stays at the value and goes into the type.
--
-- Parameters. The code outside the repository is the records `Sdk` (strings and vectors with bounds,
-- the order of values, hex, strkeys, `Debug`) and `Chain` (XDR codecs, SHA-256, ed25519, JSON text,
-- WASM payloads), and the network is a function of the requests. `IsLawful` says what the theorems
-- need of `Sdk`, and `IsImmutable` that the network serves one code under a hash. Texts are kept by
-- stellar_xdr's strings only if they are printable ASCII without backslashes, as it reads escape
-- sequences. `IsJson` says of a JSON value that its numbers have the widths of serde_json's views, and
-- that what serde_json reads under a key of the escape hatch is among the given values. Objects that the
-- code fills in a loop have their keys in order, as serde_json's maps have; those that it writes out
-- at once have them as written, and are looked up by key or sent away.
--
-- Requests that run at the same time. A handler reads and writes the shared state between two awaits in
-- one go: it takes an id and sends a request, or puts an interface into the cache under its lock.
-- These are the two kinds of `Step`. A state is reachable if any sequence of steps leads to it from the
-- state after the start, in whatever order handlers take them.
--
-- Not modelled: the listener of src/main.rs and what axum answers on its own (a path without a route,
-- a body that is not a JSON object), logging, the pause between polls, the order in which a hash map
-- is iterated (here that of insertion), and the Unicode tables behind `to_lowercase`.
mod Base
pub mod Std
pub mod Json
pub mod Xdr
pub mod Sdk
pub mod Spec
pub mod Scval
pub mod Chain
pub mod Txbuild
pub mod World
pub mod Rpc
pub mod Source
pub mod Errors
pub mod Account
pub mod Handlers
pub mod Probe
pub mod Config
pub mod Startup
mod Tests
pub mod Server
