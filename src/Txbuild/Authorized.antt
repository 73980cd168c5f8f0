-- ===== src/Txbuild/Authorized.antt =====
-- The authorization entries of the simulation in a transaction.
use orcusapi.Base.{
  ◌≡◌, refl, Option, some, List, [], ◌∷◌, String, length, All, traverse, ok_or, Ensures, holds,
  failed, Ensures-bind, Ensures-ok_or, Ensures-ensure, Ensures-traverse, Pointwise,
}
use orcusapi.Std.Words.{max_u32}
use orcusapi.Xdr.{Bytes, Opaque}
use orcusapi.Xdr.Tx.{Operation, OperationBody, HostFunction, invoke_host_function}
use orcusapi.Sdk.{Sdk}
use orcusapi.Chain.{Chain}
use orcusapi.Txbuild.{set_auth, with_auth}

module _ (chain : Chain) where
  -- the entries that these texts encode, one by one
  abbrev pub AreDecoded : List String → List Opaque → Type 0
  AreDecoded b64s auths = Pointwise (λ b64 auth. chain.decode_auth b64 ≡ some auth) b64s auths

  -- The operations with the simulated entries: no entries change nothing; others go to the first
  -- operation, in place of what it had, if it invokes a host function.
  pub data IsAuthorized : List String → List Operation → List Operation → Type 0 where
    none_needed : {ops : List Operation} → IsAuthorized [] ops ops
    given :
        {b : String} {bs : List String} {auths old : List Opaque} {f : HostFunction}
        {op : Operation} {ops : List Operation}
        → op.body ≡ invoke_host_function f old
        → AreDecoded (b ∷ bs) auths
        → IsAuthorized (b ∷ bs) (op ∷ ops) (record op { body = invoke_host_function f auths } ∷ ops)
    no_call :
        {b : String} {bs : List String} {x : Opaque} {op : Operation} {ops : List Operation}
        → op.body ≡ OperationBody.other x
        → IsAuthorized (b ∷ bs) (op ∷ ops) (op ∷ ops)

  pub traverse-AreDecoded :
      (message : String) (b64s : List String)
      → Ensures (AreDecoded b64s) (traverse (λ b64. ok_or message (chain.decode_auth b64)) b64s)
  traverse-AreDecoded message b64s =
      Ensures-traverse (λ b64 auth. chain.decode_auth b64 ≡ some auth)
        (λ b64. ok_or message (chain.decode_auth b64)) b64s (decodings b64s)
    where
      decodings :
          (b64s : List String)
          → All
              (λ b64.
                Ensures
                  (λ auth. chain.decode_auth b64 ≡ some auth)
                  (ok_or message (chain.decode_auth b64)))
              b64s
      decodings [] = tt
      decodings (b ∷ bs) = (Ensures-ok_or _ (chain.decode_auth b), decodings bs)

  module _ (sdk : Sdk) where
    set_auth-IsAuthorized :
        (b : String) (bs : List String) (auths : List Opaque) (ops : List Operation)
        → AreDecoded (b ∷ bs) auths
        → Ensures (IsAuthorized (b ∷ bs) ops) (set_auth sdk chain auths ops)
    unfolding set_auth
    set_auth-IsAuthorized b bs auths [] h = failed
    set_auth-IsAuthorized b bs auths (op ∷ ops) h = by_body op.source_account op.body
      where
        by_body :
            (account : Option Bytes) (body : OperationBody)
            → Ensures
                (IsAuthorized (b ∷ bs) (record { source_account = account; body = body } ∷ ops))
                (set_auth sdk chain auths (record { source_account = account; body = body } ∷ ops))
        by_body account (invoke_host_function f old) =
            Ensures-bind (Ensures-ensure (sdk.fits max_u32 (length auths)) _)
              λ _ _. holds (given refl h)
        by_body account (OperationBody.other x) = holds (no_call refl)

    pub with_auth-IsAuthorized :
        (b64s : List String) (ops : List Operation)
        → Ensures (IsAuthorized b64s ops) (with_auth sdk chain b64s ops)
    unfolding with_auth
    with_auth-IsAuthorized [] ops = holds none_needed
    with_auth-IsAuthorized (b ∷ bs) ops =
        Ensures-bind (traverse-AreDecoded _ (b ∷ bs))
          λ auths decoded. set_auth-IsAuthorized b bs auths ops decoded
