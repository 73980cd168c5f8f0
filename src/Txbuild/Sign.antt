-- ===== src/Txbuild/Sign.antt =====
-- What a signature made by `sign_transaction` covers.
use orcusapi.Base.{
  ◌≡◌, refl, Bool, true, some, [], ◌∷◌, String, ok, length, Ensures, holds, Ensures-ok,
  Ensures-bind, Ensures-ok_or, Ensures-ensure,
}
use orcusapi.Xdr.{Bytes}
use orcusapi.Xdr.Tx.{V1Envelope, Envelope}
use orcusapi.Sdk.{Sdk}
use orcusapi.Chain.{Chain}
use orcusapi.Txbuild.{sign_transaction, hint_of}

-- The only signature of an envelope: by the key of the text, over the hash of the payload, which is of
-- the network's id and the transaction; with the end of the public key as its hint.
pub record IsSignedBy (sdk : Sdk) (chain : Chain) (verify : Bytes → Bytes → Bytes → Bool)
    (passphrase secret_key : String) (e : V1Envelope) : Type 0 where
  pub seed : Bytes
  pub payload : Bytes
  pub signature : Bytes
  pub of_secret : chain.private_key secret_key ≡ some seed
  pub of_transaction :
      chain.encode_payload (chain.sha256 (chain.as_bytes passphrase)) e.tx ≡ some payload
  pub alone :
      e.signatures
      ≡ record { hint = hint_of sdk chain (chain.verifying_key seed); signature = signature } ∷ []
  pub verified : verify (chain.verifying_key seed) (chain.sha256 payload) signature ≡ true

module _ (sdk : Sdk) (chain : Chain) (verify : Bytes → Bytes → Bytes → Bool)
    (sign-verifies : (seed message : Bytes)
      → verify (chain.verifying_key seed) message (chain.sign seed message) ≡ true) where
  -- The transaction of the envelope before, and one signature.
  pub data IsSignedFrom (before : V1Envelope) (passphrase secret_key : String)
      : Envelope → Type 0 where
    signed :
        {after : V1Envelope}
        → after.tx ≡ before.tx
        → IsSignedBy sdk chain verify passphrase secret_key after
        → IsSignedFrom before passphrase secret_key (Envelope.tx after)

  pub sign_transaction-IsSignedFrom :
      (before : V1Envelope) (passphrase secret_key : String)
      → Ensures
          (IsSignedFrom before passphrase secret_key)
          (sign_transaction sdk chain (Envelope.tx before) passphrase secret_key)
  unfolding sign_transaction
  sign_transaction-IsSignedFrom before passphrase secret_key =
      Ensures-bind (Ensures-ok_or _ (chain.private_key secret_key)) λ seed of_secret.
        Ensures-bind
          (Ensures-ok_or _
            (chain.encode_payload (chain.sha256 (chain.as_bytes passphrase)) before.tx))
          λ payload of_transaction.
            let signature = chain.sign seed (chain.sha256 payload) in
            Ensures-bind (Ensures-ensure (sdk.fits 64 (length signature)) _) λ _ _.
              Ensures-bind (Ensures-ensure (sdk.fits 20 1) _) λ _ _. holds (
                signed refl (record {
                  seed = seed;
                  payload = payload;
                  signature = signature;
                  of_secret = of_secret;
                  of_transaction = of_transaction;
                  alone = refl;
                  verified = sign-verifies seed (chain.sha256 payload);
                }))

  IsSignedFrom-inv :
      {before after : V1Envelope} {passphrase secret_key : String}
      → IsSignedFrom before passphrase secret_key (Envelope.tx after)
      → (after.tx ≡ before.tx) × IsSignedBy sdk chain verify passphrase secret_key after
  IsSignedFrom-inv (signed same by_key) = (same, by_key)

  -- A signed envelope holds the transaction of the unsigned one and one signature, which replaces
  -- those before: that of the secret key over the hash of the network's id and this transaction. It
  -- verifies under the key's public half, given that ed25519 verifies what it signs.
  pub sign_transaction-IsSignedBy :
      (before after : V1Envelope) (passphrase secret_key : String)
      → sign_transaction sdk chain (Envelope.tx before) passphrase secret_key
        ≡ ok (Envelope.tx after)
      → (after.tx ≡ before.tx) × IsSignedBy sdk chain verify passphrase secret_key after
  sign_transaction-IsSignedBy before after passphrase secret_key h =
      IsSignedFrom-inv (Ensures-ok (sign_transaction-IsSignedFrom before passphrase secret_key) h)
