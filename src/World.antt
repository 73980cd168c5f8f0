-- ===== src/World.antt =====
-- What the handlers share and change: `AppState` of src/state.rs with the counter of `RpcClient`
-- (src/rpc.rs), and the requests that have gone out. Here a handler runs on its own;
-- World/Steps has the steps that handlers mix.
pub mod Steps
pub mod Returns
pub mod Answers
use orcusapi.Base.{◌≡◌, refl, ℕ, Bool, List, String, Result, ok, err}
use orcusapi.Json.{Json}
use orcusapi.Spec.{ContractSpec}

-- a JSON-RPC call, as posted
pub record Request : Type 0 where
  pub id : ℕ
  pub method : String
  pub params : Json

-- what the HTTP client makes of it: no response, a body that cannot be read, or a status with a body
pub data Reply : Type 0 where
  no_response : String → Reply
  no_body : String → Reply
  response : (is_success : Bool) → (status body : String) → Reply

-- The other side: any function of the requests so far, latest first, and the new one.
abbrev pub Network : Type 0
Network = List Request → Request → Reply

-- `sent` has the latest request first.
pub record World : Type 0 where
  pub next_id : ℕ
  pub sent : List Request
  pub spec_cache : List (String × ContractSpec)
  pub function_methods : List (String × Bool)

-- the constant fields of `AppState`
pub record Settings : Type 0 where
  pub network_passphrase : String
  pub contract_wasm_hash : String
  pub contract_id : String

-- A computation on the world that may fail; what it changed before failing stays.
abbrev pub Action {ℓ} : Type 0 → Type ℓ → Type ℓ
Action E A = World → Result E A × World

abbrev pub continue {ℓ κ} :
    {E : Type 0} {A : Type ℓ} {B : Type κ}
    → Result E A × World
    → (A → Action E B)
    → Result E B × World
continue (ok a, w) f = f a w
continue (err e, w) f = (err e, w)

unfoldable pub pure {ℓ} : {E : Type 0} {A : Type ℓ} → A → Action E A
pure a w = (ok a, w)

unfoldable pub lift {ℓ} : {E : Type 0} {A : Type ℓ} → Result E A → Action E A
lift r w = (r, w)

unfoldable pub fail {ℓ} : {E : Type 0} {A : Type ℓ} → E → Action E A
fail e w = (err e, w)

abbrev pub map_outcome {ℓ} :
    {E F : Type 0} {A : Type ℓ} → (E → F) → Result E A × World → Result F A × World
map_outcome f (ok a, w) = (ok a, w)
map_outcome f (err e, w) = (err (f e), w)

-- `.await.map_err(f)?`
unfoldable pub on_error {ℓ} : {E F : Type 0} {A : Type ℓ} → (E → F) → Action E A → Action F A
on_error f m w = map_outcome f (m w)

-- Inversion of a success.
pub continue_inv {ℓ κ} :
    {E : Type 0} {A : Type ℓ} {B : Type κ} (p : Result E A × World) (f : A → Action E B) {b : B}
    {w' : World}
    → continue p f ≡ (ok b, w')
    → (a : A) × (w : World) × (p ≡ (ok a, w)) × (f a w ≡ (ok b, w'))
continue_inv (ok a, w) f h = (a, w, refl, h)
continue_inv (err e, w) f h = cc

infixl 5 ◌>>=◌ ◌>>◌
-- opening this opens the ways to build an action, too
unfoldable pub ◌>>=◌ {ℓ κ} :
    {E : Type 0} {A : Type ℓ} {B : Type κ} → Action E A → (A → Action E B) → Action E B
unfolding pure lift fail on_error
◌>>=◌ m f w = continue (m w) f

abbrev pub ◌>>◌ {ℓ} : {E : Type 0} {B : Type ℓ} → Action E (Unit {0}) → Action E B → Action E B
m >> k = m >>= λ _. k

-- Inversions of a success.
map_outcome_inv {ℓ} :
    {E F : Type 0} {A : Type ℓ} (f : E → F) (p : Result E A × World) {a : A} {w : World}
    → map_outcome f p ≡ (ok a, w)
    → p ≡ (ok a, w)
map_outcome_inv f (ok b, v) h = cc
map_outcome_inv f (err e, v) h = cc

pub on_error_inv {ℓ} :
    {E F : Type 0} {A : Type ℓ} (f : E → F) (m : Action E A) {a : A} {w u : World}
    → on_error f m w ≡ (ok a, u)
    → m w ≡ (ok a, u)
unfolding on_error
on_error_inv f m {w = w} h = map_outcome_inv f (m w) h

pub bind_inv {ℓ κ} :
    {E : Type 0} {A : Type ℓ} {B : Type κ} (m : Action E A) (f : A → Action E B) {b : B}
    {w w' : World}
    → (m >>= f) w ≡ (ok b, w')
    → (a : A) × (u : World) × (m w ≡ (ok a, u)) × (f a u ≡ (ok b, w'))
unfolding ◌>>=◌
bind_inv m f {w = w} h = continue_inv (m w) f h

pub lift_inv {ℓ κ} :
    {E : Type 0} {A : Type ℓ} {B : Type κ} (r : Result E A) (f : A → Action E B) {b : B}
    {w w' : World}
    → (lift r >>= f) w ≡ (ok b, w')
    → (a : A) × (r ≡ ok a) × (f a w ≡ (ok b, w'))
unfolding ◌>>=◌
lift_inv (ok a) f h = (a, refl, h)
lift_inv (err e) f h = cc

-- `state.function_methods.read().await`
unfoldable pub read_methods : {E : Type 0} → Action E (List (String × Bool))
read_methods w = (ok w.function_methods, w)

pub read_methods_inv {κ} :
    {E : Type 0} {B : Type κ} (f : List (String × Bool) → Action E B) {b : B} {w w' : World}
    → (read_methods >>= f) w ≡ (ok b, w')
    → f w.function_methods w ≡ (ok b, w')
unfolding ◌>>=◌ read_methods
read_methods_inv f h = h
