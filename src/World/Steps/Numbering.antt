-- ===== src/World/Steps/Numbering.antt =====
-- The ids of the requests: the counter of `RpcClient` (src/rpc.rs) from 1 on, modulo 2^64.
use orcusapi.Base.{ℕ, ◌+◌, ◌%◌, ◌^◌, ◌<◌, ◌≡◌, ◌≢◌, List, [], ◌∷◌, arith, All, length, ◌-◌}
use orcusapi.Sdk.{Sdk}
use orcusapi.Chain.{Chain}
use orcusapi.World.{Request, Network, World}
use orcusapi.World.Steps.{Step, sends, stores, Steps, done, next}

-- A request's id is one more than the number of requests before it.
abbrev pub AreNumbered : List Request → Type 0
AreNumbered [] = Unit
AreNumbered (r ∷ rs) = (r.id ≡ (1 + length rs) % 2 ^ 64) × AreNumbered rs

pub record IsNumbered (w : World) : Type 0 where
  pub counter : w.next_id ≡ (1 + length w.sent) % 2 ^ 64
  pub requests : AreNumbered w.sent

-- no two requests with one id
abbrev pub AreDistinct : List Request → Type 0
AreDistinct [] = Unit
AreDistinct (r ∷ rs) = All (λ q. r.id ≢ q.id) rs × AreDistinct rs

earlier_lem :
    (n : ℕ) (rs : List Request)
    → AreNumbered rs
    → length rs < n
    → n < 2 ^ 64
    → All (λ q. n ≢ q.id) rs
earlier_lem n [] h p q = tt
earlier_lem n (r ∷ rs) (same, h) p q = (λ e. omega arith, earlier_lem n rs h (omega arith) q)

-- Fewer requests than ids: each has its own.
pub AreNumbered-AreDistinct :
    (rs : List Request) → AreNumbered rs → length rs < 2 ^ 64 - 1 → AreDistinct rs
AreNumbered-AreDistinct [] h p = tt
AreNumbered-AreDistinct (r ∷ rs) (same, h) p = (
  rw same (earlier_lem ((1 + length rs) % 2 ^ 64) rs h (omega arith) (omega arith)),
  AreNumbered-AreDistinct rs h (omega arith),
)

module _ (sdk : Sdk) (chain : Chain) (net : Network) where
  Step-IsNumbered : {v w : World} → Step sdk chain net v w → IsNumbered v → IsNumbered w
  Step-IsNumbered (sends method params) h = record {
    counter = omega (arith, h.counter);
    requests = (h.counter, h.requests);
  }
  Step-IsNumbered (stores key entries was) h = record { counter = h.counter; requests = h.requests }

  -- However handlers mix their steps, the requests stay numbered.
  pub Steps-IsNumbered : {v w : World} → Steps sdk chain net v w → IsNumbered v → IsNumbered w
  Steps-IsNumbered done h = h
  Steps-IsNumbered (next steps step) h = Step-IsNumbered step (Steps-IsNumbered steps h)
