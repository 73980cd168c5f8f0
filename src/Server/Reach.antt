-- ===== src/Server/Reach.antt =====
-- The states of the running server: after the start, by any steps.
use orcusapi.Base.{◌≡◌, refl, sym, List, [], ◌∷◌, ok, length, ◌-◌, ◌<◌, ◌^◌}
use mathlib.Core.Path.{subst}
use orcusapi.Sdk.{Sdk}
use orcusapi.Chain.{Chain}
use orcusapi.World.{Network, World, Settings}
use orcusapi.World.Steps.{Steps, done, next, sends, stores, Steps-trans}
use orcusapi.World.Steps.Numbering.{
  IsNumbered, Steps-IsNumbered, AreDistinct, AreNumbered-AreDistinct,
}
use orcusapi.Server.{Call, serve, serve_all}
use orcusapi.Server.Traced.{handle-IsTraced}
use orcusapi.Startup.{start, initial}
use orcusapi.Startup.Traced.{start-Steps}

module _ (sdk : Sdk) (chain : Chain) (net : Network) where
  -- no step changes the methods
  pub Steps-methods :
      {v w : World} → Steps sdk chain net v w → w.function_methods ≡ v.function_methods
  Steps-methods done = refl
  Steps-methods (next steps (sends _ _)) = Steps-methods steps
  Steps-methods (next steps (stores _ _ _)) = Steps-methods steps

  module _ (settings : Settings) where
    pub data IsReachable (w : World) : Type 0 where
      after :
          {started : World}
          → start sdk chain net settings initial ≡ (ok tt, started)
          → Steps sdk chain net started w
          → IsReachable w

    pub serve-Steps :
        (call : Call) (w : World) → Steps sdk chain net w (serve sdk chain net settings call w).1
    unfolding serve
    serve-Steps call w = (handle-IsTraced sdk chain net settings call).at w

    -- Any calls, one after the other, lead by steps to where they end.
    pub serve_all-Steps :
        (calls : List Call) (w : World)
        → Steps sdk chain net w (serve_all sdk chain net settings calls w).1
    unfolding serve_all
    serve_all-Steps [] w = done
    serve_all-Steps (call ∷ calls) w =
        Steps-trans sdk chain net (serve-Steps call w)
          (serve_all-Steps calls (serve sdk chain net settings call w).1)

    start-IsNumbered :
        (w : World) → start sdk chain net settings initial ≡ (ok tt, w) → IsNumbered w
    start-IsNumbered w started =
        let (u, steps, same) = start-Steps sdk chain net settings w started in
        let numbered : IsNumbered u =
          Steps-IsNumbered sdk chain net steps (record { counter = refl; requests = tt }) in
        subst IsNumbered (sym same)
          (record { counter = numbered.counter; requests = numbered.requests })

    -- In every state of the running server, however its handlers mix their steps, the ids of the
    -- requests count up from 1, modulo 2^64, and the counter is at the next one.
    pub IsReachable-IsNumbered : {w : World} → IsReachable w → IsNumbered w
    IsReachable-IsNumbered (after started steps) =
        Steps-IsNumbered sdk chain net steps (start-IsNumbered _ started)

    -- In every state of the running server no two requests have one id, as long as there are fewer than
    -- 2^64 - 1 of them.
    pub IsReachable-AreDistinct :
        {w : World} → IsReachable w → length w.sent < 2 ^ 64 - 1 → AreDistinct w.sent
    IsReachable-AreDistinct {w} reached few =
        AreNumbered-AreDistinct w.sent (IsReachable-IsNumbered reached).requests few
