-- ===== src/Planner/Phases.antt =====
-- src/cacheopt/optimizer/planner.py: `DistributedExecutionPlanner.execute` in two phases. The first
-- ends with the rows that the database gives on a miss; the second writes them back and answers. On a
-- server, requests at other nodes and writes come in between.
use cacheopt.Base.{◌≡◌, ◌⊎◌, refl, sym, inl, inr, String, Option, none, some}
use cacheopt.CostModel.{RoutingPlan, Estimates}
use cacheopt.Database.{estimates}
use cacheopt.Planner
use cacheopt.Planner.{
  Setting, World, QueryResult, unpack_found, effective, effective_fp, answer, write_back, resolve,
}
use cacheopt.Tiered
use cacheopt.Tiered.{Clock, CacheLookupResult, TierHit, l1, l2, miss}
use cacheopt.Value.{Values}

pub hit-cases : (h : TierHit) → (h ≡ miss) ⊎ (h ≡ l1) ⊎ (h ≡ l2)
hit-cases miss = inl refl
hit-cases l1 = inr (inl refl)
hit-cases l2 = inr (inr refl)

module _ (S : Setting) where
  -- How the first phase ends: the request is answered or has raised, or it has the rows that it read
  -- on a miss, with the plan for them.
  pub data Begun : Type 0 where
    ended : Option (QueryResult S.runtime.float.Num) → Begun
    pending : RoutingPlan S.runtime.float.Num → Values → Values → Begun

  abbrev pub settle : Option (QueryResult S.runtime.float.Num) × World S → Begun × World S
  settle (o, w) = (ended o, w)

  module _ (r : Clock S.runtime) (latency : S.runtime.float.Num) (sql : String) where
    pub run_on_database :
        RoutingPlan S.runtime.float.Num
        → World S
        → Option (Values × Values × S.database.State)
        → Begun × World S
    run_on_database plan w none = (ended none, w)
    run_on_database plan w (some (columns, rows, d)) =
        (pending plan columns rows, record w { database = d })

    pub look_at :
        RoutingPlan S.runtime.float.Num → Option CacheLookupResult → World S → Begun × World S
    unfolding run_on_database
    look_at plan none w = (ended none, w)
    look_at plan (some found) w = elim found.hit [
      | miss ↦ run_on_database plan w (S.database.execute (effective S sql).sql w.database)
      | tier ↦ settle (
          answer S r latency (effective_fp S sql) (effective S sql) plan tier
            (unpack_found found.value) w)
    ]

    pub begin_with : World S → Option Estimates → Begun × World S
    unfolding look_at Planner.decide_route
    begin_with w none = (ended none, w)
    begin_with w (some e) =
        let plan = Planner.decide_route S r (effective_fp S sql) w e in
        let (found, caches') =
          Tiered.get S.runtime r (effective_fp S sql).cache_key (effective_fp S sql).tables
            plan.check_l1 plan.check_l2 w.caches in
        look_at plan found (record w { caches = caches' })

    -- `execute` up to `self._backend.execute(effective_sql)`.
    unfoldable pub begin : World S → Begun × World S
    unfolding begin_with
    begin w = begin_with w (estimates S.database (effective S sql).sql w.database)

    -- `execute` from the write back on, of the rows that the first phase has read.
    unfoldable pub finish :
        RoutingPlan S.runtime.float.Num
        → Values
        → Values
        → World S
        → Option (QueryResult S.runtime.float.Num) × World S
    unfolding Planner.finish
    finish plan columns rows w =
        Planner.finish S r latency (effective_fp S sql) (effective S sql) plan columns rows
          (write_back S r (effective_fp S sql) plan columns rows w)

    -- The second phase, if there is one.
    unfoldable pub conclude : Begun × World S → Option (QueryResult S.runtime.float.Num) × World S
    unfolding finish
    conclude (ended o, w) = (o, w)
    conclude (pending plan columns rows, w) = finish plan columns rows w

    conclude-run_on_database :
        (plan : RoutingPlan S.runtime.float.Num) (w : World S)
        (o : Option (Values × Values × S.database.State))
        → conclude (run_on_database plan w o)
          ≡ Planner.computed S r latency (effective_fp S sql) (effective S sql) plan w o
    unfolding begin conclude resolve
    conclude-run_on_database plan w none = refl
    conclude-run_on_database plan w (some (columns, rows, d)) = refl

    conclude-look_at :
        (plan : RoutingPlan S.runtime.float.Num) (o : Option CacheLookupResult) (w : World S)
        → conclude (look_at plan o w)
          ≡ resolve S r latency (effective_fp S sql) (effective S sql) plan o w
    unfolding begin conclude resolve
    conclude-look_at plan none w = refl
    conclude-look_at plan (some found) w = elim (hit-cases found.hit) [
      | inl absent ↦ rw absent (conclude-run_on_database plan w _)
      | inr (inl in_memory) ↦ rw in_memory refl
      | inr (inr on_server) ↦ rw on_server refl
    ]

    conclude-begin_with :
        (w : World S) (o : Option Estimates)
        → conclude (begin_with w o)
          ≡ Planner.with_estimates S r latency (effective_fp S sql) (effective S sql) w o
    unfolding begin Planner.execute conclude
    conclude-begin_with w none = refl
    conclude-begin_with w (some e) = conclude-look_at _ _ _

    -- A request is its two phases, one right behind the other.
    pub execute-conclude : (w : World S) → Planner.execute S r latency sql w ≡ conclude (begin w)
    unfolding Planner.execute begin
    execute-conclude w = sym (conclude-begin_with w _)
