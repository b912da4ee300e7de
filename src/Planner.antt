-- ===== src/Planner.antt =====
-- src/cacheopt/optimizer/planner.py: the request path of one node.
pub mod Requests
pub mod Answers
pub mod Phases
pub mod Beginnings
use cacheopt.Base.{
  ℕ, String, Bool, false, true, Option, none, some, List, [], ◌∷◌, if◌then◌else◌, ◌||◌,
}
use cacheopt.CostModel
use cacheopt.CostModel.{CostConfig, RoutingPlan, Reason, Estimates}
use cacheopt.Database.{Database, estimates}
use cacheopt.Fingerprint.{Sqlglot, Fingerprint, fingerprint}
use cacheopt.Runtime.{Runtime}
use cacheopt.Stats.{StatsCatalog, AccessPatternTracker, record_query}
use cacheopt.Tiered
use cacheopt.Tiered.{Caches, Clock, CacheLookupResult, TierHit, miss}
use cacheopt.Value.{Value, Values, tuple, list, nil, cons, pair, iterate}
use cacheopt.Versions.{◌>>=◌}

pub record RewriteResult : Type 0 where
  pub sql : String
  pub applied : List String

pub record QueryResult (N : Type 0) : Type 0 where
  pub columns : Value
  pub rows : Value
  pub latency_ms : N
  pub tier_hit : TierHit
  pub rewrites_applied : List String
  pub routing_reason : Reason
  pub template_id : String

-- What a planner is built over: the runtime, DuckDB, sqlglot, the rewriter and the settings.
pub record Setting : Type 1 where
  pub runtime : Runtime
  pub database : Database
  pub sqlglot : Sqlglot
  pub rewrite : String → StatsCatalog → RewriteResult
  pub config : CostConfig runtime.float.Num
  pub rows_per_ms : runtime.float.Num
  pub catalog : StatsCatalog

-- What a request reads and writes: its node's caches and tracker, and the database.
pub record World (S : Setting) : Type 0 where
  pub caches : Caches S.runtime
  pub tracker : AccessPatternTracker S.runtime.float
  pub database : S.database.State

unfoldable pub two_of : Values → Option (Value × Value)
two_of (cons a (cons b nil)) = some (a, b)
two_of _ = none

-- `columns, rows = value`, which iterates over the value; `none` where it raises.
unfoldable pub unpack : Value → Option (Value × Value)
unfolding two_of iterate
unpack v = do vs ← iterate v; two_of vs

unfoldable pub unpack_found : Option Value → Option (Value × Value)
unfolding unpack
unpack_found none = none
unpack_found (some v) = unpack v

module _ (S : Setting) where
  -- `latency_ms`, from the readings of `time.perf_counter()`
  abbrev pub Latency : Type 0
  Latency = S.runtime.float.Num

  unfoldable pub effective : String → RewriteResult
  effective sql = S.rewrite sql S.catalog

  abbrev refingerprint : Fingerprint → RewriteResult → List String → Fingerprint
  refingerprint fp r [] = fp
  refingerprint fp r (rule ∷ rules) = fingerprint S.sqlglot r.sql

  -- The fingerprint of the rewritten query, where a rewrite was applied.
  unfoldable pub effective_fp : String → Fingerprint
  unfolding effective
  effective_fp sql =
      refingerprint (fingerprint S.sqlglot sql) (effective sql) (effective sql).applied

  -- `self._tracker.record`
  unfoldable pub note : Clock S.runtime → Latency → String → World S → World S
  note r latency template_id w = record w {
    tracker = record_query S.runtime.float template_id latency r.recorded w.tracker;
  }

  unfoldable pub answer :
      Clock S.runtime
      → Latency
      → Fingerprint
      → RewriteResult
      → RoutingPlan S.runtime.float.Num
      → TierHit
      → Option (Value × Value)
      → World S
      → Option (QueryResult Latency) × World S
  unfolding note
  answer r latency fp rw plan tier none w = (none, w)
  answer r latency fp rw plan tier (some (columns, rows)) w = (
    some (record {
      columns = columns;
      rows = rows;
      latency_ms = latency;
      tier_hit = tier;
      rewrites_applied = rw.applied;
      routing_reason = plan.reason;
      template_id = fp.template_id;
    }),
    note r latency fp.template_id w,
  )

  -- The write back into the tiers that the plan names.
  unfoldable pub write_back :
      Clock S.runtime
      → Fingerprint
      → RoutingPlan S.runtime.float.Num
      → Values
      → Values
      → World S
      → Option (Unit {0}) × World S
  write_back r fp plan columns rows w =
      if plan.write_l1 || plan.write_l2
      then (let (done, caches') =
            Tiered.put S.runtime r fp.cache_key (pair (tuple columns) (list rows)) fp.tables
              plan.write_l1 plan.write_l2 (some plan.ttl_seconds) w.caches in
          (done, record w { caches = caches' }))
      else (some tt, w)

  pub finish :
      Clock S.runtime
      → Latency
      → Fingerprint
      → RewriteResult
      → RoutingPlan S.runtime.float.Num
      → Values
      → Values
      → Option (Unit {0}) × World S
      → Option (QueryResult Latency) × World S
  unfolding answer
  finish r latency fp rw plan columns rows (none, w) = (none, w)
  finish r latency fp rw plan columns rows (some _, w) =
      answer r latency fp rw plan miss (some (tuple columns, list rows)) w

  computed :
      Clock S.runtime
      → Latency
      → Fingerprint
      → RewriteResult
      → RoutingPlan S.runtime.float.Num
      → World S
      → Option (Values × Values × S.database.State)
      → Option (QueryResult Latency) × World S
  unfolding finish write_back
  computed r latency fp rw plan w none = (none, w)
  computed r latency fp rw plan w (some (columns, rows, d')) =
      finish r latency fp rw plan columns rows
        (write_back r fp plan columns rows (record w { database = d' }))

  -- The part of `execute` behind the lookup.
  unfoldable pub resolve :
      Clock S.runtime
      → Latency
      → Fingerprint
      → RewriteResult
      → RoutingPlan S.runtime.float.Num
      → Option CacheLookupResult
      → World S
      → Option (QueryResult Latency) × World S
  unfolding computed answer unpack_found
  resolve r latency fp rw plan none w = (none, w)
  resolve r latency fp rw plan (some found) w = elim found.hit [
    | miss ↦ computed r latency fp rw plan w (S.database.execute rw.sql w.database)
    | tier ↦ answer r latency fp rw plan tier (unpack_found found.value) w
  ]

  pub decide_route :
      Clock S.runtime → Fingerprint → World S → Estimates → RoutingPlan S.runtime.float.Num
  decide_route r fp w e =
      CostModel.plan S.runtime.float S.config S.rows_per_ms S.catalog w.tracker r.hotness e
        fp.template_id fp.tables

  consult :
      Clock S.runtime
      → Latency
      → Fingerprint
      → RewriteResult
      → RoutingPlan S.runtime.float.Num
      → World S
      → Option (QueryResult Latency) × World S
  unfolding resolve
  consult r latency fp rw plan w =
      let (found, caches') =
        Tiered.get S.runtime r fp.cache_key fp.tables plan.check_l1 plan.check_l2 w.caches in
      resolve r latency fp rw plan found (record w { caches = caches' })

  with_estimates :
      Clock S.runtime
      → Latency
      → Fingerprint
      → RewriteResult
      → World S
      → Option Estimates
      → Option (QueryResult Latency) × World S
  unfolding consult decide_route
  with_estimates r latency fp rw w none = (none, w)
  with_estimates r latency fp rw w (some e) = consult r latency fp rw (decide_route r fp w e) w

  -- `execute`, with the readings of the clock and the measured latency.
  unfoldable pub execute :
      Clock S.runtime → Latency → String → World S → Option (QueryResult Latency) × World S
  unfolding effective_fp effective with_estimates
  execute r latency sql w =
      with_estimates r latency (effective_fp sql) (effective sql) w
        (estimates S.database (effective sql).sql w.database)
