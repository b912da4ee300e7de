-- ===== src/Planner/Answers.antt =====
-- When a request returns.
use cacheopt.Base.{
  ℕ, ◌<◌, ◌≡◌, refl, String, Bool, true, false, Option, none, some, ◌||◌, arith, Bool-cases, inl,
  inr, if◌then◌else◌,
}
use cacheopt.CostModel.{CostConfig, Estimates, RoutingPlan}
use cacheopt.CostModel.Admission.{plan-Admission}
use cacheopt.Database.{estimates}
use cacheopt.Dict.{Dict}
use cacheopt.Fingerprint.{Fingerprint}
use cacheopt.Float.{Float}
use cacheopt.Planner
use cacheopt.Planner.{
  Setting, World, QueryResult, RewriteResult, unpack, unpack_found, effective, effective_fp, answer,
  write_back, resolve,
}
use cacheopt.Planner.Requests.{cache_key, tables}
use cacheopt.RedisCache.{seconds}
use cacheopt.Runtime.{IsRuntime}
use cacheopt.Tiered.{Clock, CacheLookupResult, TierHit, l1, l2, miss}
use cacheopt.Tiered.Lookups.{Claim, InCaches, Found, in_l1, in_l2, nowhere, get-Looked}
use cacheopt.Tiered.Sharing.{put-returns}
use cacheopt.Value.{Value, Values, tuple, list, pair}
use cacheopt.Versions.Counters.{Counts, is_behind}

-- What is cached lives for a second at least, with the factor that the plan gives it.
abbrev pub Lives : (F : Float) → CostConfig F.Num → Type 0
Lives F config =
    (k : ℕ) → 0 < k → 0 < F.truncate (F.mul (F.num config.default_ttl_seconds) (F.num k))

factor_pos : (hot : Bool) → 0 < (if hot then 2 else 1)
factor_pos hot = ground arith

module _ (S : Setting) where
  abbrev Returns : Option (QueryResult S.runtime.float.Num) × World S → Type 0
  Returns o = (q : QueryResult S.runtime.float.Num) × (o.0 ≡ some q)

  module _ (r : Clock S.runtime) (latency : S.runtime.float.Num) (fp : Fingerprint)
      (rw' : RewriteResult) (plan : RoutingPlan S.runtime.float.Num) where
    answer-Returns :
        (tier : TierHit) (a b : Value) (parts : Option (Value × Value)) (w : World S)
        → parts ≡ some (a, b)
        → Returns (answer S r latency fp rw' plan tier parts w)
    unfolding answer
    answer-Returns tier a b none w h = cc
    answer-Returns tier a b (some (c, d)) w h = (_, refl)

    finish-Returns :
        (columns rows : Values) (o : Option (Unit {0}) × World S)
        → o.0 ≡ some tt
        → Returns (Planner.finish S r latency fp rw' plan columns rows o)
    unfolding resolve
    finish-Returns columns rows (none, w) h = cc
    finish-Returns columns rows (some _, w) h = answer-Returns miss _ _ _ w refl

    write_back-returns :
        (ok : IsRuntime S.runtime) (f : String → ℕ) (columns rows : Values) (w : World S)
        → Counts S.runtime.redis f w.caches.server
        → (plan.write_l2 ≡ true → 0 < S.runtime.float.truncate plan.ttl_seconds)
        → (write_back S r fp plan columns rows w).0 ≡ some tt
    unfolding write_back seconds
    write_back-returns ok f columns rows w counts lives =
        elim (Bool-cases (plan.write_l1 || plan.write_l2)) [
          | inl writes ↦ rw writes (
              put-returns S.runtime ok f r r fp.cache_key (pair (tuple columns) (list rows))
                fp.tables plan.write_l1 (some plan.ttl_seconds) w.caches plan.write_l2 counts lives)
          | inr none_written ↦ rw none_written refl
        ]

  module _ (P₁ P₂ : Claim) (f : String → ℕ) (sql : String) (d : S.database.State)
      (ok : IsRuntime S.runtime)
      (unpacks₁ : (captured : Dict ℕ) (v : Value)
        → P₁ (cache_key S P₁ P₂ f sql d) captured v
        → (a : Value) × (b : Value) × (unpack v ≡ some (a, b)))
      (unpacks₂ : (captured : Dict ℕ) (v : Value)
        → P₂ (cache_key S P₁ P₂ f sql d) captured v
        → (a : Value) × (b : Value) × (unpack v ≡ some (a, b)))
      (r : Clock S.runtime) (latency : S.runtime.float.Num) where
    abbrev fp₀ : Fingerprint
    fp₀ = effective_fp S sql

    abbrev rw₀ : RewriteResult
    rw₀ = effective S sql

    ttl-Lives :
        (w : World S) (e : Estimates)
        → Lives S.runtime.float S.config
        → (Planner.decide_route S r fp₀ w e).write_l2 ≡ true
        → 0 < S.runtime.float.truncate (Planner.decide_route S r fp₀ w e).ttl_seconds
    unfolding Planner.decide_route
    ttl-Lives w e lives writes =
        let a =
          plan-Admission S.runtime.float S.config S.rows_per_ms S.catalog w.tracker r.hotness e
            fp₀.template_id fp₀.tables in
        rw (a.ttl, writes) (lives _ (factor_pos _))

    resolve-Returns :
        (plan : RoutingPlan S.runtime.float.Num) (found : CacheLookupResult) (w : World S)
        (columns rows : Values) (d' : S.database.State)
        → Counts S.runtime.redis f w.caches.server
        → (plan.write_l2 ≡ true → 0 < S.runtime.float.truncate plan.ttl_seconds)
        → S.database.execute rw₀.sql w.database ≡ some (columns, rows, d')
        → Found S.runtime P₁ P₂ f (cache_key S P₁ P₂ f sql d) (tables S P₁ P₂ f sql d) found
        → Returns (resolve S r latency fp₀ rw₀ plan (some found) w)
    unfolding resolve
    resolve-Returns plan found w columns rows d' counts lives ran (in_l1 captured v e p) =
        let (a, b, parts) = unpacks₁ captured v p in
        rw e (answer-Returns r latency fp₀ rw₀ plan l1 a b (unpack v) w parts)
    resolve-Returns plan found w columns rows d' counts lives ran (in_l2 captured v e p level) =
        let (a, b, parts) = unpacks₂ captured v p in
        rw e (answer-Returns r latency fp₀ rw₀ plan l2 a b (unpack v) w parts)
    resolve-Returns plan found w columns rows d' counts lives ran (nowhere e) =
        rw (e, ran)
          (finish-Returns r latency fp₀ rw₀ plan columns rows _ (
            write_back-returns r latency fp₀ rw₀ plan ok f columns rows (record w { database = d' })
              counts lives))

    -- In caches whose entries for the query are results, a request returns where DuckDB answers
    -- EXPLAIN and the query, and what is cached lives for a second at least.
    pub execute-Returns :
        (w : World S) (e : Estimates) (columns rows : Values) (d' : S.database.State)
        → InCaches S.runtime P₁ P₂ f w.caches
        → ((captured : Dict ℕ) (v : Value)
            → P₂ (cache_key S P₁ P₂ f sql d) captured v
            → is_behind S.runtime.redis f captured (tables S P₁ P₂ f sql d) ≡ false
            → P₁ (cache_key S P₁ P₂ f sql d) captured v)
        → Lives S.runtime.float S.config
        → estimates S.database rw₀.sql w.database ≡ some e
        → S.database.execute rw₀.sql w.database ≡ some (columns, rows, d')
        → Returns (Planner.execute S r latency sql w)
    unfolding Planner.execute
    execute-Returns w e columns rows d' h up lives estimated ran =
        let plan = Planner.decide_route S r fp₀ w e in
        let looked =
          get-Looked S.runtime P₁ P₂ f (cache_key S P₁ P₂ f sql d) (tables S P₁ P₂ f sql d) ok r
            plan.check_l1 plan.check_l2 w.caches h up in
        rw (estimated, looked.returns)
          (resolve-Returns plan looked.result _ columns rows d' looked.kept.server.counts
            (ttl-Lives w e lives) ran looked.found)
