-- ===== src/Planner/Requests.antt =====
-- What a request returns and keeps, of any properties of the cache entries.
use cacheopt.Base.{
  ℕ, ◌≡◌, refl, sym, ◌∙◌, ap, subst, inl, inr, String, false, Option, none, some, List, ◌||◌, arith,
  Bool-cases, Option-cases, if◌then◌else◌,
}
use cacheopt.CostModel.{RoutingPlan}
use cacheopt.Dict.{Dict, lookup}
use cacheopt.Database.{estimates}
use cacheopt.Fingerprint.{Fingerprint}
use cacheopt.Memory.{is_member}
use cacheopt.Planner
use cacheopt.Planner.{
  Setting, World, QueryResult, RewriteResult, unpack, unpack_found, effective, effective_fp, note,
  answer, write_back, resolve,
}
use cacheopt.Runtime.{IsRuntime}
use cacheopt.Tiered.{Clock, CacheLookupResult, TierHit, l1, l2, miss}
use cacheopt.Tiered.Lookups.{
  Claim, InCaches, Found, in_l1, in_l2, nowhere, get-Looked, put-InCaches,
}
use cacheopt.Value.{Value, Values, tuple, list, pair}
use cacheopt.Value.RoundTrip.{through_redis}
use cacheopt.Versions.Counters.{is_behind}

module _ (S : Setting) (P₁ P₂ : Claim) (f : String → ℕ) (sql : String) (d : S.database.State) where
  abbrev pub cache_key : String
  cache_key = (effective_fp S sql).cache_key

  abbrev pub tables : List String
  tables = (effective_fp S sql).tables

  abbrev pub run_on_database : Option (Values × Values × S.database.State)
  run_on_database = S.database.execute (effective S sql).sql d

  -- Where the columns and rows of a result come from.
  pub data Source (q : QueryResult S.runtime.float.Num) : Type 0 where
    from_l1 :
        (captured : Dict ℕ) (v : Value)
        → q.tier_hit ≡ l1
        → unpack v ≡ some (q.columns, q.rows)
        → P₁ cache_key captured v
        → Source q
    from_l2 :
        (captured : Dict ℕ) (v : Value)
        → q.tier_hit ≡ l2
        → unpack v ≡ some (q.columns, q.rows)
        → P₂ cache_key captured v
        → is_behind S.runtime.redis f captured tables ≡ false
        → Source q
    from_database :
        (columns rows : Values) (d' : S.database.State)
        → q.tier_hit ≡ miss
        → run_on_database ≡ some (columns, rows, d')
        → q.columns ≡ tuple columns
        → q.rows ≡ list rows
        → Source q

  -- A request keeps what holds of the entries and leaves the database as it is, whether it returns
  -- or raises, and a result that it returns has a source.
  pub record Served (o : Option (QueryResult S.runtime.float.Num) × World S) : Type 0 where
    pub kept : InCaches S.runtime P₁ P₂ f o.1.caches
    pub same_database : o.1.database ≡ d
    pub source : (q : QueryResult S.runtime.float.Num) → o.0 ≡ some q → Source q

  -- A new result may be stored under the counters of its tables, and a select changes nothing.
  pub record MayStore : Type 0 where
    pub storable :
        (columns rows : Values) (d' : S.database.State)
        → run_on_database ≡ some (columns, rows, d')
        → (versions : Dict ℕ)
        → ((t : String) → lookup t versions ≡ (if is_member t tables then some (f t) else none))
        → P₁ cache_key versions (pair (tuple columns) (list rows))
          × P₂ cache_key versions (through_redis S.runtime.utf8 (pair (tuple columns) (list rows)))
    pub pure :
        (columns rows : Values) (d' : S.database.State)
        → run_on_database ≡ some (columns, rows, d')
        → d' ≡ d
    pub promotable :
        (captured : Dict ℕ) (v : Value)
        → P₂ cache_key captured v
        → is_behind S.runtime.redis f captured tables ≡ false
        → P₁ cache_key captured v

  module _ (ok : IsRuntime S.runtime) (may : MayStore) where
    pub answer-Served :
        (r : Clock S.runtime) (latency : S.runtime.float.Num) (fp : Fingerprint)
        (rw' : RewriteResult) (plan : RoutingPlan S.runtime.float.Num) (tier : TierHit)
        (parts : Option (Value × Value)) (w : World S)
        → InCaches S.runtime P₁ P₂ f w.caches
        → w.database ≡ d
        → ((q : QueryResult S.runtime.float.Num)
            → q.tier_hit ≡ tier
            → parts ≡ some (q.columns, q.rows)
            → Source q)
        → Served (answer S r latency fp rw' plan tier parts w)
    unfolding answer note
    answer-Served r latency fp rw' plan tier none w h same source = record {
      kept = h;
      same_database = same;
      source = λ q e. cc;
    }
    answer-Served r latency fp rw' plan tier (some (columns, rows)) w h same source = record {
      kept = h;
      same_database = same;
      source = λ q e. source q (ground arith) (ground arith);
    }

    abbrev fp₀ : Fingerprint
    fp₀ = effective_fp S sql

    abbrev rw₀ : RewriteResult
    rw₀ = effective S sql

    pub write_back-kept :
        (r : Clock S.runtime) (plan : RoutingPlan S.runtime.float.Num) (columns rows : Values)
        (d' : S.database.State) (w : World S)
        → run_on_database ≡ some (columns, rows, d')
        → InCaches S.runtime P₁ P₂ f w.caches
        → InCaches S.runtime P₁ P₂ f (write_back S r fp₀ plan columns rows w).1.caches
          × ((write_back S r fp₀ plan columns rows w).1.database ≡ w.database)
    unfolding write_back
    write_back-kept r plan columns rows d' w ran h =
        elim (Bool-cases (plan.write_l1 || plan.write_l2)) [
          | inl writes ↦ rw writes (
            put-InCaches S.runtime P₁ P₂ f cache_key tables ok r (pair (tuple columns) (list rows))
                plan.write_l1 plan.write_l2 (some plan.ttl_seconds) w.caches h
                (may.storable columns rows d' ran),
            refl,
          )
          | inr none_written ↦ rw none_written (h, refl)
        ]

    pub finish-Served :
        (r : Clock S.runtime) (latency : S.runtime.float.Num)
        (plan : RoutingPlan S.runtime.float.Num) (columns rows : Values) (d' : S.database.State)
        (o : Option (Unit {0}) × World S)
        → run_on_database ≡ some (columns, rows, d')
        → InCaches S.runtime P₁ P₂ f o.1.caches
        → o.1.database ≡ d
        → Served (Planner.finish S r latency fp₀ rw₀ plan columns rows o)
    unfolding resolve
    finish-Served r latency plan columns rows d' (none, w) ran h same = record {
      kept = h;
      same_database = same;
      source = λ q e. cc;
    }
    finish-Served r latency plan columns rows d' (some _, w) ran h same =
        answer-Served r latency fp₀ rw₀ plan miss (some (tuple columns, list rows)) w h same
          (λ q tier parts. from_database columns rows d' tier ran (ground arith) (ground arith))

    computed-Served :
        (r : Clock S.runtime) (latency : S.runtime.float.Num)
        (plan : RoutingPlan S.runtime.float.Num) (w : World S)
        (o : Option (Values × Values × S.database.State))
        → InCaches S.runtime P₁ P₂ f w.caches
        → w.database ≡ d
        → run_on_database ≡ o
        → Served (Planner.computed S r latency fp₀ rw₀ plan w o)
    unfolding resolve
    computed-Served r latency plan w none h same ran = record {
      kept = h;
      same_database = same;
      source = λ q e. cc;
    }
    computed-Served r latency plan w (some (columns, rows, d')) h same ran =
        let w' : World S = record w { database = d' } in
        let (kept, left) = write_back-kept r plan columns rows d' w' ran h in
        finish-Served r latency plan columns rows d' (write_back S r fp₀ plan columns rows w') ran
          kept (left ∙ may.pure columns rows d' ran)

    resolve-Served :
        (r : Clock S.runtime) (latency : S.runtime.float.Num)
        (plan : RoutingPlan S.runtime.float.Num) (found : CacheLookupResult) (w : World S)
        → InCaches S.runtime P₁ P₂ f w.caches
        → w.database ≡ d
        → Found S.runtime P₁ P₂ f cache_key tables found
        → Served (resolve S r latency fp₀ rw₀ plan (some found) w)
    unfolding resolve
    resolve-Served r latency plan found w h same (in_l1 captured v e p) =
        subst (λ (x : CacheLookupResult). Served (resolve S r latency fp₀ rw₀ plan (some x) w))
          (sym e)
          (answer-Served r latency fp₀ rw₀ plan l1 (unpack v) w h same
            (λ q tier parts. from_l1 captured v tier parts p))
    resolve-Served r latency plan found w h same (in_l2 captured v e p b) =
        subst (λ (x : CacheLookupResult). Served (resolve S r latency fp₀ rw₀ plan (some x) w))
          (sym e)
          (answer-Served r latency fp₀ rw₀ plan l2 (unpack v) w h same
            (λ q tier parts. from_l2 captured v tier parts p b))
    resolve-Served r latency plan found w h same (nowhere e) =
        subst (λ (x : CacheLookupResult). Served (resolve S r latency fp₀ rw₀ plan (some x) w))
          (sym e)
          (computed-Served r latency plan w _ h same (ap (S.database.execute rw₀.sql) (sym same)))

    -- `DistributedExecutionPlanner.execute` serves a request from what the caches hold.
    pub execute-Served :
        (r : Clock S.runtime) (latency : S.runtime.float.Num) (w : World S)
        → InCaches S.runtime P₁ P₂ f w.caches
        → w.database ≡ d
        → Served (Planner.execute S r latency sql w)
    unfolding Planner.execute
    execute-Served r latency w h same =
        elim (Option-cases (estimates S.database rw₀.sql w.database)) [
          | inl raised ↦ rw raised (record { kept = h; same_database = same; source = λ q e. cc })
          | inr (e, there) ↦
              let plan = Planner.decide_route S r fp₀ w e in
              let looked =
                get-Looked S.runtime P₁ P₂ f cache_key tables ok r plan.check_l1 plan.check_l2
                  w.caches h may.promotable in
              rw (there, looked.returns)
                (resolve-Served r latency plan looked.result _ looked.kept same looked.found)
        ]
