-- ===== src/Planner/Beginnings.antt =====
-- src/cacheopt/optimizer/planner.py: what the two phases of `execute` keep and give.
use cacheopt.Base.{
  ℕ, ◌≡◌, ◌≢◌, sym, ◌∙◌, ap, subst, inl, inr, String, Option, none, some, Option-cases, arith,
}
use cacheopt.CostModel.{RoutingPlan}
use cacheopt.Database.{estimates}
use cacheopt.Fingerprint.{Fingerprint}
use cacheopt.Planner
use cacheopt.Planner.{
  Setting, World, QueryResult, RewriteResult, resolve, unpack, unpack_found, effective,
  effective_fp, answer, write_back,
}
use cacheopt.Planner.Phases.{Begun, ended, pending, settle, begin, finish, look_at, run_on_database}
use cacheopt.Planner.Requests
use cacheopt.Planner.Requests.{
  Served, Source, MayStore, from_l1, from_l2, answer-Served, write_back-kept,
}
use cacheopt.Runtime.{IsRuntime}
use cacheopt.Tiered.{Clock, CacheLookupResult, l1, l2, miss}
use cacheopt.Tiered.Lookups.{Claim, InCaches, Found, in_l1, in_l2, nowhere, get-Looked}
use cacheopt.Value.{Values}

module _ (S : Setting) (r : Clock S.runtime) (latency : S.runtime.float.Num) (fp : Fingerprint)
    (rw' : RewriteResult) (plan : RoutingPlan S.runtime.float.Num) (columns rows : Values)
    (q : QueryResult S.runtime.float.Num) where
  -- An answer of the second phase is a miss of both tiers.
  pub finish_misses :
      (o : Option (Unit {0}) × World S)
      → (Planner.finish S r latency fp rw' plan columns rows o).0 ≡ some q
      → q.tier_hit ≡ miss
  unfolding resolve answer
  finish_misses (none, w) h = cc
  finish_misses (some _, w) h = ground arith

module _ (S : Setting) (P₁ P₂ : Claim) (f : String → ℕ) (sql : String) (d : S.database.State) where
  abbrev Rows : Values → Values → Type 0
  Rows columns rows =
      (d' : S.database.State) × (S.database.execute (effective S sql).sql d
        ≡ some (columns, rows, d'))

  -- The first phase keeps what holds of the entries and leaves the database as it is; an answer that
  -- it gives has a source, and rows that it leaves pending are those of the database.
  pub record Begins (o : Begun S × World S) : Type 0 where
    pub kept : InCaches S.runtime P₁ P₂ f o.1.caches
    pub same_database : o.1.database ≡ d
    pub source :
        (q : QueryResult S.runtime.float.Num) → o.0 ≡ ended (some q) → Source S P₁ P₂ f sql d q
    pub is_read :
        (plan : RoutingPlan S.runtime.float.Num) (columns rows : Values)
        → o.0 ≡ pending plan columns rows
        → Rows columns rows

  same_end :
      (o o' : Option (QueryResult S.runtime.float.Num))
      → ◌≡◌ {A = Begun S} (ended o) (ended o')
      → o ≡ o'
  same_end o o' h = cc

  ended-ne-pending :
      (o : Option (QueryResult S.runtime.float.Num)) (plan : RoutingPlan S.runtime.float.Num)
      (columns rows : Values)
      → ◌≢◌ {A = Begun S} (ended o) (pending plan columns rows)
  ended-ne-pending o plan columns rows h = cc

  settle-Begins :
      (o : Option (QueryResult S.runtime.float.Num) × World S)
      → Served S P₁ P₂ f sql d o
      → Begins (settle S o)
  settle-Begins (o, w) s = record {
    kept = s.kept;
    same_database = s.same_database;
    source = λ q e. s.source q (same_end o (some q) e);
    is_read = λ plan columns rows e. absurd (ended-ne-pending o plan columns rows e);
  }

  module _ (ok : IsRuntime S.runtime) (may : MayStore S P₁ P₂ f sql d) (r : Clock S.runtime)
      (latency : S.runtime.float.Num) where
    run_on_database-Begins :
        (plan : RoutingPlan S.runtime.float.Num) (w : World S)
        (o : Option (Values × Values × S.database.State))
        → InCaches S.runtime P₁ P₂ f w.caches
        → w.database ≡ d
        → S.database.execute (effective S sql).sql d ≡ o
        → Begins (run_on_database S r latency sql plan w o)
    unfolding begin
    run_on_database-Begins plan w none h same ran = record {
      kept = h;
      same_database = same;
      source = λ q e. cc;
      is_read = λ plan columns rows e. cc;
    }
    run_on_database-Begins plan w (some (columns, rows, d')) h same ran = record {
      kept = h;
      same_database = may.pure columns rows d' ran;
      source = λ q e. cc;
      is_read = λ plan columns rows e. (d', cc);
    }

    look_at-Begins :
        (plan : RoutingPlan S.runtime.float.Num) (found : CacheLookupResult) (w : World S)
        → InCaches S.runtime P₁ P₂ f w.caches
        → w.database ≡ d
        → Found S.runtime P₁ P₂ f (effective_fp S sql).cache_key (effective_fp S sql).tables found
        → Begins (look_at S r latency sql plan (some found) w)
    unfolding begin unpack_found
    look_at-Begins plan found w h same (in_l1 captured v e p) =
        subst (λ (x : CacheLookupResult). Begins (look_at S r latency sql plan (some x) w)) (sym e)
          (settle-Begins _ (
            answer-Served S P₁ P₂ f sql d ok may r latency (effective_fp S sql) (effective S sql)
              plan l1 (unpack v) w h same (λ q tier parts. from_l1 captured v tier parts p)))
    look_at-Begins plan found w h same (in_l2 captured v e p b) =
        subst (λ (x : CacheLookupResult). Begins (look_at S r latency sql plan (some x) w)) (sym e)
          (settle-Begins _ (
            answer-Served S P₁ P₂ f sql d ok may r latency (effective_fp S sql) (effective S sql)
              plan l2 (unpack v) w h same (λ q tier parts. from_l2 captured v tier parts p b)))
    look_at-Begins plan found w h same (nowhere e) =
        subst (λ (x : CacheLookupResult). Begins (look_at S r latency sql plan (some x) w)) (sym e)
          (run_on_database-Begins plan w _ h same
            (ap (S.database.execute (effective S sql).sql) (sym same)))

    pub begin-Begins :
        (w : World S)
        → InCaches S.runtime P₁ P₂ f w.caches
        → w.database ≡ d
        → Begins (begin S r latency sql w)
    unfolding begin
    begin-Begins w h same =
        elim (Option-cases (estimates S.database (effective S sql).sql w.database)) [
          | inl raised ↦ rw raised (record {
            kept = h;
            same_database = same;
            source = λ q e. cc;
            is_read = λ plan columns rows e. cc;
          })
          | inr (e, there) ↦
              let plan = Planner.decide_route S r (effective_fp S sql) w e in
              let looked =
                get-Looked S.runtime P₁ P₂ f (effective_fp S sql).cache_key
                  (effective_fp S sql).tables ok r plan.check_l1 plan.check_l2 w.caches h
                  may.promotable in
              rw (there, looked.returns)
                (look_at-Begins plan looked.result _ looked.kept same looked.found)
        ]

    -- The second phase, of rows that are still those of the database, keeps what holds of the entries
    -- and of the database.
    pub finish-Served :
        (plan : RoutingPlan S.runtime.float.Num) (columns rows : Values) (w : World S)
        → Rows columns rows
        → InCaches S.runtime P₁ P₂ f w.caches
        → w.database ≡ d
        → Served S P₁ P₂ f sql d (finish S r latency sql plan columns rows w)
    unfolding finish
    finish-Served plan columns rows w (d', ran) h same =
        let (kept, left) = write_back-kept S P₁ P₂ f sql d ok may r plan columns rows d' w ran h in
        Requests.finish-Served S P₁ P₂ f sql d ok may r latency plan columns rows d'
          (write_back S r (effective_fp S sql) plan columns rows w) ran kept (left ∙ same)
