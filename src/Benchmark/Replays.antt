-- ===== src/Benchmark/Replays.antt =====
-- scripts/run_benchmark.py: the report on two runs of one workload.
use mathlib.Core.List.{append-nil, append_assoc, map-map}
use cacheopt.Base.{
  ℕ, ◌<◌, ◌≡◌, sym, ◌∙◌, ap, inl, inr, String, Bool, false, Option, none, some, List, [], ◌∷◌, ◌++◌,
  map, length, arith, Option-cases, get_elem?,
}
use cacheopt.Benchmark.{
  BaselineRow, Tally, Timed, run_baseline, run_one, run_queries, count_result, counted, no_queries,
}
use cacheopt.Benchmark.Report.{Summary, opt_marks, all_latencies, report}
use cacheopt.Engine.{Cluster, Outcome, returned, rejected, failed, route, execute}
use cacheopt.Memory.{is_member}
use cacheopt.Planner.{Setting, QueryResult}
use cacheopt.Tiered.{Clock}
use cacheopt.Benchmark.Totals.{
  length-map, map-append, trues, same_some, none-ne-some, IsMean, report_total,
}

module _ (S : Setting) (strip : String → String) (hot_sqls : List String) where
  abbrev pub flag : String × String → Bool
  flag (template, sql) = is_member (strip sql) hot_sqls

  -- The flags of a run of the baseline are those of the workload.
  pub flags-run_baseline :
      (queries : List ((String × String) × S.runtime.float.Num)) (d : S.database.State)
      (rows : List (BaselineRow S.runtime.float.Num))
      → run_baseline S strip hot_sqls queries d ≡ some rows
      → map (λ r. r.is_hot) rows ≡ map (λ q. flag q.0) queries
  unfolding run_baseline
  flags-run_baseline [] d rows ran = ap (map (λ r. r.is_hot)) (sym (same_some ran))
  flags-run_baseline (((template, sql), latency) ∷ more) d rows ran =
      elim (Option-cases (S.database.execute sql d)) [
        | inl raised ↦ absurd (none-ne-some rows (rw (raised, run_baseline) at ran))
        | inr ((columns, result, d'), done) ↦
            elim (Option-cases (run_baseline S strip hot_sqls more d')) [
              | inl raised ↦ absurd (none-ne-some rows (rw (done, run_baseline, raised) at ran))
              | inr (rest, later) ↦
                  let made = same_some (rw (done, run_baseline, later) at ran) in
                  ap (map (λ r. r.is_hot)) (sym made)
                  ∙ ap (λ (l : List Bool). flag (template, sql) ∷ l)
                      (flags-run_baseline more d' rest later)
            ]
      ]

  flags-counted :
      (template sql : String) (t : Tally S.runtime.float.Num)
      (answer : Outcome (QueryResult S.runtime.float.Num))
      → (counted S strip hot_sqls template (flag (template, sql)) t answer).0 ≡ some tt
      → map
          (λ r. r.is_hot)
          (counted S strip hot_sqls template (flag (template, sql)) t answer).1.results
        ≡ map (λ r. r.is_hot) t.results ++ flag (template, sql) ∷ []
  unfolding counted count_result
  flags-counted template sql t (returned q) ran = map-append _ t.results _
  flags-counted template sql t rejected ran = cc
  flags-counted template sql t failed ran = cc

  flags-run_one :
      (template sql : String) (clock : Clock S.runtime) (latency : S.runtime.float.Num) (i : ℕ)
      (c : Cluster S) (t : Tally S.runtime.float.Num)
      → (run_one S strip hot_sqls ((template, sql), clock, latency) i c t).0 ≡ some tt
      → map
          (λ r. r.is_hot)
          (run_one S strip hot_sqls ((template, sql), clock, latency) i c t).2.results
        ≡ map (λ r. r.is_hot) t.results ++ flag (template, sql) ∷ []
  unfolding run_one
  flags-run_one template sql clock latency i c t ran = elim (Option-cases (get_elem? c.nodes i)) [
    | inl absent ↦ let stopped : none ≡ some (tt {0}) = rw (absent, run_one) at ran in cc
    | inr (n, there) ↦
        rw (there, run_one)
          (flags-counted template sql t (execute S i n clock latency sql c).0
            (rw (there, run_one) at ran))
  ]

  pub flags-run_queries :
      (queries : List (Timed S strip hot_sqls)) (rr : ℕ) (c : Cluster S)
      (t : Tally S.runtime.float.Num)
      → (run_queries S strip hot_sqls queries rr c t).0 ≡ some tt
      → map (λ r. r.is_hot) (run_queries S strip hot_sqls queries rr c t).2.results
        ≡ map (λ r. r.is_hot) t.results ++ map (λ q. flag q.0) queries
  unfolding run_queries
  flags-run_queries [] rr c t ran = sym (append-nil _)
  flags-run_queries (((template, sql), clock, latency) ∷ more) rr c t ran =
      let (i, rr') = route none rr (length c.nodes) in
      elim (Option-cases (run_one S strip hot_sqls ((template, sql), clock, latency) i c t).0) [
        | inl raised ↦ let stopped : none ≡ some (tt {0}) = rw (raised, run_queries) at ran in cc
        | inr (_, one) ↦
            let (u, c', t') = run_one S strip hot_sqls ((template, sql), clock, latency) i c t in
            let later : (run_queries S strip hot_sqls more rr' c' t').0 ≡ some tt =
              rw (one, run_queries) at ran in
            rw (one, run_queries)
              (flags-run_queries more rr' c' t' later
                ∙ ap (λ (l : List Bool). l ++ map (λ q. flag q.0) more)
                    (flags-run_one template sql clock latency i c t one)
                ∙ append_assoc (map (λ r. r.is_hot) t.results) (flag (template, sql) ∷ [])
                    (map (λ q. flag q.0) more))
      ]

  module _ (rounded : S.runtime.float.Num → ℕ)
      (mean : List S.runtime.float.Num → Option S.runtime.float.Num) (ok : IsMean mean) where
    -- For the mean as `IsMean` describes it: where the stages "baseline" and "optimized" have run the same
    -- workload of one query at least, and the mean latency of the second is not zero, the stage
    -- "report" returns; it reports as many queries as the workload has, and as repeated ones those
    -- whose text is one of the hot ones.
    pub report-runs :
        (p_hot : S.runtime.float.Num) (workload : List (String × String))
        (timed : List ((String × String) × S.runtime.float.Num))
        (queries : List (Timed S strip hot_sqls)) (d : S.database.State)
        (rows : List (BaselineRow S.runtime.float.Num)) (rr : ℕ) (c : Cluster S)
        → 0 < length workload
        → map (λ q. q.0) timed ≡ workload
        → map (λ q. q.0) queries ≡ workload
        → run_baseline S strip hot_sqls timed d ≡ some rows
        → (run_queries S strip hot_sqls queries rr c no_queries).0 ≡ some tt
        → ((m : S.runtime.float.Num)
            → mean (
                all_latencies
                  (opt_marks (run_queries S strip hot_sqls queries rr c no_queries).2.results))
              ≡ some m
            → S.runtime.float.is_zero m ≡ false)
        → (s : Summary S.runtime.float.Num) × (report S.runtime.float rounded mean p_hot rows
              (run_queries S strip hot_sqls queries rr c no_queries).2
            ≡ some s)
          × (s.n_queries ≡ length workload)
          × (s.repeat_workload.n_repeat_queries ≡ trues (map flag workload))
    report-runs p_hot workload timed queries d rows rr c pos same₁ same₂ ran₁ ran₂ runs =
        let t = (run_queries S strip hot_sqls queries rr c no_queries).2 in
        let flags₁ : map (λ r. r.is_hot) rows ≡ map flag workload =
          flags-run_baseline timed d rows ran₁
          ∙ sym (map-map flag (λ q. q.0) timed)
          ∙ ap (map flag) same₁ in
        let flags₂ : map (λ r. r.is_hot) t.results ≡ map flag workload =
          flags-run_queries queries rr c no_queries ran₂
          ∙ sym (map-map flag (λ q. q.0) queries)
          ∙ ap (map flag) same₂ in
        let size : length rows ≡ length workload =
          sym (length-map (λ r. r.is_hot) rows) ∙ ap length flags₁ ∙ length-map flag workload in
        let (s, made, n, repeated) =
          report_total S.runtime.float rounded mean ok p_hot rows t (omega (arith, size, pos))
            (flags₁ ∙ sym flags₂) runs in
        (s, made, n ∙ size, repeated ∙ ap trues flags₁)
