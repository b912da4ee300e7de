-- ===== src/Benchmark/Stages.antt =====
-- scripts/run_benchmark.py: `run_baseline` and `run_optimized` as the stages of `main`, which make their
-- workload from the same arguments.
use mathlib.Core.List.{map-map}
use cacheopt.Base.{
  ℕ, suc, ◌<◌, ◌≡◌, refl, sym, ◌∙◌, ap, String, Bool, false, Option, none, some, List, [], ◌∷◌, map,
  length, arith,
}
use cacheopt.Api.Lifetime.{serving, fact_tables, sample_columns, calibrated}
use cacheopt.Benchmark.{BaselineRow, Tally, Timed, run_baseline, run_queries, no_queries}
use cacheopt.Benchmark.Report.{Summary, report, opt_marks, all_latencies}
use cacheopt.Benchmark.Replays.{flag, flags-run_baseline, flags-run_queries}
use cacheopt.Benchmark.Totals.{length-map, trues, IsMean, report_total}
use cacheopt.Config.{Config}
use cacheopt.CostModel.Calibration.{refresh_stats}
use cacheopt.Engine.{Cluster}
use cacheopt.Engine.Reports.{NodeStats, stats_from}
use cacheopt.Engine.Startup.{new_cluster}
use cacheopt.Planner.{Setting}
use cacheopt.Stats.{StatsCatalog}
use cacheopt.Stats.Catalog.{Connection}
use cacheopt.Tiered.{Clock}
use cacheopt.Versions.{◌>>=◌}
use cacheopt.Workload.{Random, IsRandom}
use cacheopt.Workload.Items.{generate_workload_items}
use cacheopt.Workload.Traffic.{generate_workload, hot_set}

module _ (S : Setting) (R : Random S.runtime.float.Num) (strip : String → String) where
  abbrev Num : Type 0
  Num = S.runtime.float.Num

  -- The queries, each with its measured latency.
  abbrev pub measured : (ℕ → Num) → ℕ → List (String × String) → List ((String × String) × Num)
  measured latency i [] = []
  measured latency i (q ∷ qs) = (q, latency i) ∷ measured latency (suc i) qs

  -- The queries, each with what the clock shows while it runs.
  abbrev pub clocked :
      (catalog : StatsCatalog) (hot_sqls : List String)
      → (ℕ → Clock S.runtime)
      → (ℕ → Num)
      → ℕ
      → List (String × String)
      → List (Timed (serving S catalog) strip hot_sqls)
  clocked catalog hot_sqls clock latency i [] = []
  clocked catalog hot_sqls clock latency i (q ∷ qs) =
      (q, clock i, latency i) ∷ clocked catalog hot_sqls clock latency (suc i) qs

  -- `run_baseline`
  unfoldable pub baseline_stage :
      ℕ → Num → ℕ → (ℕ → Num) → S.database.State → Option (List (BaselineRow Num))
  baseline_stage n p_hot seed latency d = do
    workload ← generate_workload S.runtime.float R n p_hot seed
    hot_sqls ← hot_set S.runtime.float R strip
    run_baseline S strip hot_sqls (measured latency 0 workload) d

  -- The settings of `run_optimized`
  abbrev pub bench_config : String → Config Num → Config Num
  bench_config db_path config = record config {
    duckdb_path = db_path;
    duckdb_read_only = false;
    redis_mode = "embedded";
    redis_rdb_path = "data/bench_redis.rdb";
  }

  completed :
      (catalog : StatsCatalog)
      → Option (Unit {0}) × Cluster (serving S catalog) × Tally Num
      → Option (Tally Num × List (NodeStats Num))
  completed catalog (none, c, t) = none
  completed catalog (some _, c, t) = some (t, stats_from (serving S catalog) 0 c.nodes)

  module _ (n : ℕ) (p_hot : Num) (seed num_nodes : ℕ) (clock : ℕ → Clock S.runtime)
      (latency : ℕ → Num) (db_path : String) (config : Config Num) (s : S.runtime.redis.State) where
    -- `run_optimized` behind `refresh_stats`
    replay : StatsCatalog → S.database.State → Option (Tally Num × List (NodeStats Num))
    unfolding completed
    replay catalog d = do
      workload ← generate_workload S.runtime.float R n p_hot seed
      hot_sqls ← hot_set S.runtime.float R strip
      completed catalog (
          run_queries (serving S catalog) strip hot_sqls
            (clocked catalog hot_sqls clock latency 0 workload) 0
            (new_cluster (serving S catalog) (bench_config db_path config) num_nodes s d)
            no_queries)

    refreshed :
        Option (Unit {0}) × StatsCatalog × List Num × S.database.State
        → Option (Tally Num × List (NodeStats Num))
    unfolding replay
    refreshed (none, catalog, rates, d) = none
    refreshed (some _, catalog, rates, d) = replay catalog d

    -- `run_optimized`, with the times that the calibration of the nodes measures: the tally of the queries
    -- and the statistics of the nodes.
    unfoldable pub optimized_stage :
        Connection → List Num → S.database.State → Option (Tally Num × List (NodeStats Num))
    unfolding refreshed
    optimized_stage conn times d = refreshed (
        refresh_stats S.runtime.float S.database conn sample_columns fact_tables
          (calibrated S times) [] d)

    map-clocked :
        (catalog : StatsCatalog) (hot_sqls : List String) (i : ℕ) (qs : List (String × String))
        → map (λ q. q.0) (clocked catalog hot_sqls clock latency i qs) ≡ qs
    map-clocked catalog hot_sqls i [] = refl
    map-clocked catalog hot_sqls i (q ∷ qs) =
        ap (λ (l : List (String × String)). q ∷ l) (map-clocked catalog hot_sqls (suc i) qs)

    map-measured :
        (measure : ℕ → Num) (i : ℕ) (qs : List (String × String))
        → map (λ q. q.0) (measured measure i qs) ≡ qs
    map-measured measure i [] = refl
    map-measured measure i (q ∷ qs) =
        ap (λ (l : List (String × String)). q ∷ l) (map-measured measure (suc i) qs)

    completed_ran :
        (catalog : StatsCatalog) (o : Option (Unit {0}) × Cluster (serving S catalog) × Tally Num)
        (t : Tally Num) (stats : List (NodeStats Num))
        → completed catalog o ≡ some (t, stats)
        → (o.0 ≡ some tt) × (o.2 ≡ t)
    unfolding completed
    completed_ran catalog (none, c, t₀) t stats ran = cc
    completed_ran catalog (some _, c, t₀) t stats ran = (refl, cc)

    -- The flags of the results of the stage are those of the workload.
    abbrev Flagged : List String → List (String × String) → List Bool → Type 0
    Flagged hot_sqls workload bs = bs ≡ map (flag S strip hot_sqls) workload

    completed_flags :
        (catalog : StatsCatalog) (hot_sqls : List String) (workload : List (String × String))
        (d : S.database.State) (t : Tally Num) (stats : List (NodeStats Num))
        → completed catalog (
            run_queries
              (serving S catalog)
              strip
              hot_sqls
              (clocked catalog hot_sqls clock latency 0 workload)
              0
              (new_cluster (serving S catalog) (bench_config db_path config) num_nodes s d)
              no_queries)
          ≡ some (t, stats)
        → Flagged hot_sqls workload (map (λ r. r.is_hot) t.results)
    completed_flags catalog hot_sqls workload d t stats ran =
        let queries = clocked catalog hot_sqls clock latency 0 workload in
        let c = new_cluster (serving S catalog) (bench_config db_path config) num_nodes s d in
        let (done, last) = completed_ran catalog _ t stats ran in
        ap (λ (x : Tally Num). map (λ r. r.is_hot) x.results) (sym last)
        ∙ flags-run_queries (serving S catalog) strip hot_sqls queries 0 c no_queries done
        ∙ sym (map-map (flag S strip hot_sqls) (λ q. q.0) queries)
        ∙ ap (map (flag S strip hot_sqls)) (map-clocked catalog hot_sqls 0 workload)

    refreshed-replay :
        (o : Option (Unit {0}) × StatsCatalog × List Num × S.database.State)
        (x : Tally Num × List (NodeStats Num))
        → refreshed o ≡ some x
        → replay o.1 o.3 ≡ some x
    unfolding refreshed
    refreshed-replay (none, catalog, rates, d) x ran = cc
    refreshed-replay (some _, catalog, rates, d) x ran = ran

    module _ (rounded : Num → ℕ) (mean : List Num → Option Num) (ok : IsMean mean)
        (random : IsRandom R) where
      -- Where random choices take elements, and for the mean as `IsMean` describes it: if the stages
      -- "baseline" and "optimized" have returned for one number of queries that is not zero, one share of
      -- hot ones and one seed, and the mean latency of the second is not zero, the stage "report"
      -- returns; it reports as many queries as were asked for, and as repeated ones those of the
      -- workload whose text is in `_hot_set`.
      pub report-stages :
          (conn : Connection) (times : List Num) (d d' : S.database.State) (measure : ℕ → Num)
          (rows : List (BaselineRow Num)) (t : Tally Num) (stats : List (NodeStats Num))
          → 0 < n
          → baseline_stage n p_hot seed measure d ≡ some rows
          → optimized_stage conn times d' ≡ some (t, stats)
          → ((m : Num)
              → mean (all_latencies (opt_marks t.results)) ≡ some m
              → S.runtime.float.is_zero m ≡ false)
          → (hot_sqls : List String) × (workload : List (String × String)) × (summary : Summary Num)
            × (hot_set S.runtime.float R strip ≡ some hot_sqls)
            × (generate_workload S.runtime.float R n p_hot seed ≡ some workload)
            × (report S.runtime.float rounded mean p_hot rows t ≡ some summary)
            × (summary.n_queries ≡ n)
            × (summary.repeat_workload.n_repeat_queries
                ≡ trues (map (flag S strip hot_sqls) workload))
      unfolding baseline_stage optimized_stage
      report-stages conn times d d' measure rows t stats pos ran₁ ran₂ lasts =
          let (hot, items, rendered, drawn, count, _) =
            generate_workload_items S.runtime.float R strip random n p_hot seed in
          let baseline : run_baseline S strip hot (measured measure 0 items) d ≡ some rows =
            rw (drawn, rendered) at ran₁ in
          let flags₁ : Flagged hot items (map (λ r. r.is_hot) rows) =
            flags-run_baseline S strip hot (measured measure 0 items) d rows baseline
            ∙ sym (map-map (flag S strip hot) (λ q. q.0) (measured measure 0 items))
            ∙ ap (map (flag S strip hot)) (map-measured measure 0 items) in
          let replayed = refreshed-replay _ (t, stats) ran₂ in
          let flags₂ : Flagged hot items (map (λ r. r.is_hot) t.results) =
            completed_flags _ hot items _ t stats (rw (drawn, rendered) at replayed) in
          let size : length rows ≡ n =
            sym (length-map (λ r. r.is_hot) rows)
            ∙ ap length flags₁
            ∙ length-map (flag S strip hot) items
            ∙ count in
          let (summary, made, queries, repeated) =
            report_total S.runtime.float rounded mean ok p_hot rows t (omega (arith, size, pos))
              (flags₁ ∙ sym flags₂) lasts in
          (hot, items, summary, rendered, drawn, made, queries ∙ size, repeated ∙ ap trues flags₁)
