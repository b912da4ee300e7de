-- ===== src/Tests/Stages.antt =====
-- The stages of the benchmark for one query.
use cacheopt.Base.{
  ℕ, ◌+◌, ◌/◌, ◌≡◌, refl, sym, ◌∙◌, String, some, none, Option, List, false, [], ◌∷◌, dec_str, map,
  arith, length,
}
use native.Mathlib.Nat.{mod-lt}
use cacheopt.CostModel.Calibration.{refresh_stats, calibrate_nodes, calibrate_table}
use cacheopt.CostModel.{calibrate}
use cacheopt.Stats.Catalog.{refresh_from_duckdb, table_stats}
use cacheopt.Engine.Startup.{new_cluster}
use cacheopt.Workload.Traffic.{generate_workload, hot_set}
use cacheopt.Workload.{int_text}
use cacheopt.Workload.Templates.{
  templates, event_type_breakdown, revenue_by_region_last_n_days, daily_region_rollup,
  top_products_by_revenue, customer_lifetime_value, category_revenue_breakdown,
  region_macro_area_breakdown, signup_cohort_revenue, single_region_point_lookup,
}
use cacheopt.Base.{or_else, ◌%◌}
use cacheopt.Benchmark.Stages.{baseline_stage, optimized_stage, report-stages}
use cacheopt.Engine.Reports.{NodeStats}
use cacheopt.Stats.Catalog.{Connection}
use cacheopt.Tests.Clusters.{settings}
use cacheopt.Value.{int, pos}
use cacheopt.Workload.{Random, IsRandom}
use cacheopt.CostModel.{plan, charged_rows}
use cacheopt.Database.{estimates, explain_result_cardinality, explain_cardinality, explain_json}
use cacheopt.Dict.{lookup, insert}
use cacheopt.Engine.{Node, world, set}
use cacheopt.Explain.{own_cardinality, find_max_cardinality}
use cacheopt.Fingerprint.{fingerprint}
use cacheopt.Memory
use cacheopt.Planner
use cacheopt.Planner.{
  World, QueryResult, effective, effective_fp, unpack, write_back, answer, resolve,
}
use cacheopt.Redis.Keys.{result_key, version_key}
use cacheopt.RedisCache
use cacheopt.Stats.{total_rows, record_query, hotness}
use cacheopt.Tests.Toy.{setting, cluster, clock}
use cacheopt.Tiered
use cacheopt.Tiered.{miss}
use cacheopt.Versions.{current_versions, is_stale}
use cacheopt.Benchmark
use cacheopt.Benchmark.{
  Timed, BaselineRow, Tally, OptimizedRow, no_queries, run_baseline, run_queries, run_one,
  count_result,
}
use cacheopt.Benchmark.Report.{Summary, report, opt_marks, all_latencies}
use cacheopt.Benchmark.Replays.{flag}
use cacheopt.Benchmark.Totals.{same_some, IsMean, trues}
use cacheopt.Engine
use cacheopt.Engine.{admits, route}
use cacheopt.Memory.{is_member}

abbrev total : List ℕ → ℕ
total [] = 0
total (x ∷ xs) = x + total xs

abbrev mean : List ℕ → Option ℕ
mean [] = none
mean (x ∷ xs) = some (total (x ∷ xs) / length (x ∷ xs))

mean-IsMean : IsMean mean
mean-IsMean = record { mean_nil = refl; mean_cons = λ x xs. (_, refl) }

abbrev strip : String → String
strip s = s

abbrev counting : Random ℕ
counting = record {
  State = ℕ;
  seeded = λ n. n;
  randint = λ a b g. (a, g + 1);
  random = λ g. (g % 100, g + 1);
  choice_index = λ n g. (g % n, g + 1);
}

counting-IsRandom : IsRandom counting
counting-IsRandom n g some_choice = mod-lt g some_choice

abbrev connection : Connection
connection = record {
  row_count = λ t. some 5000;
  approx_count_distinct = λ t col. some 20;
  min_max = λ t col. some (int (pos 0), int (pos 19));
}

abbrev rows : List (BaselineRow ℕ)
rows = or_else (baseline_stage setting counting strip 1 88 7 (λ i. 8) 5) []

baseline_ran : baseline_stage setting counting strip 1 88 7 (λ i. 8) 5 ≡ some rows
unfolding baseline_stage run_baseline dec_str generate_workload templates event_type_breakdown
    hot_set revenue_by_region_last_n_days daily_region_rollup top_products_by_revenue
    customer_lifetime_value category_revenue_breakdown region_macro_area_breakdown
    signup_cohort_revenue single_region_point_lookup int_text
baseline_ran = refl

abbrev run : Tally ℕ × List (NodeStats ℕ)
run =
    or_else
      (optimized_stage setting counting strip 1 88 7 3 (λ i. clock) (λ i. 4)
        "data/warehouse2.duckdb" settings cluster.server connection (5 ∷ 6 ∷ 7 ∷ []) 5)
      (no_queries, [])

optimized_ran :
    optimized_stage setting counting strip 1 88 7 3
      (λ i. clock)
      (λ i. 4)
      "data/warehouse2.duckdb"
      settings
      cluster.server
      connection
      (5 ∷ 6 ∷ 7 ∷ [])
      5
    ≡ some run
unfolding Engine.execute admits run_queries run_one count_result Planner.execute route
    RedisCache.invalidate Benchmark.bump Benchmark.bump_all Benchmark.tier_value is_member dec_str
    estimates explain_result_cardinality explain_json own_cardinality Tiered.get plan charged_rows
    explain_cardinality find_max_cardinality total_rows fingerprint lookup Memory.get RedisCache.get
    Tiered.put current_versions RedisCache.put Memory.put is_stale record_query hotness insert
    effective effective_fp unpack write_back answer resolve result_key version_key set
    optimized_stage refresh_stats refresh_from_duckdb table_stats calibrate_nodes calibrate_table
    calibrate new_cluster generate_workload templates event_type_breakdown hot_set
    revenue_by_region_last_n_days daily_region_rollup top_products_by_revenue
    customer_lifetime_value category_revenue_breakdown region_macro_area_breakdown
    signup_cohort_revenue single_region_point_lookup int_text Memory.init
optimized_ran = refl

optimized_mean : mean (all_latencies (opt_marks run.0.results)) ≡ some 4
unfolding Engine.execute admits run_queries run_one count_result Planner.execute route
    RedisCache.invalidate Benchmark.bump Benchmark.bump_all Benchmark.tier_value is_member dec_str
    estimates explain_result_cardinality explain_json own_cardinality Tiered.get plan charged_rows
    explain_cardinality find_max_cardinality total_rows fingerprint lookup Memory.get RedisCache.get
    Tiered.put current_versions RedisCache.put Memory.put is_stale record_query hotness insert
    effective effective_fp unpack write_back answer resolve result_key version_key set
    optimized_stage refresh_stats refresh_from_duckdb table_stats calibrate_nodes calibrate_table
    calibrate new_cluster generate_workload templates event_type_breakdown hot_set
    revenue_by_region_last_n_days daily_region_rollup top_products_by_revenue
    customer_lifetime_value category_revenue_breakdown region_macro_area_breakdown
    signup_cohort_revenue single_region_point_lookup int_text Memory.init
optimized_mean = refl

not_zero :
    (m : ℕ)
    → mean (all_latencies (opt_marks run.0.results)) ≡ some m
    → setting.runtime.float.is_zero m ≡ false
not_zero m h = rw (sym (same_some (sym optimized_mean ∙ h))) refl

report-stages_example :
    (hot_sqls : List String) × (workload : List (String × String)) × (summary : Summary ℕ)
    × (hot_set setting.runtime.float counting strip ≡ some hot_sqls)
    × (generate_workload setting.runtime.float counting 1 88 7 ≡ some workload)
    × (report setting.runtime.float (λ n. n) mean 88 rows run.0 ≡ some summary)
    × (summary.n_queries ≡ 1)
    × (summary.repeat_workload.n_repeat_queries
        ≡ trues (map (flag setting strip hot_sqls) workload))
report-stages_example =
    report-stages setting counting strip 1 88 7 3 (λ i. clock) (λ i. 4) "data/warehouse2.duckdb"
      settings cluster.server (λ n. n) mean mean-IsMean counting-IsRandom connection
      (5 ∷ 6 ∷ 7 ∷ []) 5 5 (λ i. 8) rows run.0 run.1 (omega arith) baseline_ran optimized_ran
      not_zero
