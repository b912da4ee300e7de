-- ===== src/Benchmark/Report.antt =====
-- scripts/run_benchmark.py: the stage "report" of `main`, from the results of the other two stages (as
-- `json` keeps them).
use cacheopt.Base.{
  ℕ, Bool, true, false, Option, none, some, List, [], ◌∷◌, map, length, ◌==◌, if◌then◌else◌,
}
use cacheopt.Benchmark.{BaselineRow, OptimizedRow, Tally, percentile}
use cacheopt.Dict.{Dict}
use cacheopt.Float.{Float}
use cacheopt.Versions.{◌>>=◌}

-- `summary["baseline"]` and `summary["optimized"]`; a percentile that is NaN is `none`.
pub record Latencies (N : Type 0) : Type 0 where
  pub mean_ms : N
  pub p50_ms : Option N
  pub p95_ms : Option N
  pub p99_ms : Option N

-- `summary["repeat_workload"]`; `None` is `none`.
pub record RepeatWorkload (N : Type 0) : Type 0 where
  pub n_repeat_queries : ℕ
  pub baseline_mean_ms : Option N
  pub optimized_mean_ms : Option N
  pub latency_reduction_pct : Option N

pub record Summary (N : Type 0) : Type 0 where
  pub n_queries : ℕ
  pub p_hot : N
  pub baseline : Latencies N
  pub optimized : Latencies N
  pub repeat_workload : RepeatWorkload N
  pub cache_tier_distribution : Dict ℕ
  pub rewrite_rule_activations : Dict ℕ
  pub overall_speedup_x : N

-- `[r["latency_ms"] for r in results if r["is_hot"]]`
unfoldable pub hot_latencies : {N : Type 0} → List (Bool × N) → List N
hot_latencies [] = []
hot_latencies ((true, x) ∷ rows) = x ∷ hot_latencies rows
hot_latencies ((false, x) ∷ rows) = hot_latencies rows

abbrev pub base_marks : {N : Type 0} → List (BaselineRow N) → List (Bool × N)
base_marks rows = map (λ r. (r.is_hot, r.latency_ms)) rows

abbrev pub opt_marks : {N : Type 0} → List (OptimizedRow N) → List (Bool × N)
opt_marks rows = map (λ r. (r.is_hot, r.latency_ms)) rows

abbrev pub all_latencies : {N : Type 0} → List (Bool × N) → List N
all_latencies rows = map (λ r. r.1) rows

-- `mean` is `statistics.mean`, `none` where it raises, and `rounded` is `int(round(…))`.
module _ (F : Float) (rounded : F.Num → ℕ) (mean : List F.Num → Option F.Num) where
  pub latencies : List F.Num → Option (Latencies F.Num)
  latencies values = do
    m ← mean values
    some (record {
      mean_ms = m;
      p50_ms = percentile F rounded values (F.num 50);
      p95_ms = percentile F rounded values (F.num 95);
      p99_ms = percentile F rounded values (F.num 99);
    })

  -- `statistics.mean(values) if values else None`
  unfoldable pub mean_if_any : List F.Num → Option (Option F.Num)
  mean_if_any [] = some none
  mean_if_any (x ∷ values) = do m ← mean (x ∷ values); some (some m)

  reduction_over : F.Num → List F.Num → Option (Option F.Num)
  reduction_over base_mean opt_hot = do
    opt_mean ← mean opt_hot
    some (some (F.mul (F.num 100) (F.sub (F.num 1) (F.div opt_mean base_mean))))

  unfoldable pub latency_reduction : List F.Num → List F.Num → Option (Option F.Num)
  unfolding reduction_over
  latency_reduction [] opt_hot = some none
  latency_reduction (x ∷ base_hot) opt_hot = do
    base_mean ← mean (x ∷ base_hot)
    if F.lt (F.num 0) base_mean then reduction_over base_mean opt_hot else some none

  unfoldable pub repeat_workload : List F.Num → List F.Num → Option (RepeatWorkload F.Num)
  unfolding mean_if_any latency_reduction
  repeat_workload base_hot opt_hot = do
    base_mean ← mean_if_any base_hot
    opt_mean ← mean_if_any opt_hot
    reduction ← latency_reduction base_hot opt_hot
    some (record {
      n_repeat_queries = length base_hot;
      baseline_mean_ms = base_mean;
      optimized_mean_ms = opt_mean;
      latency_reduction_pct = reduction;
    })

  -- `x / y`
  unfoldable pub quotient : F.Num → F.Num → Option F.Num
  quotient x y = if F.is_zero y then none else some (F.div x y)

  -- The summary; `none` where the assertion fails or something raises.
  unfoldable pub report : F.Num → List (BaselineRow F.Num) → Tally F.Num → Option (Summary F.Num)
  unfolding latencies repeat_workload quotient hot_latencies
  report p_hot base_results tally =
      let base = base_marks base_results in
      let opt = opt_marks tally.results in
      if length base_results == length tally.results
      then (do
        baseline ← latencies (all_latencies base)
        optimized ← latencies (all_latencies opt)
        repeated ← repeat_workload (hot_latencies base) (hot_latencies opt)
        base_mean ← mean (all_latencies base)
        opt_mean ← mean (all_latencies opt)
        speedup ← quotient base_mean opt_mean
        some (record {
          n_queries = length base_results;
          p_hot = p_hot;
          baseline = baseline;
          optimized = optimized;
          repeat_workload = repeated;
          cache_tier_distribution = tally.tier_counts;
          rewrite_rule_activations = tally.rewrite_counts;
          overall_speedup_x = speedup;
        }))
      else none
