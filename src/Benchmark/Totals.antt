-- ===== src/Benchmark/Totals.antt =====
-- scripts/run_benchmark.py: when the stage "report" returns.
use mathlib.Core.List.{map-map}
use cacheopt.Base.{
  ℕ, suc, ◌<◌, ◌≡◌, ◌≢◌, refl, sym, ◌∙◌, ap, inl, inr, Bool, true, false, Option, none, some, List,
  [], ◌∷◌, ◌++◌, ◌==◌, map, length, arith, Bool-cases,
}
use cacheopt.Benchmark.{BaselineRow, OptimizedRow, Tally, percentile}
use cacheopt.Benchmark.Report.{
  Summary, RepeatWorkload, Latencies, latencies, hot_latencies, base_marks, opt_marks,
  all_latencies, mean_if_any, latency_reduction, repeat_workload, report,
}
use cacheopt.Float.{Float}

module _ {A B : Type 0} (g : A → B) where
  pub length-map : (xs : List A) → length (map g xs) ≡ length xs
  length-map [] = refl
  length-map (x ∷ xs) = ap suc (length-map xs)

  pub map-append : (xs ys : List A) → map g (xs ++ ys) ≡ map g xs ++ map g ys
  map-append [] ys = refl
  map-append (x ∷ xs) ys = ap (λ (l : List B). g x ∷ l) (map-append xs ys)

module _ {A : Type 0} where
  pub same_some : {x y : A} → some x ≡ some y → x ≡ y
  same_some h = cc

  pub none-ne-some : (x : A) → none ≢ some x
  none-ne-some x h = cc

-- How many of the flags are set.
abbrev pub trues : List Bool → ℕ
trues [] = 0
trues (true ∷ bs) = suc (trues bs)
trues (false ∷ bs) = trues bs

module _ {N : Type 0} where
  length-hot_latencies :
      (rows : List (Bool × N)) → length (hot_latencies rows) ≡ trues (map (λ r. r.0) rows)
  unfolding hot_latencies
  length-hot_latencies [] = refl
  length-hot_latencies ((true, x) ∷ rows) = ap suc (length-hot_latencies rows)
  length-hot_latencies ((false, x) ∷ rows) = length-hot_latencies rows

module _ {N : Type 0} where
  pub hot_base :
      (rows : List (BaselineRow N))
      → length (hot_latencies (base_marks rows)) ≡ trues (map (λ r. r.is_hot) rows)
  hot_base rows = length-hot_latencies (base_marks rows) ∙ ap trues (map-map _ _ rows)

  pub hot_opt :
      (rows : List (OptimizedRow N))
      → length (hot_latencies (opt_marks rows)) ≡ trues (map (λ r. r.is_hot) rows)
  hot_opt rows = length-hot_latencies (opt_marks rows) ∙ ap trues (map-map _ _ rows)

-- What `statistics.mean` promises: it raises for no values, and else returns.
pub record IsMean {N : Type 0} (mean : List N → Option N) : Type 0 where
  pub mean_nil : mean [] ≡ none
  pub mean_cons : (x : N) (xs : List N) → (m : N) × (mean (x ∷ xs) ≡ some m)

module _ (F : Float) (rounded : F.Num → ℕ) (mean : List F.Num → Option F.Num)
    (ok : IsMean mean) where
  mean_total : (xs : List F.Num) → 0 < length xs → (m : F.Num) × (mean xs ≡ some m)
  mean_total [] pos = absurd (omega arith)
  mean_total (x ∷ xs) pos = ok.mean_cons x xs

  mean_if_any_total :
      (xs : List F.Num) → (o : Option F.Num) × (mean_if_any F rounded mean xs ≡ some o)
  unfolding mean_if_any
  mean_if_any_total [] = (none, refl)
  mean_if_any_total (x ∷ xs) = let (m, there) = ok.mean_cons x xs in (some m, rw there refl)

  reduction_total :
      (xs ys : List F.Num)
      → length xs ≡ length ys
      → (o : Option F.Num) × (latency_reduction F rounded mean xs ys ≡ some o)
  unfolding latency_reduction
  reduction_total [] ys same = (none, refl)
  reduction_total (x ∷ xs) ys same =
      let (m, base) = ok.mean_cons x xs in
      let (m', opt) = mean_total ys (omega arith) in
      elim (Bool-cases (F.lt (F.num 0) m)) [
        | inl pos ↦
            (some (F.mul (F.num 100) (F.sub (F.num 1) (F.div m' m))), rw (base, pos, opt) refl)
        | inr unmeasured ↦ (none, rw (base, unmeasured) refl)
      ]

  repeat_workload_total :
      (xs ys : List F.Num)
      → length xs ≡ length ys
      → (r : RepeatWorkload F.Num) × (repeat_workload F rounded mean xs ys ≡ some r)
        × (r.n_repeat_queries ≡ length xs)
  unfolding repeat_workload
  repeat_workload_total xs ys same =
      let (b, base) = mean_if_any_total xs in
      let (o, opt) = mean_if_any_total ys in
      let (r, reduced) = reduction_total xs ys same in
      (
        record {
          n_repeat_queries = length xs;
          baseline_mean_ms = b;
          optimized_mean_ms = o;
          latency_reduction_pct = r;
        },
        rw (base, opt, reduced) refl,
        refl,
      )

  latencies_total :
      (xs : List F.Num) (m : F.Num)
      → mean xs ≡ some m
      → (l : Latencies F.Num) × (latencies F rounded mean xs ≡ some l)
  unfolding report
  latencies_total xs m there = (
    record {
      mean_ms = m;
      p50_ms = percentile F rounded xs (F.num 50);
      p95_ms = percentile F rounded xs (F.num 95);
      p99_ms = percentile F rounded xs (F.num 99);
    },
    rw there refl,
  )

  pub report_total :
      (p_hot : F.Num) (rows : List (BaselineRow F.Num)) (t : Tally F.Num)
      → 0 < length rows
      → map (λ r. r.is_hot) rows ≡ map (λ r. r.is_hot) t.results
      → ((m : F.Num) → mean (all_latencies (opt_marks t.results)) ≡ some m → F.is_zero m ≡ false)
      → (s : Summary F.Num) × (report F rounded mean p_hot rows t ≡ some s)
        × (s.n_queries ≡ length rows)
        × (s.repeat_workload.n_repeat_queries ≡ trues (map (λ r. r.is_hot) rows))
  unfolding report
  report_total p_hot rows t pos flags runs =
      let same : length rows ≡ length t.results =
        sym (length-map (λ r. r.is_hot) rows)
        ∙ ap length flags
        ∙ length-map (λ r. r.is_hot) t.results in
      let matched : (length rows == length t.results) ≡ true = ground (arith, same) in
      let (m, base) =
        mean_total (all_latencies (base_marks rows)) (rw (length-map, length-map) pos) in
      let (m', opt) =
        mean_total (all_latencies (opt_marks t.results))
          (rw (length-map, length-map) (omega (arith, same))) in
      let (b, base_side) = latencies_total (all_latencies (base_marks rows)) m base in
      let (o, opt_side) = latencies_total (all_latencies (opt_marks t.results)) m' opt in
      let (r, repeated, counted_hot) =
        repeat_workload_total (hot_latencies (base_marks rows))
          (hot_latencies (opt_marks t.results))
          (hot_base rows ∙ ap trues flags ∙ sym (hot_opt t.results)) in
      (
        record {
          n_queries = length rows;
          p_hot = p_hot;
          baseline = b;
          optimized = o;
          repeat_workload = r;
          cache_tier_distribution = t.tier_counts;
          rewrite_rule_activations = t.rewrite_counts;
          overall_speedup_x = F.div m m';
        },
        rw (matched, base_side, opt_side, repeated, base, opt, runs m' opt) refl,
        refl,
        counted_hot ∙ hot_base rows,
      )
