-- ===== src/Tests/Numbers.antt =====
-- The statistics, the plans and the EXPLAIN search at concrete inputs.
use cacheopt.Base.{ℕ, ◌+◌, ◌*◌, ◌/◌, ◌≤◌, ◌<◌, ◌≡◌, All, none, some, List, [], ◌∷◌, length, arith}
use cacheopt.CostModel.{Estimates}
use cacheopt.CostModel.Admission.{Admission}
use cacheopt.Dict.{lookup}
use cacheopt.Explain.{Plan, object, array, leaf, field, end, cons, nil, find_max_cardinality}
use cacheopt.Explain.Search.{greatest, find_max_cardinality-greatest}
use cacheopt.Stats.{TemplateStats, p95_latency_ms, AccessPatternTracker, StatsCatalog, drop_oldest}
use cacheopt.Float.{Float}
use cacheopt.Stats.Percentiles.{IsMeasure, count_le, count_lt, p95_latency_ms_rank}
use cacheopt.Stats.History.{Sample, record_all, latencies, seen, history, record_all-history}
use cacheopt.Tests.Toy.{whole}

abbrev tracker : AccessPatternTracker whole
tracker = record { half_life = 3600; history_window = 2; templates = [] }

abbrev samples : List (Sample whole)
samples =
    record { template_id = "q"; latency_ms = 10; now = 1 }
    ∷ record { template_id = "r"; latency_ms = 20; now = 2 }
    ∷ record { template_id = "q"; latency_ms = 30; now = 3 }
    ∷ record { template_id = "q"; latency_ms = 40; now = 4 }
    ∷ []

record_all-history_example :
    (seen whole (lookup "q" (record_all whole samples tracker).templates)
      ≡ 0 + length (latencies whole "q" samples))
    × (history whole (lookup "q" (record_all whole samples tracker).templates)
        ≡ drop_oldest 2 (latencies whole "q" samples))
unfolding lookup
record_all-history_example = record_all-history whole samples tracker "q" (omega arith)

abbrev estimates : Estimates
estimates = record {
  work = some 700;
  result_rows = some 12;
  where_columns = some ("event_time" ∷ []);
}

abbrev catalog : StatsCatalog
catalog = ("t", record { row_count = 5000; approx_distinct = []; column_min_max = [] }) ∷ []

abbrev explained : Plan ℕ
explained = object (
    field "extra_info" (object (field "Estimated Cardinality" (leaf 30) end)) (
      field "children"
        (array (
          cons
            (object (field "extra_info" (object (field "Estimated Cardinality" (leaf 90) end)) end))
            nil))
        end))

find_max_cardinality-greatest_example :
    find_max_cardinality (λ n. some n) explained ≡ some (greatest (λ n. some n) explained)
find_max_cardinality-greatest_example = find_max_cardinality-greatest (λ n. some n) explained

-- Numbers in hundredths.
abbrev hundredths : Float
hundredths = record whole {
  num = λ n. 100 * n;
  decimal = λ m n. 100 * m / n;
  mul = λ m n. m * n / 100;
  div = λ m n. 100 * m / n;
  truncate = λ n. n / 100;
  ceil = λ n. (n + 99) / 100;
}

hundredths-IsMeasure : IsMeasure hundredths
hundredths-IsMeasure = record {
  lt_asym = λ x y h. ground arith;
  le_trans = λ x y z h k. ground arith;
  ceil_bound = λ n. omega arith;
  ceil_least = λ n. omega arith;
}

abbrev slow_template : TemplateStats ℕ
slow_template = record {
  count = 3;
  last_seen = 0;
  ewma_interarrival_s = none;
  latency_history_ms = 300 ∷ 100 ∷ 200 ∷ [];
}

p95_latency_ms_rank_example :
    (v : ℕ) × (p95_latency_ms hundredths slow_template ≡ some v)
    × ((P : ℕ → Type 0) → All P (300 ∷ 100 ∷ 200 ∷ []) → P v)
    × (95 * 3 ≤ 100 * count_le hundredths v (300 ∷ 100 ∷ 200 ∷ []))
    × (100 * count_lt hundredths v (300 ∷ 100 ∷ 200 ∷ []) < 95 * 3)
p95_latency_ms_rank_example =
    p95_latency_ms_rank hundredths hundredths-IsMeasure slow_template (omega arith)
