-- ===== src/Tests/Traffic.antt =====
-- A workload, its run, and a request over HTTP.
use cacheopt.Base.{
  ℕ, ◌+◌, ◌%◌, ◌≡◌, ◌≢◌, String, false, some, List, [], ◌∷◌, arith, length, get_elem?,
}
use native.Mathlib.Nat.{mod-lt}
use cacheopt.Api.{error, reply_of}
use cacheopt.Api.Requests.{run_query, routing_key, affinity, run_query_outcome}
use cacheopt.Benchmark.{Timed, no_queries, run_queries}
use cacheopt.Benchmark.Tallies.{Continues, run_queries-IsTally}
use cacheopt.Engine
use cacheopt.Engine.{Node, admits}
use cacheopt.Tests.Requests.{query}
use cacheopt.Tests.Toy.{whole, setting, cluster, clock}
use cacheopt.Workload.{Random, IsRandom}
use cacheopt.Workload.Items.{AreItems, generate_workload_items}
use cacheopt.Workload.Traffic.{hot_set, generate_workload}

-- Draws by a counter.
abbrev counting : Random ℕ
counting = record {
  State = ℕ;
  seeded = λ n. n;
  randint = λ a b g. (a, g + 1);
  random = λ g. (g % 100, g + 1);
  choice_index = λ n g. (g % n, g + 1);
}

counting-IsRandom : IsRandom counting
counting-IsRandom n g pos = mod-lt g pos

abbrev strip : String → String
strip s = s

generate_workload_items_example :
    (hot : List String) × (items : List (String × String)) × (hot_set whole counting strip
      ≡ some hot)
    × (generate_workload whole counting 12 88 7 ≡ some items)
    × (length items ≡ 12)
    × AreItems whole counting strip 88 hot 7 items
generate_workload_items_example =
    generate_workload_items whole counting strip counting-IsRandom 12 88 7

abbrev queries : List (Timed setting strip (query ∷ []))
queries = (("select", query), clock, 1) ∷ (("select", query), clock, 1) ∷ []

run_queries-IsTally_example :
    Continues
      (length queries)
      no_queries
      (run_queries setting strip (query ∷ []) queries 0 cluster no_queries).0
      (run_queries setting strip (query ∷ []) queries 0 cluster no_queries).2
run_queries-IsTally_example = run_queries-IsTally setting strip (query ∷ []) queries 0 cluster

abbrev split : String → List String
split s = s ∷ []

abbrev digest : String → ℕ
digest s = 41

run_query_outcome_example :
    (i : ℕ) × (n : Node setting) × (get_elem? cluster.nodes i ≡ some n)
    × ((sql : String)
        → routing_key setting split digest sql ≡ routing_key setting split digest query
        → affinity setting split digest sql (length cluster.nodes) ≡ i)
    × (run_query setting split digest clock 1 query (some cluster) ≡ (
      reply_of (Engine.execute setting i n clock 1 query cluster).0,
      some (Engine.execute setting i n clock 1 query cluster).1,
    ))
    × ((j : ℕ)
        → j ≢ i
        → get_elem? (Engine.execute setting i n clock 1 query cluster).1.nodes j
          ≡ get_elem? cluster.nodes j)
    × (admits setting.sqlglot query ≡ false
        → run_query setting split digest clock 1 query (some cluster) ≡ (error 400, some cluster))
run_query_outcome_example =
    run_query_outcome setting split digest clock 1 query cluster (omega arith)
