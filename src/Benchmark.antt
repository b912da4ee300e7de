-- ===== src/Benchmark.antt =====
-- scripts/run_benchmark.py: `percentile` and the loops of `run_baseline` and `run_optimized`.
pub mod Tallies
pub mod Report
pub mod Totals
pub mod Replays
pub mod Stages
use Prim.Native.Nat.{min, max}
use cacheopt.Base.{
  ℕ, ◌+◌, ◌-◌, String, Bool, Option, none, some, List, [], ◌∷◌, ◌++◌, get_elem?, length,
}
use cacheopt.Dict.{Dict, insert, lookup_or}
use cacheopt.Engine.{Cluster, Outcome, returned, rejected, failed, route, execute}
use cacheopt.Float.{Float}
use cacheopt.Memory.{is_member}
use cacheopt.Planner.{Setting, QueryResult}
use cacheopt.Stats.{sorted}
use cacheopt.Tiered.{Clock, TierHit, l1, l2, miss}
use cacheopt.Value.{count}

-- `TierHit(…).value`
unfoldable pub tier_value : TierHit → String
tier_value l1 = "L1_MEMORY"
tier_value l2 = "L2_REDIS"
tier_value miss = "MISS"

-- `d[k] = d.get(k, 0) + 1`
unfoldable pub bump : String → Dict ℕ → Dict ℕ
bump k d = insert k (lookup_or k 0 d + 1) d

-- `for rule in rules: …`
unfoldable pub bump_all : List String → Dict ℕ → Dict ℕ
bump_all [] d = d
bump_all (k ∷ ks) d = bump_all ks (bump k d)

pub record BaselineRow (N : Type 0) : Type 0 where
  pub template : String
  pub is_hot : Bool
  pub latency_ms : N
  pub rows : ℕ

pub record OptimizedRow (N : Type 0) : Type 0 where
  pub template : String
  pub is_hot : Bool
  pub latency_ms : N
  pub tier_hit : String
  pub rewrites : List String

-- `results`, `rewrite_counts` and `tier_counts`.
pub record Tally (N : Type 0) : Type 0 where
  pub results : List (OptimizedRow N)
  pub rewrite_counts : Dict ℕ
  pub tier_counts : Dict ℕ

abbrev pub no_queries : {N : Type 0} → Tally N
no_queries = record { results = []; rewrite_counts = []; tier_counts = [] }

module _ {N : Type 0} where
  abbrev pub row_of : String → Bool → QueryResult N → OptimizedRow N
  row_of template is_hot q = record {
    template = template;
    is_hot = is_hot;
    latency_ms = q.latency_ms;
    tier_hit = tier_value q.tier_hit;
    rewrites = q.rewrites_applied;
  }

  -- The body of the loop behind `execute`.
  unfoldable pub count_result : String → Bool → QueryResult N → Tally N → Tally N
  count_result template is_hot q t = record {
    results = t.results ++ row_of template is_hot q ∷ [];
    rewrite_counts = bump_all q.rewrites_applied t.rewrite_counts;
    tier_counts = bump (tier_value q.tier_hit) t.tier_counts;
  }

module _ (F : Float) (rounded : F.Num → ℕ) where
  -- `percentile`; `rounded` is `int(round(…))`, and `none` is NaN.
  unfoldable pub percentile_index : ℕ → F.Num → ℕ
  percentile_index n p = max 0 (min (n - 1) (rounded (F.mul (F.div p (F.num 100)) (F.num (n - 1)))))

  unfoldable pub percentile : List F.Num → F.Num → Option F.Num
  unfolding percentile_index
  percentile values p = get_elem? (sorted F values) (percentile_index (length values) p)

module _ (S : Setting) (strip : String → String) (hot_sqls : List String) where
  -- The measured latency of each query is an argument.
  unfoldable pub run_baseline :
      List ((String × String) × S.runtime.float.Num)
      → S.database.State
      → Option (List (BaselineRow S.runtime.float.Num))
  run_baseline [] d = some []
  run_baseline (((template, sql), latency) ∷ more) d = elim (S.database.execute sql d) [
    | none ↦ none
    | some (columns, rows, d') ↦ elim (run_baseline more d') [
      | none ↦ none
      | some results ↦ some (
          (record {
            template = template;
            is_hot = is_member (strip sql) hot_sqls;
            latency_ms = latency;
            rows = count rows;
          })
          ∷ results)
    ]
  ]

  -- A query of the workload with what the clock shows while it runs.
  abbrev pub Timed : Type 0
  Timed = (String × String) × Clock S.runtime × S.runtime.float.Num

  counted :
      String
      → Bool
      → Tally S.runtime.float.Num
      → Outcome (QueryResult S.runtime.float.Num)
      → Option (Unit {0}) × Tally S.runtime.float.Num
  counted template is_hot t (returned q) = (some tt, count_result template is_hot q t)
  counted template is_hot t rejected = (none, t)
  counted template is_hot t failed = (none, t)

  -- The body of the loop of `run_optimized` on node `i`; `none` where it raises.
  unfoldable pub run_one :
      Timed
      → ℕ
      → Cluster S
      → Tally S.runtime.float.Num
      → Option (Unit {0}) × Cluster S × Tally S.runtime.float.Num
  unfolding counted
  run_one ((template, sql), clock, latency) i c t = elim (get_elem? c.nodes i) [
    | none ↦ (none, c, t)
    | some n ↦
        let (answer, c') = execute S i n clock latency sql c in
        let (ran, t') = counted template (is_member (strip sql) hot_sqls) t answer in (ran, c', t')
  ]

  -- The loop, from the counter of the cluster's turns on.
  unfoldable pub run_queries :
      List Timed
      → ℕ
      → Cluster S
      → Tally S.runtime.float.Num
      → Option (Unit {0}) × Cluster S × Tally S.runtime.float.Num
  run_queries [] rr c t = (some tt, c, t)
  run_queries (query ∷ more) rr c t =
      let (i, rr') = route none rr (length c.nodes) in
      let (ran, c', t') = run_one query i c t in
      elim ran [ none ↦ (none, c', t') | some _ ↦ run_queries more rr' c' t' ]
