-- ===== src/Engine/Reports.antt =====
-- What `QueryEngine.stats` (src/cacheopt/engine.py), the caches' `stats` below it and the handler `stats`
-- (src/cacheopt/api/app.py) report. The name of a node is its index.
use cacheopt.Base.{
  ℕ, zero, suc, ◌+◌, arith, ◌∙◌, Option, none, some, List, [], ◌∷◌, length, ◌≡◌, ap, get_elem?,
}
use cacheopt.Engine.{Cluster, Node}
use cacheopt.Float.{Float}
use cacheopt.Memory.{MemoryBuffer}
use cacheopt.Memory.Accounting.{BufferStats, stats, hit_rate}
use cacheopt.Planner.{Setting}
use cacheopt.RedisCache.{RedisCache}

pub record RedisStats (N : Type 0) : Type 0 where
  pub hits : ℕ
  pub misses : ℕ
  pub hit_rate : N

-- `TieredCache.stats`
pub record CacheStats (N : Type 0) : Type 0 where
  pub l1 : BufferStats N
  pub l2 : RedisStats N

pub record NodeStats (N : Type 0) : Type 0 where
  pub node_id : ℕ
  pub cache : CacheStats N
  pub templates_tracked : ℕ

-- `RedisCache.stats`
unfoldable pub redis_stats : (F : Float) → RedisCache → RedisStats F.Num
redis_stats F c = record {
  hits = c.hits;
  misses = c.misses;
  hit_rate = hit_rate F c.hits (c.hits + c.misses);
}

unfoldable pub cache_stats : (F : Float) → MemoryBuffer F.Num → RedisCache → CacheStats F.Num
unfolding redis_stats
cache_stats F memory redis_cache = record { l1 = stats F memory; l2 = redis_stats F redis_cache }

module _ (S : Setting) where
  unfoldable pub node_stats : ℕ → Node S → NodeStats S.runtime.float.Num
  unfolding cache_stats
  node_stats i n = record {
    node_id = i;
    cache = cache_stats S.runtime.float n.memory n.redis_cache;
    templates_tracked = length n.tracker.templates;
  }

  -- The comprehension over the nodes, from the index `i` on.
  unfoldable pub stats_from : ℕ → List (Node S) → List (NodeStats S.runtime.float.Num)
  unfolding node_stats
  stats_from i [] = []
  stats_from i (n ∷ ns) = node_stats i n ∷ stats_from (suc i) ns

  -- The handler; `none` is the reply 503 while there is no cluster.
  unfoldable pub cluster_stats : Option (Cluster S) → Option (List (NodeStats S.runtime.float.Num))
  unfolding stats_from
  cluster_stats none = none
  cluster_stats (some c) = some (stats_from 0 c.nodes)

  -- The report at an index is that of the node there, under its name.
  get_elem?-stats_from :
      (i j : ℕ) (ns : List (Node S)) (n : Node S)
      → get_elem? ns j ≡ some n
      → get_elem? (stats_from i ns) j ≡ some (node_stats (i + j) n)
  unfolding stats_from
  get_elem?-stats_from i j [] n at = cc
  get_elem?-stats_from i zero (m ∷ ns) n at =
      let same : m ≡ n = cc in
      let index : i ≡ i + 0 = omega arith in
      ap (λ k. some (node_stats k m)) index ∙ ap (λ (x : Node S). some (node_stats (i + 0) x)) same
  get_elem?-stats_from i (suc j) (m ∷ ns) n at =
      let index : suc i + j ≡ i + suc j = omega arith in
      get_elem?-stats_from (suc i) j ns n at ∙ ap (λ k. some (node_stats k n)) index
