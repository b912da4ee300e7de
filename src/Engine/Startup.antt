-- ===== src/Engine/Startup.antt =====
-- src/cacheopt/engine.py: the constructors of `QueryEngine` and `EngineCluster`.
use cacheopt.Base.{
  ℕ, zero, suc, ◌≡◌, refl, ap, String, none, some, List, [], ◌∷◌, get_elem?, length,
}
use cacheopt.Config.{Config}
use cacheopt.Engine.{Cluster, Node}
use cacheopt.Engine.Coherence.{IsCoherent}
use cacheopt.Engine.Runs.{IsStarted, started-IsCoherent}
use cacheopt.Memory
use cacheopt.Memory.{MemoryBuffer}
use cacheopt.Planner.{Setting}
use cacheopt.RedisCache
use cacheopt.Stats.{AccessPatternTracker}

abbrev pub replicate : {A : Type 0} → ℕ → A → List A
replicate zero x = []
replicate (suc n) x = x ∷ replicate n x

get_elem?-replicate :
    {A : Type 0} (n i : ℕ) (x y : A) → get_elem? (replicate n x) i ≡ some y → y ≡ x
get_elem?-replicate zero i x y h = cc
get_elem?-replicate (suc n) zero x y h = cc
get_elem?-replicate (suc n) (suc i) x y h = get_elem?-replicate n i x y h

pub length-replicate : {A : Type 0} (n : ℕ) (x : A) → length (replicate n x) ≡ n
length-replicate zero x = refl
length-replicate (suc n) x = ap suc (length-replicate n x)

module _ (S : Setting) where
  -- `AccessPatternTracker.__init__`
  abbrev pub new_tracker : Config S.runtime.float.Num → AccessPatternTracker S.runtime.float
  new_tracker config = record {
    half_life = config.hotness_half_life_seconds;
    history_window = config.history_window;
    templates = [];
  }

  -- `QueryEngine.__init__`
  unfoldable pub new_node : Config S.runtime.float.Num → Node S
  new_node config = record {
    memory = Memory.init config.l1_max_entries config.l1_max_bytes;
    redis_cache = RedisCache.init config.default_ttl_seconds;
    tracker = new_tracker config;
    inbox = [];
  }

  -- `EngineCluster.__init__`, over the server and the database that it connects to.
  unfoldable pub new_cluster :
      Config S.runtime.float.Num → ℕ → S.runtime.redis.State → S.database.State → Cluster S
  unfolding new_node
  new_cluster config num_nodes s d = record {
    nodes = replicate num_nodes (new_node config);
    server = s;
    database = d;
  }

  new_cluster-IsStarted :
      (config : Config S.runtime.float.Num) (n : ℕ) (s : S.runtime.redis.State)
      (d : S.database.State)
      → ((k : String) → S.runtime.redis.get k s ≡ none)
      → IsStarted S (new_cluster config n s d)
  unfolding new_cluster
  new_cluster-IsStarted config n s d no_keys = record {
    no_keys = no_keys;
    empty = λ i m at. (
      config.l1_max_entries,
      config.l1_max_bytes,
      ap (λ (x : Node S). x.memory) (get_elem?-replicate n i (new_node config) m at),
    );
  }

  -- A new cluster over a server that holds nothing has the nodes that it was asked for, and is
  -- coherent.
  pub new_cluster-IsCoherent :
      (config : Config S.runtime.float.Num) (n : ℕ) (s : S.runtime.redis.State)
      (d : S.database.State)
      → ((k : String) → S.runtime.redis.get k s ≡ none)
      → (length (new_cluster config n s d).nodes ≡ n) × IsCoherent S (new_cluster config n s d)
  unfolding new_cluster
  new_cluster-IsCoherent config n s d no_keys = (
    length-replicate n (new_node config),
    started-IsCoherent S (new_cluster config n s d) (new_cluster-IsStarted config n s d no_keys),
  )
