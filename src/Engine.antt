-- ===== src/Engine.antt =====
-- src/cacheopt/engine.py: `QueryEngine.execute` and `write`, and the nodes of a cluster with the
-- events that wait for each (src/cacheopt/invalidation.py, `InvalidationSubscriber`).
pub mod Coherence
pub mod Serving
pub mod Requests
pub mod Writes
pub mod Events
pub mod Runs
pub mod Availability
pub mod Draining
pub mod Subscribers
pub mod Outcomes
pub mod Startup
pub mod Lifetime
pub mod Routing
pub mod Races
pub mod Flights
pub mod Overtaking
pub mod Overlaps
pub mod Reports
use cacheopt.Base.{
  ℕ, zero, suc, ◌+◌, ◌%◌, String, Bool, false, true, Option, none, some, List, [], ◌∷◌, ◌++◌, map,
  get_elem?, if◌then◌else◌, length,
}
use cacheopt.Dict.{Dict, insert}
use cacheopt.Fingerprint.{Sqlglot}
use cacheopt.Memory.{MemoryBuffer, invalidate_tables}
use cacheopt.Planner
use cacheopt.Planner.{Setting, World, QueryResult}
use cacheopt.RedisCache.{RedisCache}
use cacheopt.Stats.{AccessPatternTracker}
use cacheopt.Tiered.{Clock, Caches}
use cacheopt.Versions.{Event, bump_and_publish}

-- `ValueError` from the guard, or another exception.
pub data Outcome {ℓ} (A : Type ℓ) : Type ℓ where
  returned : A → Outcome A
  rejected failed : Outcome A

module _ (Q : Sqlglot) where
  is_one_select : Option (List (Option Q.Tree)) → Bool
  is_one_select (some (some tree ∷ [])) = Q.is_select tree
  is_one_select _ = false

  -- The guard of `execute`: the text parses, to one statement, which is a SELECT.
  unfoldable pub admits : String → Bool
  unfolding is_one_select
  admits sql = is_one_select (Q.parse sql)

-- A list with the element at an index replaced.
unfoldable pub set {ℓ} : {A : Type ℓ} → List A → ℕ → A → List A
set [] i v = []
set (x ∷ xs) zero v = v ∷ xs
set (x ∷ xs) (suc i) v = x ∷ set xs i v

-- `EngineCluster.route`: by a digest of the key, or in turn.
unfoldable pub route : Option ℕ → ℕ → ℕ → ℕ × ℕ
route (some digest) rr_index num_nodes = (digest % num_nodes, rr_index)
route none rr_index num_nodes = (rr_index % num_nodes, rr_index + 1)

module _ (S : Setting) where
  -- One `QueryEngine`, with the events that Redis has sent it and its thread has not handled.
  pub record Node : Type 0 where
    pub memory : MemoryBuffer S.runtime.float.Num
    pub redis_cache : RedisCache
    pub tracker : AccessPatternTracker S.runtime.float
    pub inbox : List Event

  -- `EngineCluster`: nodes that share one Redis server and one database.
  pub record Cluster : Type 0 where
    pub nodes : List Node
    pub server : S.runtime.redis.State
    pub database : S.database.State

  abbrev pub world : Node → Cluster → World S
  world n c = record {
    caches = record { memory = n.memory; redis_cache = n.redis_cache; server = c.server };
    tracker = n.tracker;
    database = c.database;
  }

  -- The cluster after a request on node `i` that left the world `w`.
  abbrev pub leave : ℕ → Node → Cluster → World S → Cluster
  leave i n c w = record {
    nodes = set c.nodes i (record n {
      memory = w.caches.memory;
      redis_cache = w.caches.redis_cache;
      tracker = w.tracker;
    });
    server = w.caches.server;
    database = w.database;
  }

  abbrev outcome_of :
      Option (QueryResult S.runtime.float.Num) → Outcome (QueryResult S.runtime.float.Num)
  outcome_of none = failed
  outcome_of (some q) = returned q

  -- `QueryEngine.execute` on node `i`.
  unfoldable pub execute :
      ℕ
      → Node
      → Clock S.runtime
      → S.runtime.float.Num
      → String
      → Cluster
      → Outcome (QueryResult S.runtime.float.Num) × Cluster
  unfolding admits
  execute i n r latency sql c =
      if admits S.sqlglot sql
      then (let (answer, w) = Planner.execute S r latency sql (world n c) in
          (outcome_of answer, leave i n c w))
      else (rejected, c)

  abbrev pub receive : Event → Node → Node
  receive e n = record n { inbox = n.inbox ++ e ∷ [] }

  published : Cluster → Option (ℕ × Event × S.runtime.redis.State) → Outcome ℕ × Cluster
  published c none = (failed, c)
  published c (some (version, e, s)) =
      (returned version, record c { nodes = map (receive e) c.nodes; server = s })

  -- `QueryEngine.write`: the DML statement, then the bump and the event to every node.
  -- `publish` is taken to return, and to reach each node, which Redis does not promise.
  unfoldable pub write : String → String → Cluster → Outcome ℕ × Cluster
  unfolding published
  write table dml_sql c = elim (S.database.execute dml_sql c.database) [
    | none ↦ (failed, c)
    | some (_, _, d) ↦
        published (record c { database = d }) (bump_and_publish S.runtime.redis table c.server)
  ]

  -- `_run` and `_on_invalidate`: the thread of a node handles its oldest event.
  unfoldable pub handle_event : Node → Node
  handle_event n = elim n.inbox [
    | [] ↦ n
    | e ∷ rest ↦ record n {
      memory = invalidate_tables (e.table ∷ []) (insert e.table e.version []) n.memory;
      inbox = rest;
    }
  ]
