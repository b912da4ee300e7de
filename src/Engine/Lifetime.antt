-- ===== src/Engine/Lifetime.antt =====
-- src/cacheopt/engine.py: a cluster with the subscribers of its nodes and the connection to DuckDB,
-- from its constructor to `EngineCluster.close`.
use cacheopt.Base.{ℕ, Bool, true, false, List, map}
use cacheopt.Config.{Config}
use cacheopt.Engine.{Cluster}
use cacheopt.Engine.Startup.{new_cluster, replicate}
use cacheopt.Planner.{Setting}
use cacheopt.Versions.Subscriber.{InvalidationSubscriber, new_subscriber, start, stop}

module _ (S : Setting) where
  -- `self.backend` is open or closed; `self.nodes` share it.
  pub record Fleet : Type 0 where
    pub cluster : Cluster S
    pub subscribers : List InvalidationSubscriber
    pub is_open : Bool

  -- `EngineCluster.__init__`: each node starts its subscriber.
  unfoldable pub new_fleet :
      Config S.runtime.float.Num → ℕ → S.runtime.redis.State → S.database.State → Fleet
  new_fleet config num_nodes s d = record {
    cluster = new_cluster S config num_nodes s d;
    subscribers = replicate num_nodes (start new_subscriber);
    is_open = true;
  }

  -- `EngineCluster.close`, with the `close` of each node
  unfoldable pub close : Fleet → Fleet
  close fleet = record fleet { subscribers = map stop fleet.subscribers; is_open = false }
