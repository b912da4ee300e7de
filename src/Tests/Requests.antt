-- ===== src/Tests/Requests.antt =====
-- Requests, writes and events in a cluster of two nodes.
use cacheopt.Base.{ℕ, ◌≡◌, ◌≢◌, refl, inl, String, some, [], ◌∷◌, get_elem?, Bool, true, dec_str}
use cacheopt.CostModel.{placed}
use cacheopt.Database.{estimates, explain_result_cardinality, explain_cardinality, explain_json}
use cacheopt.Explain.{own_cardinality, find_max_cardinality}
use cacheopt.CostModel.{plan, charged_rows}
use cacheopt.Stats.{total_rows, record_query, hotness}
use cacheopt.Fingerprint.{fingerprint}
use cacheopt.Dict.{lookup, insert}
use cacheopt.Memory
use cacheopt.Planner
use cacheopt.Planner.{effective, effective_fp, write_back, answer, resolve}
use cacheopt.RedisCache
use cacheopt.Redis.Keys.{result_key, version_key}
use cacheopt.Tiered
use cacheopt.Versions.{bump_and_publish, current_versions, is_stale}
use cacheopt.Engine
use cacheopt.Engine.{Cluster, Node, returned, handle_event, set, admits}
use cacheopt.Engine.Coherence.{IsCoherent, IsCurrent, L1Claim, L2Claim, key_of, tables_of}
use cacheopt.Engine.Serving.{coherent-MayStore}
use cacheopt.Tiered.Lookups.{Claim, Looked, get-Looked}
use cacheopt.Engine.Events.{handle_event-IsCoherent}
use cacheopt.Engine.Requests.{execute-IsCoherent, execute-IsCurrent}
use cacheopt.Engine.Runs.{
  Reach, Step, here, after, Reach-IsCurrent, Reach-IsCoherent, started-IsCoherent,
}
use cacheopt.Engine.Writes.{write-IsCoherent}
use cacheopt.Planner.{QueryResult, unpack}
use cacheopt.Tests.Toy.{
  setting, runtime, cluster, node, clock, runtime-IsRuntime, setting-IsSetting, cluster-IsStarted,
  writes_t, columns_of_t, rows_of_t,
}
use cacheopt.Tiered.{Caches, l1, miss}
use cacheopt.Value.{Value, tuple, list}

abbrev pub query : String
query = "select n"

abbrev pub requested : Cluster setting
requested = (Engine.execute setting 0 node clock 1 query cluster).1

abbrev pub written : Cluster setting
written = (Engine.write setting "t" "insert into t" requested).1

abbrev pub warned : Node setting
warned = record node { inbox = record { table = "t"; version = 1 } ∷ [] }

abbrev pub recomputed : QueryResult ℕ
recomputed = record {
  columns = tuple columns_of_t;
  rows = list (rows_of_t 6);
  latency_ms = 2;
  tier_hit = miss;
  rewrites_applied = [];
  routing_reason = placed Bool.false;
  template_id = query;
}

pub run_to_written : Reach setting cluster written
unfolding Engine.execute Engine.write dec_str Planner.execute estimates explain_result_cardinality
    explain_json own_cardinality Tiered.get plan charged_rows explain_cardinality
    find_max_cardinality total_rows fingerprint lookup Memory.get RedisCache.get Tiered.put
    bump_and_publish current_versions RedisCache.put Memory.put is_stale record_query hotness insert
    effective effective_fp unpack write_back answer resolve result_key version_key
run_to_written =
    after (after here (Step.request 0 node clock 1 query refl))
      (Step.write "t" "insert into t" (λ columns rows d' ran. writes_t 5 d'))

pub second_node : get_elem? written.nodes 1 ≡ some warned
unfolding Engine.execute Engine.write dec_str Planner.execute estimates explain_result_cardinality
    explain_json own_cardinality Tiered.get plan charged_rows explain_cardinality
    find_max_cardinality total_rows fingerprint lookup Memory.get RedisCache.get Tiered.put
    bump_and_publish current_versions RedisCache.put Memory.put is_stale record_query hotness insert
    effective effective_fp unpack write_back answer resolve result_key version_key set
second_node = refl

answer_after_write : (Engine.execute setting 1 warned clock 2 query written).0 ≡ returned recomputed
unfolding Engine.execute Engine.write dec_str Planner.execute estimates explain_result_cardinality
    explain_json own_cardinality Tiered.get plan charged_rows explain_cardinality
    find_max_cardinality total_rows fingerprint lookup Memory.get RedisCache.get Tiered.put
    bump_and_publish current_versions RedisCache.put Memory.put is_stale record_query hotness insert
    effective effective_fp unpack write_back answer resolve result_key version_key
    RedisCache.invalidate
answer_after_write = refl

tier-ne-l1 : recomputed.tier_hit ≢ l1
tier-ne-l1 h = cc

Reach-IsCurrent_example :
    (v : Value) × (unpack v ≡ some (recomputed.columns, recomputed.rows))
    × IsCurrent setting query written.database v
Reach-IsCurrent_example =
    Reach-IsCurrent setting setting-IsSetting cluster written cluster-IsStarted run_to_written 1
      warned clock 2 query recomputed second_node answer_after_write (inl tier-ne-l1)

pub written-IsCoherent : IsCoherent setting written
written-IsCoherent = Reach-IsCoherent setting setting-IsSetting cluster-IsStarted run_to_written

cluster-IsCoherent : IsCoherent setting cluster
cluster-IsCoherent = started-IsCoherent setting cluster cluster-IsStarted

execute-IsCurrent_example :
    (v : Value) × (unpack v ≡ some (recomputed.columns, recomputed.rows))
    × IsCurrent setting query written.database v
execute-IsCurrent_example =
    execute-IsCurrent setting setting-IsSetting 1 warned clock 2 query written second_node
      written-IsCoherent recomputed answer_after_write (inl tier-ne-l1)

execute-IsCoherent_example : IsCoherent setting requested
execute-IsCoherent_example =
    execute-IsCoherent setting setting-IsSetting 0 node clock 1 query cluster refl
      cluster-IsCoherent

write-IsCoherent_example : IsCoherent setting (Engine.write setting "t" "insert into t" cluster).1
write-IsCoherent_example =
    write-IsCoherent setting runtime-IsRuntime "t" "insert into t" cluster
      (λ columns rows d' ran. writes_t 5 d') cluster-IsCoherent

handle_event-IsCoherent_example :
    IsCoherent setting
      (record written { nodes = set written.nodes 1 (handle_event setting warned) })
handle_event-IsCoherent_example =
    handle_event-IsCoherent setting 1 warned written second_node written-IsCoherent

abbrev caches : Caches runtime
caches = record {
  memory = warned.memory;
  redis_cache = warned.redis_cache;
  server = written.server;
}

abbrev l1_claim : Claim
l1_claim = L1Claim setting written-IsCoherent.counters written.database warned.inbox

abbrev l2_claim : Claim
l2_claim = L2Claim setting written-IsCoherent.counters written.database

pub query_admitted : admits setting.sqlglot query ≡ true
unfolding admits dec_str
query_admitted = refl

get-Looked_example :
    Looked runtime l1_claim l2_claim written-IsCoherent.counters
      (key_of setting query)
      (tables_of setting query)
      (Tiered.get runtime clock (key_of setting query) (tables_of setting query) true true caches)
get-Looked_example =
    get-Looked runtime l1_claim l2_claim written-IsCoherent.counters (key_of setting query)
      (tables_of setting query) runtime-IsRuntime clock true true caches
      (record {
        memory = written-IsCoherent.nodes 1 warned second_node;
        server = written-IsCoherent.server;
      })
      (coherent-MayStore setting setting-IsSetting written-IsCoherent.counters written.database
        warned.inbox query query_admitted).promotable
