-- ===== src/Tests/Clusters.antt =====
-- Requests that are answered, the waiting events handled, writes, and the nodes in turn.
use cacheopt.Base.{◌∷◌, true, ℕ, ◌≡◌, ◌↔◌, ◌⊎◌, refl, String, false, none, some, [], arith, dec_str}
use cacheopt.Config.{Config}
use cacheopt.CostModel.{RoutingPlan, placed, Estimates, plan, charged_rows}
use cacheopt.Dict.{lookup, insert}
use cacheopt.Fingerprint.{Fingerprint, fingerprint}
use cacheopt.Memory
use cacheopt.Memory.{stale_keys, evict_all}
use cacheopt.Planner
use cacheopt.Redis.Keys.{result_key, version_key}
use cacheopt.RedisCache
use cacheopt.Stats.{total_rows, record_query, hotness}
use cacheopt.Tiered
use cacheopt.Versions.{bump_and_publish, current_versions, is_stale}
use cacheopt.Database.{estimates, explain_json, explain_result_cardinality, explain_cardinality}
use cacheopt.Explain.{own_cardinality, find_max_cardinality}
use cacheopt.Engine
use cacheopt.Engine.{Cluster, Node, returned, rejected, handle_event, set, admits}
use cacheopt.Engine.Coherence.{IsCurrent}
use cacheopt.Engine.Draining.{run_thread, run_thread-IsCurrent}
use cacheopt.Engine.Outcomes.{IsOneSelect, IsUndone, IsDone, write_outcome, execute_guard}
use cacheopt.Engine.Races.{seen, write-write_back}
use cacheopt.Planner.{effective, effective_fp, unpack, write_back, answer, resolve}
use cacheopt.Tests.Requests.{query, recomputed, written, warned, second_node, written-IsCoherent}
use cacheopt.Tests.Toy.{
  runtime-IsRuntime, server-IsRedis, setting, setting-IsSetting, cluster, node, clock, columns_of_t,
  rows_of_t, config as cost_config,
}
use cacheopt.Value.{Value, tuple, list, pair, nil}
use cacheopt.Value.RoundTrip.{through_redis}
use cacheopt.Tiered.{l2}

abbrev zeros : String → ℕ
zeros = λ t. 0

abbrev no_estimate : Estimates
no_estimate = record { work = none; result_rows = none; where_columns = none }

write_outcome_example :
    IsUndone setting "insert into t" cluster (Engine.write setting "t" "insert into t" cluster)
    ⊎ IsDone setting zeros "t" "insert into t" cluster
        (Engine.write setting "t" "insert into t" cluster)
write_outcome_example =
    write_outcome setting server-IsRedis zeros "t" "insert into t" cluster (λ t. refl)

execute_guard_example :
    (Engine.execute setting 0 node clock 1 query cluster ≡ (rejected, cluster))
    ↔ (¬ IsOneSelect setting.sqlglot query)
execute_guard_example = execute_guard setting 0 node clock 1 query cluster

abbrev pub settings : Config ℕ
settings = record {
  duckdb_path = "data/warehouse.duckdb";
  duckdb_read_only = false;
  l1_max_entries = 512;
  l1_max_bytes = 1000;
  redis_host = "localhost";
  redis_port = 6379;
  redis_db = 0;
  redis_password = none;
  redis_mode = "embedded";
  redis_rdb_path = "data/redis.rdb";
  default_ttl_seconds = 300;
  hotness_half_life_seconds = 3600;
  history_window = 50;
  cost_l1_ms = 1;
  cost_l2_ms = 1;
  cost_l3_min_ms = 1;
  cache_admission_min_cost_ms = 5;
  max_cacheable_rows = 100;
}

drained_answer :
    (Engine.execute setting 1
      (run_thread setting 1 warned)
      clock
      2
      query
      (record written { nodes = set written.nodes 1 (run_thread setting 1 warned) })).0
    ≡ returned recomputed
unfolding Engine.execute Engine.write dec_str Planner.execute estimates explain_result_cardinality
    explain_json own_cardinality Tiered.get plan charged_rows explain_cardinality
    find_max_cardinality total_rows fingerprint lookup Memory.get RedisCache.get Tiered.put
    bump_and_publish current_versions RedisCache.put Memory.put is_stale record_query hotness insert
    effective effective_fp unpack write_back answer resolve result_key version_key
    RedisCache.invalidate run_thread handle_event Memory.invalidate_tables stale_keys evict_all
drained_answer = refl

run_thread-IsCurrent_example :
    ((run_thread setting 1 warned).inbox ≡ [])
    × (v : Value) × (unpack v ≡ some (recomputed.columns, recomputed.rows))
    × IsCurrent setting query written.database v
run_thread-IsCurrent_example =
    run_thread-IsCurrent setting setting-IsSetting 1 1 warned written written-IsCoherent second_node
      (omega arith) clock 2 query recomputed drained_answer

abbrev print : Fingerprint
print = record { template_id = query; cache_key = query; template_sql = query; tables = "t" ∷ [] }

abbrev to_l2 : RoutingPlan ℕ
to_l2 = record {
  check_l1 = true;
  check_l2 = true;
  write_l1 = false;
  write_l2 = true;
  ttl_seconds = 60;
  raw_cost_ms = 5;
  hotness = 0;
  reason = placed false;
}

write-write_back_example :
    ((Engine.write setting "t" "insert into t" cluster).1.database ≡ 6)
    × ((Tiered.get setting.runtime clock query ("t" ∷ []) true true (
          seen setting runtime-IsRuntime zeros cluster node node clock clock print to_l2
            columns_of_t
            (rows_of_t 5)
            (Engine.write setting "t" "insert into t" cluster).1)).0
        ≡ some (record {
          hit = l2;
          value = some (through_redis (λ bs. "?") (pair (tuple columns_of_t) (list (rows_of_t 5))));
        }))
unfolding dec_str RedisCache.seconds lookup
write-write_back_example =
    write-write_back setting runtime-IsRuntime zeros cluster node node clock clock print to_l2 "t"
      "insert into t" query columns_of_t (rows_of_t 5) nil nil 5 6 (λ t. refl) refl refl refl
      (omega arith) refl
