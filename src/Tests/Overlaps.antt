-- ===== src/Tests/Overlaps.antt =====
-- Two requests that overlap at the nodes of a cluster.
use cacheopt.Base.{ℕ, ◌≡◌, refl, some, true, false, [], get_elem?, dec_str}
use cacheopt.CostModel.{placed, plan, charged_rows, RoutingPlan}
use cacheopt.Database.{estimates, explain_result_cardinality, explain_cardinality, explain_json}
use cacheopt.Dict.{lookup, insert}
use cacheopt.Engine.{Node, world, set}
use cacheopt.Engine.Coherence.{IsCurrent}
use cacheopt.Engine.Flights.{
  Live, LiveReach, LiveStep, begin, finish, here, after, remove, depart, Flight, behind,
}
use cacheopt.Engine.Overlaps.{LiveReach-IsCurrent}
use cacheopt.Explain.{own_cardinality, find_max_cardinality}
use cacheopt.Fingerprint.{fingerprint}
use cacheopt.Memory
use cacheopt.Planner.{QueryResult, effective, effective_fp, unpack, write_back, answer, resolve}
use cacheopt.Planner.Phases
use cacheopt.Redis.Keys.{result_key, version_key}
use cacheopt.RedisCache
use cacheopt.Stats.{total_rows, record_query, hotness}
use cacheopt.Tests.Requests.{query, query_admitted}
use cacheopt.Tests.Toy.{
  setting, cluster, node, clock, setting-IsSetting, cluster-IsStarted, columns_of_t, rows_of_t,
}
use cacheopt.Tiered
use cacheopt.Tiered.{miss}
use cacheopt.Value.{Value, tuple, list}
use cacheopt.Versions.{current_versions, is_stale}

abbrev idle : Live setting
idle = record { cluster = cluster; flights = [] }

-- Both nodes have read the rows for the query, and the second has written them back.
abbrev one_begun : Live setting
one_begun = begin setting 0 node clock 1 query idle

abbrev both_begun : Live setting
both_begun = begin setting 1 node clock 1 query one_begun

abbrev routed : RoutingPlan ℕ
routed = record {
  check_l1 = true;
  check_l2 = true;
  write_l1 = false;
  write_l2 = true;
  ttl_seconds = 60;
  raw_cost_ms = 100;
  hotness = 0;
  reason = placed false;
}

abbrev first : Flight setting
first = record {
  node = 0;
  sql = query;
  plan = routed;
  columns = columns_of_t;
  rows = rows_of_t 5;
  overtaken = false;
}

abbrev second : Flight setting
second = record {
  node = 1;
  sql = query;
  plan = routed;
  columns = columns_of_t;
  rows = rows_of_t 5;
  overtaken = false;
}

-- A node that has looked for the key in vain.
abbrev missing : Node setting
missing = record node {
  memory = record node.memory { misses = 1 };
  redis_cache = record node.redis_cache { misses = 1 };
}

abbrev second_done : Live setting
second_done = finish setting 0 second missing clock 2 both_begun

second_under_way : get_elem? both_begun.flights 0 ≡ some second
unfolding Phases.begin begin Phases.finish finish depart remove dec_str estimates
    explain_result_cardinality explain_json own_cardinality Tiered.get plan charged_rows
    explain_cardinality find_max_cardinality total_rows fingerprint lookup Memory.get RedisCache.get
    Tiered.put current_versions RedisCache.put Memory.put is_stale record_query hotness insert
    effective effective_fp unpack write_back answer resolve result_key version_key set
second_under_way = refl

second_missed : get_elem? both_begun.cluster.nodes 1 ≡ some missing
unfolding Phases.begin begin Phases.finish finish depart remove dec_str estimates
    explain_result_cardinality explain_json own_cardinality Tiered.get plan charged_rows
    explain_cardinality find_max_cardinality total_rows fingerprint lookup Memory.get RedisCache.get
    Tiered.put current_versions RedisCache.put Memory.put is_stale record_query hotness insert
    effective effective_fp unpack write_back answer resolve result_key version_key set
second_missed = refl

first_under_way : get_elem? second_done.flights 0 ≡ some first
unfolding Phases.begin begin Phases.finish finish depart remove dec_str estimates
    explain_result_cardinality explain_json own_cardinality Tiered.get plan charged_rows
    explain_cardinality find_max_cardinality total_rows fingerprint lookup Memory.get RedisCache.get
    Tiered.put current_versions RedisCache.put Memory.put is_stale record_query hotness insert
    effective effective_fp unpack write_back answer resolve result_key version_key set
first_under_way = refl

first_missed : get_elem? second_done.cluster.nodes 0 ≡ some missing
unfolding Phases.begin begin Phases.finish finish depart remove dec_str estimates
    explain_result_cardinality explain_json own_cardinality Tiered.get plan charged_rows
    explain_cardinality find_max_cardinality total_rows fingerprint lookup Memory.get RedisCache.get
    Tiered.put current_versions RedisCache.put Memory.put is_stale record_query hotness insert
    effective effective_fp unpack write_back answer resolve result_key version_key set
first_missed = refl

waiting_node : get_elem? one_begun.cluster.nodes 1 ≡ some node
unfolding Phases.begin begin Phases.finish finish depart remove dec_str estimates
    explain_result_cardinality explain_json own_cardinality Tiered.get plan charged_rows
    explain_cardinality find_max_cardinality total_rows fingerprint lookup Memory.get RedisCache.get
    Tiered.put current_versions RedisCache.put Memory.put is_stale record_query hotness insert
    effective effective_fp unpack write_back answer resolve result_key version_key set
waiting_node = refl

abbrev answered : QueryResult ℕ
answered = record {
  columns = tuple columns_of_t;
  rows = list (rows_of_t 5);
  latency_ms = 3;
  tier_hit = miss;
  rewrites_applied = [];
  routing_reason = placed false;
  template_id = query;
}

first_answer :
    (Phases.finish setting clock 3 query routed columns_of_t
      (rows_of_t 5)
      (world setting missing second_done.cluster)).0
    ≡ some answered
unfolding Phases.begin begin Phases.finish finish depart remove dec_str estimates
    explain_result_cardinality explain_json own_cardinality Tiered.get plan charged_rows
    explain_cardinality find_max_cardinality total_rows fingerprint lookup Memory.get RedisCache.get
    Tiered.put current_versions RedisCache.put Memory.put is_stale record_query hotness insert
    effective effective_fp unpack write_back answer resolve result_key version_key set
first_answer = refl

run_to_second_done : LiveReach setting idle second_done
run_to_second_done =
    after
      (after (after here (LiveStep.begins 0 node clock 1 query refl query_admitted))
        (LiveStep.begins 1 node clock 1 query waiting_node query_admitted))
      (LiveStep.finishes 0 second missing clock 2 second_under_way second_missed refl)

LiveReach-IsCurrent_example :
    (v : Value) × (unpack v ≡ some (answered.columns, answered.rows))
    × IsCurrent setting query second_done.cluster.database v
LiveReach-IsCurrent_example =
    LiveReach-IsCurrent setting setting-IsSetting idle second_done query answered
      (cluster-IsStarted, refl) run_to_second_done
      (behind 0 first missing clock 3 first_under_way first_missed refl first_answer refl)
