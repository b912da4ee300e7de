-- ===== src/Tests/Shared.antt =====
-- What one node stores in L2 and another reads, and the abstract cache.
use cacheopt.Base.{ℕ, ◌≡◌, refl, String, true, Option, none, some, List, [], ◌∷◌, arith, dec_str}
use cacheopt.Memory
use cacheopt.Memory.{
  CacheEntry, init, has_expired, is_member, store_entry, new_entry, enforce_limits, forget, evict,
  shrink, is_over,
}
use cacheopt.Dict.{lookup, insert}
use cacheopt.Memory.Calls.{Call, run}
use cacheopt.Memory.Exactness.{get-run_exact}
use cacheopt.Memory.Reads.{live}
use cacheopt.Memory.Refinement.{replay, get-run}
use cacheopt.Redis.Keys.{result_key, version_key}
use cacheopt.RedisCache
use cacheopt.Tests.Caches.{calls}
use cacheopt.Tests.Toy.{
  Blob, whole, runtime, runtime-IsRuntime, node, cluster, clock, columns_of_t, rows_of_t, digits,
  write_at,
}
use cacheopt.Tiered
use cacheopt.Tiered.{Caches, l2, missed}
use cacheopt.Tiered.Sharing.{get-put, get-put-bump}
use cacheopt.Value.{Value, approx_size, pair, tuple, list, str}
use cacheopt.Value.RoundTrip.{through_redis}
use cacheopt.Versions.{bump_and_publish, current_versions}

abbrev zeros : String → ℕ
zeros = λ t. 0

abbrev answer : Value
answer = pair (tuple columns_of_t) (list (rows_of_t 5))

abbrev first_node : Caches runtime
first_node = record {
  memory = node.memory;
  redis_cache = node.redis_cache;
  server = cluster.server;
}

abbrev stored : Caches runtime
stored = (Tiered.put runtime clock "k" answer ("t" ∷ []) true true (some 60) first_node).1

abbrev second_node : Caches runtime
second_node = record first_node { server = stored.server }

get-put_example :
    ((Tiered.put runtime clock "k" answer ("t" ∷ []) true true (some 60) first_node).0 ≡ some tt)
    × ((Tiered.get runtime clock "k" ("t" ∷ []) true true second_node).0
        ≡ some (record { hit = l2; value = some (through_redis (λ bs. "?") answer) }))
unfolding RedisCache.seconds lookup
get-put_example =
    get-put runtime runtime-IsRuntime zeros clock clock "k" answer ("t" ∷ []) true (some 60)
      first_node second_node (λ t. refl) (omega arith) refl refl

abbrev bumped_server : String → Option Blob
bumped_server = write_at "cacheopt:tblver:t" (some (digits 1)) stored.server

abbrev third_node : Caches runtime
third_node = record first_node { server = bumped_server }

get-put-bump_example :
    ((Tiered.get runtime clock "k" ("t" ∷ []) true true third_node).0 ≡ some missed)
    × (runtime.redis.get
          (result_key "k")
          (Tiered.get runtime clock "k" ("t" ∷ []) true true third_node).1.server
        ≡ none)
unfolding RedisCache.seconds lookup is_member dec_str bump_and_publish Tiered.put RedisCache.put
    current_versions result_key version_key Memory.put
get-put-bump_example =
    get-put-bump runtime runtime-IsRuntime zeros clock clock "k" answer ("t" ∷ []) true (some 60)
      first_node third_node "t" 1 (record { table = "t"; version = 1 }) (λ t. refl) (omega arith)
      refl refl refl

-- A buffer with room for one entry, so that the second call of `put` evicts the first.
abbrev tight_calls : List (Call ℕ)
tight_calls =
    Call.put 1 2 "a" (str "x") (("t", 1) ∷ []) none ∷ Call.put 3 4 "b" (str "y") [] (some 60) ∷ []

abbrev kept : CacheEntry ℕ
kept = record {
  value = str "y";
  table_versions = [];
  created_at = 4;
  expires_at = some 63;
  size_bytes = 56;
}

kept_found : (Memory.get whole 9 "b" (run whole (λ v. 56) tight_calls (init 1 200))).1 ≡ some kept
unfolding run init Memory.put Memory.get lookup has_expired insert store_entry new_entry
    enforce_limits shrink forget is_over evict approx_size dec_str
kept_found = refl

get-run_example : live whole 9 (replay whole (λ v. 56) tight_calls (λ k. none) "b") ≡ some kept
get-run_example = get-run whole (λ v. 56) tight_calls 1 200 9 "b" kept kept_found

get-run_exact_example :
    (Memory.get whole 9 "a" (run whole (λ v. 56) calls (init 2 200))).1
    ≡ live whole 9 (replay whole (λ v. 56) calls (λ k. none) "a")
unfolding new_entry approx_size
get-run_exact_example = get-run_exact whole (λ v. 56) calls 2 200 9 "a" (omega arith) (omega arith)
