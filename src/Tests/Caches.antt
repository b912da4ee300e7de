-- ===== src/Tests/Caches.antt =====
-- The buffer, the versions and the stored values at concrete inputs.
use cacheopt.Base.{ℕ, ◌+◌, ◌≡◌, ◌⊎◌, refl, String, Option, none, some, List, [], ◌∷◌, dec_str, ite}
use cacheopt.Dict.{lookup}
use cacheopt.Memory
use cacheopt.Memory.{CacheEntry, MemoryBuffer, init, store_entry, invalidate_tables, is_member}
use cacheopt.Memory.Calls.{Call, run, run-IsValid}
use cacheopt.Memory.Eviction.{Shrunk, written, store_entry_evicts_oldest}
use cacheopt.Memory.Invariant.{IsValid, init-IsValid}
use cacheopt.Memory.Outdated.{IsOutdated, invalidate_tables_outcome}
use cacheopt.Memory.Reads.{get_outcome, live, one_if}
use cacheopt.Tests.Toy.{Blob, whole, server, columns_of_t, rows_of_t}
use cacheopt.Value.{pair, tuple, list, str}
use cacheopt.Value.RoundTrip.{through_redis, through_redis-native}
use cacheopt.Versions.{is_stale}
use cacheopt.Versions.Counters.{is_behind, is_stale-is_behind}

abbrev entry : CacheEntry ℕ
entry = record {
  value = str "x";
  table_versions = ("t", 1) ∷ [];
  created_at = 1;
  expires_at = some 20;
  size_bytes = 56;
}

abbrev pub calls : List (Call ℕ)
calls =
    Call.put 1 2 "a" (str "x") (("t", 1) ∷ []) none
    ∷ Call.put 3 4 "b" (str "y") [] (some 60)
    ∷ Call.get 5 "a"
    ∷ Call.invalidate_tables ("t" ∷ []) (("t", 2) ∷ [])
    ∷ Call.invalidate "b"
    ∷ []

-- Two entries, in a buffer with room for two.
abbrev full : MemoryBuffer ℕ
full = store_entry "b" entry (store_entry "a" entry (init 2 200))

run-IsValid_example : IsValid (run whole (λ v. 56) calls (init 2 200))
run-IsValid_example = run-IsValid whole (λ v. 56) calls (init 2 200) (init-IsValid 2 200)

full-IsValid : IsValid full
full-IsValid =
    (store_entry_evicts_oldest "b" entry (store_entry "a" entry (init 2 200))
      (store_entry_evicts_oldest "a" entry (init 2 200) (init-IsValid 2 200)).1).1

store_entry_evicts_oldest_example :
    Shrunk (written "c" entry full) full (store_entry "c" entry full)
    × IsValid (store_entry "c" entry full)
store_entry_evicts_oldest_example = store_entry_evicts_oldest "c" entry full full-IsValid

get_outcome_example :
    ((Memory.get whole 30 "a" full).1 ≡ live whole 30 (lookup "a" full.store))
    × ((j : String)
        → lookup j (Memory.get whole 30 "a" full).0.store
          ≡ ite (dec_str j "a") (live whole 30 (lookup "a" full.store)) (lookup j full.store))
    × ((Memory.get whole 30 "a" full).0.hits
        ≡ full.hits + one_if whole (live whole 30 (lookup "a" full.store)))
    × ((Memory.get whole 30 "a" full).0.misses
          + one_if whole (live whole 30 (lookup "a" full.store))
        ≡ full.misses + 1)
get_outcome_example = get_outcome whole 30 "a" full full-IsValid

invalidate_tables_outcome_example :
    ((lookup "a" full.store ≡ none)
      × (lookup "a" (invalidate_tables ("t" ∷ []) (("t", 2) ∷ []) full).store ≡ none))
    ⊎ ((e : CacheEntry ℕ) × (lookup "a" full.store ≡ some e)
        × ((IsOutdated ("t" ∷ []) (("t", 2) ∷ []) e.table_versions
              × (lookup "a" (invalidate_tables ("t" ∷ []) (("t", 2) ∷ []) full).store ≡ none))
            ⊎ ((¬ IsOutdated ("t" ∷ []) (("t", 2) ∷ []) e.table_versions)
                × (lookup "a" (invalidate_tables ("t" ∷ []) (("t", 2) ∷ []) full).store ≡ some e))))
invalidate_tables_outcome_example =
    invalidate_tables_outcome ("t" ∷ []) (("t", 2) ∷ []) full full-IsValid "a"

through_redis-native_example :
    through_redis (λ bs. "?") (pair (tuple columns_of_t) (list (rows_of_t 5)))
    ≡ pair (tuple columns_of_t) (list (rows_of_t 5))
through_redis-native_example =
    through_redis-native (λ bs. "?") columns_of_t (rows_of_t 5) (tt, tt) ((tt, tt), tt)

abbrev empty_server : String → Option Blob
empty_server = λ k. none

abbrev zeros : String → ℕ
zeros = λ t. 0

is_stale-is_behind_example :
    is_stale server (("t", 1) ∷ []) (some ("t" ∷ "u" ∷ [])) empty_server
    ≡ some (is_behind server zeros (("t", 1) ∷ []) ("t" ∷ "u" ∷ []))
is_stale-is_behind_example =
    is_stale-is_behind server zeros empty_server (("t", 1) ∷ []) ("t" ∷ "u" ∷ []) (λ t. refl)
