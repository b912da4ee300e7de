-- ===== src/Tiered.antt =====
-- src/cacheopt/cache/tiered_cache.py: one lookup path over L1 and L2. A method returns the new state
-- beside its result, and `none` for the result where it raises; what was written before stays.
pub mod Server
pub mod Lookups
pub mod Sharing
use cacheopt.Base.{ℕ, String, Bool, false, true, Option, none, some, List, [], ◌∷◌, if◌then◌else◌}
use cacheopt.Dict.{Dict}
use cacheopt.Memory
use cacheopt.Memory.{MemoryBuffer, CacheEntry}
use cacheopt.RedisCache
use cacheopt.RedisCache.{RedisCache, RedisEntry}
use cacheopt.Runtime.{Runtime, Readings}
use cacheopt.Value.{Value}
use cacheopt.Versions.{current_versions, is_stale}

pub data TierHit : Type 0 where
  l1 l2 miss : TierHit

pub record CacheLookupResult : Type 0 where
  pub hit : TierHit
  pub value : Option Value

abbrev pub missed : CacheLookupResult
missed = record { hit = miss; value = none }

-- The L1 and L2 objects of one node, and the state of the server that all nodes share.
pub record Caches (W : Runtime) : Type 0 where
  pub memory : MemoryBuffer W.float.Num
  pub redis_cache : RedisCache
  pub server : W.redis.State

module _ (W : Runtime) where
  abbrev pub Clock : Type 0
  Clock = Readings W.float.Num

  unfoldable pub look_l1 :
      Clock → String → Bool → Caches W → Caches W × Option (CacheEntry W.float.Num)
  look_l1 r cache_key false c = (c, none)
  look_l1 r cache_key true c =
      let (memory', found) = Memory.get W.float r.looked_up cache_key c.memory in
      (record c { memory = memory' }, found)

  -- `tables and self.version_mgr.is_stale(entry.table_versions, tables)`
  unfoldable pub needs_discard : Dict ℕ → List String → W.redis.State → Option Bool
  needs_discard captured [] s = some false
  needs_discard captured (t ∷ ts) s = is_stale W.redis captured (some (t ∷ ts)) s

  promote : Clock → String → Bool → RedisEntry W.float.Num → Caches W → Caches W
  promote r cache_key false entry c = c
  promote r cache_key true entry c = record c {
    memory =
        Memory.put W.float W.getsizeof r.promoted r.promoted cache_key entry.value
          entry.table_versions none c.memory;
  }

  unfoldable pub take_l2 :
      Clock
      → String
      → Bool
      → RedisEntry W.float.Num
      → Option Bool
      → Caches W
      → Option CacheLookupResult × Caches W
  unfolding promote
  take_l2 r cache_key check_l1 entry none c = (none, c)
  take_l2 r cache_key check_l1 entry (some true) c =
      (some missed, record c { server = RedisCache.invalidate W cache_key c.server })
  take_l2 r cache_key check_l1 entry (some false) c =
      (some (record { hit = l2; value = some entry.value }), promote r cache_key check_l1 entry c)

  found_l2 :
      Clock
      → String
      → List String
      → Bool
      → Option (RedisEntry W.float.Num)
      → Caches W
      → Option CacheLookupResult × Caches W
  unfolding take_l2 needs_discard
  found_l2 r cache_key tables check_l1 none c = (some missed, c)
  found_l2 r cache_key tables check_l1 (some entry) c =
      take_l2 r cache_key check_l1 entry (needs_discard entry.table_versions tables c.server) c

  unfoldable pub get_l2 :
      Clock → String → List String → Bool → Bool → Caches W → Option CacheLookupResult × Caches W
  unfolding found_l2
  get_l2 r cache_key tables check_l1 false c = (some missed, c)
  get_l2 r cache_key tables check_l1 true c =
      let (redis_cache', found) = RedisCache.get W cache_key c.server c.redis_cache in
      found_l2 r cache_key tables check_l1 found (record c { redis_cache = redis_cache' })

  found_l1 :
      Clock
      → String
      → List String
      → Bool
      → Bool
      → Caches W × Option (CacheEntry W.float.Num)
      → Option CacheLookupResult × Caches W
  unfolding get_l2
  found_l1 r cache_key tables check_l1 check_l2 (c, some entry) =
      (some (record { hit = l1; value = some entry.value }), c)
  found_l1 r cache_key tables check_l1 check_l2 (c, none) =
      get_l2 r cache_key tables check_l1 check_l2 c

  unfoldable pub get :
      Clock → String → List String → Bool → Bool → Caches W → Option CacheLookupResult × Caches W
  unfolding found_l1 look_l1
  get r cache_key tables check_l1 check_l2 c =
      found_l1 r cache_key tables check_l1 check_l2 (look_l1 r cache_key check_l1 c)

  unfoldable pub put_l1 :
      Clock → String → Value → Dict ℕ → Bool → Option W.float.Num → Caches W → Caches W
  put_l1 r cache_key value versions false ttl c = c
  put_l1 r cache_key value versions true ttl c = record c {
    memory =
        Memory.put W.float W.getsizeof r.l1_expiry r.l1_created cache_key value versions ttl
          c.memory;
  }

  keep_server : Caches W → Option W.redis.State → Option (Unit {0}) × Caches W
  keep_server c none = (none, c)
  keep_server c (some s) = (some tt, record c { server = s })

  unfoldable pub put_l2 :
      Clock
      → String
      → Value
      → Dict ℕ
      → Bool
      → Option W.float.Num
      → Caches W
      → Option (Unit {0}) × Caches W
  unfolding keep_server
  put_l2 r cache_key value versions false ttl c = (some tt, c)
  put_l2 r cache_key value versions true ttl c =
      keep_server c
        (RedisCache.put W r.l2_created cache_key value versions ttl c.redis_cache c.server)

  put_at :
      Clock
      → String
      → Value
      → Bool
      → Bool
      → Option W.float.Num
      → Option (Dict ℕ)
      → Caches W
      → Option (Unit {0}) × Caches W
  unfolding put_l1 put_l2
  put_at r cache_key value write_l1 write_l2 ttl none c = (none, c)
  put_at r cache_key value write_l1 write_l2 ttl (some versions) c =
      put_l2 r cache_key value versions write_l2 ttl
        (put_l1 r cache_key value versions write_l1 ttl c)

  unfoldable pub put :
      Clock
      → String
      → Value
      → List String
      → Bool
      → Bool
      → Option W.float.Num
      → Caches W
      → Option (Unit {0}) × Caches W
  unfolding put_at
  put r cache_key value tables write_l1 write_l2 ttl c =
      put_at r cache_key value write_l1 write_l2 ttl (current_versions W.redis tables c.server) c
