-- ===== src/RedisCache.antt =====
-- src/cacheopt/cache/redis_cache.py: L2. The object holds counters, and the entries are on the server.
use cacheopt.Base.{ℕ, ◌+◌, String, Option, none, some}
use cacheopt.Dict.{Dict}
use cacheopt.Redis.Keys.{result_key}
use cacheopt.Runtime.{Runtime, Payload}
use cacheopt.Value.{Value}
use cacheopt.Value.Json.{to_json, of_json, restore_value}

pub record RedisEntry (N : Type 0) : Type 0 where
  pub value : Value
  pub table_versions : Dict ℕ
  pub created_at : N

pub record RedisCache : Type 0 where
  pub default_ttl : ℕ
  pub hits : ℕ
  pub misses : ℕ

unfoldable pub init : ℕ → RedisCache
init default_ttl = record { default_ttl = default_ttl; hits = 0; misses = 0 }

module _ (W : Runtime) where
  abbrev pub Num : Type 0
  Num = W.float.Num

  abbrev pub State : Type 0
  State = W.redis.State

  unfoldable pub entry_of : Payload Num → RedisEntry Num
  entry_of p = record {
    value = restore_value (of_json p.value);
    table_versions = p.table_versions;
    created_at = p.created_at;
  }

  unfoldable pub read_blob : Option W.redis.Blob → Option (RedisEntry Num)
  unfolding entry_of
  read_blob none = none
  read_blob (some blob) = elim (W.decode blob) [ none ↦ none | some p ↦ some (entry_of p) ]

  count_read : Option (RedisEntry Num) → RedisCache → RedisCache × Option (RedisEntry Num)
  count_read none c = (record c { misses = c.misses + 1 }, none)
  count_read (some entry) c = (record c { hits = c.hits + 1 }, some entry)

  -- The client's `get`, which stands outside the `try`, is taken to return.
  unfoldable pub get : String → State → RedisCache → RedisCache × Option (RedisEntry Num)
  unfolding count_read read_blob
  get cache_key s c = count_read (read_blob (W.redis.get (result_key cache_key) s)) c

  -- `int(ttl_seconds if ttl_seconds is not None else self._default_ttl)`
  unfoldable pub seconds : Option Num → RedisCache → ℕ
  seconds none c = c.default_ttl
  seconds (some ttl) c = W.float.truncate ttl

  -- `created` reads the clock. `none` where Redis raises.
  unfoldable pub put :
      Num → String → Value → Dict ℕ → Option Num → RedisCache → State → Option State
  unfolding seconds
  put created cache_key value table_versions ttl c s =
      W.redis.set (result_key cache_key)
        (W.encode (record {
          value = to_json W.utf8 value;
          table_versions = table_versions;
          created_at = created;
        }))
        (seconds ttl c) s

  unfoldable pub invalidate : String → State → State
  invalidate cache_key s = W.redis.delete (result_key cache_key) s
