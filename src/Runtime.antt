-- ===== src/Runtime.antt =====
-- What the caches use and the repository does not hold: floats, the Redis server, the size that the
-- interpreter counts for an object, UTF-8 decoding, and the blob that is stored in Redis (JSON text,
-- compressed by zlib).
use cacheopt.Base.{ℕ, ◌≡◌, String, Option, some, List}
use cacheopt.Dict.{Dict}
use cacheopt.Float.{Float}
use cacheopt.Redis.{Redis, IsRedis}
use cacheopt.Value.{Value}
use cacheopt.Value.Json.{Json}

-- The object that `RedisCache.put` dumps.
pub record Payload (N : Type 0) : Type 0 where
  pub value : Json
  pub table_versions : Dict ℕ
  pub created_at : N

-- `decode` gives `none` where decompressing, parsing or reading a field raises.
pub record Runtime : Type 1 where
  pub float : Float
  pub redis : Redis
  pub getsizeof : Value → ℕ
  pub utf8 : List ℕ → String
  pub encode : Payload float.Num → redis.Blob
  pub decode : redis.Blob → Option (Payload float.Num)

-- The documented behaviour: that of Redis, and that what is dumped and compressed can be read back.
pub record IsRuntime (W : Runtime) : Type 0 where
  pub is_redis : IsRedis W.redis
  pub decode-encode : (p : Payload W.float.Num) → W.decode (W.encode p) ≡ some p

-- The readings of `time.time()` that a request makes, named for what they are for.
pub record Readings (N : Type 0) : Type 0 where
  pub looked_up : N
  pub promoted : N
  pub l1_expiry : N
  pub l1_created : N
  pub l2_created : N
  pub hotness : N
  pub recorded : N
