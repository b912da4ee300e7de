-- ===== src/Tests/Settings.antt =====
-- The shared client over a sequence of calls.
use cacheopt.Base.{ℕ, Option, some, List, [], ◌∷◌, All}
use cacheopt.RedisClient.{Address, external, embedded, fresh}
use cacheopt.RedisClient.Lifetime.{Op, acquire, reset, apply_all, IsProper, apply_all-IsProper}
use cacheopt.Tests.Clusters.{settings}

abbrev connect : Address → Option ℕ
connect (external host port db password) = some 1
connect (embedded path) = some 2

abbrev ops : List (Op ℕ)
ops = acquire settings ∷ reset ∷ acquire (record settings { redis_mode = "external" }) ∷ reset ∷ []

apply_all-IsProper_example : All (IsProper connect) (apply_all connect ops fresh).1
apply_all-IsProper_example = apply_all-IsProper connect ops
