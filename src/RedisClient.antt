-- ===== src/RedisClient.antt =====
-- src/cacheopt/cache/redis_client.py: the client that a process shares. The constructors of redis-py
-- and redislite are the field `connect`, with the address that they are given.
pub mod Lifetime
use cacheopt.Base.{
  ℕ, ◌++◌, String, Bool, true, false, Option, none, some, List, [], ◌∷◌, dec_str, ite,
}
use cacheopt.Config.{Config}

pub data Address : Type 0 where
  -- host, port, db and password
  external : String → ℕ → ℕ → Option String → Address
  -- the path of the database file of an embedded server
  embedded : String → Address

-- What happened outside the process.
pub data Action (C : Type 0) : Type 0 where
  connected : Address → Action C
  shut_down : C → Action C

-- `_singleton` and `_mode`.
pub record Globals (C : Type 0) : Type 0 where
  pub singleton : Option C
  pub mode : Option String

unfoldable pub fresh : {C : Type 0} → Globals C
fresh = record { singleton = none; mode = none }

unfoldable pub address_of : {N : Type 0} → Config N → Address
address_of config =
    ite (dec_str config.redis_mode "external")
      (external config.redis_host config.redis_port config.redis_db config.redis_password)
      (embedded config.redis_rdb_path)

module _ {N C : Type 0} (connect : Address → Option C) where
  opened : Config N → Option C → Globals C → Option C × Globals C × List (Action C)
  opened config none g = (none, g, [])
  opened config (some client) g = (
    some client,
    record { singleton = some client; mode = some config.redis_mode },
    connected (address_of config) ∷ [],
  )

  -- `get_redis_client`: the client, `none` where its constructor raises.
  unfoldable pub get_redis_client : Config N → Globals C → Option C × Globals C × List (Action C)
  unfolding opened address_of
  get_redis_client config g = elim g.singleton [
    | some client ↦ (some client, g, [])
    | none ↦ opened config (connect (address_of config)) g
  ]

is_embedded : Option String → Bool
is_embedded none = false
is_embedded (some m) = ite (dec_str m "embedded") true false

module _ {C : Type 0} where
  stopped : Option C → Bool → List (Action C)
  stopped (some client) true = shut_down client ∷ []
  stopped _ _ = []

  -- `reset_client`; what `shutdown` raises is dropped.
  unfoldable pub reset_client : Globals C → Globals C × List (Action C)
  unfolding is_embedded stopped fresh
  reset_client g = (fresh, stopped g.singleton (is_embedded g.mode))
