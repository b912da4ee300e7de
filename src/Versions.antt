-- ===== src/Versions.antt =====
-- src/cacheopt/invalidation.py: `TableVersionManager` over a Redis server. A method that reads a
-- counter gives `none` where Python's `int` or Redis raises.
pub mod Counters
pub mod Subscriber
use cacheopt.Base.{ℕ, String, Bool, false, true, Option, none, some, List, [], ◌∷◌, any, is_some}
use cacheopt.Dict.{Dict, lookup, lookup_or, insert, keys}
use cacheopt.Memory.{is_older}
use cacheopt.Redis.{Redis, counter}
use cacheopt.Redis.Keys.{version_key}

-- The event `{"table": table, "version": new_version}` on `cacheopt:invalidate:{table}`.
pub record Event : Type 0 where
  pub table : String
  pub version : ℕ

infixl 5 ◌>>=◌
abbrev pub ◌>>=◌ {ℓ κ} : {A : Type ℓ} {B : Type κ} → Option A → (A → Option B) → Option B
none >>= f = none
some a >>= f = f a

module _ (R : Redis) where
  open R use {State}

  -- The counter of a table.
  abbrev pub version_of : String → State → Option ℕ
  version_of t s = counter R (R.get (version_key t) s)

  -- The comprehension of `current_versions`, with the pairs that it has already taken.
  unfoldable pub collect : Dict ℕ → List String → State → Option (Dict ℕ)
  collect acc [] s = some acc
  collect acc (t ∷ ts) s = do v ← version_of t s; collect (insert t v acc) ts s

  unfoldable pub current_versions : List String → State → Option (Dict ℕ)
  unfolding collect
  current_versions tables s = collect [] tables s

  -- The new version, the event that is published, and the server's state.
  unfoldable pub bump_and_publish : String → State → Option (ℕ × Event × State)
  bump_and_publish table s = do
    (version, s') ← R.incr (version_key table) s
    some (version, record { table = table; version = version }, s')

  -- `any(current.get(t, 0) > captured.get(t, -1) for t in tables)`
  unfoldable pub has_moved : Dict ℕ → Dict ℕ → List String → Bool
  unfolding is_older
  has_moved captured current tables =
      any (λ t. is_older (lookup t captured) (lookup_or t 0 current)) tables

  -- `tables if tables is not None else tuple(captured_versions.keys())`
  abbrev pub checked_tables : Dict ℕ → Option (List String) → List String
  checked_tables captured none = keys captured
  checked_tables captured (some tables) = tables

  unfoldable pub is_stale : Dict ℕ → Option (List String) → State → Option Bool
  unfolding has_moved current_versions
  is_stale captured tables s = do
    current ← current_versions (checked_tables captured tables) s
    some (has_moved captured current (checked_tables captured tables))
