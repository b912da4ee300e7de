-- ===== src/Redis.antt =====
-- What the program uses of a Redis server through redis-py, and the keys that it uses there
-- (src/cacheopt/invalidation.py, src/cacheopt/cache/redis_cache.py).
pub mod Keys
use cacheopt.Base.{ℕ, zero, ◌+◌, ◌<◌, ◌≡◌, ◌≢◌, String, Bool, Option, none, some, dec_str, ite}

-- `set` is SET with EX, and `incr` is INCR; both may raise. `int_of` is Python's `int` of a reply.
pub record Redis : Type 1 where
  pub State : Type 0
  pub Blob : Type 0
  pub get : String → State → Option Blob
  pub set : String → Blob → ℕ → State → Option State
  pub delete : String → State → State
  pub incr : String → State → Option (ℕ × State)
  pub int_of : Blob → Option ℕ

-- The counter that a key holds: an absent key counts as 0.
abbrev pub counter : (R : Redis) → Option R.Blob → Option ℕ
counter R none = some 0
counter R (some v) = R.int_of v

-- The documented behaviour of the commands.
pub record IsRedis (R : Redis) : Type 0 where
  pub set_zero : (k : String) (v : R.Blob) (s : R.State) → R.set k v 0 s ≡ none
  pub set_pos :
      (k : String) (v : R.Blob) (ex : ℕ) (s : R.State)
      → 0 < ex
      → (s' : R.State) × (R.set k v ex s ≡ some s')
  pub get-set :
      (j k : String) (v : R.Blob) (ex : ℕ) (s s' : R.State)
      → R.set k v ex s ≡ some s'
      → R.get j s' ≡ ite (dec_str j k) (some v) (R.get j s)
  pub get-delete :
      (j k : String) (s : R.State) → R.get j (R.delete k s) ≡ ite (dec_str j k) none (R.get j s)
  pub incr_counter :
      (k : String) (n : ℕ) (s : R.State)
      → counter R (R.get k s) ≡ some n
      → (s' : R.State) × (R.incr k s ≡ some (n + 1, s'))
  pub get-incr_ne :
      (j k : String) (n : ℕ) (s s' : R.State)
      → R.incr k s ≡ some (n, s')
      → j ≢ k
      → R.get j s' ≡ R.get j s
  pub counter-incr :
      (k : String) (n : ℕ) (s s' : R.State)
      → R.incr k s ≡ some (n, s')
      → counter R (R.get k s') ≡ some n
