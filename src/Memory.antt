-- ===== src/Memory.antt =====
-- src/cacheopt/cache/memory_buffer.py: the per-node buffer L1. A method returns the new buffer, and
-- `now` is the reading of `time.time()` that it makes.
pub mod Invariant
pub mod Calls
pub mod Entries
pub mod Reads
pub mod Invalidation
pub mod Outdated
pub mod Eviction
pub mod Refinement
pub mod Exactness
pub mod Loops
pub mod Accounting
use cacheopt.Base.{
  ℕ, ◌+◌, ◌-◌, String, Bool, false, true, ◌&&◌, ◌||◌, Option, none, some, List, [], ◌∷◌, ltb,
  if◌then◌else◌, length, any, dec_str, ite,
}
use cacheopt.Dict.{Dict, lookup, lookup_or, insert, erase, move_to_end, keys}
use cacheopt.Float.{Float}
use cacheopt.Value.{Value, approx_size}

pub record CacheEntry (N : Type 0) : Type 0 where
  pub value : Value
  pub table_versions : Dict ℕ
  pub created_at : N
  pub expires_at : Option N
  pub size_bytes : ℕ

pub record MemoryBuffer (N : Type 0) : Type 0 where
  pub max_entries : ℕ
  pub max_bytes : ℕ
  pub store : Dict (CacheEntry N)
  pub bytes_used : ℕ
  pub hits : ℕ
  pub misses : ℕ
  pub evictions : ℕ

-- `captured.get(t, -1) < current`, for a current version that is not negative
unfoldable pub is_older : Option ℕ → ℕ → Bool
is_older none current = true
is_older (some v) current = ltb v current

-- `t in tables`
unfoldable pub is_member : String → List String → Bool
is_member t [] = false
is_member t (u ∷ us) = ite (dec_str t u) true (is_member t us)

-- The condition under which `invalidate_tables` drops an entry.
unfoldable pub is_stale_entry : List String → Dict ℕ → Dict ℕ → Bool
unfolding is_older is_member
is_stale_entry tables current captured =
    any (λ t. is_member t tables && is_older (lookup t captured) (lookup_or t 0 current))
      (keys captured)

module _ {N : Type 0} where
  unfoldable pub init : ℕ → ℕ → MemoryBuffer N
  init max_entries max_bytes = record {
    max_entries = max_entries;
    max_bytes = max_bytes;
    store = [];
    bytes_used = 0;
    hits = 0;
    misses = 0;
    evictions = 0;
  }

  drop_entry : String → MemoryBuffer N → Option (CacheEntry N) → MemoryBuffer N
  drop_entry key b none = b
  drop_entry key b (some entry) = record b {
    store = erase key b.store;
    bytes_used = b.bytes_used - entry.size_bytes;
    evictions = b.evictions + 1;
  }

  -- `_evict`
  unfoldable pub evict : String → MemoryBuffer N → MemoryBuffer N
  unfolding drop_entry
  evict key b = drop_entry key b (lookup key b.store)

  unfoldable pub invalidate : String → MemoryBuffer N → MemoryBuffer N
  unfolding evict
  invalidate key b = evict key b

  unfoldable pub stale_keys : List String → Dict ℕ → Dict (CacheEntry N) → List String
  unfolding is_stale_entry
  stale_keys tables current [] = []
  stale_keys tables current ((k, e) ∷ d) =
      let rest = stale_keys tables current d in
      if is_stale_entry tables current e.table_versions then k ∷ rest else rest

  -- `for k in stale: self._evict(k)`
  unfoldable pub evict_all : List String → MemoryBuffer N → MemoryBuffer N
  unfolding evict
  evict_all [] b = b
  evict_all (k ∷ ks) b = evict_all ks (evict k b)

  unfoldable pub invalidate_tables : List String → Dict ℕ → MemoryBuffer N → MemoryBuffer N
  unfolding evict_all stale_keys
  invalidate_tables tables current b = evict_all (stale_keys tables current b.store) b

  -- `len(self._store) > self._max_entries or self._bytes_used > self._max_bytes`
  unfoldable pub is_over : MemoryBuffer N → Bool
  is_over b = ltb b.max_entries (length b.store) || ltb b.max_bytes b.bytes_used

  -- The loop of `_enforce_limits`; its first argument is the store of its second.
  unfoldable pub shrink : Dict (CacheEntry N) → MemoryBuffer N → MemoryBuffer N
  unfolding is_over
  shrink [] b = b
  shrink ((k, e) ∷ rest) b = elim (is_over b) [
    | false ↦ b
    | true ↦ shrink rest (record b {
      store = rest;
      bytes_used = b.bytes_used - e.size_bytes;
      evictions = b.evictions + 1;
    })
  ]

  unfoldable pub enforce_limits : MemoryBuffer N → MemoryBuffer N
  unfolding shrink
  enforce_limits b = shrink b.store b

  -- The `if key in self._store` of `put`.
  unfoldable pub forget : String → MemoryBuffer N → MemoryBuffer N
  forget key b = elim (lookup key b.store) [
    | none ↦ b
    | some old ↦ record b { store = erase key b.store; bytes_used = b.bytes_used - old.size_bytes }
  ]

  unfoldable pub store_entry : String → CacheEntry N → MemoryBuffer N → MemoryBuffer N
  unfolding forget enforce_limits
  store_entry key entry b =
      let b' = forget key b in
      enforce_limits (record b' {
        store = insert key entry b'.store;
        bytes_used = b'.bytes_used + entry.size_bytes;
      })

module _ (F : Float) where
  open F use {Num, lt, add, is_zero}

  -- `entry.expires_at is not None and entry.expires_at < now`
  unfoldable pub has_expired : Option Num → Num → Bool
  has_expired none now = false
  has_expired (some t) now = lt t now

  unfoldable pub get_entry :
      Num
      → String
      → MemoryBuffer Num
      → Option (CacheEntry Num)
      → MemoryBuffer Num × Option (CacheEntry Num)
  unfolding has_expired evict
  get_entry now key b none = (record b { misses = b.misses + 1 }, none)
  get_entry now key b (some entry) =
      if has_expired entry.expires_at now
      then (let b' = evict key b in (record b' { misses = b'.misses + 1 }, none))
      else (record b { store = move_to_end key b.store; hits = b.hits + 1 }, some entry)

  unfoldable pub get : Num → String → MemoryBuffer Num → MemoryBuffer Num × Option (CacheEntry Num)
  unfolding get_entry
  get now key b = get_entry now key b (lookup key b.store)

  -- `time.time() + ttl_seconds if ttl_seconds else None`
  unfoldable pub expiry : Num → Option Num → Option Num
  expiry now none = none
  expiry now (some ttl) = if is_zero ttl then none else some (add now ttl)

  -- `put` reads the clock for the expiry, and then for the creation time.
  unfoldable pub new_entry : (Value → ℕ) → Num → Num → Value → Dict ℕ → Option Num → CacheEntry Num
  unfolding expiry approx_size
  new_entry getsizeof now created value table_versions ttl = record {
    value = value;
    table_versions = table_versions;
    created_at = created;
    expires_at = expiry now ttl;
    size_bytes = approx_size getsizeof value;
  }

  unfoldable pub put :
      (Value → ℕ)
      → Num
      → Num
      → String
      → Value
      → Dict ℕ
      → Option Num
      → MemoryBuffer Num
      → MemoryBuffer Num
  unfolding new_entry store_entry
  put getsizeof now created key value table_versions ttl b =
      store_entry key (new_entry getsizeof now created value table_versions ttl) b
