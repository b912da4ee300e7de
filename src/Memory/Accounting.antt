-- ===== src/Memory/Accounting.antt =====
-- `MemoryBuffer.stats`, and the lookups that it counts over any calls.
use cacheopt.Base.{
  ℕ, ◌+◌, ◌≡◌, refl, ◌∙◌, ap, String, List, [], ◌∷◌, arith, length, if◌then◌else◌, ◌==◌, Bool-cases,
  inl, inr,
}
use cacheopt.Dict.{Dict, insert}
use cacheopt.Float.{Float}
use cacheopt.Memory
use cacheopt.Memory.{
  MemoryBuffer, CacheEntry, evict, evict_all, shrink, forget, store_entry, is_over, get_entry,
  has_expired, enforce_limits, stale_keys,
}
use cacheopt.Memory.Calls.{Call, get, put, invalidate, invalidate_tables, call, run}
use cacheopt.Value.{Value}

pub record BufferStats (N : Type 0) : Type 0 where
  pub entries : ℕ
  pub bytes_used : ℕ
  pub hits : ℕ
  pub misses : ℕ
  pub hit_rate : N
  pub evictions : ℕ

-- `self.hits / total if total else 0.0`
abbrev pub hit_rate : (F : Float) → ℕ → ℕ → F.Num
hit_rate F hits total = if total == 0 then F.num 0 else F.div (F.num hits) (F.num total)

unfoldable pub stats : (F : Float) → MemoryBuffer F.Num → BufferStats F.Num
stats F b = record {
  entries = length b.store;
  bytes_used = b.bytes_used;
  hits = b.hits;
  misses = b.misses;
  hit_rate = hit_rate F b.hits (b.hits + b.misses);
  evictions = b.evictions;
}

module _ {N : Type 0} where
  abbrev pub lookups : MemoryBuffer N → ℕ
  lookups b = b.hits + b.misses

  evict-lookups : (key : String) (b : MemoryBuffer N) → lookups (evict key b) ≡ lookups b
  unfolding evict
  evict-lookups key b = ground arith

  evict_all-lookups : (ks : List String) (b : MemoryBuffer N) → lookups (evict_all ks b) ≡ lookups b
  unfolding evict_all
  evict_all-lookups [] b = refl
  evict_all-lookups (k ∷ ks) b = evict_all-lookups ks (evict k b) ∙ evict-lookups k b

  shrink-lookups : (d : Dict (CacheEntry N)) (b : MemoryBuffer N) → lookups (shrink d b) ≡ lookups b
  unfolding shrink
  shrink-lookups [] b = refl
  shrink-lookups ((k, e) ∷ d) b = elim (Bool-cases (is_over b)) [
    | inl over ↦ rw (over, shrink) (shrink-lookups d _)
    | inr fits ↦ rw (fits, shrink) refl
  ]

  forget-lookups : (key : String) (b : MemoryBuffer N) → lookups (forget key b) ≡ lookups b
  unfolding forget
  forget-lookups key b = ground arith

  store_entry-lookups :
      (key : String) (entry : CacheEntry N) (b : MemoryBuffer N)
      → lookups (store_entry key entry b) ≡ lookups b
  unfolding store_entry enforce_limits
  store_entry-lookups key entry b =
      shrink-lookups (insert key entry (forget key b).store) (record (forget key b) {
        store = insert key entry (forget key b).store;
        bytes_used = (forget key b).bytes_used + entry.size_bytes;
      })
      ∙ forget-lookups key b

module _ (F : Float) (getsizeof : Value → ℕ) where
  open F use {Num}

  abbrev one_if_get : Call Num → ℕ
  one_if_get (get now key) = 1
  one_if_get _ = 0

  -- The number of `get` calls.
  abbrev pub gets : List (Call Num) → ℕ
  gets [] = 0
  gets (c ∷ cs) = one_if_get c + gets cs

  get-lookups :
      (now : Num) (key : String) (b : MemoryBuffer Num)
      → lookups (Memory.get F now key b).0 ≡ lookups b + 1
  unfolding Memory.get evict
  get-lookups now key b = ground arith

  call-lookups :
      (c : Call Num) (b : MemoryBuffer Num)
      → lookups (call F getsizeof c b) ≡ lookups b + one_if_get c
  unfolding call Memory.put Memory.invalidate Memory.invalidate_tables
  call-lookups (get now key) b = get-lookups now key b
  call-lookups (put now created key value versions ttl) b =
      omega (arith, store_entry-lookups key _ b)
  call-lookups (invalidate key) b = omega (arith, evict-lookups key b)
  call-lookups (invalidate_tables tables current) b = omega (arith, evict_all-lookups _ b)

  run-lookups :
      (cs : List (Call Num)) (b : MemoryBuffer Num)
      → lookups (run F getsizeof cs b) ≡ lookups b + gets cs
  unfolding run
  run-lookups [] b = omega arith
  run-lookups (c ∷ cs) b = omega (arith, run-lookups cs (call F getsizeof c b), call-lookups c b)

  -- What `stats` reports after calls on a new buffer.
  abbrev pub reported : List (Call Num) → ℕ → ℕ → BufferStats Num
  reported cs entries bytes = stats F (run F getsizeof cs (Memory.init entries bytes))

  -- After any calls on a new buffer, `stats` reports as many hits and misses as there were `get`
  -- calls, and the rate of the hits among them.
  pub stats-run :
      (cs : List (Call Num)) (entries bytes : ℕ)
      → ((reported cs entries bytes).hits + (reported cs entries bytes).misses ≡ gets cs)
        × ((reported cs entries bytes).hit_rate
            ≡ hit_rate F (reported cs entries bytes).hits (gets cs))
  unfolding stats Memory.init
  stats-run cs entries bytes =
      let b = run F getsizeof cs (Memory.init entries bytes) in
      let total : lookups b ≡ gets cs = omega (arith, run-lookups cs (Memory.init entries bytes)) in
      (total, ap (hit_rate F b.hits) total)
