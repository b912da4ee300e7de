-- ===== src/Memory/Exactness.antt =====
-- A `MemoryBuffer` with room for all that is put, against the abstract cache of a run.
use cacheopt.Base.{
  ℕ, ◌+◌, ◌≤◌, ◌≡◌, refl, ◌∙◌, ap, String, none, some, List, [], ◌∷◌, ◌++◌, arith, dec_str, ite,
  length, sum_by, sum_by-append, Option-cases, Bool-cases, inl, inr,
}
use cacheopt.Dict.{Dict, lookup, erase}
use cacheopt.Dict.Laws.{
  sum_by-erase, move_to_end-erase, lookup-append, lookup-erase_self, lookup-erase_ne, erase_absent,
}
use cacheopt.Float.{Float}
use cacheopt.Memory
use cacheopt.Memory.{
  CacheEntry, MemoryBuffer, init, evict, evict_all, new_entry, store_entry, stale_keys, get_entry,
  has_expired,
}
use cacheopt.Memory.Calls.{Call, get, put, invalidate, invalidate_tables, call, run, call-IsValid}
use cacheopt.Memory.Eviction.{HadToGo, written, store_entry-Shrunk}
use cacheopt.Memory.Invalidation.{lookup-invalidate_tables, unless_stale}
use cacheopt.Memory.Invariant.{IsValid, init-IsValid, entry_size}
use cacheopt.Memory.Reads.{lookup-get, lookup-evict, get-live, live}
use cacheopt.Memory.Refinement.{Spec, replay_call, replay}
use cacheopt.Value.{Value}

module _ {N : Type 0} where
  lookup-written :
      (k key : String) (entry : CacheEntry N) (b : MemoryBuffer N)
      → IsValid b
      → lookup k (written key entry b) ≡ ite (dec_str k key) (some entry) (lookup k b.store)
  unfolding lookup
  lookup-written k key entry b v =
      let split = lookup-append k (erase key b.store) ((key, entry) ∷ []) in
      elim (dec_str k key) [
        | yes p ↦ ground (arith, p, split, lookup-erase_self key b.store v.is_counted.distinct)
        | no p ↦ ground (arith, split, lookup-erase_ne k key b.store p)
      ]

  length-sum_by : (d : Dict (CacheEntry N)) → length d ≡ sum_by (λ e. 1) d
  length-sum_by [] = refl
  length-sum_by (e ∷ d) = omega (arith, length-sum_by d)

  -- Nothing had to go from a store that is within the limits.
  gone-nil :
      (entries bytes : ℕ) (gone kept : Dict (CacheEntry N))
      → HadToGo entries bytes gone kept
      → length (gone ++ kept) ≤ entries
      → sum_by entry_size (gone ++ kept) ≤ bytes
      → gone ≡ []
  gone-nil entries bytes [] kept h few light = refl
  gone-nil entries bytes (e ∷ gone) kept h few light = elim h.0 [
    | inl many ↦ absurd (omega (arith, many, few))
    | inr heavy ↦ absurd (omega (arith, heavy, light))
  ]

  module _ (g : String × CacheEntry N → ℕ) where
    erase_le : (key : String) (d : Dict (CacheEntry N)) → sum_by g (erase key d) ≤ sum_by g d
    erase_le key d = elim (Option-cases (lookup key d)) [
      | inl miss ↦ rw (erase_absent key d miss) (omega arith)
      | inr (e, hit) ↦ omega (arith, sum_by-erase g key e d hit)
    ]

    written_le :
        (key : String) (entry : CacheEntry N) (b : MemoryBuffer N)
        → sum_by g (written key entry b) ≤ sum_by g b.store + g (key, entry)
    written_le key entry b =
        omega (arith, erase_le key b.store, sum_by-append g (erase key b.store) ((key, entry) ∷ []))

    store_entry_le :
        (key : String) (entry : CacheEntry N) (b : MemoryBuffer N)
        → IsValid b
        → sum_by g (store_entry key entry b).store ≤ sum_by g b.store + g (key, entry)
    store_entry_le key entry b v =
        let s = store_entry-Shrunk key entry b v.is_counted in
        omega (
          arith,
          written_le key entry b,
          ap (sum_by g) s.splits,
          sum_by-append g s.gone (store_entry key entry b).store,
        )

    evict_le : (key : String) (b : MemoryBuffer N) → sum_by g (evict key b).store ≤ sum_by g b.store
    unfolding evict
    evict_le key b = elim (Option-cases (lookup key b.store)) [
      | inl miss ↦ rw (miss, evict) (omega arith)
      | inr (e, hit) ↦ rw (hit, evict) (erase_le key b.store)
    ]

    evict_all_le :
        (ks : List String) (b : MemoryBuffer N) → sum_by g (evict_all ks b).store ≤ sum_by g b.store
    unfolding evict_all
    evict_all_le [] b = omega arith
    evict_all_le (k ∷ ks) b = omega (arith, evict_le k b, evict_all_le ks (evict k b))

  -- Where the written store is within the limits, the key of `put` reads as the new entry, and all others as
  -- before.
  lookup-store_entry :
      (k key : String) (entry : CacheEntry N) (b : MemoryBuffer N)
      → IsValid b
      → length b.store + 1 ≤ b.max_entries
      → b.bytes_used + entry.size_bytes ≤ b.max_bytes
      → lookup k (store_entry key entry b).store
        ≡ ite (dec_str k key) (some entry) (lookup k b.store)
  lookup-store_entry k key entry b v few light =
      let s = store_entry-Shrunk key entry b v.is_counted in
      let store = (store_entry key entry b).store in
      let count = length-sum_by (s.gone ++ store) in
      let counts = written_le (λ e. 1) key entry b in
      let sizes = written_le entry_size key entry b in
      let empty =
        gone-nil b.max_entries b.max_bytes s.gone store s.had_to_go
          (omega (arith, few, count, counts, length-sum_by b.store, ap (sum_by (λ e. 1)) s.splits))
          (omega (arith, light, sizes, v.is_counted.counted, ap (sum_by entry_size) s.splits)) in
      let same : written key entry b ≡ store =
        s.splits ∙ ap (λ (d : Dict (CacheEntry N)). d ++ store) empty in
      rw (← same) (lookup-written k key entry b v)

  abbrev SameLimits : MemoryBuffer N → MemoryBuffer N → Type 0
  SameLimits b c = (c.max_entries ≡ b.max_entries) × (c.max_bytes ≡ b.max_bytes)

  evict-SameLimits : (key : String) (b : MemoryBuffer N) → SameLimits b (evict key b)
  unfolding evict
  evict-SameLimits key b = (ground arith, ground arith)

  evict_all-SameLimits : (ks : List String) (b : MemoryBuffer N) → SameLimits b (evict_all ks b)
  unfolding evict_all
  evict_all-SameLimits [] b = (refl, refl)
  evict_all-SameLimits (k ∷ ks) b =
      let (e, m) = evict-SameLimits k b in
      let (e', m') = evict_all-SameLimits ks (evict k b) in (e' ∙ e, m' ∙ m)

module _ (F : Float) (getsizeof : Value → ℕ) where
  open F use {Num}

  get-SameLimits :
      (now : Num) (key : String) (b : MemoryBuffer Num) → SameLimits b (Memory.get F now key b).0
  unfolding Memory.get evict
  get-SameLimits now key b = (ground arith, ground arith)

  get_le :
      (g : String × CacheEntry Num → ℕ) (now : Num) (key : String) (b : MemoryBuffer Num)
      → sum_by g (Memory.get F now key b).0.store ≤ sum_by g b.store
  unfolding Memory.get
  get_le g now key b = elim (Option-cases (lookup key b.store)) [
    | inl miss ↦ rw (miss, get_entry) (omega arith)
    | inr (e, hit) ↦ elim (Bool-cases (has_expired F e.expires_at now)) [
      | inl old ↦ rw (hit, old, get_entry) (evict_le g key b)
      | inr fresh ↦
          rw (hit, fresh, get_entry, move_to_end-erase key e b.store hit)
            (omega (
              arith,
              sum_by-erase g key e b.store hit,
              sum_by-append g (erase key b.store) ((key, e) ∷ []),
            ))
    ]
  ]

  abbrev put_weight : (String × CacheEntry Num → ℕ) → Call Num → ℕ
  put_weight g (put now created key value versions ttl) =
      g (key, new_entry F getsizeof now created value versions ttl)
  put_weight g _ = 0

  -- A measure of all that is put.
  abbrev pub total : (String × CacheEntry Num → ℕ) → List (Call Num) → ℕ
  total g [] = 0
  total g (c ∷ cs) = put_weight g c + total g cs

  call_le :
      (g : String × CacheEntry Num → ℕ) (c : Call Num) (b : MemoryBuffer Num)
      → IsValid b
      → sum_by g (call F getsizeof c b).store ≤ sum_by g b.store + put_weight g c
  unfolding call Memory.put Memory.invalidate Memory.invalidate_tables
  call_le g (get now key) b v = omega (arith, get_le g now key b)
  call_le g (put now created key value versions ttl) b v = store_entry_le g key _ b v
  call_le g (invalidate key) b v = omega (arith, evict_le g key b)
  call_le g (invalidate_tables tables current) b v =
      omega (arith, evict_all_le g (stale_keys tables current b.store) b)

  call-SameLimits :
      (c : Call Num) (b : MemoryBuffer Num) → IsValid b → SameLimits b (call F getsizeof c b)
  unfolding call Memory.put Memory.invalidate Memory.invalidate_tables
  call-SameLimits (get now key) b v = get-SameLimits now key b
  call-SameLimits (put now created key value versions ttl) b v =
      (store_entry-Shrunk key (new_entry F getsizeof now created value versions ttl) b
        v.is_counted).same_limits
  call-SameLimits (invalidate key) b v = evict-SameLimits key b
  call-SameLimits (invalidate_tables tables current) b v =
      evict_all-SameLimits (stale_keys tables current b.store) b

  -- The buffer has room for all that the calls put.
  abbrev HasRoom : List (Call Num) → MemoryBuffer Num → Type 0
  HasRoom cs b =
      (sum_by (λ e. 1) b.store + total (λ e. 1) cs ≤ b.max_entries)
      × (sum_by entry_size b.store + total entry_size cs ≤ b.max_bytes)

  call-HasRoom :
      (c : Call Num) (cs : List (Call Num)) (b : MemoryBuffer Num)
      → IsValid b
      → HasRoom (c ∷ cs) b
      → HasRoom cs (call F getsizeof c b)
  call-HasRoom c cs b v room =
      let (entries, bytes) = call-SameLimits c b v in
      (
        omega (arith, room.0, entries, call_le (λ e. 1) c b v),
        omega (arith, room.1, bytes, call_le entry_size c b v),
      )

  -- The buffer holds what the abstract cache holds.
  abbrev pub Holds : MemoryBuffer Num → Spec F getsizeof → Type 0
  Holds b f = (k : String) → lookup k b.store ≡ f k

  call-Holds :
      (c : Call Num) (b : MemoryBuffer Num) (f : Spec F getsizeof)
      → IsValid b
      → HasRoom (c ∷ []) b
      → Holds b f
      → Holds (call F getsizeof c b) (replay_call F getsizeof c f)
  unfolding call Memory.put Memory.invalidate
  call-Holds (get now key) b f v room h k =
      rw (lookup-get F now key b k v.is_counted.distinct, h key, h k) refl
  call-Holds (put now created key value versions ttl) b f v room h k =
      let entry = new_entry F getsizeof now created value versions ttl in
      lookup-store_entry k key entry b v (omega (arith, room.0, length-sum_by b.store))
        (omega (arith, room.1, v.is_counted.counted))
      ∙ ap (ite (dec_str k key) (some entry)) (h k)
  call-Holds (invalidate key) b f v room h k =
      lookup-evict k key b v.is_counted.distinct ∙ ap (ite (dec_str k key) none) (h k)
  call-Holds (invalidate_tables tables current) b f v room h k =
      lookup-invalidate_tables tables current b v k ∙ ap (unless_stale tables current) (h k)

  run-Holds :
      (cs : List (Call Num)) (b : MemoryBuffer Num) (f : Spec F getsizeof)
      → IsValid b
      → HasRoom cs b
      → Holds b f
      → Holds (run F getsizeof cs b) (replay F getsizeof cs f)
  unfolding run replay
  run-Holds [] b f v room h = h
  run-Holds (c ∷ cs) b f v room h =
      run-Holds cs (call F getsizeof c b) (replay_call F getsizeof c f)
        (call-IsValid F getsizeof c b v) (call-HasRoom c cs b v room)
        (call-Holds c b f v (omega (arith, room.0), omega (arith, room.1)) h)

  -- On a new buffer that has room for all entries that are put and for all their bytes, `get` returns after
  -- any calls exactly what was put last under the key and has not been invalidated, gone stale for an
  -- invalidation, or expired since.
  pub get-run_exact :
      (cs : List (Call Num)) (entries bytes : ℕ) (now : Num) (key : String)
      → total (λ e. 1) cs ≤ entries
      → total entry_size cs ≤ bytes
      → (Memory.get F now key (run F getsizeof cs (init entries bytes))).1
        ≡ live F now (replay F getsizeof cs (λ k. none) key)
  unfolding init lookup
  get-run_exact cs entries bytes now key few light =
      let h =
        run-Holds cs (init entries bytes) (λ k. none) (init-IsValid entries bytes)
          (omega (arith, few), omega (arith, light)) (λ k. refl) in
      get-live F now key (run F getsizeof cs (init entries bytes)) ∙ ap (live F now) (h key)
