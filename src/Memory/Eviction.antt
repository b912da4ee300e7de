-- ===== src/Memory/Eviction.antt =====
-- The eviction order of `_enforce_limits`.
use cacheopt.Base.{
  ℕ, ◌+◌, ◌-◌, ◌≡◌, refl, ap, subst, ◌≤◌, ◌<◌, ◌⊎◌, inl, inr, String, none, some, ◌∙◌, [], ◌∷◌,
  ◌++◌, arith, length, sum_by, sum_by-append, Bool-cases, Option-cases, sym, true,
}
use mathlib.Core.Path.{subst₂}
use cacheopt.Dict.{Dict, lookup, insert, erase}
use cacheopt.Dict.Laws.{lookup-append, lookup-erase_self, erase_absent, insert_absent}
use cacheopt.Memory.{CacheEntry, MemoryBuffer, is_over, shrink, forget, store_entry}
use cacheopt.Memory.Invariant.{
  entry_size, IsCounted, IsValid, forget-IsCounted, store_entry-IsValid,
}

module _ {N : Type 0} where
  -- A store that passes the limit on entries or the limit on bytes.
  abbrev pub PassesLimit : ℕ → ℕ → Dict (CacheEntry N) → Type 0
  PassesLimit entries bytes d = (entries < length d) ⊎ (bytes < sum_by entry_size d)

  -- Each entry of `gone` was dropped from a store that passed a limit.
  abbrev pub HadToGo : ℕ → ℕ → Dict (CacheEntry N) → Dict (CacheEntry N) → Type 0
  HadToGo entries bytes [] kept = Unit
  HadToGo entries bytes (e ∷ gone) kept =
      PassesLimit entries bytes (e ∷ gone ++ kept) × HadToGo entries bytes gone kept

  -- The outcome of the loop on a buffer whose store is `d`.
  pub record Shrunk (d : Dict (CacheEntry N)) (b c : MemoryBuffer N) : Type 0 where
    pub gone : Dict (CacheEntry N)
    pub splits : d ≡ gone ++ c.store
    pub had_to_go : HadToGo b.max_entries b.max_bytes gone c.store
    pub evictions : c.evictions ≡ b.evictions + length gone
    pub same_limits : (c.max_entries ≡ b.max_entries) × (c.max_bytes ≡ b.max_bytes)

  is_over-PassesLimit :
      (d : Dict (CacheEntry N)) (b : MemoryBuffer N)
      → b.store ≡ d
      → b.bytes_used ≡ sum_by entry_size d
      → is_over b ≡ true
      → PassesLimit b.max_entries b.max_bytes d
  unfolding is_over
  is_over-PassesLimit d b e c h = ground (arith, ap (length {A = String × CacheEntry N}) e)

  pub shrink-Shrunk :
      (d : Dict (CacheEntry N)) (b : MemoryBuffer N)
      → b.store ≡ d
      → b.bytes_used ≡ sum_by entry_size d
      → Shrunk d b (shrink d b)
  unfolding shrink
  shrink-Shrunk [] b e c = record {
    gone = [];
    splits = sym e;
    had_to_go = tt;
    evictions = omega arith;
    same_limits = (refl, refl);
  }
  shrink-Shrunk ((k, v) ∷ d) b e c = elim (Bool-cases (is_over b)) [
    | inl over ↦
        let b' : MemoryBuffer N = record b {
          store = d;
          bytes_used = b.bytes_used - v.size_bytes;
          evictions = b.evictions + 1;
        } in
        let r = shrink-Shrunk d b' refl (omega (arith, c)) in
        rw (over, shrink)
          (record {
            gone = (k, v) ∷ r.gone;
            splits = ap (λ t. (k, v) ∷ t) r.splits;
            had_to_go = (
              subst (λ t. PassesLimit b.max_entries b.max_bytes ((k, v) ∷ t)) r.splits
                  (is_over-PassesLimit ((k, v) ∷ d) b e c over),
              r.had_to_go,
            );
            evictions = omega (arith, r.evictions);
            same_limits = r.same_limits;
          })
    | inr fits ↦
        rw (fits, shrink)
          (record {
            gone = [];
            splits = sym e;
            had_to_go = tt;
            evictions = omega arith;
            same_limits = (refl, refl);
          })
  ]

  -- The store that `put` has written before it enforces the limits.
  abbrev pub written : String → CacheEntry N → MemoryBuffer N → Dict (CacheEntry N)
  written key entry b = erase key b.store ++ (key, entry) ∷ []

  forget_frame :
      (key : String) (b : MemoryBuffer N)
      → ((forget key b).store ≡ erase key b.store)
        × ((forget key b).evictions ≡ b.evictions)
        × ((forget key b).max_entries ≡ b.max_entries)
        × ((forget key b).max_bytes ≡ b.max_bytes)
  unfolding forget
  forget_frame key b = elim (Option-cases (lookup key b.store)) [
    | inl miss ↦ rw (miss, forget) (sym (erase_absent key b.store miss), refl, refl, refl)
    | inr (e, hit) ↦ rw (hit, forget) (refl, refl, refl, refl)
  ]

  pub store_entry-Shrunk :
      (key : String) (entry : CacheEntry N) (b : MemoryBuffer N)
      → IsCounted b
      → Shrunk (written key entry b) b (store_entry key entry b)
  unfolding store_entry
  store_entry-Shrunk key entry b h =
      let (kept, absent) = forget-IsCounted key b h in
      let f = forget_frame key b in
      let same : insert key entry (forget key b).store ≡ written key entry b =
        insert_absent key entry (forget key b).store absent
        ∙ ap (λ (d : Dict (CacheEntry N)). d ++ (key, entry) ∷ []) f.0 in
      let r =
        shrink-Shrunk (insert key entry (forget key b).store)
          (record (forget key b) {
            store = insert key entry (forget key b).store;
            bytes_used = (forget key b).bytes_used + entry.size_bytes;
          })
          refl
          (rw (insert_absent key entry (forget key b).store absent) (
            omega (
              arith,
              kept.counted,
              sum_by-append entry_size (forget key b).store ((key, entry) ∷ []),
            ))) in
      record {
        gone = r.gone;
        splits = sym same ∙ r.splits;
        had_to_go =
            subst₂ (λ (n m : ℕ). HadToGo n m r.gone (store_entry key entry b).store) f.2 f.3
              r.had_to_go;
        evictions = omega (arith, r.evictions, f.1);
        same_limits = (r.same_limits.0 ∙ f.2, r.same_limits.1 ∙ f.3);
      }

  -- `put` writes the entry behind all others, as the newest, and in place of an older one with its
  -- key. Then it drops entries from the front, where the oldest stand: exactly as many as it takes
  -- to meet both limits, each dropped from a store that passed a limit, and it counts them.
  pub store_entry_evicts_oldest :
      (key : String) (entry : CacheEntry N) (b : MemoryBuffer N)
      → IsValid b
      → Shrunk (written key entry b) b (store_entry key entry b) × IsValid (store_entry key entry b)
  store_entry_evicts_oldest key entry b h =
      (store_entry-Shrunk key entry b h.is_counted, store_entry-IsValid key entry b h.is_counted)

  lookup_newest :
      (key : String) (entry : CacheEntry N) (n m : ℕ) (d gone kept : Dict (CacheEntry N))
      → 0 < n
      → entry.size_bytes ≤ m
      → d ++ (key, entry) ∷ [] ≡ gone ++ kept
      → lookup key d ≡ none
      → HadToGo n m gone kept
      → lookup key kept ≡ some entry
  unfolding lookup
  lookup_newest key entry n m d [] kept pos fits e absent had =
      rw (← e) (ground (arith, lookup-append key d ((key, entry) ∷ [])))
  lookup_newest key entry n m [] (g ∷ gone) kept pos fits e absent had =
      let alone : PassesLimit n m ((key, entry) ∷ []) = subst (PassesLimit n m) (sym e) had.0 in
      absurd (omega arith)
  lookup_newest key entry n m (f ∷ d) (g ∷ gone) kept pos fits e absent had =
      lookup_newest key entry n m d gone kept pos fits (cc) (ground arith) had.1

  -- What `put` stores is read back, in a buffer for at least one entry and if the entry alone is
  -- within the byte limit.
  pub lookup-store_entry_self :
      (key : String) (entry : CacheEntry N) (b : MemoryBuffer N)
      → IsValid b
      → 0 < b.max_entries
      → entry.size_bytes ≤ b.max_bytes
      → lookup key (store_entry key entry b).store ≡ some entry
  lookup-store_entry_self key entry b h pos fits =
      let r = store_entry-Shrunk key entry b h.is_counted in
      lookup_newest key entry b.max_entries b.max_bytes (erase key b.store) r.gone
        (store_entry key entry b).store pos fits r.splits
        (lookup-erase_self key b.store h.is_counted.distinct) r.had_to_go
