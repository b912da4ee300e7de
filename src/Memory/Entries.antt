-- ===== src/Memory/Entries.antt =====
-- Predicates on every entry of a buffer, through its operations.
use cacheopt.Base.{
  ◌≢◌, ℕ, ◌≡◌, sym, ◌∙◌, subst, ◌⊎◌, inl, inr, String, Option, none, some, List, [], ◌∷◌, ◌++◌,
  arith, dec_str, ite, if_pos, if_neg, false, Bool-cases,
}
use mathlib.Core.Path.{subst₂}
use cacheopt.Dict.{Dict, lookup, erase}
use cacheopt.Dict.Laws.{
  Distinct, lookup-append, lookup-erase_self, lookup-erase_ne, Distinct-erase, Distinct-push,
}
use cacheopt.Float.{Float}
use cacheopt.Memory
use cacheopt.Memory.{
  CacheEntry, MemoryBuffer, store_entry, is_stale_entry, invalidate_tables, has_expired,
}
use cacheopt.Memory.Invariant.{IsValid}
use cacheopt.Memory.Eviction.{written, store_entry-Shrunk}
use cacheopt.Memory.Invalidation.{lookup-invalidate_tables, unless_stale}
use cacheopt.Memory.Reads.{live-has_expired, lookup-get, get-live, live}

module _ {N : Type 0} where
  -- `P` holds of every entry and its key.
  abbrev pub Every : (String → CacheEntry N → Type 0) → MemoryBuffer N → Type 0
  Every P b = (k : String) (e : CacheEntry N) → lookup k b.store ≡ some e → P k e

  -- In distinct keys, what is found at the end is not hidden by the front.
  lookup-append_end :
      (k : String) (e : CacheEntry N) (front back : Dict (CacheEntry N))
      → Distinct (front ++ back)
      → lookup k back ≡ some e
      → lookup k (front ++ back) ≡ some e
  unfolding lookup
  lookup-append_end k e [] back h found = found
  lookup-append_end k e (f ∷ front) back h found = ground (arith, lookup-append_end k e front back)

  lookup-written :
      (k key : String) (e entry : CacheEntry N) (b : MemoryBuffer N)
      → Distinct b.store
      → lookup k (written key entry b) ≡ some e
      → (k ≡ key) × (e ≡ entry) ⊎ (k ≢ key) × (lookup k b.store ≡ some e)
  unfolding lookup
  lookup-written k key e entry b h found =
      let split = lookup-append k (erase key b.store) ((key, entry) ∷ []) in
      elim (dec_str k key) [
        | yes p ↦ inl (p, ground (arith, split, lookup-erase_self key b.store h))
        | no p ↦ inr (p, ground (arith, split, lookup-erase_ne k key b.store p))
      ]

  of_unless_stale :
      (tables : List String) (current : Dict ℕ) (e : CacheEntry N) (o : Option (CacheEntry N))
      → unless_stale tables current o ≡ some e
      → (o ≡ some e) × (is_stale_entry tables current e.table_versions ≡ false)
  of_unless_stale tables current e none h = cc
  of_unless_stale tables current e (some e') h =
      elim (Bool-cases (is_stale_entry tables current e'.table_versions)) [
        | inl stale ↦ ground arith
        | inr fresh ↦
            let same : some e' ≡ some e = rw fresh at h in
            let equal : e' ≡ e = cc in
            (
              same,
              subst (λ (x : CacheEntry N). is_stale_entry tables current x.table_versions ≡ false)
                  equal fresh,
            )
      ]

  -- What is found after `put` is the new entry, or was there before.
  pub store_entry_found :
      (k key : String) (e entry : CacheEntry N) (b : MemoryBuffer N)
      → IsValid b
      → lookup k (store_entry key entry b).store ≡ some e
      → (k ≡ key) × (e ≡ entry) ⊎ (k ≢ key) × (lookup k b.store ≡ some e)
  store_entry_found k key e entry b v found =
      let s = store_entry-Shrunk key entry b v.is_counted in
      let distinct : Distinct (written key entry b) =
        Distinct-push key entry _ (Distinct-erase key b.store v.is_counted.distinct)
          (lookup-erase_self key b.store v.is_counted.distinct) in
      let there : lookup k (written key entry b) ≡ some e = rw s.splits (
        lookup-append_end k e s.gone (store_entry key entry b).store
          (subst Distinct s.splits distinct) found) in
      lookup-written k key e entry b v.is_counted.distinct there

  pub store_entry-Every :
      (P : String → CacheEntry N → Type 0) (key : String) (entry : CacheEntry N)
      (b : MemoryBuffer N)
      → IsValid b
      → Every P b
      → P key entry
      → Every P (store_entry key entry b)
  store_entry-Every P key entry b v h new k e found =
      elim (store_entry_found k key e entry b v found) [
        | inl (p, q) ↦ subst₂ P (sym p) (sym q) new
        | inr (_, old) ↦ h k e old
      ]

  -- What `invalidate_tables` leaves is not stale for it.
  pub invalidate_tables-Every :
      (P : String → CacheEntry N → Type 0) (tables : List String) (current : Dict ℕ)
      (b : MemoryBuffer N)
      → IsValid b
      → Every P b
      → Every
          (λ k e. P k e × (is_stale_entry tables current e.table_versions ≡ false))
          (invalidate_tables tables current b)
  invalidate_tables-Every P tables current b v h k e found =
      let (there, fresh) =
        of_unless_stale tables current e (lookup k b.store)
          (sym (lookup-invalidate_tables tables current b v k) ∙ found) in
      (h k e there, fresh)

module _ (F : Float) where
  open F use {Num}

  live-some :
      (now : Num) (e : CacheEntry Num) (o : Option (CacheEntry Num))
      → live F now o ≡ some e
      → o ≡ some e
  live-some now e none h = cc
  live-some now e (some e') h =
      let conditional = sym (live-has_expired F now e') ∙ h in ground arith

  of_live :
      (now : Num) (key k : String) (e : CacheEntry Num) (b : MemoryBuffer Num)
      → ite (dec_str k key) (live F now (lookup key b.store)) (lookup k b.store) ≡ some e
      → lookup k b.store ≡ some e
  of_live now key k e b h = elim (dec_str k key) [
    | yes p ↦ rw p (live-some now e (lookup key b.store) (rw (if_pos (dec_str k key) p) at h))
    | no p ↦ rw (if_neg (dec_str k key) p) at h
  ]

  pub get-Every :
      (P : String → CacheEntry Num → Type 0) (now : Num) (key : String) (b : MemoryBuffer Num)
      → IsValid b
      → Every P b
      → Every P (Memory.get F now key b).0
  get-Every P now key b v h k e found =
      h k e (of_live now key k e b (sym (lookup-get F now key b k v.is_counted.distinct) ∙ found))

  -- The entry that `get` returns is one of the entries.
  pub get_found :
      (P : String → CacheEntry Num → Type 0) (now : Num) (key : String) (b : MemoryBuffer Num)
      (e : CacheEntry Num)
      → Every P b
      → (Memory.get F now key b).1 ≡ some e
      → P key e
  get_found P now key b e h found =
      h key e (live-some now e (lookup key b.store) (sym (get-live F now key b) ∙ found))
