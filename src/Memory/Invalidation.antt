-- ===== src/Memory/Invalidation.antt =====
-- What `invalidate_tables` drops.
use cacheopt.Base.{
  ℕ, ◌≡◌, refl, ◌∙◌, String, false, Option, none, some, List, [], ◌∷◌, arith, if◌then◌else◌,
}
use cacheopt.Dict.{Dict, lookup}
use cacheopt.Dict.Laws.{Distinct}
use cacheopt.Memory.{
  CacheEntry, MemoryBuffer, evict, evict_all, is_member, is_stale_entry, stale_keys,
  invalidate_tables,
}
use cacheopt.Memory.Invariant.{IsValid, IsCounted, evict-IsCounted}
use cacheopt.Memory.Reads.{lookup-evict}

module _ {N : Type 0} where
  -- The entry, if it is not stale.
  abbrev pub unless_stale : List String → Dict ℕ → Option (CacheEntry N) → Option (CacheEntry N)
  unless_stale tables current none = none
  unless_stale tables current (some e) =
      if is_stale_entry tables current e.table_versions then none else some e

  lookup-evict_all :
      (j : String) (ks : List String) (b : MemoryBuffer N)
      → IsCounted b
      → lookup j (evict_all ks b).store ≡ (if is_member j ks then none else lookup j b.store)
  unfolding evict_all is_member
  lookup-evict_all j [] b h = refl
  lookup-evict_all j (k ∷ ks) b h = ground (
    arith,
    lookup-evict_all j ks (evict k b) (evict-IsCounted k b h),
    lookup-evict j k b h.distinct,
  )

  not_member-stale_keys :
      (j : String) (tables : List String) (current : Dict ℕ) (d : Dict (CacheEntry N))
      → lookup j d ≡ none
      → is_member j (stale_keys tables current d) ≡ false
  unfolding stale_keys is_member lookup
  not_member-stale_keys j tables current [] h = refl
  not_member-stale_keys j tables current ((k, e) ∷ d) h =
      ground (arith, not_member-stale_keys j tables current d)

  -- A key is listed exactly if its entry is there and stale.
  lookup-stale_keys :
      (j : String) (tables : List String) (current : Dict ℕ) (d : Dict (CacheEntry N))
      → Distinct d
      → (if is_member j (stale_keys tables current d) then none else lookup j d)
        ≡ unless_stale tables current (lookup j d)
  unfolding stale_keys is_member lookup
  lookup-stale_keys j tables current [] h = refl
  lookup-stale_keys j tables current ((k, e) ∷ d) h =
      ground (arith, lookup-stale_keys j tables current d, not_member-stale_keys j tables current d)

  -- After `invalidate_tables` a key reads as before, unless its entry was computed from an older
  -- version of one of the tables: then it is absent.
  pub lookup-invalidate_tables :
      (tables : List String) (current : Dict ℕ) (b : MemoryBuffer N)
      → IsValid b
      → (j : String)
      → lookup j (invalidate_tables tables current b).store
        ≡ unless_stale tables current (lookup j b.store)
  unfolding invalidate_tables
  lookup-invalidate_tables tables current b h j =
      lookup-evict_all j (stale_keys tables current b.store) b h.is_counted
      ∙ lookup-stale_keys j tables current b.store h.is_counted.distinct
