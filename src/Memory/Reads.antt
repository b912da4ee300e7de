-- ===== src/Memory/Reads.antt =====
-- What `get` returns and leaves behind, on each branch.
use cacheopt.Base.{
  ℕ, ◌+◌, ◌≡◌, refl, String, Option, none, some, arith, dec_str, ite, if◌then◌else◌, Bool-cases,
  Option-cases, inl, inr, [], ◌∷◌, ◌++◌,
}
use cacheopt.Dict.{lookup, erase}
use cacheopt.Dict.Laws.{
  Distinct, lookup-append, lookup-erase_self, lookup-erase_ne, move_to_end-erase,
}
use cacheopt.Float.{Float}
use cacheopt.Memory
use cacheopt.Memory.{CacheEntry, MemoryBuffer, evict, has_expired, get_entry}
use cacheopt.Memory.Invariant.{IsValid}

module _ {N : Type 0} where
  pub lookup-evict :
      (j key : String) (b : MemoryBuffer N)
      → Distinct b.store
      → lookup j (evict key b).store ≡ ite (dec_str j key) none (lookup j b.store)
  unfolding evict
  lookup-evict j key b h =
      ground (arith, lookup-erase_self key b.store, lookup-erase_ne j key b.store)

  -- Moving an entry to the end of the order hides no entry.
  pub lookup-touch :
      (j key : String) (e : CacheEntry N) (b : MemoryBuffer N)
      → Distinct b.store
      → lookup key b.store ≡ some e
      → lookup j (erase key b.store ++ (key, e) ∷ []) ≡ lookup j b.store
  unfolding lookup
  lookup-touch j key e b h hit = ground (
    arith,
    lookup-append j (erase key b.store) ((key, e) ∷ []),
    lookup-erase_self key b.store,
    lookup-erase_ne j key b.store,
  )

module _ (F : Float) where
  open F use {Num}

  -- The entry, unless the time is past.
  abbrev pub unless_past : Num → Option Num → CacheEntry Num → Option (CacheEntry Num)
  unless_past now none e = some e
  unless_past now (some t) e = if F.lt t now then none else some e

  -- The entry, unless the time at which it expires is past.
  abbrev pub live : Num → Option (CacheEntry Num) → Option (CacheEntry Num)
  live now none = none
  live now (some e) = unless_past now e.expires_at e

  unless_past-has_expired :
      (now : Num) (t : Option Num) (e : CacheEntry Num)
      → unless_past now t e ≡ (if has_expired F t now then none else some e)
  unfolding has_expired
  unless_past-has_expired now none e = refl
  unless_past-has_expired now (some t) e = refl

  -- The condition of `get` is that of `live`.
  pub live-has_expired :
      (now : Num) (e : CacheEntry Num)
      → live now (some e) ≡ (if has_expired F e.expires_at now then none else some e)
  live-has_expired now e = unless_past-has_expired now e.expires_at e

  abbrev pub one_if : {A : Type 0} → Option A → ℕ
  one_if none = 0
  one_if (some a) = 1

  module _ (now : Num) (key : String) (b : MemoryBuffer Num) where
    pub get-live : (Memory.get F now key b).1 ≡ live now (lookup key b.store)
    unfolding Memory.get
    get-live = elim (Option-cases (lookup key b.store)) [
      | inl miss ↦ rw (miss, get_entry) refl
      | inr (e, hit) ↦ rw (hit, live-has_expired now e, get_entry) (ground arith)
    ]

    pub lookup-get :
        (j : String)
        → Distinct b.store
        → lookup j (Memory.get F now key b).0.store
          ≡ ite (dec_str j key) (live now (lookup key b.store)) (lookup j b.store)
    unfolding Memory.get
    lookup-get j h = elim (Option-cases (lookup key b.store)) [
      | inl miss ↦ rw (miss, get_entry) (ground arith)
      | inr (e, hit) ↦ elim (Bool-cases (has_expired F e.expires_at now)) [
        | inl old ↦ rw (hit, live-has_expired now e, old, get_entry) (lookup-evict j key b h)
        | inr fresh ↦
            rw (hit, live-has_expired now e, fresh, get_entry, move_to_end-erase key e b.store hit)
              (ground (arith, lookup-touch j key e b h))
      ]
    ]

    -- For a valid buffer, `get` returns the stored entry exactly if there is one and it has not
    -- expired. Afterwards every other key reads as before, and the key itself reads as returned, so
    -- that an expired entry is gone. The call counts as one hit or as one miss, as it returned.
    pub get_outcome :
        IsValid b
        → ((Memory.get F now key b).1 ≡ live now (lookup key b.store))
          × ((j : String)
              → lookup j (Memory.get F now key b).0.store
                ≡ ite (dec_str j key) (live now (lookup key b.store)) (lookup j b.store))
          × ((Memory.get F now key b).0.hits ≡ b.hits + one_if (live now (lookup key b.store)))
          × ((Memory.get F now key b).0.misses + one_if (live now (lookup key b.store))
              ≡ b.misses + 1)
    unfolding Memory.get evict
    get_outcome h = (get-live, λ j. lookup-get j h.is_counted.distinct, ground arith, ground arith)
