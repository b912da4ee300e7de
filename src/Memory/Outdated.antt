-- ===== src/Memory/Outdated.antt =====
-- Which entries `invalidate_tables` drops, without the code's own condition.
use cacheopt.Base.{
  ℕ, zero, suc, ◌<◌, ◌≡◌, ◌⊎◌, refl, sym, ◌∙◌, String, Bool, true, ◌&&◌, none, some, List, [], ◌∷◌,
  arith, any, dec_str, if_pos, if_neg, get_elem?, inl, inr, Bool-cases, Option-cases,
}
use cacheopt.Dict.{Dict, lookup, lookup_or, keys}
use cacheopt.Memory.{
  CacheEntry, MemoryBuffer, is_member, is_older, is_stale_entry, invalidate_tables,
}
use cacheopt.Memory.Invalidation.{lookup-invalidate_tables}
use cacheopt.Memory.Invariant.{IsValid}

any_found :
    (p : String → Bool) (ks : List String)
    → any p ks ≡ true
    → (i : ℕ) × (k : String) × (get_elem? ks i ≡ some k) × (p k ≡ true)
any_found p [] h = cc
any_found p (k ∷ ks) h = elim (Bool-cases (p k)) [
  | inl here ↦ (zero, k, refl, here)
  | inr not_here ↦ let (i, j, at, held) = any_found p ks (rw not_here at h) in (suc i, j, at, held)
]

any_of :
    (p : String → Bool) (ks : List String) (i : ℕ) (k : String)
    → get_elem? ks i ≡ some k
    → p k ≡ true
    → any p ks ≡ true
any_of p [] i k at h = cc
any_of p (j ∷ ks) zero k at h = let same : j ≡ k = cc in rw (same, h) refl
any_of p (j ∷ ks) (suc i) k at h = let rest = any_of p ks i k at h in ground arith

member_at :
    (t : String) (ts : List String) → is_member t ts ≡ true → (i : ℕ) × (get_elem? ts i ≡ some t)
unfolding is_member
member_at t [] h = cc
member_at t (u ∷ us) h = elim (dec_str t u) [
  | yes p ↦ (zero, rw p refl)
  | no p ↦
      let (i, at) = member_at t us (sym (if_neg (dec_str t u) p true (is_member t us)) ∙ h) in
      (suc i, at)
]

at_member :
    (t : String) (ts : List String) (i : ℕ) → get_elem? ts i ≡ some t → is_member t ts ≡ true
unfolding is_member
at_member t [] i at = cc
at_member t (u ∷ us) zero at = let same : t ≡ u = cc in if_pos (dec_str t u) same true _
at_member t (u ∷ us) (suc i) at = let rest = at_member t us i at in ground arith

module _ {V : Type 0} where
  key_found :
      (d : Dict V) (i : ℕ) (k : String)
      → get_elem? (keys d) i ≡ some k
      → (v : V) × (lookup k d ≡ some v)
  unfolding lookup
  key_found [] i k at = cc
  key_found ((j, w) ∷ d) zero k at =
      let same : k ≡ j = cc in (w, if_pos (dec_str k j) same (some w) (lookup k d))
  key_found ((j, w) ∷ d) (suc i) k at =
      let (v, found) = key_found d i k at in
      elim (dec_str k j) [
        | yes p ↦ (w, if_pos (dec_str k j) p (some w) (lookup k d))
        | no p ↦ (v, if_neg (dec_str k j) p (some w) (lookup k d) ∙ found)
      ]

  found_key :
      (d : Dict V) (k : String) (v : V)
      → lookup k d ≡ some v
      → (i : ℕ) × (get_elem? (keys d) i ≡ some k)
  unfolding lookup
  found_key [] k v found = cc
  found_key ((j, w) ∷ d) k v found = elim (dec_str k j) [
    | yes p ↦ (zero, rw p refl)
    | no p ↦
        let (i, at) =
          found_key d k v (sym (if_neg (dec_str k j) p (some w) (lookup k d)) ∙ found) in
        (suc i, at)
  ]

-- The entry was computed from a version of one of the tables that is below the current one, which
-- is 0 for a table that `current` does not name.
pub record IsOutdated (tables : List String) (current captured : Dict ℕ) : Type 0 where
  pub table : String
  pub place : ℕ
  pub version : ℕ
  pub named : get_elem? tables place ≡ some table
  pub held : lookup table captured ≡ some version
  pub below : version < lookup_or table 0 current

stale-IsOutdated :
    (tables : List String) (current captured : Dict ℕ)
    → is_stale_entry tables current captured ≡ true
    → IsOutdated tables current captured
unfolding is_stale_entry is_older
stale-IsOutdated tables current captured h =
    let (i, t, at, stale) = any_found _ (keys captured) h in
    let (v, found) = key_found captured i t at in
    let both : (is_member t tables && is_older (some v) (lookup_or t 0 current)) ≡ true =
      rw found at stale in
    let (place, named) = member_at t tables (ground arith) in
    record {
      table = t;
      place = place;
      version = v;
      named = named;
      held = found;
      below = ground arith;
    }

IsOutdated-stale :
    (tables : List String) (current captured : Dict ℕ)
    → IsOutdated tables current captured
    → is_stale_entry tables current captured ≡ true
unfolding is_stale_entry is_older
IsOutdated-stale tables current captured o =
    let (i, at) = found_key captured o.table o.version o.held in
    let named = at_member o.table tables o.place o.named in
    let older = o.below in any_of _ (keys captured) i o.table at (rw (named, o.held) (ground arith))

module _ {N : Type 0} where
  -- For a valid buffer: after `invalidate_tables` a key without an entry has none, and one with an
  -- entry has lost it exactly if the entry was computed from a version of one of the tables below
  -- the current one.
  pub invalidate_tables_outcome :
      (tables : List String) (current : Dict ℕ) (b : MemoryBuffer N)
      → IsValid b
      → (j : String)
      → ((lookup j b.store ≡ none) × (lookup j (invalidate_tables tables current b).store ≡ none))
        ⊎ ((e : CacheEntry N) × (lookup j b.store ≡ some e)
            × ((IsOutdated tables current e.table_versions
                  × (lookup j (invalidate_tables tables current b).store ≡ none))
                ⊎ ((¬ IsOutdated tables current e.table_versions)
                    × (lookup j (invalidate_tables tables current b).store ≡ some e))))
  invalidate_tables_outcome tables current b h j =
      let left = lookup-invalidate_tables tables current b h j in
      elim (Option-cases (lookup j b.store)) [
        | inl absent ↦ inl (absent, left ∙ rw absent refl)
        | inr (e, there) ↦ elim (Bool-cases (is_stale_entry tables current e.table_versions)) [
          | inl stale ↦
              inr (e, there, inl (stale-IsOutdated _ _ _ stale, left ∙ rw (there, stale) refl))
          | inr fresh ↦ inr (
            e,
            there,
            inr (λ o. let stale = IsOutdated-stale _ _ _ o in cc, left ∙ rw (there, fresh) refl),
          )
        ]
      ]
