-- ===== src/Dict/Laws.antt =====
-- What can be read from a dictionary after each operation.
use cacheopt.Base.{
  ℕ, ◌+◌, ◌≡◌, refl, ◌≢◌, String, Option, sym, none, some, [], ◌∷◌, ◌++◌, arith, dec_str, ite,
  if_pos, if_neg, length, sum_by, All,
}
use mathlib.Core.Path.{subst₂}
use cacheopt.Dict.{Dict, lookup, insert, erase, move_to_end}

-- The entry found under the first of two dictionaries, else under the second.
abbrev pub or_lookup {ℓ} : {A : Type ℓ} → Option A → Option A → Option A
or_lookup none o = o
or_lookup (some a) o = some a

module _ {ℓ} {V : Type ℓ} where
  abbrev pub Distinct : Dict V → Type ℓ
  Distinct [] = Unit
  Distinct ((j, w) ∷ d) = (lookup j d ≡ none) × Distinct d

  pub lookup-nil : (k : String) → lookup {V = V} k [] ≡ none
  unfolding lookup
  lookup-nil k = refl

  pub lookup-insert :
      (j k : String) (v : V) (d : Dict V)
      → lookup j (insert k v d) ≡ ite (dec_str j k) (some v) (lookup j d)
  unfolding lookup insert
  lookup-insert j k v [] = refl
  lookup-insert j k v (e ∷ d) = ground (arith, lookup-insert j k v d)

  pub lookup-append :
      (k : String) (d e : Dict V) → lookup k (d ++ e) ≡ or_lookup (lookup k d) (lookup k e)
  unfolding lookup
  lookup-append k [] e = refl
  lookup-append k (f ∷ d) e = ground (arith, lookup-append k d e)

  pub lookup-erase_ne : (j k : String) (d : Dict V) → j ≢ k → lookup j (erase k d) ≡ lookup j d
  unfolding lookup erase
  lookup-erase_ne j k [] h = refl
  lookup-erase_ne j k (e ∷ d) h = ground (arith, lookup-erase_ne j k d)

  pub lookup-erase_self : (k : String) (d : Dict V) → Distinct d → lookup k (erase k d) ≡ none
  unfolding lookup erase
  lookup-erase_self k [] h = refl
  lookup-erase_self k (e ∷ d) h = ground (arith, lookup-erase_self k d)

  -- What erasing leaves absent, and what it leaves as it was.
  pub lookup-erase_absent :
      (j k : String) (d : Dict V) → lookup j d ≡ none → lookup j (erase k d) ≡ none
  unfolding lookup erase
  lookup-erase_absent j k [] h = refl
  lookup-erase_absent j k (e ∷ d) h = ground (arith, lookup-erase_absent j k d)

  pub erase_absent : (k : String) (d : Dict V) → lookup k d ≡ none → erase k d ≡ d
  unfolding lookup erase
  erase_absent k [] h = refl
  erase_absent k (e ∷ d) h = ground (arith, erase_absent k d)

  pub insert_absent :
      (k : String) (v : V) (d : Dict V) → lookup k d ≡ none → insert k v d ≡ d ++ (k, v) ∷ []
  unfolding lookup insert
  insert_absent k v [] h = refl
  insert_absent k v (e ∷ d) h = ground (arith, insert_absent k v d)

  pub move_to_end-erase :
      (k : String) (v : V) (d : Dict V)
      → lookup k d ≡ some v
      → move_to_end k d ≡ erase k d ++ (k, v) ∷ []
  unfolding lookup move_to_end erase
  move_to_end-erase k v [] h = cc
  move_to_end-erase k v (e ∷ d) h = ground (arith, move_to_end-erase k v d)

  pub Distinct-erase : (k : String) (d : Dict V) → Distinct d → Distinct (erase k d)
  unfolding erase
  Distinct-erase k [] h = h
  Distinct-erase k (e ∷ d) h = ground (arith, Distinct-erase k d, lookup-erase_absent e.0 k d)

  pub Distinct-push :
      (k : String) (v : V) (d : Dict V)
      → Distinct d
      → lookup k d ≡ none
      → Distinct (d ++ (k, v) ∷ [])
  unfolding lookup
  Distinct-push k v [] h n = (refl, tt)
  Distinct-push k v (e ∷ d) h n =
      ground (arith, Distinct-push k v d, lookup-append e.0 d ((k, v) ∷ []))

  pub Distinct-insert : (k : String) (v : V) (d : Dict V) → Distinct d → Distinct (insert k v d)
  unfolding insert lookup
  Distinct-insert k v [] h = (refl, tt)
  Distinct-insert k v (e ∷ d) h = ground (arith, Distinct-insert k v d, lookup-insert e.0 k v d)

  pub sum_by-erase :
      (f : String × V → ℕ) (k : String) (v : V) (d : Dict V)
      → lookup k d ≡ some v
      → sum_by f (erase k d) + f (k, v) ≡ sum_by f d
  unfolding lookup erase
  sum_by-erase f k v [] h = cc
  sum_by-erase f k v (e ∷ d) h = ground (arith, sum_by-erase f k v d)

  pub length-erase :
      (k : String) (v : V) (d : Dict V) → lookup k d ≡ some v → length (erase k d) + 1 ≡ length d
  unfolding lookup erase
  length-erase k v [] h = cc
  length-erase k v (e ∷ d) h = ground (arith, length-erase k v d)

  module _ {κ} (P : String × V → Type κ) where
    pub All-erase : (k : String) (d : Dict V) → All P d → All P (erase k d)
    unfolding erase
    All-erase k [] h = h
    All-erase k (e ∷ d) h = elim (dec_str k e.0) [
      | yes p ↦ rw (if_pos _ p) h.1
      | no p ↦ rw (if_neg _ p) (h.0, All-erase k d h.1)
    ]

    pub All-push : (e : String × V) (d : Dict V) → All P d → P e → All P (d ++ e ∷ [])
    All-push e [] h p = (p, tt)
    All-push e (f ∷ d) h p = (h.0, All-push e d h.1 p)

    -- The entry that a lookup finds is one of the entries.
    pub All-lookup : (k : String) (v : V) (d : Dict V) → All P d → lookup k d ≡ some v → P (k, v)
    unfolding lookup
    All-lookup k v [] h e = cc
    All-lookup k v ((j, w) ∷ d) h e = elim (dec_str k j) [
      | yes p ↦
          let q : w ≡ v = ground arith in subst₂ (λ (a : String) (b : V). P (a, b)) (sym p) q h.0
      | no p ↦ All-lookup k v d h.1 (ground arith)
    ]
