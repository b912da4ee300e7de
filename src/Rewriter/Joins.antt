-- ===== src/Rewriter/Joins.antt =====
-- The joins of a tree before and after `join_reorder`.
use mathlib.Core.List.Perm
use mathlib.Core.List.{Perm}
use mathlib.Core.Path.{ap₂}
use cacheopt.Base.{
  ℕ, suc, ◌+◌, ◌≡◌, refl, sym, ap, ◌∙◌, subst, Bool, false, true, List, [], ◌∷◌, map, arith, length,
  ◌≤◌, All, Bool-cases, inl, inr, ◌⊎◌, get_elem?, some,
}
use cacheopt.Rewriter.{Syntax, indexed, is_range, join_cost, may_reorder, scored, join_reorder}
use cacheopt.Stats.{StatsCatalog}
use cacheopt.Rewriter.Sorting.{
  IsSorted, sort_by-Perm, sort_by-All, sort_by-IsSorted, length-sort_by, FewestFirst,
  IsSorted-FewestFirst,
}

module _ {A : Type 0} where
  abbrev seconds : List (ℕ × A) → List A
  seconds = map (λ p. p.1)

  indexed-seconds : (i : ℕ) (xs : List A) → seconds (indexed i xs) ≡ xs
  unfolding indexed
  indexed-seconds i [] = refl
  indexed-seconds i (x ∷ xs) = ap (◌∷◌ x) (indexed-seconds (suc i) xs)

  seconds-All :
      (cost : A → ℕ) (n : ℕ) (ps : List (ℕ × A))
      → All (λ p. n ≤ cost p.1) ps
      → All (λ y. n ≤ cost y) (seconds ps)
  seconds-All cost n [] h = tt
  seconds-All cost n (p ∷ ps) h = (h.0, seconds-All cost n ps h.1)

  seconds-IsSorted :
      (cost : A → ℕ) (ps : List (ℕ × A)) → IsSorted (λ p. cost p.1) ps → IsSorted cost (seconds ps)
  seconds-IsSorted cost [] h = tt
  seconds-IsSorted cost (p ∷ ps) h =
      (seconds-All cost (cost p.1) ps h.0, seconds-IsSorted cost ps h.1)

  -- The element at each index of the pairs stands there in the list.
  AreAt : List A → List (ℕ × A) → Type 0
  AreAt whole = All (λ p. get_elem? whole p.0 ≡ some p.1)

  -- `xs` are the elements of the list from `k` on.
  abbrev IsFrom : List A → ℕ → List A → Type 0
  IsFrom whole k xs = (i : ℕ) → get_elem? xs i ≡ get_elem? whole (k + i)

  next :
      (whole : List A) (k : ℕ) (x : A) (xs : List A)
      → IsFrom whole k (x ∷ xs)
      → IsFrom whole (suc k) xs
  next whole k x xs h i = h (suc i) ∙ ap (get_elem? whole) (omega arith)

  first :
      (whole : List A) (k : ℕ) (x : A) (xs : List A)
      → IsFrom whole k (x ∷ xs)
      → get_elem? whole k ≡ some x
  first whole k x xs h = sym (h 0 ∙ ap (get_elem? whole) (omega arith))

  indexed-AreAt :
      (whole : List A) (k : ℕ) (xs : List A) → IsFrom whole k xs → AreAt whole (indexed k xs)
  unfolding indexed AreAt
  indexed-AreAt whole k [] h = tt
  indexed-AreAt whole k (x ∷ xs) h =
      (first whole k x xs h, indexed-AreAt whole (suc k) xs (next whole k x xs h))

  length-indexed : (k : ℕ) (xs : List A) → length (indexed k xs) ≡ length xs
  unfolding indexed
  length-indexed k [] = refl
  length-indexed k (x ∷ xs) = ap suc (length-indexed (suc k) xs)

  same_found :
      (whole : List A) (j k : ℕ) (y x : A)
      → j ≡ k
      → get_elem? whole j ≡ some y
      → get_elem? whole k ≡ some x
      → y ≡ x
  same_found whole j k y x e hy hx = let both = sym hy ∙ ap (get_elem? whole) e ∙ hx in cc

  -- Pairs that stand in the order of their indices are the list itself.
  is_range-seconds :
      (whole : List A) (k : ℕ) (ps : List (ℕ × A)) (xs : List A)
      → is_range k ps ≡ true
      → length ps ≡ length xs
      → AreAt whole ps
      → IsFrom whole k xs
      → seconds ps ≡ xs
  unfolding is_range AreAt
  is_range-seconds whole k [] [] r l at h = refl
  is_range-seconds whole k [] (x ∷ xs) r l at h = absurd (omega (arith, l))
  is_range-seconds whole k (p ∷ ps) [] r l at h = absurd (omega (arith, l))
  is_range-seconds whole k ((j, y) ∷ ps) (x ∷ xs) r l at h =
      let here : j ≡ k = ground arith in
      let rest =
        is_range-seconds whole (suc k) ps xs (ground arith) (omega (arith, l)) at.1
          (next whole k x xs h) in
      let head = same_found whole j k y x here at.0 (first whole k x xs h) in ap₂ ◌∷◌ head rest

module _ (X : Syntax) where
  open X use {Tree, Join}

  abbrev pub by_cost : StatsCatalog → Tree → List Join
  by_cost stats tree = seconds (scored X stats tree)

  by_cost-Perm : (stats : StatsCatalog) (tree : Tree) → Perm (X.joins tree) (by_cost stats tree)
  unfolding scored
  by_cost-Perm stats tree =
      subst (λ (l : List Join). Perm l (by_cost stats tree)) (indexed-seconds 0 (X.joins tree))
        (Perm.map (λ (p : ℕ × Join). p.1)
          (sort_by-Perm (λ p. join_cost X stats p.1) (indexed 0 (X.joins tree))))

  by_cost-IsSorted :
      (stats : StatsCatalog) (tree : Tree) → IsSorted (join_cost X stats) (by_cost stats tree)
  unfolding scored
  by_cost-IsSorted stats tree =
      seconds-IsSorted (join_cost X stats) (scored X stats tree)
        (sort_by-IsSorted (λ p. join_cost X stats p.1) (indexed 0 (X.joins tree)))

  by_cost_unchanged :
      (stats : StatsCatalog) (tree : Tree)
      → is_range 0 (scored X stats tree) ≡ true
      → by_cost stats tree ≡ X.joins tree
  unfolding scored AreAt
  by_cost_unchanged stats tree r =
      is_range-seconds (X.joins tree) 0 (scored X stats tree) (X.joins tree) r
        (length-sort_by (λ p. join_cost X stats p.1) (indexed 0 (X.joins tree))
          ∙ length-indexed 0 (X.joins tree))
        (sort_by-All (λ p. join_cost X stats p.1) _ (indexed 0 (X.joins tree))
          (indexed-AreAt (X.joins tree) 0 (X.joins tree)
            (λ i. ap (get_elem? (X.joins tree)) (omega arith))))
        (λ i. ap (get_elem? (X.joins tree)) (omega arith))

  -- What `join_reorder` makes of a tree whose joins may move: `js` are its joins, fewest rows first; it
  -- gives the tree these joins, or leaves it where its joins stand in that order.
  pub record Reordered (stats : StatsCatalog) (tree : Tree) (o : Tree × Bool) (js : List Join)
      : Type 0 where
    pub none_lost : Perm (X.joins tree) js
    pub fewest_first : FewestFirst X stats js
    pub outcome : (o ≡ (X.set_joins js tree, true)) ⊎ ((o ≡ (tree, false)) × (js ≡ X.joins tree))

  -- Where the guards of `join_reorder` hold, the joins of its result are those of the tree, none lost
  -- and none added, and none stands before one whose table has fewer rows in the catalog, where a
  -- table that is not there counts as a billion rows. A tree that it leaves as it is has its joins in
  -- that order.
  pub join_reorder-Reordered :
      (stats : StatsCatalog) (tree : Tree)
      → may_reorder X tree ≡ true
      → (js : List Join) × Reordered stats tree (join_reorder X tree stats) js
  unfolding join_reorder
  join_reorder-Reordered stats tree may = (
    by_cost stats tree,
    record {
      none_lost = by_cost-Perm stats tree;
      fewest_first =
          IsSorted-FewestFirst X stats (by_cost stats tree) (by_cost-IsSorted stats tree);
      outcome = elim (Bool-cases (is_range 0 (scored X stats tree))) [
        | inl same ↦ rw (may, same) (inr (refl, by_cost_unchanged stats tree same))
        | inr other ↦ rw (may, other) (inl refl)
      ];
    },
  )
