-- ===== src/Rewriter/Sorting.antt =====
-- `sorted` by a key, and what its order is at indices.
use mathlib.Core.List.Perm
use mathlib.Core.List.{Perm}
use cacheopt.Base.{
  ℕ, zero, suc, ◌≡◌, refl, ap, ◌∙◌, subst, List, [], ◌∷◌, arith, length, ◌≤◌, ◌<◌, All, leb,
  Bool-cases, inl, inr, get_elem?, some, none, String,
}
use cacheopt.Dict.{lookup}
use cacheopt.Rewriter.{Syntax, insert_by, sort_by, join_cost, cost_of}
use cacheopt.Stats.{StatsCatalog, TableStats}

module _ {A : Type 0} (cost : A → ℕ) where
  abbrev pub IsSorted : List A → Type 0
  IsSorted [] = Unit
  IsSorted (x ∷ xs) = All (λ y. cost x ≤ cost y) xs × IsSorted xs

  insert_by-Perm : (x : A) (ys : List A) → Perm (x ∷ ys) (insert_by cost x ys)
  unfolding insert_by
  insert_by-Perm x [] = Perm.rfl
  insert_by-Perm x (y ∷ ys) = elim (Bool-cases (leb (cost x) (cost y))) [
    | inl le ↦ rw le (Perm.refl (x ∷ y ∷ ys))
    | inr gt ↦ rw gt (Perm.trans (Perm.swap y x ys) (Perm.cons y (insert_by-Perm x ys)))
  ]

  pub sort_by-Perm : (xs : List A) → Perm xs (sort_by cost xs)
  unfolding sort_by
  sort_by-Perm [] = Perm.nil
  sort_by-Perm (x ∷ xs) =
      Perm.trans (Perm.cons x (sort_by-Perm xs)) (insert_by-Perm x (sort_by cost xs))

  insert_by-All :
      (P : A → Type 0) (x : A) (ys : List A) → P x → All P ys → All P (insert_by cost x ys)
  unfolding insert_by
  insert_by-All P x [] p ps = (p, tt)
  insert_by-All P x (y ∷ ys) p ps = elim (Bool-cases (leb (cost x) (cost y))) [
    | inl le ↦ rw le (p, ps)
    | inr gt ↦ rw gt (ps.0, insert_by-All P x ys p ps.1)
  ]

  pub sort_by-All : (P : A → Type 0) (xs : List A) → All P xs → All P (sort_by cost xs)
  unfolding sort_by
  sort_by-All P [] ps = tt
  sort_by-All P (x ∷ xs) ps = insert_by-All P x (sort_by cost xs) ps.0 (sort_by-All P xs ps.1)

  pub All-weaken :
      (m n : ℕ) (ys : List A) → m ≤ n → All (λ y. n ≤ cost y) ys → All (λ y. m ≤ cost y) ys
  All-weaken m n [] le ps = tt
  All-weaken m n (y ∷ ys) le ps = (omega (arith, ps.0), All-weaken m n ys le ps.1)

  insert_by-IsSorted : (x : A) (ys : List A) → IsSorted ys → IsSorted (insert_by cost x ys)
  unfolding insert_by
  insert_by-IsSorted x [] h = (tt, tt)
  insert_by-IsSorted x (y ∷ ys) h = elim (Bool-cases (leb (cost x) (cost y))) [
    | inl le ↦
        let least : cost x ≤ cost y = ground arith in
        rw le ((least, All-weaken (cost x) (cost y) ys least h.0), h)
    | inr gt ↦ rw gt (insert_by-All _ x ys (ground arith) h.0, insert_by-IsSorted x ys h.1)
  ]

  pub sort_by-IsSorted : (xs : List A) → IsSorted (sort_by cost xs)
  unfolding sort_by
  sort_by-IsSorted [] = tt
  sort_by-IsSorted (x ∷ xs) = insert_by-IsSorted x (sort_by cost xs) (sort_by-IsSorted xs)

  length-insert_by : (x : A) (ys : List A) → length (insert_by cost x ys) ≡ suc (length ys)
  unfolding insert_by
  length-insert_by x [] = refl
  length-insert_by x (y ∷ ys) = ground (arith, length-insert_by x ys)

  pub length-sort_by : (xs : List A) → length (sort_by cost xs) ≡ length xs
  unfolding sort_by
  length-sort_by [] = refl
  length-sort_by (x ∷ xs) = length-insert_by x (sort_by cost xs) ∙ ap suc (length-sort_by xs)

  All-get_elem? :
      (P : A → Type 0) (xs : List A) (i : ℕ) (x : A) → All P xs → get_elem? xs i ≡ some x → P x
  All-get_elem? P [] i x h at = cc
  All-get_elem? P (y ∷ ys) zero x h at = let same : y ≡ x = cc in subst P same h.0
  All-get_elem? P (y ∷ ys) (suc i) x h at = All-get_elem? P ys i x h.1 at

  pub IsSorted-get_elem? :
      (xs : List A) (i k : ℕ) (a b : A)
      → IsSorted xs
      → i < k
      → get_elem? xs i ≡ some a
      → get_elem? xs k ≡ some b
      → cost a ≤ cost b
  IsSorted-get_elem? [] i k a b h lt at_i at_k = cc
  IsSorted-get_elem? (x ∷ xs) i zero a b h lt at_i at_k = omega (arith, lt)
  IsSorted-get_elem? (x ∷ xs) zero (suc k) a b h lt at_i at_k =
      let same : x ≡ a = cc in
      All-get_elem? (λ y. cost a ≤ cost y) xs k b
        (subst (λ (z : A). All (λ y. cost z ≤ cost y) xs) same h.0) at_k
  IsSorted-get_elem? (x ∷ xs) (suc i) (suc k) a b h lt at_i at_k =
      IsSorted-get_elem? xs i k a b h.1 (omega (arith, lt)) at_i at_k

module _ (X : Syntax) where
  open X use {Join}

  -- The rows of the table that is joined, as the catalog has them under its name in lower case: a
  -- billion for a table that it does not have, and for what is not a table.
  pub data HasRows (stats : StatsCatalog) (j : Join) : ℕ → Type 0 where
    known :
        (name : String) (table : TableStats)
        → X.join_table j ≡ some name
        → lookup (X.lower name) stats ≡ some table
        → HasRows stats j table.row_count
    unknown :
        (name : String)
        → X.join_table j ≡ some name
        → lookup (X.lower name) stats ≡ none
        → HasRows stats j 1000000000
    no_table : X.join_table j ≡ none → HasRows stats j 1000000000

  -- No join stands before one whose table has fewer rows.
  abbrev pub FewestFirst : StatsCatalog → List Join → Type 0
  FewestFirst stats js =
      (i k : ℕ) (a b : Join) (m n : ℕ)
      → i < k
      → get_elem? js i ≡ some a
      → get_elem? js k ≡ some b
      → HasRows stats a m
      → HasRows stats b n
      → m ≤ n

  HasRows-join_cost :
      (stats : StatsCatalog) (j : Join) (n : ℕ) → HasRows stats j n → join_cost X stats j ≡ n
  unfolding cost_of
  HasRows-join_cost stats j n (known name table at held) = rw (at, held) refl
  HasRows-join_cost stats j n (unknown name at absent) = rw (at, absent) refl
  HasRows-join_cost stats j n (no_table at) = rw at refl

  pub IsSorted-FewestFirst :
      (stats : StatsCatalog) (js : List Join)
      → IsSorted (join_cost X stats) js
      → FewestFirst stats js
  IsSorted-FewestFirst stats js h i k a b m n lt at_i at_k rows_a rows_b =
      let le = IsSorted-get_elem? (join_cost X stats) js i k a b h lt at_i at_k in
      let cost_a = HasRows-join_cost stats a m rows_a in
      let cost_b = HasRows-join_cost stats b n rows_b in omega (arith, le, cost_a, cost_b)
