-- ===== src/Stats/Percentiles.antt =====
-- `p95_latency_ms`: its index, and the rank of its value in the history.
use Prim.Native.Nat.{min}
use cacheopt.Base.{
  ℕ, zero, suc, ◌+◌, ◌-◌, ◌*◌, ◌≤◌, ◌<◌, ◌≡◌, refl, ◌∙◌, ap, subst, true, false, some, List, [],
  ◌∷◌, arith, length, get_elem?, get_elem?_total, All, Bool-cases, inl, inr, if◌then◌else◌,
}
use cacheopt.Float.{Float}
use cacheopt.Stats.{TemplateStats, insert_sorted, sorted, p95_index, p95_latency_ms}

-- What `<` is on numbers that are not NaN, and that `math.ceil(0.95 * n)` is the least integer that
-- is at least 95 hundredths of `n`.
pub record IsMeasure (F : Float) : Type 0 where
  pub lt_asym : (x y : F.Num) → F.lt x y ≡ true → F.lt y x ≡ false
  pub le_trans : (x y z : F.Num) → F.lt y x ≡ false → F.lt z y ≡ false → F.lt z x ≡ false
  pub ceil_bound : (n : ℕ) → 95 * n ≤ 100 * F.ceil (F.mul (F.decimal 95 100) (F.num n))
  pub ceil_least : (n : ℕ) → 100 * F.ceil (F.mul (F.decimal 95 100) (F.num n)) < 95 * n + 100

module _ {A : Type 0} where
  of_some : (x y : A) → some x ≡ some y → x ≡ y
  of_some x y h = cc

module _ (F : Float) where
  open F use {Num, lt}

  -- How many of the numbers are at most `v`.
  unfoldable pub count_le : Num → List Num → ℕ
  count_le v [] = 0
  count_le v (x ∷ xs) = (if lt v x then 0 else 1) + count_le v xs

  -- How many of the numbers are below `v`.
  unfoldable pub count_lt : Num → List Num → ℕ
  count_lt v [] = 0
  count_lt v (x ∷ xs) = (if lt x v then 1 else 0) + count_lt v xs

  length-insert_sorted : (x : Num) (ys : List Num) → length (insert_sorted F x ys) ≡ suc (length ys)
  unfolding insert_sorted
  length-insert_sorted x [] = refl
  length-insert_sorted x (y ∷ ys) = ground (arith, length-insert_sorted x ys)

  length-sorted : (xs : List Num) → length (sorted F xs) ≡ length xs
  unfolding sorted
  length-sorted [] = refl
  length-sorted (x ∷ xs) = length-insert_sorted x (sorted F xs) ∙ ap suc (length-sorted xs)

  count_le-insert_sorted :
      (v x : Num) (ys : List Num) → count_le v (insert_sorted F x ys) ≡ count_le v (x ∷ ys)
  unfolding insert_sorted count_le
  count_le-insert_sorted v x [] = refl
  count_le-insert_sorted v x (y ∷ ys) = ground (arith, count_le-insert_sorted v x ys)

  count_le-sorted : (v : Num) (xs : List Num) → count_le v (sorted F xs) ≡ count_le v xs
  unfolding sorted count_le
  count_le-sorted v [] = refl
  count_le-sorted v (x ∷ xs) =
      count_le-insert_sorted v x (sorted F xs)
      ∙ ap (λ (n : ℕ). (if lt v x then 0 else 1) + n) (count_le-sorted v xs)

  count_lt-insert_sorted :
      (v x : Num) (ys : List Num) → count_lt v (insert_sorted F x ys) ≡ count_lt v (x ∷ ys)
  unfolding insert_sorted count_lt
  count_lt-insert_sorted v x [] = refl
  count_lt-insert_sorted v x (y ∷ ys) = ground (arith, count_lt-insert_sorted v x ys)

  count_lt-sorted : (v : Num) (xs : List Num) → count_lt v (sorted F xs) ≡ count_lt v xs
  unfolding sorted count_lt
  count_lt-sorted v [] = refl
  count_lt-sorted v (x ∷ xs) =
      count_lt-insert_sorted v x (sorted F xs)
      ∙ ap (λ (n : ℕ). (if lt x v then 1 else 0) + n) (count_lt-sorted v xs)

  abbrev IsSorted : List Num → Type 0
  IsSorted [] = Unit
  IsSorted (x ∷ xs) = All (λ y. lt y x ≡ false) xs × IsSorted xs

  module _ (m : IsMeasure F) where
    All-weaken :
        (x y : Num) (ys : List Num)
        → lt y x ≡ false
        → All (λ z. lt z y ≡ false) ys
        → All (λ z. lt z x ≡ false) ys
    All-weaken x y [] le h = tt
    All-weaken x y (z ∷ zs) le h = (m.le_trans x y z le h.0, All-weaken x y zs le h.1)

    insert_sorted-All :
        (P : Num → Type 0) (x : Num) (ys : List Num) → P x → All P ys → All P (insert_sorted F x ys)
    unfolding insert_sorted
    insert_sorted-All P x [] p ps = (p, tt)
    insert_sorted-All P x (y ∷ ys) p ps = elim (Bool-cases (lt y x)) [
      | inl below ↦ rw below (ps.0, insert_sorted-All P x ys p ps.1)
      | inr above ↦ rw above (p, ps)
    ]

    sorted-All : (P : Num → Type 0) (xs : List Num) → All P xs → All P (sorted F xs)
    unfolding sorted
    sorted-All P [] ps = tt
    sorted-All P (x ∷ xs) ps = insert_sorted-All P x (sorted F xs) ps.0 (sorted-All P xs ps.1)

    insert_sorted-IsSorted :
        (x : Num) (ys : List Num) → IsSorted ys → IsSorted (insert_sorted F x ys)
    unfolding insert_sorted
    insert_sorted-IsSorted x [] h = (tt, tt)
    insert_sorted-IsSorted x (y ∷ ys) h = elim (Bool-cases (lt y x)) [
      | inl below ↦ rw below (
        insert_sorted-All (λ z. lt z y ≡ false) x ys (m.lt_asym y x below) h.0,
        insert_sorted-IsSorted x ys h.1,
      )
      | inr above ↦ rw above ((above, All-weaken x y ys above h.0), h)
    ]

    sorted-IsSorted : (xs : List Num) → IsSorted (sorted F xs)
    unfolding sorted
    sorted-IsSorted [] = tt
    sorted-IsSorted (x ∷ xs) = insert_sorted-IsSorted x (sorted F xs) (sorted-IsSorted xs)

    refl_le : (x : Num) → lt x x ≡ false
    refl_le x = elim (Bool-cases (lt x x)) [ inl below ↦ m.lt_asym x x below | inr above ↦ above ]

    All-get_elem? :
        (P : Num → Type 0) (xs : List Num) (i : ℕ) (v : Num)
        → All P xs
        → get_elem? xs i ≡ some v
        → P v
    All-get_elem? P [] i v h found = cc
    All-get_elem? P (x ∷ xs) zero v h found = subst P (of_some x v found) h.0
    All-get_elem? P (x ∷ xs) (suc i) v h found = All-get_elem? P xs i v h.1 found

    -- In a sorted list the element at an index has the elements before it below.
    rank :
        (xs : List Num) (i : ℕ) (v : Num)
        → IsSorted xs
        → get_elem? xs i ≡ some v
        → suc i ≤ count_le v xs
    unfolding count_le
    rank [] i v h found = cc
    rank (x ∷ xs) zero v h found = let self = refl_le x in rw (← of_some x v found) (ground arith)
    rank (x ∷ xs) (suc i) v h found =
        let ih = rank xs i v h.1 found in
        let le = All-get_elem? (λ z. lt z x ≡ false) xs i v h.0 found in ground arith

    -- None of the elements is below a lower bound of them.
    none_below : (v : Num) (xs : List Num) → All (λ z. lt z v ≡ false) xs → count_lt v xs ≡ 0
    unfolding count_lt
    none_below v [] h = refl
    none_below v (x ∷ xs) h = rw (h.0, none_below v xs h.1) refl

    -- In a sorted list only elements before an index are below the element there.
    rank_below :
        (xs : List Num) (i : ℕ) (v : Num)
        → IsSorted xs
        → get_elem? xs i ≡ some v
        → count_lt v xs ≤ i
    unfolding count_lt
    rank_below [] i v h found = cc
    rank_below (x ∷ xs) zero v h found =
        let same = of_some x v found in
        let self : lt x v ≡ false = rw (← same) (refl_le x) in
        let none_of =
          none_below v xs (subst (λ (u : Num). All (λ z. lt z u ≡ false) xs) same h.0) in
        ground arith
    rank_below (x ∷ xs) (suc i) v h found = let ih = rank_below xs i v h.1 found in ground arith

    index_rank :
        (n ceil i : ℕ)
        → 0 < n
        → 95 * n ≤ 100 * ceil
        → 100 * ceil < 95 * n + 100
        → i ≡ min (n - 1) (ceil - 1)
        → (i < n) × (95 * n ≤ 100 * suc i) × (100 * i < 95 * n)
    index_rank n ceil i pos bound least e = ground arith

    -- For numbers as `IsMeasure` describes them, and a history that is not empty, `p95_latency_ms`
    -- is one of the latencies, at least 95 of a hundred of them are at most as long, and fewer than
    -- 95 of a hundred are shorter.
    pub p95_latency_ms_rank :
        (t : TemplateStats Num)
        → 0 < length t.latency_history_ms
        → (v : Num) × (p95_latency_ms F t ≡ some v)
          × ((P : Num → Type 0) → All P t.latency_history_ms → P v)
          × (95 * length t.latency_history_ms ≤ 100 * count_le v t.latency_history_ms)
          × (100 * count_lt v t.latency_history_ms < 95 * length t.latency_history_ms)
    unfolding p95_latency_ms p95_index
    p95_latency_ms_rank t pos =
        let xs = t.latency_history_ms in
        let n = length xs in
        let i = p95_index F n in
        let (inside, enough, few) = index_rank n _ i pos (m.ceil_bound n) (m.ceil_least n) refl in
        let (v, found) = get_elem?_total (sorted F xs) i (rw length-sorted inside) in
        let r = rank (sorted F xs) i v (sorted-IsSorted xs) found in
        let below = rank_below (sorted F xs) i v (sorted-IsSorted xs) found in
        (
          v,
          found,
          λ P all. All-get_elem? P (sorted F xs) i v (sorted-All P xs all) found,
          omega (arith, r, enough, count_le-sorted v xs),
          omega (arith, below, few, count_lt-sorted v xs),
        )
