-- ===== src/Explain/Search.antt =====
-- The search of a plan against a recursion on the plan.
use Prim.Native.Nat.{max}
use cacheopt.Base.{
  ℕ, zero, suc, ◌+◌, ◌<◌, ◌≡◌, refl, ◌∙◌, ap, Option, none, some, List, [], ◌∷◌, arith, sum_by,
}
use cacheopt.Explain.{
  Plan, Plans, Fields, leaf, object, array, nil, cons, end, field, size, size_plans, size_fields,
  extend, extend_values, raise_best, estimate_of, search_stack, find_max_cardinality,
}

-- The greater of two estimates, where there is one.
abbrev pub greater : Option ℕ → Option ℕ → Option ℕ
greater none o = o
greater (some a) none = some a
greater (some a) (some b) = some (max a b)

greater_assoc : (a b c : Option ℕ) → greater (greater a b) c ≡ greater a (greater b c)
greater_assoc a b c = ground arith

greater_comm : (a b : Option ℕ) → greater a b ≡ greater b a
greater_comm a b = ground arith

raise_best-greater : (best o : Option ℕ) → raise_best best o ≡ greater best o
unfolding raise_best
raise_best-greater best o = ground arith

module _ {L : Type 0} (int_of : L → Option ℕ) where
  -- The greatest estimate of a plan, by recursion on it.
  unfoldable mutual
    pub greatest : Plan L → Option ℕ
    greatest (leaf l) = none
    greatest (object fs) = greater (estimate_of int_of fs) (greatest_field fs)
    greatest (array ps) = greatest_plan ps

    pub greatest_plan : Plans L → Option ℕ
    greatest_plan nil = none
    greatest_plan (cons p ps) = greater (greatest p) (greatest_plan ps)

    pub greatest_field : Fields L → Option ℕ
    greatest_field end = none
    greatest_field (field k p fs) = greater (greatest p) (greatest_field fs)

  greatest_stack : List (Plan L) → Option ℕ
  greatest_stack [] = none
  greatest_stack (p ∷ ps) = greater (greatest p) (greatest_stack ps)

  extend_lem :
      (ps : Plans L) (stack : List (Plan L))
      → (greatest_stack (extend ps stack) ≡ greater (greatest_plan ps) (greatest_stack stack))
        × (sum_by size (extend ps stack) ≡ size_plans ps + sum_by size stack)
  unfolding extend greatest_stack greatest size
  extend_lem nil stack = (refl, omega arith)
  extend_lem (cons p ps) stack =
      let ih = extend_lem ps (p ∷ stack) in
      (
        ih.0
            ∙ cc (
              greater_assoc (greatest_plan ps) (greatest p) (greatest_stack stack),
              greater_comm (greatest_plan ps) (greatest p),
            ),
        omega (arith, ih.1),
      )

  extend_values_lem :
      (fs : Fields L) (stack : List (Plan L))
      → (greatest_stack (extend_values fs stack)
          ≡ greater (greatest_field fs) (greatest_stack stack))
        × (sum_by size (extend_values fs stack) ≡ size_fields fs + sum_by size stack)
  unfolding extend_values greatest_stack greatest size
  extend_values_lem end stack = (refl, omega arith)
  extend_values_lem (field k p fs) stack =
      let ih = extend_values_lem fs (p ∷ stack) in
      (
        ih.0
            ∙ cc (
              greater_assoc (greatest_field fs) (greatest p) (greatest_stack stack),
              greater_comm (greatest_field fs) (greatest p),
            ),
        omega (arith, ih.1),
      )

  search_stack-greatest :
      (fuel : ℕ) (stack : List (Plan L)) (best : Option ℕ)
      → sum_by size stack < fuel
      → search_stack int_of fuel stack best ≡ some (greater best (greatest_stack stack))
  unfolding search_stack greatest_stack greatest size
  search_stack-greatest zero stack best h = absurd (omega arith)
  search_stack-greatest (suc fuel) [] best h = ground arith
  search_stack-greatest (suc fuel) (leaf l ∷ stack) best h =
      search_stack-greatest fuel stack best (omega arith)
  search_stack-greatest (suc fuel) (array ps ∷ stack) best h =
      let e = extend_lem ps stack in
      search_stack-greatest fuel (extend ps stack) best (omega (arith, e.1))
      ∙ ap (λ o. some (greater best o)) e.0
  search_stack-greatest (suc fuel) (object fs ∷ stack) best h =
      let e = extend_values_lem fs stack in
      search_stack-greatest fuel (extend_values fs stack) (raise_best best (estimate_of int_of fs))
        (omega (arith, e.1))
      ∙ ap some (
          cc (
            e.0,
            raise_best-greater best (estimate_of int_of fs),
            greater_assoc best (estimate_of int_of fs) (greatest_stack (extend_values fs stack)),
            greater_assoc (estimate_of int_of fs) (greatest_field fs) (greatest_stack stack),
          ))

  -- The loop of `_find_max_cardinality` ends with the fuel that it is given, for every plan, and its
  -- result is the greatest estimate of the plan's objects, as a recursion on the plan finds it.
  pub find_max_cardinality-greatest :
      (node : Plan L) → find_max_cardinality int_of node ≡ some (greatest node)
  unfolding find_max_cardinality greatest_stack
  find_max_cardinality-greatest node =
      search_stack-greatest (size node + 1) (node ∷ []) none (omega arith)
      ∙ ap some (greater_comm (greatest node) none)
