-- ===== src/Explain.antt =====
-- src/cacheopt/storage/duckdb_backend.py: the cardinalities in the JSON of an EXPLAIN.
pub mod Search
use Prim.Native.Nat.{max}
use cacheopt.Base.{
  ℕ, zero, suc, ◌+◌, String, Bool, false, true, Option, none, some, List, [], ◌∷◌, dec_str, ite,
  or_else,
}

-- A JSON value; `L` are the values that are neither objects nor arrays.
mutual
  pub data Plan (L : Type 0) : Type 0 where
    leaf : L → Plan L
    object : Fields L → Plan L
    array : Plans L → Plan L

  pub data Plans (L : Type 0) : Type 0 where
    nil : Plans L
    cons : Plan L → Plans L → Plans L

  pub data Fields (L : Type 0) : Type 0 where
    end : Fields L
    field : String → Plan L → Fields L → Fields L

-- `max(best or 0, n)`. An estimate is a number of rows, and not negative.
unfoldable pub raise_best : Option ℕ → Option ℕ → Option ℕ
raise_best best none = best
raise_best best (some n) = some (max (or_else best 0) n)

module _ {L : Type 0} where
  -- `d.get(k)`; `json.loads` keeps one value for a key.
  unfoldable pub get_field : String → Fields L → Option (Plan L)
  get_field k end = none
  get_field k (field j p fs) = ite (dec_str k j) (some p) (get_field k fs)

  -- `stack.extend(cur)` and `stack.extend(cur.values())`; the head of the list is the top.
  unfoldable pub extend : Plans L → List (Plan L) → List (Plan L)
  extend nil stack = stack
  extend (cons p ps) stack = extend ps (p ∷ stack)

  unfoldable pub extend_values : Fields L → List (Plan L) → List (Plan L)
  extend_values end stack = stack
  extend_values (field k p fs) stack = extend_values fs (p ∷ stack)

  -- `int_of` is Python's `int`, and `none` where it raises.
  module _ (int_of : L → Option ℕ) where
    to_int : Option (Plan L) → Option ℕ
    to_int (some (leaf l)) = int_of l
    to_int _ = none

    -- The value of `extra_info`, if it is an object.
    estimate_in : Option (Plan L) → Option ℕ
    unfolding to_int get_field
    estimate_in (some (object extra)) = to_int (get_field "Estimated Cardinality" extra)
    estimate_in _ = none

    unfoldable pub estimate_of : Fields L → Option ℕ
    unfolding estimate_in get_field
    estimate_of fs = estimate_in (get_field "extra_info" fs)

    -- The loop of `_find_max_cardinality`, on fuel: `none` means that the fuel ran out.
    unfoldable pub search_stack : ℕ → List (Plan L) → Option ℕ → Option (Option ℕ)
    unfolding raise_best estimate_of extend extend_values
    search_stack zero stack best = none
    search_stack (suc fuel) [] best = some best
    search_stack (suc fuel) (leaf l ∷ stack) best = search_stack fuel stack best
    search_stack (suc fuel) (array ps ∷ stack) best = search_stack fuel (extend ps stack) best
    search_stack (suc fuel) (object fs ∷ stack) best =
        search_stack fuel (extend_values fs stack) (raise_best best (estimate_of fs))

  -- The values that the loop takes from the stack for a plan.
  unfoldable mutual
    pub size : Plan L → ℕ
    size (leaf l) = 1
    size (object fs) = suc (size_fields fs)
    size (array ps) = suc (size_plans ps)

    pub size_plans : Plans L → ℕ
    size_plans nil = 0
    size_plans (cons p ps) = size p + size_plans ps

    pub size_fields : Fields L → ℕ
    size_fields end = 0
    size_fields (field k p fs) = size p + size_fields fs

  -- `_find_max_cardinality`
  unfoldable pub find_max_cardinality : (L → Option ℕ) → Plan L → Option (Option ℕ)
  unfolding search_stack size
  find_max_cardinality int_of node = search_stack int_of (size node + 1) (node ∷ []) none

  own_in : (L → Option ℕ) → Option (Plan L) → Option (Option ℕ)
  unfolding to_int get_field
  own_in int_of none = some none
  own_in int_of (some (object extra)) =
      some (to_int int_of (get_field "Estimated Cardinality" extra))
  own_in int_of (some _) = none

  -- `_own_cardinality`; `none` where a value without `get` raises.
  unfoldable pub own_cardinality : (L → Option ℕ) → Plan L → Option (Option ℕ)
  unfolding own_in get_field
  own_cardinality int_of (object fs) = own_in int_of (get_field "extra_info" fs)
  own_cardinality int_of _ = none
