-- ===== src/Database.antt =====
-- src/cacheopt/storage/duckdb_backend.py: what the program uses of the DuckDB connection.
pub mod Backend
use cacheopt.Base.{ℕ, String, Bool, Option, none, some, List, [], ◌∷◌, if◌then◌else◌}
use cacheopt.CostModel.{Estimates}
use cacheopt.Explain.{Plan, array, cons, find_max_cardinality, own_cardinality}
use cacheopt.Value.{Value, Values, str}

-- `execute` and `explain_rows`, the rows of an EXPLAIN in JSON, are `none` where DuckDB raises, and
-- `loads`, which is `json.loads`, where that does.
pub record Database : Type 1 where
  pub State : Type 0
  pub Leaf : Type 0
  pub int_of : Leaf → Option ℕ
  pub execute : String → State → Option (Values × Values × State)
  pub explain_rows : String → State → Option (List (List Value))
  -- `cell.strip().startswith("[")`
  pub starts_with_bracket : String → Bool
  pub loads : String → Option (Plan Leaf)
  -- the columns in the WHERE clause of a query (see `Estimates`)
  pub where_columns : String → Option (List String)

module _ (D : Database) where
  first_element : Option (Plan D.Leaf) → Option (Plan D.Leaf)
  first_element (some (array (cons root ps))) = some root
  first_element _ = none

  -- The loop over the cells of a row; `none` where none of them is JSON.
  scan_cells : List Value → Option (Option (Plan D.Leaf))
  unfolding first_element
  scan_cells [] = none
  scan_cells (str cell ∷ cells) =
      let rest = scan_cells cells in
      if D.starts_with_bracket cell then some (first_element (D.loads cell)) else rest
  scan_cells (_ ∷ cells) = scan_cells cells

  scan_rows : List (List Value) → Option (Plan D.Leaf)
  unfolding scan_cells
  scan_rows [] = none
  scan_rows (row ∷ rows) = elim (scan_cells row) [ some answer ↦ answer | none ↦ scan_rows rows ]

  root_in : Option (List (List Value)) → Option (Plan D.Leaf)
  unfolding scan_rows
  root_in none = none
  root_in (some rows) = scan_rows rows

  -- `_explain_json`
  unfoldable pub explain_json : String → D.State → Option (Plan D.Leaf)
  unfolding root_in
  explain_json sql d = root_in (D.explain_rows sql d)

  max_of : Option (Plan D.Leaf) → Option ℕ
  max_of none = none
  max_of (some root) = elim (find_max_cardinality D.int_of root) [ none ↦ none | some best ↦ best ]

  unfoldable pub explain_cardinality : String → D.State → Option ℕ
  unfolding max_of explain_json
  explain_cardinality sql d = max_of (explain_json sql d)

  own_of : Option (Plan D.Leaf) → Option (Option ℕ)
  own_of none = some none
  own_of (some root) = own_cardinality D.int_of root

  -- `none` where it raises
  unfoldable pub explain_result_cardinality : String → D.State → Option (Option ℕ)
  unfolding own_of explain_json
  explain_result_cardinality sql d = own_of (explain_json sql d)

  with_result_rows : String → D.State → Option (Option ℕ) → Option Estimates
  with_result_rows sql d none = none
  with_result_rows sql d (some rows) = some (record {
    work = explain_cardinality sql d;
    result_rows = rows;
    where_columns = D.where_columns sql;
  })

  unfoldable pub estimates : String → D.State → Option Estimates
  unfolding with_result_rows
  estimates sql d = with_result_rows sql d (explain_result_cardinality sql d)
