-- ===== src/Database/Backend.antt =====
-- src/cacheopt/storage/duckdb_backend.py: `DuckDBBackend` over a DuckDB connection.
use Prim.Native.String.{◌++◌}
use cacheopt.Base.{ℕ, String, Bool, Option, none, some, List, [], ◌∷◌}
use cacheopt.Database.{Database}
use cacheopt.Explain.{Plan}
use cacheopt.Value.{Value, Values, tuple, nil, cons}
use cacheopt.Versions.{◌>>=◌}

-- `duckdb`'s connection: the rows that `fetchall` gives after `execute`, the names in
-- `cur.description`, if there is one, and the state; `none` where it raises.
pub record DuckDb : Type 1 where
  pub State : Type 0
  pub run : String → State → Option (List (List Value) × Option (List Value) × State)

-- What the functions over a plan use of `json` and sqlglot.
pub record PlanReader : Type 1 where
  pub Leaf : Type 0
  pub int_of : Leaf → Option ℕ
  pub starts_with_bracket : String → Bool
  pub loads : String → Option (Plan Leaf)
  pub where_columns : String → Option (List String)

-- `ExecResult`, less the measured latency and the estimate, which nothing sets.
pub record ExecResult : Type 0 where
  pub columns : Values
  pub rows : Values

abbrev pub values : List Value → Values
values [] = nil
values (v ∷ vs) = cons v (values vs)

-- The rows are tuples.
abbrev pub tuples : List (List Value) → Values
tuples [] = nil
tuples (row ∷ rows) = cons (tuple (values row)) (tuples rows)

-- `tuple(d[0] for d in cur.description) if cur.description else ()`
unfoldable pub columns_of : Option (List Value) → Values
columns_of none = nil
columns_of (some names) = values names

-- `r[0]`
abbrev pub first_cell : List Value → Option Value
first_cell [] = none
first_cell (v ∷ row) = some v

unfoldable pub first_cells : List (List Value) → Option (List Value)
first_cells [] = some []
first_cells (row ∷ rows) = do v ← first_cell row; rest ← first_cells rows; some (v ∷ rest)

module _ (D : DuckDb) where
  unfoldable pub execute : String → D.State → Option (ExecResult × D.State)
  unfolding columns_of
  execute sql d = do
    (rows, description, d') ← D.run sql d
    some (record { columns = columns_of description; rows = tuples rows }, d')

  unfoldable pub table_names : D.State → Option (List Value × D.State)
  unfolding first_cells
  table_names d = do
    (rows, description, d') ← D.run "SHOW TABLES" d
    names ← first_cells rows
    some (names, d')

  -- The rows of the EXPLAIN of `_explain_json`, which changes nothing.
  unfoldable pub explain_rows : String → D.State → Option (List (List Value))
  explain_rows sql d = do
    (rows, description, d') ← D.run ("EXPLAIN (FORMAT JSON) " ++ sql) d
    some rows

  -- The backend as the other modules use it.
  abbrev pub backend : PlanReader → Database
  backend R = record {
    State = D.State;
    Leaf = R.Leaf;
    int_of = R.int_of;
    execute = λ sql d. do
      (result, d') ← execute sql d
      some (result.columns, result.rows, d');
    explain_rows = explain_rows;
    starts_with_bracket = R.starts_with_bracket;
    loads = R.loads;
    where_columns = R.where_columns;
  }
