-- ===== src/Tests/Rewrites.antt =====
-- The join order of a toy tree, which is the list of the joined tables.
use cacheopt.Base.{ℕ, ◌≡◌, refl, String, true, false, none, some, List, [], ◌∷◌, dec_str}
use cacheopt.Rewriter.{Syntax, may_reorder, join_reorder}
use cacheopt.Rewriter.Joins.{Reordered, join_reorder-Reordered}
use cacheopt.Stats.{StatsCatalog, TableStats}

abbrev syntax : Syntax
syntax = record {
  Tree = List String;
  Join = String;
  Expr = String;
  parse_one = λ s. none;
  simplify = λ t. some t;
  sql = λ t. none;
  lower = λ s. s;
  upper = λ s. s;
  is_select = λ t. true;
  from_table = λ t. some "orders";
  from_alias = λ t. none;
  joins = λ t. t;
  kind = λ j. "";
  has_on = λ j. true;
  join_table = λ j. some j;
  set_joins = λ js t. js;
  group = λ t. [];
  is_trunc = λ e. false;
  column_name = λ e. none;
  aggregates = λ t. [];
  is_avg = λ e. false;
  columns_in = λ e. [];
  where_clause = λ t. none;
  set_from = λ n a t. t;
  rename_columns = λ old new t. t;
  drop_truncs = λ t. t;
  rename_in_sums = λ old new t. t;
}

abbrev rows : ℕ → TableStats
rows n = record { row_count = n; approx_distinct = []; column_min_max = [] }

abbrev catalog : StatsCatalog
catalog = ("customer", rows 900) ∷ ("region", rows 5) ∷ []

abbrev tables : List String
tables = "customer" ∷ "unknown" ∷ "region" ∷ []

tables_may : may_reorder syntax tables ≡ true
unfolding may_reorder dec_str
tables_may = refl

join_reorder-Reordered_example :
    (js : List String) × Reordered syntax catalog tables (join_reorder syntax tables catalog) js
join_reorder-Reordered_example = join_reorder-Reordered syntax catalog tables tables_may
