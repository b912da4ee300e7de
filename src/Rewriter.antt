-- ===== src/Rewriter.antt =====
-- src/cacheopt/optimizer/rewriter.py. The trees of sqlglot are an interface, `Syntax`.
pub mod Sorting
pub mod Joins
use cacheopt.Base.{
  ℕ, zero, suc, ◌+◌, String, Bool, false, true, not, ◌&&◌, ◌||◌, Option, none, some, List, [], ◌∷◌,
  ◌++◌, map, any, ltb, leb, ◌==◌, length, dec_str, ite, is_some, if◌then◌else◌,
}
use cacheopt.Dict.{lookup}
use cacheopt.Memory.{is_member}
use cacheopt.Planner.{RewriteResult}
use cacheopt.Stats.{StatsCatalog, TableStats}

-- What the rewriter uses of sqlglot. Each change gives a changed copy. `none` stands for an exception
-- of `parse_one`, `simplify` and `sql`, and elsewhere for what is absent or of another class.
pub record Syntax : Type 1 where
  pub Tree : Type 0
  pub Join : Type 0
  pub Expr : Type 0
  pub parse_one : String → Option Tree
  pub simplify : Tree → Option Tree
  pub sql : Tree → Option String
  pub lower : String → String
  pub upper : String → String
  pub is_select : Tree → Bool
  -- the name of the table in the FROM clause, and its alias
  pub from_table : Tree → Option String
  pub from_alias : Tree → Option String
  pub joins : Tree → List Join
  -- `j.kind or ""`, `j.args.get("on") is not None`, and the name of `j.this`, if that is a table
  pub kind : Join → String
  pub has_on : Join → Bool
  pub join_table : Join → Option String
  pub set_joins : List Join → Tree → Tree
  -- the expressions of the GROUP BY clause; there are none where the clause is absent
  pub group : Tree → List Expr
  pub is_trunc : Expr → Bool
  pub column_name : Expr → Option String
  -- the aggregates `Sum`, `Count` and `Avg` of a tree, and the names of the columns of an expression
  pub aggregates : Tree → List Expr
  pub is_avg : Expr → Bool
  pub columns_in : Expr → List String
  pub where_clause : Tree → Option Expr
  pub set_from : String → Option String → Tree → Tree
  pub rename_columns : String → String → Tree → Tree
  pub drop_truncs : Tree → Tree
  pub rename_in_sums : String → String → Tree → Tree

abbrev pub rollup_table : String
rollup_table = "agg_daily_region_revenue"

abbrev pub rollup_source_table : String
rollup_source_table = "fact_order_events"

abbrev pub is_name : String → Option String → Bool
is_name n none = false
is_name n (some m) = ite (dec_str m n) true false

module _ {A : Type 0} where
  -- `sorted(xs, key=cost)`, which is stable.
  unfoldable pub insert_by : (A → ℕ) → A → List A → List A
  insert_by cost x [] = x ∷ []
  insert_by cost x (y ∷ ys) =
      let rest = insert_by cost x ys in if leb (cost x) (cost y) then x ∷ y ∷ ys else y ∷ rest

  unfoldable pub sort_by : (A → ℕ) → List A → List A
  unfolding insert_by
  sort_by cost [] = []
  sort_by cost (x ∷ xs) = insert_by cost x (sort_by cost xs)

  -- The elements with their indices, from `i` on.
  unfoldable pub indexed : ℕ → List A → List (ℕ × A)
  indexed i [] = []
  indexed i (x ∷ xs) = (i, x) ∷ indexed (suc i) xs

  -- The indices are `i`, `i + 1` and so on.
  unfoldable pub is_range : ℕ → List (ℕ × A) → Bool
  is_range i [] = true
  is_range i ((j, x) ∷ xs) = j == i && is_range (suc i) xs

  abbrev pub all : (A → Bool) → List A → Bool
  all p [] = true
  all p (x ∷ xs) = p x && all p xs

module _ (X : Syntax) where
  open X use {Tree, Join, Expr}

  -- A rule: the tree, and whether it was applied.
  unfoldable pub constant_fold : Tree → Tree × Bool
  constant_fold tree = elim (X.simplify tree) [
    | none ↦ (tree, false)
    | some folded ↦ (folded, true)
  ]

  rows_of : Option TableStats → ℕ
  rows_of none = 1000000000
  rows_of (some ts) = ts.row_count

  unfoldable pub cost_of : StatsCatalog → Option String → ℕ
  unfolding rows_of
  cost_of stats none = 1000000000
  cost_of stats (some name) = rows_of (lookup (X.lower name) stats)

  abbrev pub join_cost : StatsCatalog → Join → ℕ
  join_cost stats j = cost_of stats (X.join_table j)

  -- A join that may move: `INNER`, with an ON clause.
  unfoldable pub is_plain : Join → Bool
  is_plain j =
      (is_name "" (some (X.upper (X.kind j))) || is_name "INNER" (some (X.upper (X.kind j))))
      && X.has_on j

  -- The guards of `join_reorder`.
  unfoldable pub may_reorder : Tree → Bool
  unfolding is_plain
  may_reorder tree =
      X.is_select tree
      && not (ltb (length (X.joins tree)) 2)
      && all is_plain (X.joins tree)
      && is_some (X.from_table tree)

  unfoldable pub scored : StatsCatalog → Tree → List (ℕ × Join)
  unfolding sort_by indexed cost_of
  scored stats tree = sort_by (λ p. join_cost stats p.1) (indexed 0 (X.joins tree))

  unfoldable pub join_reorder : Tree → StatsCatalog → Tree × Bool
  unfolding scored is_range may_reorder
  join_reorder tree stats =
      if may_reorder tree
      then (if is_range 0 (scored stats tree)
          then (tree, false)
          else (X.set_joins (map (λ p. p.1) (scored stats tree)) tree, true))
      else (tree, false)

  names_region : Expr → Bool
  names_region g = is_name "region_id" (X.column_name g)

  names_day : Expr → Bool
  names_day g = X.is_trunc g || is_name "event_day" (X.column_name g)

  -- An aggregate that reads no column `revenue`, and is an average.
  blocks_rollup : Expr → Bool
  blocks_rollup a = not (is_member "revenue" (X.columns_in a)) && X.is_avg a

  filters_only : Option Expr → Bool
  filters_only none = true
  filters_only (some w) = all (λ c. is_member c ("event_time" ∷ "region_id" ∷ [])) (X.columns_in w)

  -- The guards of `rollup_rewrite`.
  unfoldable pub may_roll_up : Tree → Bool
  unfolding names_region names_day blocks_rollup filters_only is_member
  may_roll_up tree =
      X.is_select tree
      && is_name rollup_source_table
          (elim (X.from_table tree) [ none ↦ none | some t ↦ some (X.lower t) ])
      && not (ltb 0 (length (X.joins tree)))
      && any names_day (X.group tree)
      && any names_region (X.group tree)
      && not (any blocks_rollup (X.aggregates tree))
      && filters_only (X.where_clause tree)

  unfoldable pub rolled_up : Tree → Tree
  rolled_up tree = X.rename_in_sums "revenue" "total_revenue" (
      X.drop_truncs (
        X.rename_columns "event_time" "event_day"
          (X.set_from rollup_table (X.from_alias tree) tree)))

  unfoldable pub rollup_rewrite : Tree → Tree × Bool
  unfolding may_roll_up rolled_up
  rollup_rewrite tree = if may_roll_up tree then (rolled_up tree, true) else (tree, false)

  abbrev pub applied_if : Bool → String → List String → List String
  applied_if true rule rules = rules ++ rule ∷ []
  applied_if false rule rules = rules

  printed : String → List String → Option String → RewriteResult
  printed sql applied none = record { sql = sql; applied = [] }
  printed sql applied (some out) = record { sql = out; applied = applied }

  rewrite_tree : String → StatsCatalog → Option Tree → RewriteResult
  unfolding constant_fold rollup_rewrite join_reorder printed
  rewrite_tree sql stats none = record { sql = sql; applied = [] }
  rewrite_tree sql stats (some tree) =
      let (folded, is_folded) = constant_fold tree in
      let (rolled, is_rolled) = rollup_rewrite folded in
      let (ordered, is_ordered) = join_reorder rolled stats in
      printed sql
        (applied_if is_ordered "join_reorder"
          (applied_if is_rolled "rollup_rewrite" (applied_if is_folded "constant_fold" [])))
        (X.sql ordered)

  unfoldable pub rewrite : String → StatsCatalog → RewriteResult
  unfolding rewrite_tree
  rewrite sql stats = rewrite_tree sql stats (X.parse_one sql)
