-- ===== src/Fingerprint.antt =====
-- src/cacheopt/fingerprint.py. The parser sqlglot, SHA-256 and Python's `lower` and `strip` are the
-- fields of `Sqlglot`.
use Prim.Native.String.{compare}
use Prim.Native.Nat.{Ordering}
use cacheopt.Base.{
  String, Bool, Option, none, some, List, [], ◌∷◌, map, dec_str, ite, if◌then◌else◌,
}

-- `parse_one` and `parse` are `none` where they raise; a statement that is empty is `none` too.
pub record Sqlglot : Type 1 where
  pub Tree : Type 0
  pub parse_one : String → Option Tree
  pub parse : String → Option (List (Option Tree))
  pub is_select : Tree → Bool
  -- the names of the tables that `find_all(exp.Table)` yields
  pub table_names : Tree → List String
  -- `transform`, `isinstance(node, exp.Literal)`, `exp.Placeholder(this=…)`
  pub transform : (Tree → Tree) → Tree → Tree
  pub is_literal : Tree → Bool
  pub placeholder : String → Tree
  -- `tree.sql(dialect=dialect, normalize=True)`
  pub normalized_sql : Tree → String
  pub sha256 : String → String
  pub lower : String → String
  pub strip : String → String

pub record Fingerprint : Type 0 where
  pub template_id : String
  pub cache_key : String
  pub template_sql : String
  pub tables : List String

-- A set of texts as its sorted list.
unfoldable pub insert_name : String → List String → List String
insert_name x [] = x ∷ []
insert_name x (y ∷ ys) =
    let rest = insert_name x ys in
    elim (compare x y) [ Ordering.lt ↦ x ∷ y ∷ ys | Ordering.eq ↦ y ∷ ys | Ordering.gt ↦ y ∷ rest ]

unfoldable pub sorted_names : List String → List String
unfolding insert_name
sorted_names [] = []
sorted_names (x ∷ xs) = insert_name x (sorted_names xs)

-- `for t in … if t.name`
named : List String → List String
named [] = []
named (x ∷ xs) = ite (dec_str x "") (named xs) (x ∷ named xs)

module _ (S : Sqlglot) where
  open S use {
    Tree, parse_one, table_names, transform, is_literal, placeholder, normalized_sql, sha256, lower,
    strip,
  }

  unfoldable pub extract_tables : Tree → List String
  unfolding sorted_names named
  extract_tables tree = sorted_names (map lower (named (table_names tree)))

  unfoldable pub literal_placeholder : Tree → Tree
  literal_placeholder node = if is_literal node then placeholder "lit" else node

  fingerprint_of : String → Option Tree → Fingerprint
  unfolding extract_tables literal_placeholder
  fingerprint_of sql none =
      let digest = sha256 (lower (strip sql)) in
      record { template_id = digest; cache_key = digest; template_sql = sql; tables = [] }
  fingerprint_of sql (some tree) =
      let template_sql = normalized_sql (transform literal_placeholder tree) in
      record {
        template_id = sha256 template_sql;
        cache_key = sha256 (normalized_sql tree);
        template_sql = template_sql;
        tables = extract_tables tree;
      }

  unfoldable pub fingerprint : String → Fingerprint
  unfolding fingerprint_of
  fingerprint sql = fingerprint_of sql (parse_one sql)
