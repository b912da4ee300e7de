-- ===== src/Stats/Catalog.antt =====
-- `StatsCatalog.refresh_from_duckdb`, over what DuckDB answers, and what it leaves in the catalog.
use cacheopt.Base.{
  ℕ, ◌≡◌, refl, sym, ◌∙◌, ap, String, Bool, true, false, Option, none, some, List, [], ◌∷◌, arith,
  dec_str, ite, if_pos, if_neg, or_else, if◌then◌else◌, Option-cases, inl, inr,
}
use cacheopt.Dict.{Dict, lookup, insert}
use cacheopt.Dict.Laws.{lookup-insert}
use cacheopt.Memory.{is_member}
use cacheopt.Stats.{TableStats, StatsCatalog}
use cacheopt.Value.{Value}
use cacheopt.Versions.{◌>>=◌}

-- The three queries for a table and a column; `none` where DuckDB raises.
pub record Connection : Type 0 where
  pub row_count : String → Option ℕ
  pub approx_count_distinct : String → String → Option ℕ
  pub min_max : String → String → Option (Value × Value)

module _ (conn : Connection) (sample_columns : Dict (List String)) where
  -- The loop over the columns, with the two dictionaries so far.
  unfoldable pub sample :
      String → Dict ℕ → Dict (Value × Value) → List String → Option (Dict ℕ × Dict (Value × Value))
  sample table distinct minmax [] = some (distinct, minmax)
  sample table distinct minmax (col ∷ cols) = do
    d ← conn.approx_count_distinct table col
    bounds ← conn.min_max table col
    sample table (insert col d distinct) (insert col bounds minmax) cols

  unfoldable pub table_stats : String → Option TableStats
  unfolding sample
  table_stats table = do
    n ← conn.row_count table
    (distinct, minmax) ← sample table [] [] (or_else (lookup table sample_columns) [])
    some (record { row_count = n; approx_distinct = distinct; column_min_max = minmax })

  -- The tables before one that raises keep their new statistics.
  unfoldable pub refresh_from_duckdb : List String → StatsCatalog → Option (Unit {0}) × StatsCatalog
  refresh_from_duckdb [] catalog = (some tt, catalog)
  refresh_from_duckdb (table ∷ tables) catalog = elim (table_stats table) [
    | none ↦ (none, catalog)
    | some stats ↦ refresh_from_duckdb tables (insert table stats catalog)
  ]

  lookup-refreshed :
      (t u : String) (stats : TableStats) (catalog : StatsCatalog) (later : Bool)
      → table_stats u ≡ some stats
      → (if later then table_stats t else lookup t (insert u stats catalog))
        ≡ (if ite (dec_str t u) true later then table_stats t else lookup t catalog)
  lookup-refreshed t u stats catalog true known = ground arith
  lookup-refreshed t u stats catalog false known = elim (dec_str t u) [
    | yes p ↦
        rw (lookup-insert, if_pos (dec_str t u) p, if_pos (dec_str t u) p)
          (sym known ∙ ap table_stats (sym p))
    | no p ↦ rw (lookup-insert, if_neg (dec_str t u) p, if_neg (dec_str t u) p) refl
  ]

  -- Where the refresh returns, each of the tables has the statistics that DuckDB gives of it, and the
  -- other tables have what they had.
  pub lookup-refresh_from_duckdb :
      (tables : List String) (catalog : StatsCatalog)
      → (refresh_from_duckdb tables catalog).0 ≡ some tt
      → (t : String)
      → lookup t (refresh_from_duckdb tables catalog).1
        ≡ (if is_member t tables then table_stats t else lookup t catalog)
  unfolding refresh_from_duckdb is_member
  lookup-refresh_from_duckdb [] catalog done t = refl
  lookup-refresh_from_duckdb (u ∷ tables) catalog done t = elim (Option-cases (table_stats u)) [
    | inl raised ↦
        let stopped : none ≡ some (tt {0}) = rw (raised, refresh_from_duckdb) at done in cc
    | inr (stats, known) ↦
        let rest : (refresh_from_duckdb tables (insert u stats catalog)).0 ≡ some tt =
          rw (known, refresh_from_duckdb) at done in
        let ih = lookup-refresh_from_duckdb tables (insert u stats catalog) rest t in
        rw (known, refresh_from_duckdb)
          (ih ∙ lookup-refreshed t u stats catalog (is_member t tables) known)
  ]
