-- ===== src/CostModel/Calibration.antt =====
-- src/cacheopt/optimizer/cost_model.py: `CardinalityEstimator.calibrate`, and src/cacheopt/engine.py:
-- `EngineCluster.refresh_stats`, which calls it for each node.
use Prim.Native.String.{◌++◌}
use cacheopt.Base.{
  ◌≡◌, ◌⊎◌, inl, inr, refl, String, true, false, Option, none, some, List, [], ◌∷◌, dec_str, ite,
  Bool-cases, not, ◌&&◌, ◌==◌,
}
use cacheopt.CostModel.{calibrate}
use cacheopt.Database.{Database}
use cacheopt.Dict.{Dict, lookup}
use cacheopt.Float.{Float, float_max}
use cacheopt.Stats.{TableStats, StatsCatalog}
use cacheopt.Stats.Catalog.{Connection, refresh_from_duckdb}

first_column : Option TableStats → Option String
first_column none = none
first_column (some stats) = elim stats.column_min_max [ [] ↦ none | (col, _) ∷ _ ↦ some col ]

count_sql : String → String
count_sql table = "SELECT count(*) FROM " ++ table ++ " WHERE " ++ table ++ ".rowid IS NOT NULL"

default_sql : String → Option String → String
unfolding count_sql
default_sql table none = count_sql table
default_sql table (some numeric_col) =
    ite (dec_str numeric_col "") (count_sql table)
      ("SELECT sum(" ++ numeric_col ++ ") FROM " ++ table)

-- `calibration_sql or (…)`
unfoldable pub measured_sql : String → Option String → StatsCatalog → String
unfolding first_column default_sql
measured_sql table none catalog = default_sql table (first_column (lookup table catalog))
measured_sql table (some sql) catalog =
    ite (dec_str sql "") (default_sql table (first_column (lookup table catalog))) sql

module _ (F : Float) (D : Database) where
  -- `calibrate`, with the measured time: the new rate, `none` where DuckDB raises.
  unfoldable pub calibrate_table :
      String → Option String → StatsCatalog → F.Num → F.Num → D.State → Option (F.Num × D.State)
  unfolding measured_sql
  calibrate_table table calibration_sql catalog elapsed_ms rows_per_ms d =
      elim (D.execute (measured_sql table calibration_sql catalog) d) [
        | none ↦ none
        | some (columns, rows, d') ↦
            some (calibrate F (lookup table catalog) elapsed_ms rows_per_ms, d')
      ]

  abbrev old_rates : List (F.Num × F.Num) → List F.Num
  old_rates [] = []
  old_rates ((elapsed_ms, rate) ∷ nodes) = rate ∷ old_rates nodes

  -- The loop over the nodes: each has its measured time and its rate. The nodes behind one that raises
  -- keep theirs.
  unfoldable pub calibrate_nodes :
      String
      → StatsCatalog
      → List (F.Num × F.Num)
      → D.State
      → Option (Unit {0}) × List F.Num × D.State
  calibrate_nodes table catalog [] d = (some tt, [], d)
  calibrate_nodes table catalog ((elapsed_ms, rows_per_ms) ∷ nodes) d =
      elim (calibrate_table table none catalog elapsed_ms rows_per_ms d) [
        | none ↦ (none, rows_per_ms ∷ old_rates nodes, d)
        | some (rate, d₁) ↦
            let (ran, others, d₂) = calibrate_nodes table catalog nodes d₁ in
            (ran, rate ∷ others, d₂)
      ]

  -- `tables[0]` raises where there is a node but no table.
  calibrate_first :
      List String
      → StatsCatalog
      → List (F.Num × F.Num)
      → D.State
      → Option (Unit {0}) × List F.Num × D.State
  calibrate_first (table ∷ tables) catalog nodes d = calibrate_nodes table catalog nodes d
  calibrate_first [] catalog [] d = (some tt, [], d)
  calibrate_first [] catalog ((elapsed_ms, rate) ∷ nodes) d = (none, rate ∷ old_rates nodes, d)

  -- `EngineCluster.refresh_stats`: whether it returns, with the catalog and the rates of the nodes.
  unfoldable pub refresh_stats :
      Connection
      → Dict (List String)
      → List String
      → List (F.Num × F.Num)
      → StatsCatalog
      → D.State
      → Option (Unit {0}) × StatsCatalog × List F.Num × D.State
  unfolding calibrate_first
  refresh_stats conn sample_columns tables nodes catalog d =
      let (refreshed, catalog') = refresh_from_duckdb conn sample_columns tables catalog in
      elim refreshed [
        | none ↦ (none, catalog', old_rates nodes, d)
        | some _ ↦
            let (ran, rates, d') = calibrate_first tables catalog' nodes d in
            (ran, catalog', rates, d')
      ]

  -- A rate that was measured is not below 1000 rows in a millisecond.
  calibrate_floor :
      ((x y : F.Num) → F.lt x y ≡ true → F.lt y x ≡ false)
      → (stats : Option TableStats) (elapsed_ms rows_per_ms : F.Num)
      → (calibrate F stats elapsed_ms rows_per_ms ≡ rows_per_ms)
        ⊎ (F.lt (calibrate F stats elapsed_ms rows_per_ms) (F.num 1000) ≡ false)
  unfolding calibrate
  calibrate_floor asym none elapsed_ms rows_per_ms = inl refl
  calibrate_floor asym (some stats) elapsed_ms rows_per_ms =
      let measured = F.div (F.num stats.row_count) elapsed_ms in
      elim (Bool-cases (not (stats.row_count == 0) && F.lt (F.num 0) elapsed_ms)) [
        | inr skipped ↦ inl (rw skipped refl)
        | inl counted ↦ inr (rw counted (max_floor (F.num 1000) measured))
      ]
    where
      max_floor : (x y : F.Num) → F.lt (float_max F x y) x ≡ false
      max_floor x y = elim (Bool-cases (F.lt x y)) [
        | inl above ↦ rw above (asym x y above)
        | inr below ↦
            rw below (elim (Bool-cases (F.lt x x)) [ inl under ↦ asym x x under | inr same ↦ same ])
      ]
