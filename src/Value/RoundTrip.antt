-- ===== src/Value/RoundTrip.antt =====
-- A query result that goes through Redis.
use cacheopt.Base.{ℕ, ◌∙◌, ◌≡◌, refl, ap, String, List}
use mathlib.Core.Path.{ap₂}
use cacheopt.Value.{Value, Values, null, bool, int, float, str, list, tuple, nil, cons, pair}
use cacheopt.Value.Json.{to_json, to_jsons, of_json, of_jsons, rows_to_tuples, restore_value}

module _ (decode : List ℕ → String) where
  -- What a reader of L2 is given for a stored value.
  abbrev pub through_redis : Value → Value
  through_redis v = restore_value (of_json (to_json decode v))

  -- The same for one cell of a row.
  abbrev pub cell_through_redis : Value → Value
  cell_through_redis v = of_json (to_json decode v)

  unfoldable pub map_cells : Values → Values
  map_cells nil = nil
  map_cells (cons v vs) = cons (cell_through_redis v) (map_cells vs)

  unfoldable pub map_row : Value → Value
  unfolding map_cells
  map_row (tuple cells) = tuple (map_cells cells)
  map_row v = v

  unfoldable pub map_rows : Values → Values
  unfolding map_row
  map_rows nil = nil
  map_rows (cons r rs) = cons (map_row r) (map_rows rs)

  of_jsons-to_jsons : (vs : Values) → of_jsons (to_jsons decode vs) ≡ map_cells vs
  unfolding to_json of_json map_cells
  of_jsons-to_jsons nil = refl
  of_jsons-to_jsons (cons v vs) = ap (cons (of_json (to_json decode v))) (of_jsons-to_jsons vs)

-- The rows that DuckDB returns: a list of tuples.
abbrev pub AreTuples : Values → Type 0
AreTuples nil = Unit
AreTuples (cons (tuple cells) rows) = AreTuples rows
AreTuples (cons _ rows) = ⊥

-- The values that JSON has a form for.
abbrev pub IsNative : Value → Type 0
IsNative null = Unit
IsNative (bool b) = Unit
IsNative (int n) = Unit
IsNative (float r) = Unit
IsNative (str s) = Unit
IsNative _ = ⊥

abbrev pub AreNative : Values → Type 0
AreNative nil = Unit
AreNative (cons v vs) = IsNative v × AreNative vs

-- Rows of native cells.
abbrev pub AreNativeRows : Values → Type 0
AreNativeRows nil = Unit
AreNativeRows (cons (tuple cells) rows) = AreNative cells × AreNativeRows rows
AreNativeRows (cons _ rows) = ⊥

module _ (decode : List ℕ → String) where
  rows-through_redis :
      (rows : Values)
      → AreTuples rows
      → rows_to_tuples (of_jsons (to_jsons decode rows)) ≡ map_rows decode rows
  unfolding to_json of_json rows_to_tuples map_rows
  rows-through_redis nil h = refl
  rows-through_redis (cons (tuple cells) rows) h =
      ap₂ cons (ap tuple (of_jsons-to_jsons decode cells)) (rows-through_redis rows h)
  rows-through_redis (cons _ rows) h = absurd h

  -- A query result with tuples for rows that is stored in Redis and read back has as many columns and
  -- rows, cell for cell what JSON makes of the cell.
  pub through_redis-pair :
      (columns rows : Values)
      → AreTuples rows
      → through_redis decode (pair (tuple columns) (list rows))
        ≡ pair (tuple (map_cells decode columns)) (list (map_rows decode rows))
  unfolding to_json of_json restore_value
  through_redis-pair columns rows h =
      ap₂ (λ (cs rs : Values). pair (tuple cs) (list rs)) (of_jsons-to_jsons decode columns)
        (rows-through_redis rows h)

  cell-native : (v : Value) → IsNative v → cell_through_redis decode v ≡ v
  unfolding to_json of_json
  cell-native null h = refl
  cell-native (bool b) h = refl
  cell-native (int n) h = refl
  cell-native (float r) h = refl
  cell-native (str s) h = refl
  cell-native _ h = absurd h

  map_cells-native : (vs : Values) → AreNative vs → map_cells decode vs ≡ vs
  unfolding map_cells
  map_cells-native nil h = refl
  map_cells-native (cons v vs) h = ap₂ cons (cell-native v h.0) (map_cells-native vs h.1)

  map_rows-native :
      (rows : Values) → AreNativeRows rows → (map_rows decode rows ≡ rows) × AreTuples rows
  unfolding map_rows
  map_rows-native nil h = (refl, tt)
  map_rows-native (cons (tuple cells) rows) h =
      let (same, tuples) = map_rows-native rows h.1 in
      (ap₂ (λ (cs rs : Values). cons (tuple cs) rs) (map_cells-native cells h.0) same, tuples)
  map_rows-native (cons _ rows) h = absurd h

  -- A query result whose columns and cells are null, booleans, numbers or texts comes back from Redis
  -- as it was stored, with its tuples restored.
  pub through_redis-native :
      (columns rows : Values)
      → AreNative columns
      → AreNativeRows rows
      → through_redis decode (pair (tuple columns) (list rows)) ≡ pair (tuple columns) (list rows)
  through_redis-native columns rows hc hr =
      let (same, tuples) = map_rows-native rows hr in
      through_redis-pair columns rows tuples
      ∙ ap₂ (λ (cs rs : Values). pair (tuple cs) (list rs)) (map_cells-native columns hc) same
