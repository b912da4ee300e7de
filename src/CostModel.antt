-- ===== src/CostModel.antt =====
-- src/cacheopt/optimizer/cost_model.py: `CardinalityEstimator`, `CostModel.plan`. What DuckDB and
-- sqlglot answer for a query is an argument, `Estimates`.
pub mod Admission
pub mod Calibration
use cacheopt.Base.{
  ℕ, String, Bool, false, true, Option, none, some, List, [], ◌∷◌, ◌==◌, ltb, if◌then◌else◌,
  or_else, not, ◌&&◌,
}
use Prim.Native.Nat.{max}
use cacheopt.Dict.{lookup}
use cacheopt.Float.{Float, float_max}
use cacheopt.Memory.{is_member}
use cacheopt.Stats.{StatsCatalog, TableStats, AccessPatternTracker, total_rows, hotness}

-- The fields of `Config` that the cost model reads, and its `max_cacheable_rows`.
pub record CostConfig (N : Type 0) : Type 0 where
  pub default_ttl_seconds : ℕ
  pub cache_admission_min_cost_ms : N
  pub max_cacheable_rows : ℕ

-- What the backend and the parser tell of one query: `explain_cardinality`,
-- `explain_result_cardinality`, and the columns in its WHERE clause (`none` where it does not parse,
-- is no SELECT or has no such clause).
pub record Estimates : Type 0 where
  pub work : Option ℕ
  pub result_rows : Option ℕ
  pub where_columns : Option (List String)

pub data Reason : Type 0 where
  cheap_to_recompute too_large : Reason
  placed : Bool → Reason

pub record RoutingPlan (N : Type 0) : Type 0 where
  pub check_l1 : Bool
  pub check_l2 : Bool
  pub write_l1 : Bool
  pub write_l2 : Bool
  pub ttl_seconds : N
  pub raw_cost_ms : N
  pub hotness : N
  pub reason : Reason

abbrev pub clustered_column : String
clustered_column = "event_time"

-- `a or b`, of an integer
unfoldable pub int_or : ℕ → ℕ → ℕ
int_or a b = if a == 0 then b else a

unfoldable pub benefits_from_clustering : Option (List String) → Bool
benefits_from_clustering none = false
benefits_from_clustering (some columns) = is_member clustered_column columns

-- The number of rows that `estimate_cost_ms` charges for.
unfoldable pub charged_rows : Estimates → List String → StatsCatalog → ℕ
unfolding int_or benefits_from_clustering
charged_rows e tables catalog =
    let est_rows = or_else e.work (int_or (total_rows tables catalog) 100000) in
    if benefits_from_clustering e.where_columns
    then est_rows
    else max est_rows (int_or (total_rows tables catalog) est_rows)

-- `result_rows is not None and result_rows > self._max_cacheable_rows`
unfoldable pub is_too_large : Option ℕ → ℕ → Bool
is_too_large none limit = false
is_too_large (some rows) limit = ltb limit rows

module _ (F : Float) where
  open F use {Num, num, decimal, add, sub, mul, div, lt, neg, pow}

  unfoldable pub estimate_cost_ms : Num → Estimates → List String → StatsCatalog → Num
  estimate_cost_ms rows_per_ms e tables catalog =
      add (decimal 8 10) (div (num (charged_rows e tables catalog)) rows_per_ms)

  -- The end of `calibrate`: the measured rate, at least 1000 rows in a millisecond.
  unfoldable pub calibrate : Option TableStats → Num → Num → Num
  calibrate none elapsed_ms rows_per_ms = rows_per_ms
  calibrate (some stats) elapsed_ms rows_per_ms =
      if not (stats.row_count == 0) && lt (num 0) elapsed_ms
      then float_max F (num 1000) (div (num stats.row_count) elapsed_ms)
      else rows_per_ms

  -- `1.0 - pow(2.718281828, -hotness) > 0.35`
  unfoldable pub is_hot : Num → Bool
  is_hot h = lt (decimal 35 100) (sub (num 1) (pow (decimal 2718281828 1000000000) (neg h)))

  place : CostConfig Num → Num → Num → Bool → RoutingPlan Num
  place config raw_cost_ms h write_l1 = record {
    check_l1 = true;
    check_l2 = true;
    write_l1 = write_l1;
    write_l2 = true;
    ttl_seconds = mul (num config.default_ttl_seconds) (if write_l1 then num 2 else num 1);
    raw_cost_ms = raw_cost_ms;
    hotness = h;
    reason = placed write_l1;
  }

  -- `plan`, from the estimated cost, the hotness and the estimated number of result rows.
  unfoldable pub route : CostConfig Num → Num → Num → Option ℕ → RoutingPlan Num
  unfolding is_too_large is_hot place
  route config raw_cost_ms h result_rows =
      if lt raw_cost_ms config.cache_admission_min_cost_ms
      then record {
        check_l1 = false;
        check_l2 = false;
        write_l1 = false;
        write_l2 = false;
        ttl_seconds = num 0;
        raw_cost_ms = raw_cost_ms;
        hotness = h;
        reason = cheap_to_recompute;
      }
      else if is_too_large result_rows config.max_cacheable_rows
      then record {
        check_l1 = true;
        check_l2 = true;
        write_l1 = false;
        write_l2 = false;
        ttl_seconds = num 0;
        raw_cost_ms = raw_cost_ms;
        hotness = h;
        reason = too_large;
      }
      else place config raw_cost_ms h (is_hot h)

  unfoldable pub plan :
      CostConfig Num
      → Num
      → StatsCatalog
      → AccessPatternTracker F
      → Num
      → Estimates
      → String
      → List String
      → RoutingPlan Num
  unfolding estimate_cost_ms route
  plan config rows_per_ms catalog tracker now e template_id tables =
      route config (estimate_cost_ms rows_per_ms e tables catalog)
        (hotness F template_id now tracker) e.result_rows
