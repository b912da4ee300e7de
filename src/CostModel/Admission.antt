-- ===== src/CostModel/Admission.antt =====
-- What `plan` admits to the caches, and the rows that a query is charged for.
use cacheopt.Base.{ℕ, ◌≡◌, ◌↔◌, String, false, true, Option, some, List, arith, not, if◌then◌else◌}
use Prim.Native.Nat.{max}
use cacheopt.Float.{Float}
use cacheopt.Stats.{StatsCatalog, AccessPatternTracker, hotness, total_rows}
use cacheopt.CostModel.{
  CostConfig, Estimates, RoutingPlan, is_too_large, is_hot, route, plan, estimate_cost_ms, int_or,
  charged_rows, benefits_from_clustering,
}

module _ (F : Float) where
  open F use {Num, num, mul, lt}

  -- The tiers that a plan reads and writes, for a cost, a hotness and a number of result rows.
  pub record Admission (config : CostConfig Num) (cost h : Num) (rows : Option ℕ)
      (p : RoutingPlan Num) : Type 0 where
    pub reads :
        (p.check_l1 ≡ p.check_l2) × (p.check_l2 ≡ not (lt cost config.cache_admission_min_cost_ms))
    pub writes_l2 : (p.write_l2 ≡ true) ↔ (
        (lt cost config.cache_admission_min_cost_ms ≡ false)
        × (is_too_large rows config.max_cacheable_rows ≡ false))
    pub writes_l1 : (p.write_l1 ≡ true) ↔ ((p.write_l2 ≡ true) × (is_hot F h ≡ true))
    pub ttl : p.ttl_seconds ≡ (
        if p.write_l2
        then mul (num config.default_ttl_seconds) (num (if p.write_l1 then 2 else 1))
        else num 0)

  route-Admission :
      (config : CostConfig Num) (cost h : Num) (rows : Option ℕ)
      → Admission config cost h rows (route F config cost h rows)
  unfolding route
  route-Admission config cost h rows = record {
    reads = (ground arith, ground arith);
    writes_l2 = (ground arith, ground arith);
    writes_l1 = (ground arith, ground arith);
    ttl = ground arith;
  }

  pub plan-Admission :
      (config : CostConfig Num) (rows_per_ms : Num) (catalog : StatsCatalog)
      (tracker : AccessPatternTracker F) (now : Num) (e : Estimates) (template_id : String)
      (tables : List String)
      → Admission config
          (estimate_cost_ms F rows_per_ms e tables catalog)
          (hotness F template_id now tracker)
          e.result_rows
          (plan F config rows_per_ms catalog tracker now e template_id tables)
  unfolding plan
  plan-Admission config rows_per_ms catalog tracker now e template_id tables =
      route-Admission config _ _ e.result_rows

-- Where EXPLAIN gives an estimate, a query that names the clustered column in its WHERE clause is
-- charged for the estimate, and any other query for the estimate or all rows of its tables, whichever
-- is more.
pub charged_rows_estimated :
    (e : Estimates) (tables : List String) (catalog : StatsCatalog) (n : ℕ)
    → e.work ≡ some n
    → charged_rows e tables catalog
      ≡ (if benefits_from_clustering e.where_columns then n else max n (total_rows tables catalog))
unfolding charged_rows int_or
charged_rows_estimated e tables catalog n known = ground arith
