-- ===== src/Api/Lifetime.antt =====
-- src/cacheopt/api/app.py: the global `_cluster` from `_startup` to `_shutdown`.
use cacheopt.Base.{◌≡◌, String, true, false, Option, none, some, List, [], ◌∷◌, length, map}
use cacheopt.Config.{Config}
use cacheopt.CostModel.Calibration.{refresh_stats}
use cacheopt.Dict.{Dict, lookup}
use cacheopt.Engine.Coherence.{IsCoherent}
use cacheopt.Engine.Lifetime.{Fleet, new_fleet, close}
use cacheopt.Memory.{is_member}
use cacheopt.Planner.{Setting}
use cacheopt.Stats.{StatsCatalog}
use cacheopt.Stats.Catalog.{Connection, table_stats}

-- `FACT_TABLES`
abbrev pub fact_tables : List String
fact_tables =
    "fact_order_events" ∷ "dim_customer" ∷ "dim_product" ∷ "dim_region" ∷ "agg_daily_region_revenue"
    ∷ []

-- `sample_columns`
abbrev pub sample_columns : Dict (List String)
sample_columns = ("fact_order_events", "region_id" ∷ "customer_id" ∷ "product_id" ∷ []) ∷ []

module _ (S : Setting) where
  -- The setting of the nodes, which share the catalog of their cluster.
  abbrev pub serving : StatsCatalog → Setting
  serving catalog = record S { catalog = catalog }

  -- What `_cluster` refers to: the catalog, the rates of the nodes' estimators, and the rest.
  pub record Running : Type 0 where
    pub catalog : StatsCatalog
    pub rates : List S.runtime.float.Num
    pub fleet : Fleet (serving catalog)

  abbrev pub App : Type 0
  App = Option Running

  -- The measured times of the calibration, and the default rate of each estimator.
  abbrev pub calibrated :
      List S.runtime.float.Num → List (S.runtime.float.Num × S.runtime.float.Num)
  calibrated times = map (λ t. (t, S.runtime.float.num 40000)) times

  started :
      Config S.runtime.float.Num
      → S.runtime.redis.State
      → Option (Unit {0}) × StatsCatalog × List S.runtime.float.Num × S.database.State
      → App
  started config s (none, catalog, rates, d) = none
  started config s (some _, catalog, rates, d) = some (record {
    catalog = catalog;
    rates = rates;
    fleet = new_fleet (serving catalog) config 3 s d;
  })

  -- `_startup`, over the server and the database that the cluster connects to, and the times that the
  -- calibration of the three nodes measures. Where it raises, `_cluster` stays `None`.
  unfoldable pub startup :
      Connection
      → Config S.runtime.float.Num
      → S.runtime.float.Num × S.runtime.float.Num × S.runtime.float.Num
      → S.runtime.redis.State
      → S.database.State
      → App
  unfolding started
  startup conn config (t₀, t₁, t₂) s d =
      started (record config { duckdb_read_only = false }) s
        (refresh_stats S.runtime.float S.database conn sample_columns fact_tables
          (calibrated (t₀ ∷ t₁ ∷ t₂ ∷ [])) [] d)

  -- `_shutdown`
  unfoldable pub shutdown : App → App
  shutdown none = none
  shutdown (some app) = some (record app { fleet = close (serving app.catalog) app.fleet })

  -- Three nodes whose tiers agree with the database, and the statistics of every table of the service.
  pub record IsServing (conn : Connection) (app : Running) : Type 0 where
    pub three : length app.fleet.cluster.nodes ≡ 3
    pub coherent : IsCoherent (serving app.catalog) app.fleet.cluster
    pub known :
        (t : String)
        → is_member t fact_tables ≡ true
        → lookup t app.catalog ≡ table_stats conn sample_columns t
