-- ===== src/Dataset.antt =====
-- scripts/generate_dataset.py: the statements of `generate`, and their run on the connection that it
-- opens.
use Prim.Native.String.{◌++◌}
use cacheopt.Base.{ℕ, String, Option, none, some, List, [], ◌∷◌}
use cacheopt.Database.Backend.{DuckDb}
use cacheopt.Workload.{int_text}

-- The arguments of `generate`, less the path and the seed.
pub record Sizes : Type 0 where
  pub fact_rows : ℕ
  pub num_customers : ℕ
  pub num_products : ℕ
  pub num_regions : ℕ
  pub days_back : ℕ

-- What a new table is filled from.
pub data From : Type 0 where
  range : ℕ → From
  table : String → From

-- A statement: one that makes no table; a table with the columns of its SELECT, what it is filled from
-- and the rest of the text; an index with its table and column; the counts of tables.
pub data Statement : Type 0 where
  setting : String → Statement
  create_table : String → String → From → String → Statement
  create_index : String → String → String → Statement
  counts : List String → Statement

abbrev pub from_text : From → String
from_text (range n) = "range(" ++ int_text n ++ ") t(i)"
from_text (table t) = t

abbrev pub count_lines : List String → String
count_lines [] = ""
count_lines (t ∷ []) = "            (SELECT count(*) FROM " ++ t ++ ")\n"
count_lines (t ∷ u ∷ ts) =
    "            (SELECT count(*) FROM " ++ t ++ "),\n" ++ count_lines (u ∷ ts)

-- The text that is executed.
unfoldable pub text_of : Statement → String
text_of (setting sql) = sql
text_of (create_table name columns source rest) =
    "\n        CREATE TABLE "
    ++ name
    ++ " AS\n"
    ++ columns
    ++ "        FROM "
    ++ from_text source
    ++ "\n"
    ++ rest
    ++ "    "
text_of (create_index name t column) =
    "CREATE INDEX " ++ name ++ " ON " ++ t ++ "(" ++ column ++ ")"
text_of (counts tables) = "\n        SELECT\n" ++ count_lines tables ++ "    "

abbrev pub dim_region_columns : Sizes → String
dim_region_columns s =
    "        SELECT\n" ++ "            i AS region_id,\n"
    ++ "            'Region-' || i AS region_name,\n"
    ++ "            ['NA','EMEA','APAC','LATAM'][1 + (i % 4)] AS macro_area\n"

abbrev pub dim_customer_columns : Sizes → String
dim_customer_columns s =
    "        SELECT\n"
    ++ "            i AS customer_id,\n"
    ++ "            (i % "
    ++ int_text s.num_regions
    ++ ") AS region_id,\n"
    ++ "            2019 + CAST(random() * 7 AS INT) AS signup_year,\n"
    ++ "            ['bronze','silver','gold','platinum'][1 + CAST(random()*4 AS INT)] AS tier\n"

abbrev pub dim_product_columns : Sizes → String
dim_product_columns s =
    "        SELECT\n" ++ "            i AS product_id,\n"
    ++ "            ['electronics','home','apparel','grocery','toys','sports','books','beauty'][1 + CAST(random()*8 AS INT)] AS category,\n"
    ++ "            round(5 + random() * 495, 2) AS list_price\n"

abbrev pub fact_order_events_columns : Sizes → String
fact_order_events_columns s =
    "        SELECT\n"
    ++ "            i AS order_id,\n"
    ++ "            CAST(pow(random(), 2.5) * "
    ++ int_text s.num_customers
    ++ " AS BIGINT) % "
    ++ int_text s.num_customers
    ++ " AS customer_id,\n"
    ++ "            CAST(pow(random(), 2.0) * "
    ++ int_text s.num_products
    ++ " AS BIGINT) % "
    ++ int_text s.num_products
    ++ " AS product_id,\n"
    ++ "            CAST(random() * "
    ++ int_text s.num_regions
    ++ " AS BIGINT) % "
    ++ int_text s.num_regions
    ++ " AS region_id,\n"
    ++ "            TIMESTAMP '2026-07-05 00:00:00' - INTERVAL (CAST(random() * "
    ++ int_text s.days_back
    ++ " AS BIGINT)) DAY\n"
    ++ "                - INTERVAL (CAST(random() * 86400 AS BIGINT)) SECOND AS event_time,\n"
    ++ "            CASE WHEN random() < 0.85 THEN 'purchase' WHEN random() < 0.95 THEN 'view' ELSE 'return' END AS event_type,\n"
    ++ "            1 + CAST(random() * 4 AS INT) AS quantity,\n"
    ++ "            round(5 + random() * 495, 2) AS revenue\n"

abbrev pub agg_daily_region_revenue_columns : Sizes → String
agg_daily_region_revenue_columns s =
    "        SELECT\n" ++ "            region_id,\n"
    ++ "            CAST(event_time AS DATE) AS event_day,\n"
    ++ "            sum(revenue) AS total_revenue,\n" ++ "            count(*) AS order_count\n"

-- The statements in their order; `seed_text` is what `{seed / 2147483647.0}` prints.
unfoldable pub script : String → Sizes → List Statement
script seed_text s =
    setting "PRAGMA memory_limit='2GB'"
    ∷ setting "PRAGMA threads=2"
    ∷ setting ("SELECT setseed(" ++ seed_text ++ ")")
    ∷ create_table "dim_region" (dim_region_columns s) (range s.num_regions) ""
    ∷ create_table "dim_customer" (dim_customer_columns s) (range s.num_customers) ""
    ∷ create_table "dim_product" (dim_product_columns s) (range s.num_products) ""
    ∷ create_table "fact_order_events" (fact_order_events_columns s) (range s.fact_rows)
        "        ORDER BY event_time\n"
    ∷ create_index "idx_fact_region" "fact_order_events" "region_id"
    ∷ create_index "idx_fact_customer" "fact_order_events" "customer_id"
    ∷ create_index "idx_fact_product" "fact_order_events" "product_id"
    ∷ create_table "agg_daily_region_revenue" (agg_daily_region_revenue_columns s)
        (table "fact_order_events")
        "        WHERE event_type = 'purchase'\n        GROUP BY region_id, CAST(event_time AS DATE)\n"
    ∷ counts (
        "fact_order_events" ∷ "dim_customer" ∷ "dim_product" ∷ "dim_region"
        ∷ "agg_daily_region_revenue" ∷ [])
    ∷ []

module _ (D : DuckDb) where
  -- The statements one after the other, up to one that raises: whether none does, and the state.
  unfoldable pub run_all : List Statement → D.State → Option (Unit {0}) × D.State
  unfolding text_of
  run_all [] d = (some tt, d)
  run_all (st ∷ sts) d = elim (D.run (text_of st) d) [
    | none ↦ (none, d)
    | some (rows, description, d') ↦ run_all sts d'
  ]

  -- `generate` on a connection; the names of what it prints are left out.
  unfoldable pub generate : String → Sizes → D.State → Option (Unit {0}) × D.State
  unfolding run_all script
  generate seed_text s d = run_all (script seed_text s) d
