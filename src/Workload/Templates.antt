-- ===== src/Workload/Templates.antt =====
-- scripts/query_templates.py: `TEMPLATES`.
use Prim.Native.String.{◌++◌}
use cacheopt.Base.{ℕ, String, Option, none, some, List, [], ◌∷◌}
use cacheopt.Workload.{Random, Template, int_text, one_int, two_ints, int_and_choice}

unfoldable pub revenue_by_region_last_n_days_sql : List ℕ → Option String
revenue_by_region_last_n_days_sql (days ∷ []) = some (
    "\n"
    ++ "            SELECT region_id, sum(revenue) AS total_revenue, count(*) AS n\n"
    ++ "            FROM fact_order_events\n"
    ++ "            WHERE event_time >= TIMESTAMP '2026-07-05' - INTERVAL "
    ++ int_text days
    ++ " DAY\n"
    ++ "              AND event_type = 'purchase'\n"
    ++ "            GROUP BY region_id\n"
    ++ "            ORDER BY total_revenue DESC\n"
    ++ "        ")
revenue_by_region_last_n_days_sql _ = none

unfoldable pub daily_region_rollup_sql : List ℕ → Option String
daily_region_rollup_sql (region_id ∷ days ∷ []) = some (
    "\n"
    ++ "            SELECT region_id, date_trunc('day', event_time) AS d, sum(revenue) AS rev\n"
    ++ "            FROM fact_order_events\n"
    ++ "            WHERE event_time >= TIMESTAMP '2026-07-05' - INTERVAL "
    ++ int_text days
    ++ " DAY\n"
    ++ "              AND region_id = "
    ++ int_text region_id
    ++ "\n"
    ++ "            GROUP BY region_id, date_trunc('day', event_time)\n"
    ++ "        ")
daily_region_rollup_sql _ = none

unfoldable pub top_products_by_revenue_sql : List ℕ → Option String
top_products_by_revenue_sql (days ∷ limit ∷ []) = some (
    "\n"
    ++ "            SELECT p.product_id, p.category, sum(f.revenue) AS total_revenue\n"
    ++ "            FROM fact_order_events f\n"
    ++ "            JOIN dim_product p ON f.product_id = p.product_id\n"
    ++ "            WHERE f.event_time >= TIMESTAMP '2026-07-05' - INTERVAL "
    ++ int_text days
    ++ " DAY\n"
    ++ "            GROUP BY p.product_id, p.category\n"
    ++ "            ORDER BY total_revenue DESC\n"
    ++ "            LIMIT "
    ++ int_text limit
    ++ "\n"
    ++ "        ")
top_products_by_revenue_sql _ = none

unfoldable pub customer_lifetime_value_sql : List ℕ → Option String
customer_lifetime_value_sql (customer_id ∷ []) = some (
    "\n"
    ++ "            SELECT customer_id, sum(revenue) AS ltv, count(*) AS orders\n"
    ++ "            FROM fact_order_events\n"
    ++ "            WHERE customer_id = "
    ++ int_text customer_id
    ++ "\n"
    ++ "            GROUP BY customer_id\n"
    ++ "        ")
customer_lifetime_value_sql _ = none

unfoldable pub category_revenue_breakdown_sql : List ℕ → Option String
category_revenue_breakdown_sql (days ∷ []) = some (
    "\n"
    ++ "            SELECT p.category, sum(f.revenue) AS total_revenue, count(*) AS n\n"
    ++ "            FROM fact_order_events f\n"
    ++ "            JOIN dim_product p ON f.product_id = p.product_id\n"
    ++ "            WHERE f.event_time >= TIMESTAMP '2026-07-05' - INTERVAL "
    ++ int_text days
    ++ " DAY\n"
    ++ "            GROUP BY p.category\n"
    ++ "            ORDER BY total_revenue DESC\n"
    ++ "        ")
category_revenue_breakdown_sql _ = none

unfoldable pub region_macro_area_breakdown_sql : List ℕ → Option String
region_macro_area_breakdown_sql (days ∷ []) = some (
    "\n"
    ++ "            SELECT r.macro_area, sum(f.revenue) AS total_revenue\n"
    ++ "            FROM fact_order_events f\n"
    ++ "            JOIN dim_region r ON f.region_id = r.region_id\n"
    ++ "            WHERE f.event_time >= TIMESTAMP '2026-07-05' - INTERVAL "
    ++ int_text days
    ++ " DAY\n"
    ++ "            GROUP BY r.macro_area\n"
    ++ "        ")
region_macro_area_breakdown_sql _ = none

unfoldable pub signup_cohort_revenue_sql : List ℕ → Option String
signup_cohort_revenue_sql (signup_year ∷ []) = some (
    "\n"
    ++ "            SELECT c.signup_year, c.tier, sum(f.revenue) AS total_revenue\n"
    ++ "            FROM fact_order_events f\n"
    ++ "            JOIN dim_customer c ON f.customer_id = c.customer_id\n"
    ++ "            WHERE c.signup_year = "
    ++ int_text signup_year
    ++ "\n"
    ++ "            GROUP BY c.signup_year, c.tier\n"
    ++ "        ")
signup_cohort_revenue_sql _ = none

unfoldable pub event_type_breakdown_sql : List ℕ → Option String
event_type_breakdown_sql (days ∷ []) = some (
    "\n"
    ++ "            SELECT event_type, count(*) AS n, sum(revenue) AS total_revenue\n"
    ++ "            FROM fact_order_events\n"
    ++ "            WHERE event_time >= TIMESTAMP '2026-07-05' - INTERVAL "
    ++ int_text days
    ++ " DAY\n"
    ++ "            GROUP BY event_type\n"
    ++ "        ")
event_type_breakdown_sql _ = none

unfoldable pub single_region_point_lookup_sql : List ℕ → Option String
single_region_point_lookup_sql (region_id ∷ []) = some (
    "\n"
    ++ "            SELECT count(*) AS n FROM fact_order_events WHERE region_id = "
    ++ int_text region_id
    ++ "\n"
    ++ "        ")
single_region_point_lookup_sql _ = none

module _ {N : Type 0} (R : Random N) where
  unfoldable pub revenue_by_region_last_n_days : Template R
  unfolding revenue_by_region_last_n_days_sql one_int
  revenue_by_region_last_n_days = record {
    name = "revenue_by_region_last_n_days";
    sql_fn = revenue_by_region_last_n_days_sql;
    hot_params = (7 ∷ []) ∷ (14 ∷ []) ∷ (30 ∷ []) ∷ (90 ∷ []) ∷ [];
    cold_param_fn = one_int R 1 365;
  }

  unfoldable pub daily_region_rollup : Template R
  unfolding daily_region_rollup_sql two_ints
  daily_region_rollup = record {
    name = "daily_region_rollup";
    sql_fn = daily_region_rollup_sql;
    hot_params = (0 ∷ 30 ∷ []) ∷ (1 ∷ 30 ∷ []) ∷ (2 ∷ 30 ∷ []) ∷ (3 ∷ 7 ∷ []) ∷ (0 ∷ 7 ∷ []) ∷ [];
    cold_param_fn = two_ints R 0 23 1 365;
  }

  unfoldable pub top_products_by_revenue : Template R
  unfolding top_products_by_revenue_sql int_and_choice
  top_products_by_revenue = record {
    name = "top_products_by_revenue";
    sql_fn = top_products_by_revenue_sql;
    hot_params = (7 ∷ 10 ∷ []) ∷ (30 ∷ 10 ∷ []) ∷ (30 ∷ 20 ∷ []) ∷ [];
    cold_param_fn = int_and_choice R 1 180 (5 ∷ 10 ∷ 15 ∷ 25 ∷ []);
  }

  unfoldable pub customer_lifetime_value : Template R
  unfolding customer_lifetime_value_sql one_int
  customer_lifetime_value = record {
    name = "customer_lifetime_value";
    sql_fn = customer_lifetime_value_sql;
    hot_params = (101 ∷ []) ∷ (5502 ∷ []) ∷ (98765 ∷ []) ∷ (250000 ∷ []) ∷ [];
    cold_param_fn = one_int R 0 499999;
  }

  unfoldable pub category_revenue_breakdown : Template R
  unfolding category_revenue_breakdown_sql one_int
  category_revenue_breakdown = record {
    name = "category_revenue_breakdown";
    sql_fn = category_revenue_breakdown_sql;
    hot_params = (30 ∷ []) ∷ (7 ∷ []) ∷ (90 ∷ []) ∷ [];
    cold_param_fn = one_int R 1 300;
  }

  unfoldable pub region_macro_area_breakdown : Template R
  unfolding region_macro_area_breakdown_sql one_int
  region_macro_area_breakdown = record {
    name = "region_macro_area_breakdown";
    sql_fn = region_macro_area_breakdown_sql;
    hot_params = (7 ∷ []) ∷ (30 ∷ []) ∷ [];
    cold_param_fn = one_int R 1 400;
  }

  unfoldable pub signup_cohort_revenue : Template R
  unfolding signup_cohort_revenue_sql one_int
  signup_cohort_revenue = record {
    name = "signup_cohort_revenue";
    sql_fn = signup_cohort_revenue_sql;
    hot_params = (2023 ∷ []) ∷ (2024 ∷ []) ∷ (2025 ∷ []) ∷ [];
    cold_param_fn = one_int R 2019 2025;
  }

  unfoldable pub event_type_breakdown : Template R
  unfolding event_type_breakdown_sql one_int
  event_type_breakdown = record {
    name = "event_type_breakdown";
    sql_fn = event_type_breakdown_sql;
    hot_params = (1 ∷ []) ∷ (7 ∷ []) ∷ (30 ∷ []) ∷ [];
    cold_param_fn = one_int R 1 500;
  }

  unfoldable pub single_region_point_lookup : Template R
  unfolding single_region_point_lookup_sql one_int
  single_region_point_lookup = record {
    name = "single_region_point_lookup";
    sql_fn = single_region_point_lookup_sql;
    hot_params = (0 ∷ []) ∷ (1 ∷ []) ∷ (2 ∷ []) ∷ [];
    cold_param_fn = one_int R 0 23;
  }

  unfoldable pub templates : List (Template R)
  templates =
      revenue_by_region_last_n_days ∷ daily_region_rollup ∷ top_products_by_revenue
      ∷ customer_lifetime_value ∷ category_revenue_breakdown ∷ region_macro_area_breakdown
      ∷ signup_cohort_revenue ∷ event_type_breakdown ∷ single_region_point_lookup ∷ []
