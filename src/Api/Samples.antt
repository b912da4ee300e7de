-- ===== src/Api/Samples.antt =====
-- src/cacheopt/api/app.py: the handlers `health` and `samples`.
use Prim.Native.String.{◌++◌}
use cacheopt.Base.{String, List, [], ◌∷◌}

pub record Sample : Type 0 where
  pub name : String
  pub sql : String

-- `{"status": "ok"}`
abbrev pub health : List (String × String)
health = ("status", "ok") ∷ []

-- `SAMPLE_QUERIES`, which `samples` returns.
abbrev pub sample_queries : List Sample
sample_queries =
    (record {
      name = "Revenue by region (last 7 days)";
      sql =
          "SELECT region_id, sum(revenue) AS total_revenue, count(*) AS n\n"
          ++ "FROM fact_order_events\n"
          ++ "WHERE event_time >= TIMESTAMP '2026-07-05' - INTERVAL 7 DAY\n"
          ++ "  AND event_type = 'purchase'\n" ++ "GROUP BY region_id\n"
          ++ "ORDER BY total_revenue DESC";
    })
    ∷ (record {
      name = "Daily revenue rollup, region 0 (last 30 days)";
      sql =
          "SELECT region_id, date_trunc('day', event_time) AS d, sum(revenue) AS rev\n"
          ++ "FROM fact_order_events\n"
          ++ "WHERE event_time >= TIMESTAMP '2026-07-05' - INTERVAL 30 DAY\n"
          ++ "  AND region_id = 0\n" ++ "GROUP BY region_id, date_trunc('day', event_time)";
    })
    ∷ (record {
      name = "Top 10 products by revenue (last 14 days)";
      sql =
          "SELECT p.product_id, p.category, sum(f.revenue) AS total_revenue\n"
          ++ "FROM fact_order_events f\n" ++ "JOIN dim_product p ON f.product_id = p.product_id\n"
          ++ "WHERE f.event_time >= TIMESTAMP '2026-07-05' - INTERVAL 14 DAY\n"
          ++ "GROUP BY p.product_id, p.category\n" ++ "ORDER BY total_revenue DESC\n" ++ "LIMIT 10";
    })
    ∷ []
