-- ===== src/Tests/Replies.antt =====
-- The reply to a result of one row.
use cacheopt.Base.{ℕ, ◌≡◌, refl, false, [], ltb}
use cacheopt.Api.{QueryResponse, ok, row_limit, reply_of}
use cacheopt.Api.Replies.{listed, reply_of-listed}
use cacheopt.CostModel.{placed}
use cacheopt.Engine.{returned}
use cacheopt.Planner.{QueryResult}
use cacheopt.Tests.Toy.{columns_of_t, rows_of_t}
use cacheopt.Tiered.{miss}
use cacheopt.Value.{tuple, list, count}

abbrev result : QueryResult ℕ
result = record {
  columns = tuple columns_of_t;
  rows = list (rows_of_t 6);
  latency_ms = 2;
  tier_hit = miss;
  rewrites_applied = [];
  routing_reason = placed false;
  template_id = "select n";
}

reply_of-listed_example :
    (r : QueryResponse ℕ) × (reply_of (returned result) ≡ ok r)
    × (r.columns ≡ columns_of_t)
    × (r.rows ≡ listed row_limit (rows_of_t 6))
    × (r.row_count ≡ count (rows_of_t 6))
    × (r.truncated ≡ ltb (count r.rows) (count (rows_of_t 6)))
reply_of-listed_example = reply_of-listed result columns_of_t (rows_of_t 6) refl refl tt
