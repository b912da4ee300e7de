-- ===== src/Api.antt =====
-- src/cacheopt/api/app.py: the reply of `run_query` to what the engine returns or raises.
pub mod Replies
pub mod Requests
pub mod Lifetime
pub mod Samples
use cacheopt.Base.{ℕ, String, Bool, Option, none, some, List, ltb}
use cacheopt.CostModel.{Reason}
use cacheopt.Engine.{Outcome, returned, rejected, failed}
use cacheopt.Planner.{QueryResult}
use cacheopt.Tiered.{TierHit}
use cacheopt.Value.{Value, Values, list, nil, cons, count, first, iterate}
use cacheopt.Versions.{◌>>=◌}

-- The JSON object that is returned, less the node's name and the wall time. The reason is kept as
-- the case of the text that it is.
pub record QueryResponse (N : Type 0) : Type 0 where
  pub tier_hit : TierHit
  pub latency_ms : N
  pub rewrites_applied : List String
  pub routing_reason : Reason
  pub template_id : String
  pub columns : Values
  pub rows : Values
  pub row_count : ℕ
  pub truncated : Bool

-- A reply, or the status code of an error.
pub data Reply (N : Type 0) : Type 0 where
  ok : QueryResponse N → Reply N
  error : ℕ → Reply N

abbrev pub row_limit : ℕ
row_limit = 200

-- `[list(r) for r in rows]`; `none` where a row cannot be iterated.
unfoldable pub rows_as_lists : Values → Option Values
unfolding iterate
rows_as_lists nil = some nil
rows_as_lists (cons r rs) = do
  cells ← iterate r
  rest ← rows_as_lists rs
  some (cons (list cells) rest)

module _ {N : Type 0} where
  unfoldable pub respond : QueryResult N → Option (QueryResponse N)
  unfolding rows_as_lists first
  respond q = do
    columns ← iterate q.columns
    rows ← iterate q.rows
    shown ← rows_as_lists (first row_limit rows)
    some (record {
      tier_hit = q.tier_hit;
      latency_ms = q.latency_ms;
      rewrites_applied = q.rewrites_applied;
      routing_reason = q.routing_reason;
      template_id = q.template_id;
      columns = columns;
      rows = shown;
      row_count = count rows;
      truncated = ltb row_limit (count rows);
    })

  -- An exception after the `try` is a server error.
  replied : Option (QueryResponse N) → Reply N
  replied none = error 500
  replied (some r) = ok r

  unfoldable pub reply_of : Outcome (QueryResult N) → Reply N
  unfolding respond replied
  reply_of (returned q) = replied (respond q)
  reply_of rejected = error 400
  reply_of failed = error 400
