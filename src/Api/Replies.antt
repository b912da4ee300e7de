-- ===== src/Api/Replies.antt =====
-- What `run_query` replies for a result of the database or a cache.
use cacheopt.Base.{ℕ, zero, suc, ◌≡◌, refl, sym, ap, ◌∙◌, some, arith, ltb}
use Prim.Native.Nat.{min}
use cacheopt.Api.{QueryResponse, ok, row_limit, rows_as_lists, reply_of}
use cacheopt.Engine.{returned}
use cacheopt.Planner.{QueryResult}
use cacheopt.Value.{Values, list, tuple, nil, cons, count, first, iterate}
use cacheopt.Value.RoundTrip.{AreTuples}

-- The first rows, each as a list.
abbrev pub listed : ℕ → Values → Values
listed zero rows = nil
listed (suc n) nil = nil
listed (suc n) (cons (tuple cells) rows) = cons (list cells) (listed n rows)
listed (suc n) (cons r rows) = cons r (listed n rows)

rows_as_lists-first :
    (n : ℕ) (rows : Values) → AreTuples rows → rows_as_lists (first n rows) ≡ some (listed n rows)
unfolding rows_as_lists first
rows_as_lists-first zero rows h = refl
rows_as_lists-first (suc n) nil h = refl
rows_as_lists-first (suc n) (cons (tuple cells) rows) h = rw (rows_as_lists-first n rows h) refl
rows_as_lists-first (suc n) (cons _ rows) h = absurd h

count-listed : (n : ℕ) (rows : Values) → AreTuples rows → count (listed n rows) ≡ min n (count rows)
unfolding count
count-listed zero rows h = omega arith
count-listed (suc n) nil h = omega arith
count-listed (suc n) (cons (tuple cells) rows) h = omega (arith, count-listed n rows h)
count-listed (suc n) (cons _ rows) h = absurd h

limit-min : (n : ℕ) → ltb row_limit n ≡ ltb (min row_limit n) n
limit-min n = ground arith

module _ {N : Type 0} where
  -- A result with a tuple of columns and a list of tuples is replied with its columns, the first 200
  -- of its rows as lists and the number of all; it is marked as truncated exactly if rows are missing.
  pub reply_of-listed :
      (q : QueryResult N) (columns rows : Values)
      → q.columns ≡ tuple columns
      → q.rows ≡ list rows
      → AreTuples rows
      → (r : QueryResponse N) × (reply_of (returned q) ≡ ok r)
        × (r.columns ≡ columns)
        × (r.rows ≡ listed row_limit rows)
        × (r.row_count ≡ count rows)
        × (r.truncated ≡ ltb (count r.rows) (count rows))
  unfolding reply_of iterate
  reply_of-listed q columns rows cs rs h =
      let shown = rows_as_lists-first row_limit rows h in
      (
        record {
          tier_hit = q.tier_hit;
          latency_ms = q.latency_ms;
          rewrites_applied = q.rewrites_applied;
          routing_reason = q.routing_reason;
          template_id = q.template_id;
          columns = columns;
          rows = listed row_limit rows;
          row_count = count rows;
          truncated = ltb row_limit (count rows);
        },
        rw (cs, rs, shown) refl,
        refl,
        refl,
        refl,
        limit-min (count rows) ∙ ap (λ m. ltb m (count rows)) (sym (count-listed row_limit rows h)),
      )
