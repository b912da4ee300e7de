-- ===== src/Benchmark/Tallies.antt =====
-- What the counts of `run_optimized` count.
use cacheopt.Base.{
  ℕ, ◌+◌, ◌≡◌, refl, sym, ap, String, Bool, Option, none, some, List, [], ◌∷◌, dec_str, ite, if_pos,
  if_neg, arith, Option-cases, inl, inr, length, sum_by, sum_by-append, length-append, get_elem?,
}
use cacheopt.Benchmark.{
  OptimizedRow, Tally, no_queries, bump, bump_all, tier_value, row_of, count_result, Timed, counted,
  run_one, run_queries,
}
use cacheopt.Dict.{Dict, lookup, lookup_or}
use cacheopt.Dict.Laws.{lookup-insert}
use cacheopt.Engine.{Cluster, Outcome, returned, rejected, failed, execute, route}
use cacheopt.Memory.{is_member}
use cacheopt.Planner.{Setting, QueryResult}

-- How often a text stands in a list.
unfoldable pub occurrences : String → List String → ℕ
occurrences k [] = 0
occurrences k (x ∷ xs) = ite (dec_str k x) 1 0 + occurrences k xs

lookup_or-bump :
    (k j : String) (d : Dict ℕ)
    → lookup_or k 0 (bump j d) ≡ lookup_or k 0 d + occurrences k (j ∷ [])
unfolding bump occurrences
lookup_or-bump k j d = elim (dec_str k j) [
  | yes p ↦
      rw (lookup-insert, if_pos (dec_str k j) p, if_pos (dec_str k j) p)
        (ap (λ (j' : String). lookup_or j' 0 d + 1) (sym p))
  | no p ↦ rw (lookup-insert, if_neg (dec_str k j) p, if_neg (dec_str k j) p) (omega arith)
]

lookup_or-bump_all :
    (k : String) (js : List String) (d : Dict ℕ)
    → lookup_or k 0 (bump_all js d) ≡ lookup_or k 0 d + occurrences k js
unfolding bump_all occurrences
lookup_or-bump_all k [] d = omega arith
lookup_or-bump_all k (j ∷ js) d =
    omega (arith, lookup_or-bump k j d, lookup_or-bump_all k js (bump j d))

none_counted : (k : String) → ◌≡◌ {A = ℕ} (lookup_or k 0 []) 0
unfolding lookup
none_counted k = refl

module _ {N : Type 0} where
  -- Each counter is the number of results that name its key.
  abbrev pub IsTally : Tally N → Type 0
  IsTally t =
      (k : String)
      → (lookup_or k 0 t.tier_counts ≡ sum_by (λ r. occurrences k (r.tier_hit ∷ [])) t.results)
        × (lookup_or k 0 t.rewrite_counts ≡ sum_by (λ r. occurrences k r.rewrites) t.results)

  count_result-IsTally :
      (template : String) (is_hot : Bool) (q : QueryResult N) (t : Tally N)
      → IsTally t
      → IsTally (count_result template is_hot q t)
  unfolding count_result
  count_result-IsTally template is_hot q t h k =
      let row : OptimizedRow N = row_of template is_hot q in
      let (tiers, rules) = h k in
      (
        omega (
          arith,
          tiers,
          lookup_or-bump k (tier_value q.tier_hit) t.tier_counts,
          sum_by-append (λ (r : OptimizedRow N). occurrences k (r.tier_hit ∷ [])) t.results
              (row ∷ []),
        ),
        omega (
          arith,
          rules,
          lookup_or-bump_all k q.rewrites_applied t.rewrite_counts,
          sum_by-append (λ (r : OptimizedRow N). occurrences k r.rewrites) t.results (row ∷ []),
        ),
      )

  length-count_result :
      (template : String) (is_hot : Bool) (q : QueryResult N) (t : Tally N)
      → length (count_result template is_hot q t).results ≡ length t.results + 1
  unfolding count_result
  length-count_result template is_hot q t = length-append t.results (row_of template is_hot q ∷ [])

  -- The counts are right, and `m` results have been added if no query has raised.
  abbrev pub Continues : ℕ → Tally N → Option (Unit {0}) → Tally N → Type 0
  Continues m t ran t' = IsTally t' × (ran ≡ some tt → length t'.results ≡ length t.results + m)

module _ (S : Setting) (strip : String → String) (hot_sqls : List String) where
  counted-Continues :
      (template : String) (is_hot : Bool) (t : Tally S.runtime.float.Num)
      (answer : Outcome (QueryResult S.runtime.float.Num))
      → IsTally t
      → Continues 1 t
          (counted S strip hot_sqls template is_hot t answer).0
          (counted S strip hot_sqls template is_hot t answer).1
  unfolding counted
  counted-Continues template is_hot t (returned q) h =
      (count_result-IsTally template is_hot q t h, λ ran. length-count_result template is_hot q t)
  counted-Continues template is_hot t rejected h = (h, λ ran. cc)
  counted-Continues template is_hot t failed h = (h, λ ran. cc)

  run_one-Continues :
      (query : Timed S strip hot_sqls) (i : ℕ) (c : Cluster S) (t : Tally S.runtime.float.Num)
      → IsTally t
      → Continues 1 t
          (run_one S strip hot_sqls query i c t).0
          (run_one S strip hot_sqls query i c t).2
  unfolding run_one
  run_one-Continues ((template, sql), clock, latency) i c t h =
      elim (Option-cases (get_elem? c.nodes i)) [
        | inl absent ↦ rw (run_one, absent) (h, λ ran. cc)
        | inr (n, there) ↦
            rw (run_one, there)
              (counted-Continues template (is_member (strip sql) hot_sqls) t
                (execute S i n clock latency sql c).0 h)
      ]

  -- From right counts, the counts are right wherever the run of a workload ends, at a query that raises or
  -- at the end; at the end there is one result more for each query.
  pub run_queries-Continues :
      (more : List (Timed S strip hot_sqls)) (rr : ℕ) (c : Cluster S)
      (t : Tally S.runtime.float.Num)
      → IsTally t
      → Continues
          (length more)
          t
          (run_queries S strip hot_sqls more rr c t).0
          (run_queries S strip hot_sqls more rr c t).2
  unfolding run_queries
  run_queries-Continues [] rr c t h = (h, λ ran. omega arith)
  run_queries-Continues (query ∷ more) rr c t h =
      let (i, rr') = route none rr (length c.nodes) in
      let (counts, added) = run_one-Continues query i c t h in
      elim (Option-cases (run_one S strip hot_sqls query i c t).0) [
        | inl raised ↦ rw (run_queries, raised) (counts, λ ran. cc)
        | inr (tt, one) ↦
            let (ran, c', t') = run_one S strip hot_sqls query i c t in
            let (all_counts, more_added) = run_queries-Continues more rr' c' t' counts in
            let new = added one in
            rw (run_queries, one)
              (all_counts, λ done. let later = more_added done in omega (arith, later, new))
      ]

  -- Wherever the run of a workload ends, at a query that raises or at the end, the counter of each tier is
  -- the number of results that it served, and the counter of each rewrite rule the number of times that
  -- the results name it; at the end there is one result for each query.
  pub run_queries-IsTally :
      (queries : List (Timed S strip hot_sqls)) (rr : ℕ) (c : Cluster S)
      → Continues
          (length queries)
          no_queries
          (run_queries S strip hot_sqls queries rr c no_queries).0
          (run_queries S strip hot_sqls queries rr c no_queries).2
  run_queries-IsTally queries rr c =
      run_queries-Continues queries rr c no_queries (λ k. (none_counted k, none_counted k))
