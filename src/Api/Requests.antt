-- ===== src/Api/Requests.antt =====
-- src/cacheopt/api/app.py: `run_query` and `_routing_key`. Python's `str.split` and MD5, which the
-- cluster routes by, are parameters.
use Prim.Native.String.{◌++◌}
use cacheopt.Base.{
  ℕ, zero, suc, ◌<◌, ◌≡◌, ◌≢◌, refl, ◌∙◌, ap, String, false, Option, none, some, List, [], ◌∷◌,
  length, get_elem?, get_elem?_total, Bool-cases, inl, inr,
}
use cacheopt.Api.{Reply, error, reply_of}
use cacheopt.Engine
use cacheopt.Engine.{
  Cluster, Node, Outcome, returned, rejected, failed, route, set, admits, leave, world,
}
use cacheopt.Engine.Routing.{route-lt}
use cacheopt.Planner.{Setting}
use cacheopt.Tiered.{Clock}

-- `" ".join(words)`
unfoldable pub join_words : List String → String
join_words [] = ""
join_words (w ∷ []) = w
join_words (w ∷ v ∷ ws) = w ++ " " ++ join_words (v ∷ ws)

get_elem?-set_ne :
    {A : Type 0} (xs : List A) (i j : ℕ) (v : A) → j ≢ i → get_elem? (set xs i v) j ≡ get_elem? xs j
unfolding set
get_elem?-set_ne [] i j v ne = refl
get_elem?-set_ne (x ∷ xs) zero zero v ne = absurd (ne refl)
get_elem?-set_ne (x ∷ xs) zero (suc j) v ne = refl
get_elem?-set_ne (x ∷ xs) (suc i) zero v ne = refl
get_elem?-set_ne (x ∷ xs) (suc i) (suc j) v ne = get_elem?-set_ne xs i j v (λ e. ne (ap suc e))

module _ (S : Setting) (split : String → List String) (digest : String → ℕ) where
  unfoldable pub routing_key : String → String
  unfolding join_words
  routing_key sql = S.sqlglot.lower (join_words (split sql))

  on_node :
      ℕ
      → Option (Node S)
      → Clock S.runtime
      → S.runtime.float.Num
      → String
      → Cluster S
      → Reply S.runtime.float.Num × Option (Cluster S)
  on_node i none r latency sql c = (error 500, some c)
  on_node i (some n) r latency sql c =
      let (answer, c') = Engine.execute S i n r latency sql c in (reply_of answer, some c')

  -- `run_query`, on `_cluster`; without nodes, the choice of one raises outside the `try`.
  unfoldable pub run_query :
      Clock S.runtime
      → S.runtime.float.Num
      → String
      → Option (Cluster S)
      → Reply S.runtime.float.Num × Option (Cluster S)
  unfolding routing_key on_node
  run_query r latency sql none = (error 503, none)
  run_query r latency sql (some c) =
      let (i, rr) = route (some (digest (routing_key sql))) 0 (length c.nodes) in
      on_node i (get_elem? c.nodes i) r latency sql c

  -- The node that a text is sent to, of so many.
  abbrev pub affinity : String → ℕ → ℕ
  affinity sql num_nodes = (route (some (digest (routing_key sql))) 0 num_nodes).0

  other_nodes :
      (i j : ℕ) (n : Node S) (r : Clock S.runtime) (latency : S.runtime.float.Num) (sql : String)
      (c : Cluster S)
      → j ≢ i
      → get_elem? (Engine.execute S i n r latency sql c).1.nodes j ≡ get_elem? c.nodes j
  unfolding Engine.execute
  other_nodes i j n r latency sql c ne = elim (Bool-cases (admits S.sqlglot sql)) [
    | inl admitted ↦ rw (Engine.execute, admitted) (get_elem?-set_ne c.nodes i j _ ne)
    | inr refused ↦ rw (Engine.execute, refused) refl
  ]

  refused_execute :
      (i : ℕ) (n : Node S) (r : Clock S.runtime) (latency : S.runtime.float.Num) (sql : String)
      (c : Cluster S)
      → admits S.sqlglot sql ≡ false
      → Engine.execute S i n r latency sql c ≡ (rejected, c)
  unfolding Engine.execute
  refused_execute i n r latency sql c refused = rw refused refl

  same_node :
      (sql sql' : String) (n : ℕ)
      → routing_key sql ≡ routing_key sql'
      → affinity sql n ≡ affinity sql' n
  same_node sql sql' n e = ap (λ (k : String). (route (some (digest k)) 0 n).0) e

  -- A request to a cluster that has nodes is executed on one of them, the same one for all texts
  -- with the same routing key; the reply is that to its outcome, and no other node changes. A text
  -- that is not one SELECT is replied with the status 400, and nothing changes.
  pub run_query_outcome :
      (r : Clock S.runtime) (latency : S.runtime.float.Num) (sql : String) (c : Cluster S)
      → 0 < length c.nodes
      → (i : ℕ) × (n : Node S) × (get_elem? c.nodes i ≡ some n)
        × ((sql' : String)
            → routing_key sql' ≡ routing_key sql
            → affinity sql' (length c.nodes) ≡ i)
        × (run_query r latency sql (some c) ≡ (
          reply_of (Engine.execute S i n r latency sql c).0,
          some (Engine.execute S i n r latency sql c).1,
        ))
        × ((j : ℕ)
            → j ≢ i
            → get_elem? (Engine.execute S i n r latency sql c).1.nodes j ≡ get_elem? c.nodes j)
        × (admits S.sqlglot sql ≡ false → run_query r latency sql (some c) ≡ (error 400, some c))
  unfolding run_query on_node reply_of
  run_query_outcome r latency sql c pos =
      let i = affinity sql (length c.nodes) in
      let (n, there) = get_elem?_total c.nodes i (route-lt _ 0 (length c.nodes) pos) in
      let ran = ap (λ (o : Option (Node S)). on_node i o r latency sql c) there in
      (
        i,
        n,
        there,
        λ sql' e. same_node sql' sql (length c.nodes) e,
        ran,
        λ j ne. other_nodes i j n r latency sql c ne,
        λ refused.
            ran ∙ ap (λ o. (reply_of o.0, some o.1)) (refused_execute i n r latency sql c refused),
      )
