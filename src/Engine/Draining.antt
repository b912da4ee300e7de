-- ===== src/Engine/Draining.antt =====
-- The thread of a node (src/cacheopt/invalidation.py, `_run`) and the requests behind it.
use cacheopt.Base.{
  ℕ, zero, suc, ◌≤◌, ◌≡◌, refl, ap, inl, inr, String, some, List, [], ◌∷◌, arith, get_elem?, length,
}
use cacheopt.Engine
use cacheopt.Engine.{Cluster, Node, set, handle_event, returned}
use cacheopt.Engine.Coherence.{IsCoherent, IsSetting, IsCurrent, L1Claim, has_event_for, tables_of}
use cacheopt.Engine.Events.{List-cases, handled-InMemory, set-IsCoherent}
use cacheopt.Engine.Requests.{execute-IsCurrent}
use cacheopt.Planner.{Setting, QueryResult, unpack}
use cacheopt.Tiered.{Clock}
use cacheopt.Tiered.Lookups.{InMemory}
use cacheopt.Value.{Value}

module _ {A : Type 0} where
  get_elem?-set_self :
      (xs : List A) (i : ℕ) (x y : A) → get_elem? xs i ≡ some x → get_elem? (set xs i y) i ≡ some y
  unfolding set
  get_elem?-set_self [] i x y h = cc
  get_elem?-set_self (z ∷ xs) zero x y h = refl
  get_elem?-set_self (z ∷ xs) (suc i) x y h = get_elem?-set_self xs i x y h

module _ (S : Setting) where
  -- Rounds of the loop of `_run`.
  unfoldable pub run_thread : ℕ → Node S → Node S
  run_thread zero n = n
  run_thread (suc k) n = run_thread k (handle_event S n)

  length-handled :
      (k : ℕ) (n : Node S) → length n.inbox ≤ suc k → length (handle_event S n).inbox ≤ k
  unfolding handle_event
  length-handled k n h = elim (List-cases n.inbox) [
    | inl quiet ↦ rw (quiet, handle_event) (rw quiet (omega arith))
    | inr (e, rest, waits) ↦
        let fits : length (e ∷ rest) ≤ suc k = rw waits at h in
        rw (waits, handle_event) (omega arith)
  ]

  inbox-run_thread : (k : ℕ) (n : Node S) → length n.inbox ≤ k → (run_thread k n).inbox ≡ []
  unfolding run_thread
  inbox-run_thread zero n h = elim (List-cases n.inbox) [
    | inl quiet ↦ quiet
    | inr (e, rest, waits) ↦
        let none_left : length (e ∷ rest) ≤ 0 = rw waits at h in absurd (omega arith)
  ]
  inbox-run_thread (suc k) n h = inbox-run_thread k (handle_event S n) (length-handled k n h)

  run_thread-InMemory :
      (f : String → ℕ) (d : S.database.State) (k : ℕ) (n : Node S)
      → InMemory S.runtime (L1Claim S f d n.inbox) n.memory
      → InMemory S.runtime (L1Claim S f d (run_thread k n).inbox) (run_thread k n).memory
  unfolding run_thread
  run_thread-InMemory f d zero n h = h
  run_thread-InMemory f d (suc k) n h =
      run_thread-InMemory f d k (handle_event S n) (handled-InMemory S f d n h)

  -- In a coherent cluster, once the thread of a node has run as many rounds as events wait there, no
  -- event waits, and under what `IsSetting` says each result at the node is the present answer of the
  -- database to the rewritten query, as the database gives it or as JSON keeps it, whatever its tier.
  pub run_thread-IsCurrent :
      (ok : IsSetting S) (k i : ℕ) (n : Node S) (c : Cluster S)
      → IsCoherent S c
      → get_elem? c.nodes i ≡ some n
      → length n.inbox ≤ k
      → (r : Clock S.runtime) (latency : S.runtime.float.Num) (sql : String)
        (q : QueryResult S.runtime.float.Num)
      → (Engine.execute S i
          (run_thread k n)
          r
          latency
          sql
          (record c { nodes = set c.nodes i (run_thread k n) })).0
        ≡ returned q
      → ((run_thread k n).inbox ≡ [])
        × (v : Value) × (unpack v ≡ some (q.columns, q.rows))
        × IsCurrent S sql c.database v
  unfolding has_event_for
  run_thread-IsCurrent ok k i n c h there enough r latency sql q e =
      let quiet = inbox-run_thread k n enough in
      let kept =
        set-IsCoherent S i (run_thread k n) c h
          (run_thread-InMemory h.counters c.database k n (h.nodes i n there)) in
      let (v, parts, current) =
        execute-IsCurrent S ok i (run_thread k n) r latency sql
          (record c { nodes = set c.nodes i (run_thread k n) })
          (get_elem?-set_self c.nodes i n (run_thread k n) there) kept q e
          (inr (ap (has_event_for (tables_of S sql)) quiet)) in
      (quiet, v, parts, current)
