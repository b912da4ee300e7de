-- ===== src/Engine/Runs.antt =====
-- The steps of a cluster from its start, in any order.
use cacheopt.Base.{ℕ, ◌≡◌, ◌≢◌, ◌⊎◌, refl, sym, subst, String, false, none, some, arith, get_elem?}
use cacheopt.Dict.{lookup}
use cacheopt.Engine
use cacheopt.Engine.{Cluster, Node, set, handle_event, returned}
use cacheopt.Engine.Coherence.{IsCoherent, IsSetting, IsCurrent, L1Claim, has_event_for, tables_of}
use cacheopt.Engine.Events.{no_blob, HasLapsed, handle_event-IsCoherent, lapse-IsCoherent}
use cacheopt.Engine.Requests.{execute-IsCoherent, execute-IsCurrent}
use cacheopt.Engine.Writes.{WritesOnly, write-IsCoherent}
use cacheopt.Memory.{init}
use cacheopt.Memory.Invariant.{init-IsValid}
use cacheopt.Planner.{Setting, QueryResult, unpack}
use cacheopt.Runtime.{Runtime}
use cacheopt.Tiered.{Clock, l1}
use cacheopt.Value.{Value, Values}
use cacheopt.Tiered.Lookups.{Claim, InMemory}

module _ (W : Runtime) where
  init-InMemory :
      (P : Claim) (entries bytes : ℕ) → InMemory W P (init {N = W.float.Num} entries bytes)
  unfolding init lookup
  init-InMemory P entries bytes = record {
    valid = init-IsValid entries bytes;
    entries = λ k e found. absurd (ground arith);
  }

module _ (S : Setting) where
  -- One step of a cluster: a request at a node, a write at any node, a node's thread that handles an
  -- event, or Redis dropping result keys whose time is over. A request or a write may raise. The
  -- statement of a write touches the table that it names.
  pub data Step (c : Cluster S) : Cluster S → Type 0 where
    request :
        (i : ℕ) (n : Node S) (r : Clock S.runtime) (latency : S.runtime.float.Num) (sql : String)
        → get_elem? c.nodes i ≡ some n
        → Step c (Engine.execute S i n r latency sql c).1
    write :
        (table dml_sql : String)
        → ((columns rows : Values) (d' : S.database.State)
            → S.database.execute dml_sql c.database ≡ some (columns, rows, d')
            → WritesOnly S table c.database d')
        → Step c (Engine.write S table dml_sql c).1
    handle :
        (i : ℕ) (n : Node S)
        → get_elem? c.nodes i ≡ some n
        → Step c (record c { nodes = set c.nodes i (handle_event S n) })
    lapse : (s : S.runtime.redis.State) → HasLapsed S c.server s → Step c (record c { server = s })

  -- Any number of steps, in any order.
  pub data Reach (c : Cluster S) : Cluster S → Type 0 where
    here : Reach c c
    after : {c₁ c₂ : Cluster S} → Reach c c₁ → Step c₁ c₂ → Reach c c₂

  Step-IsCoherent :
      (ok : IsSetting S) {c c' : Cluster S} → Step c c' → IsCoherent S c → IsCoherent S c'
  Step-IsCoherent ok {c} (request i n r latency sql there) h =
      execute-IsCoherent S ok i n r latency sql c there h
  Step-IsCoherent ok {c} (write table dml_sql only) h =
      write-IsCoherent S ok.is_runtime table dml_sql c only h
  Step-IsCoherent ok {c} (handle i n there) h = handle_event-IsCoherent S i n c there h
  Step-IsCoherent ok {c} (lapse s lapsed) h = lapse-IsCoherent S c s lapsed h

  -- The server holds nothing, and each buffer is as its constructor makes it.
  pub record IsStarted (c : Cluster S) : Type 0 where
    pub no_keys : (k : String) → S.runtime.redis.get k c.server ≡ none
    pub empty :
        (i : ℕ) (n : Node S)
        → get_elem? c.nodes i ≡ some n
        → (entries : ℕ) × (bytes : ℕ) × (n.memory ≡ init entries bytes)

  -- A cluster that has just been started is coherent.
  pub started-IsCoherent : (c : Cluster S) → IsStarted c → IsCoherent S c
  started-IsCoherent c h = record {
    counters = λ t. 0;
    server = record {
      entries = λ k e found. absurd (no_blob S.runtime _ e (h.no_keys _) found);
      counts = λ t. rw (h.no_keys _) refl;
    };
    nodes = λ i n at.
        let (entries, bytes, made) = h.empty i n at in
        subst (InMemory S.runtime (L1Claim S (λ t. 0) c.database n.inbox)) (sym made)
          (init-InMemory S.runtime _ entries bytes);
  }

  -- Requests, writes, events and expiries in any order lead from a started cluster to coherent ones.
  pub Reach-IsCoherent :
      (ok : IsSetting S) {c c' : Cluster S} → IsStarted c → Reach c c' → IsCoherent S c'
  Reach-IsCoherent ok {c} h here = started-IsCoherent c h
  Reach-IsCoherent ok {c} h (after run step) = Step-IsCoherent ok step (Reach-IsCoherent ok h run)

  -- After requests, writes, events and expiries in any order from a started cluster, where each write
  -- changes the answers of no query that does not name its table, the result of a request is the
  -- present answer of the database to the rewritten query, as the database gives it or as JSON keeps
  -- it, unless it comes from L1 while an event for a table of the query waits at the node. That equal
  -- cache keys have one meaning and that a select changes nothing is `IsSetting`.
  pub Reach-IsCurrent :
      (ok : IsSetting S) (c c' : Cluster S)
      → IsStarted c
      → Reach c c'
      → (i : ℕ) (n : Node S) (r : Clock S.runtime) (latency : S.runtime.float.Num) (sql : String)
        (q : QueryResult S.runtime.float.Num)
      → get_elem? c'.nodes i ≡ some n
      → (Engine.execute S i n r latency sql c').0 ≡ returned q
      → (q.tier_hit ≢ l1) ⊎ (has_event_for (tables_of S sql) n.inbox ≡ false)
      → (v : Value) × (unpack v ≡ some (q.columns, q.rows)) × IsCurrent S sql c'.database v
  Reach-IsCurrent ok c c' h run i n r latency sql q there e quiet =
      execute-IsCurrent S ok i n r latency sql c' there (Reach-IsCoherent ok h run) q e quiet
