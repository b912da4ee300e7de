-- ===== src/Engine/Flights.antt =====
-- src/cacheopt/engine.py and src/cacheopt/optimizer/planner.py: a cluster whose requests overlap. A
-- request that misses reads its rows in one step and writes them back in another one, and requests
-- at any node, writes, events and expiries come in between. These steps are coarser than the code's,
-- which no lock joins: the lookup in both tiers (with the staleness check and the promotion) up to the
-- rows, the write back, and a write (the statement, the bump and the delivery of its events) are one
-- step each. What comes between their parts, as between the commit of a statement and the bump, is
-- outside of this relation.
use cacheopt.Base.{
  ℕ, zero, suc, ◌≡◌, ◌≢◌, ◌⊎◌, String, Bool, true, false, Option, none, some, List, [], ◌∷◌, map,
  ◌||◌, get_elem?,
}
use cacheopt.CostModel.{RoutingPlan}
use cacheopt.Engine
use cacheopt.Engine.{Cluster, Node, admits, world, leave, set, handle_event}
use cacheopt.Engine.Coherence.{tables_of, has_event_for}
use cacheopt.Engine.Events.{HasLapsed}
use cacheopt.Engine.Writes.{WritesOnly}
use cacheopt.Memory.{is_member}
use cacheopt.Planner.{Setting, QueryResult}
use cacheopt.Planner.Phases
use cacheopt.Planner.Phases.{Begun, ended, pending}
use cacheopt.Tiered.{Clock, l1}
use cacheopt.Value.{Values}

-- A list without the element at an index.
unfoldable pub remove : {A : Type 0} → ℕ → List A → List A
remove i [] = []
remove zero (x ∷ xs) = xs
remove (suc i) (x ∷ xs) = x ∷ remove i xs

module _ (S : Setting) where
  -- A request at the node `i` between its two phases, with the rows that it has read. It is overtaken
  -- once a statement has run that changes one of its tables.
  pub record Flight : Type 0 where
    pub node : ℕ
    pub sql : String
    pub plan : RoutingPlan S.runtime.float.Num
    pub columns : Values
    pub rows : Values
    pub overtaken : Bool

  pub record Live : Type 0 where
    pub cluster : Cluster S
    pub flights : List Flight

  unfoldable pub depart : ℕ → String → Begun S → List Flight → List Flight
  depart i sql (ended o) fs = fs
  depart i sql (pending plan columns rows) fs =
      record { node = i; sql = sql; plan = plan; columns = columns; rows = rows; overtaken = false }
      ∷ fs

  abbrev pub overtake : String → Flight → Flight
  overtake table a = record a { overtaken = a.overtaken || is_member table (tables_of S a.sql) }

  -- What a statement that writes a table does to the requests under way.
  unfoldable pub overtake_all :
      String → Option (Values × Values × S.database.State) → List Flight → List Flight
  overtake_all table none fs = fs
  overtake_all table (some done) fs = map (overtake table) fs

  unfoldable pub write : String → String → Live → Live
  unfolding overtake_all
  write table dml_sql s = record {
    cluster = (Engine.write S table dml_sql s.cluster).1;
    flights = overtake_all table (S.database.execute dml_sql s.cluster.database) s.flights;
  }

  -- The first phase of a request at the node `i`.
  unfoldable pub begin : ℕ → Node S → Clock S.runtime → S.runtime.float.Num → String → Live → Live
  unfolding depart
  begin i n r latency sql s =
      let (b, w) = Phases.begin S r latency sql (world S n s.cluster) in
      record { cluster = leave S i n s.cluster w; flights = depart i sql b s.flights }

  -- The second phase, at the node where the request began.
  unfoldable pub finish : ℕ → Flight → Node S → Clock S.runtime → S.runtime.float.Num → Live → Live
  finish k a n r latency s = record {
    cluster =
        leave S a.node n s.cluster
          (Phases.finish S r latency a.sql a.plan a.columns a.rows (world S n s.cluster)).1;
    flights = remove k s.flights;
  }

  -- One step, none of which is interrupted. Of the requests under way, one that is not overtaken may finish, or any may be lost with
  -- the client that it serves. The statement of a write touches the table that it names.
  pub data LiveStep (s : Live) : Live → Type 0 where
    begins :
        (i : ℕ) (n : Node S) (r : Clock S.runtime) (latency : S.runtime.float.Num) (sql : String)
        → get_elem? s.cluster.nodes i ≡ some n
        → admits S.sqlglot sql ≡ true
        → LiveStep s (begin i n r latency sql s)
    finishes :
        (k : ℕ) (a : Flight) (n : Node S) (r : Clock S.runtime) (latency : S.runtime.float.Num)
        → get_elem? s.flights k ≡ some a
        → get_elem? s.cluster.nodes a.node ≡ some n
        → a.overtaken ≡ false
        → LiveStep s (finish k a n r latency s)
    is_lost : (k : ℕ) → LiveStep s (record s { flights = remove k s.flights })
    writes :
        (table dml_sql : String)
        → ((columns rows : Values) (d' : S.database.State)
            → S.database.execute dml_sql s.cluster.database ≡ some (columns, rows, d')
            → WritesOnly S table s.cluster.database d')
        → LiveStep s (write table dml_sql s)
    handles :
        (i : ℕ) (n : Node S)
        → get_elem? s.cluster.nodes i ≡ some n
        → LiveStep s (record s {
          cluster = record s.cluster { nodes = set s.cluster.nodes i (handle_event S n) };
        })
    lapses :
        (server : S.runtime.redis.State)
        → HasLapsed S s.cluster.server server
        → LiveStep s (record s { cluster = record s.cluster { server = server } })

  -- Any number of steps, in any order.
  pub data LiveReach (s : Live) : Live → Type 0 where
    here : LiveReach s s
    after : {s₁ s₂ : Live} → LiveReach s s₁ → LiveStep s₁ s₂ → LiveReach s s₂

  -- A result `q` of a request `sql` in the state `s`: the request is answered in its first phase (from
  -- L1 only where no event for one of its tables waits at the node), or a request under way that no
  -- statement has overtaken writes its rows back and answers.
  pub data Reply (s : Live) (sql : String) (q : QueryResult S.runtime.float.Num) : Type 0 where
    at_once :
        (i : ℕ) (n : Node S) (r : Clock S.runtime) (latency : S.runtime.float.Num)
        → get_elem? s.cluster.nodes i ≡ some n
        → admits S.sqlglot sql ≡ true
        → (Phases.begin S r latency sql (world S n s.cluster)).0 ≡ ended (some q)
        → (q.tier_hit ≢ l1) ⊎ (has_event_for (tables_of S sql) n.inbox ≡ false)
        → Reply s sql q
    behind :
        (k : ℕ) (a : Flight) (n : Node S) (r : Clock S.runtime) (latency : S.runtime.float.Num)
        → get_elem? s.flights k ≡ some a
        → get_elem? s.cluster.nodes a.node ≡ some n
        → a.overtaken ≡ false
        → (Phases.finish S r latency a.sql a.plan a.columns a.rows (world S n s.cluster)).0 ≡ some q
        → a.sql ≡ sql
        → Reply s sql q
