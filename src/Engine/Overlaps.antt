-- ===== src/Engine/Overlaps.antt =====
-- Requests that overlap with writes and with each other, in a coherent cluster.
use cacheopt.Base.{ℕ, ◌≡◌, ◌≢◌, refl, sym, subst, inl, String, true, false, some, [], get_elem?}
use cacheopt.CostModel.{RoutingPlan}
use cacheopt.Engine.{Cluster, Node, admits, world}
use cacheopt.Engine.Coherence.{IsSetting, IsCoherent, IsCurrent, L1Claim, L2Claim, read}
use cacheopt.Engine.Events.{handle_event-IsCoherent, lapse-IsCoherent}
use cacheopt.Engine.Flights
use cacheopt.Engine.Flights.{
  Flight, Live, LiveStep, LiveReach, begins, finishes, is_lost, writes, handles, lapses, here,
  after, Reply, at_once, behind, remove, depart, overtake, overtake_all,
}
use cacheopt.Engine.Requests.{leave-IsCoherent, Source-IsCurrent}
use cacheopt.Engine.Runs.{IsStarted, started-IsCoherent}
use cacheopt.Engine.Serving.{coherent-MayStore}
use cacheopt.Engine.Writes.{WritesOnly, write-IsCoherent}
use cacheopt.Planner.{Setting, World, QueryResult, effective, effective_fp, unpack, write_back}
use cacheopt.Planner.Beginnings.{Begins, begin-Begins, finish-Served, finish_misses}
use cacheopt.Planner.Phases
use cacheopt.Planner.Phases.{Begun, ended, pending}
use cacheopt.Planner.Requests.{Served}
use cacheopt.Tiered.{Clock, l1}
use cacheopt.Value.{Value, Values}
use cacheopt.Engine.Overtaking.{
  IsUpToDate, AreUpToDate, ran_of_read, remove-AreUpToDate, overtake_all-AreUpToDate, raised_write,
  no_flight, database-write, depart-AreUpToDate,
}

module _ (S : Setting) where
  pub record IsSound (s : Live S) : Type 0 where
    pub coherent : IsCoherent S s.cluster
    pub flights : AreUpToDate S s.cluster.database s.flights

  finish_tier :
      (r : Clock S.runtime) (latency : S.runtime.float.Num) (sql : String)
      (plan : RoutingPlan S.runtime.float.Num) (columns rows : Values)
      (q : QueryResult S.runtime.float.Num) (w : World S)
      → (Phases.finish S r latency sql plan columns rows w).0 ≡ some q
      → q.tier_hit ≢ l1
  unfolding Phases.finish
  finish_tier r latency sql plan columns rows q w h in_l1 =
      let missed =
        finish_misses S r latency (effective_fp S sql) (effective S sql) plan columns rows q
          (write_back S r (effective_fp S sql) plan columns rows w) h in
      cc

  module _ (ok : IsSetting S) where
    flight-Served :
        (a : Flight S) (n : Node S) (r : Clock S.runtime) (latency : S.runtime.float.Num)
        (c : Cluster S) (h : IsCoherent S c)
        → get_elem? c.nodes a.node ≡ some n
        → IsUpToDate S c.database a
        → a.overtaken ≡ false
        → Served S
            (L1Claim S h.counters c.database n.inbox)
            (L2Claim S h.counters c.database)
            h.counters
            a.sql
            c.database
            (Phases.finish S r latency a.sql a.plan a.columns a.rows (world S n c))
    unfolding read
    flight-Served a n r latency c h there (admitted, held) quiet =
        finish-Served S _ _ h.counters a.sql c.database ok.is_runtime
          (coherent-MayStore S ok h.counters c.database n.inbox a.sql admitted) r latency a.plan
          a.columns a.rows (world S n c) (ran_of_read S c.database a.columns a.rows _ (held quiet))
          (record { memory = h.nodes a.node n there; server = h.server }) refl

    begun :
        (s : Live S) (i : ℕ) (n : Node S) (r : Clock S.runtime) (latency : S.runtime.float.Num)
        (sql : String)
        → get_elem? s.cluster.nodes i ≡ some n
        → admits S.sqlglot sql ≡ true
        → (h : IsSound s)
        → Begins S
            (L1Claim S h.coherent.counters s.cluster.database n.inbox)
            (L2Claim S h.coherent.counters s.cluster.database)
            h.coherent.counters
            sql
            s.cluster.database
            (Phases.begin S r latency sql (world S n s.cluster))
    begun s i n r latency sql there admitted h =
        let f = h.coherent.counters in
        let d = s.cluster.database in
        begin-Begins S _ _ f sql d ok.is_runtime (coherent-MayStore S ok f d n.inbox sql admitted) r
          latency (world S n s.cluster)
          (record { memory = h.coherent.nodes i n there; server = h.coherent.server }) refl

    begin-IsSound :
        (i : ℕ) (n : Node S) (r : Clock S.runtime) (latency : S.runtime.float.Num) (sql : String)
        (s : Live S)
        → get_elem? s.cluster.nodes i ≡ some n
        → admits S.sqlglot sql ≡ true
        → IsSound s
        → IsSound (Flights.begin S i n r latency sql s)
    unfolding Flights.begin
    begin-IsSound i n r latency sql s there admitted h =
        let c = s.cluster in
        let b = begun s i n r latency sql there admitted h in
        record {
          coherent =
              leave-IsCoherent S ok i n r latency sql c there h.coherent _ b.kept b.same_database;
          flights =
              subst
                (λ (d : S.database.State).
                  AreUpToDate S d
                    (depart S i sql (Phases.begin S r latency sql (world S n c)).0 s.flights))
                (sym b.same_database)
                (depart-AreUpToDate S ok i sql _ c.database s.flights admitted b.is_read h.flights);
        }

    finish-IsSound :
        (k : ℕ) (a : Flight S) (n : Node S) (r : Clock S.runtime) (latency : S.runtime.float.Num)
        (s : Live S)
        → get_elem? s.flights k ≡ some a
        → get_elem? s.cluster.nodes a.node ≡ some n
        → a.overtaken ≡ false
        → IsSound s
        → IsSound (Flights.finish S k a n r latency s)
    unfolding Flights.finish
    finish-IsSound k a n r latency s under_way there quiet h =
        let c = s.cluster in
        let served =
          flight-Served a n r latency c h.coherent there (h.flights k a under_way) quiet in
        record {
          coherent =
              leave-IsCoherent S ok a.node n r latency a.sql c there h.coherent _ served.kept
                served.same_database;
          flights =
              subst (λ (d : S.database.State). AreUpToDate S d (remove k s.flights))
                (sym served.same_database) (remove-AreUpToDate S c.database k s.flights h.flights);
        }

    write-IsSound :
        (table dml_sql : String) (s : Live S)
        → ((columns rows : Values) (d' : S.database.State)
            → S.database.execute dml_sql s.cluster.database ≡ some (columns, rows, d')
            → WritesOnly S table s.cluster.database d')
        → IsSound s
        → IsSound (Flights.write S table dml_sql s)
    unfolding Flights.write
    write-IsSound table dml_sql s only h = record {
      coherent = write-IsCoherent S ok.is_runtime table dml_sql s.cluster only h.coherent;
      flights =
          overtake_all-AreUpToDate S table s.cluster.database s.flights _ _ h.flights
            (raised_write S table dml_sql s.cluster)
            (λ cs rs d' ran.
              (database-write S table dml_sql s.cluster cs rs d' ran, only cs rs d' ran));
    }

    LiveStep-IsSound : {s s' : Live S} → LiveStep S s s' → IsSound s → IsSound s'
    LiveStep-IsSound {s} (begins i n r latency sql there admitted) h =
        begin-IsSound i n r latency sql s there admitted h
    LiveStep-IsSound {s} (finishes k a n r latency under_way there quiet) h =
        finish-IsSound k a n r latency s under_way there quiet h
    LiveStep-IsSound {s} (is_lost k) h = record {
      coherent = h.coherent;
      flights = remove-AreUpToDate S s.cluster.database k s.flights h.flights;
    }
    LiveStep-IsSound {s} (writes table dml_sql only) h = write-IsSound table dml_sql s only h
    LiveStep-IsSound {s} (handles i n there) h = record {
      coherent = handle_event-IsCoherent S i n s.cluster there h.coherent;
      flights = h.flights;
    }
    LiveStep-IsSound {s} (lapses server lapsed) h = record {
      coherent = lapse-IsCoherent S s.cluster server lapsed h.coherent;
      flights = h.flights;
    }

    -- A started cluster with no request under way.
    abbrev pub IsIdle : Live S → Type 0
    IsIdle s = IsStarted S s.cluster × (s.flights ≡ [])

    -- Under what `IsSetting` says, whatever steps of `LiveStep` come in whatever order, each of them
    -- uninterrupted: as long as no request writes its rows back after a statement
    -- that changes one of its tables, the cluster stays coherent, and the rows of each request under
    -- way that no statement has overtaken are the present answer of the database.
    pub LiveReach-IsSound : {s s' : Live S} → IsIdle s → LiveReach S s s' → IsSound s'
    LiveReach-IsSound {s} (started, idle) here = record {
      coherent = started-IsCoherent S s.cluster started;
      flights = λ k a at. absurd (no_flight S k a (rw idle at at));
    }
    LiveReach-IsSound idle (after run step) = LiveStep-IsSound step (LiveReach-IsSound idle run)

    -- Under what `IsSetting` says, from an idle started cluster, for requests that overlap in that
    -- other requests, writes, events and expiries come between the reading of their rows and their
    -- write back, where
    -- * a lookup in both tiers up to the rows of a miss, a write back, and a write with its statement,
    --   its bump and the delivery of its events are each one step, that nothing interrupts,
    -- * each write changes the answers of no query that does not name its table,
    -- * no request writes its rows back after a statement that changes one of its tables:
    -- the result of a request is the present answer of the database to the rewritten query when it is
    -- answered, as the database gives it or as JSON keeps it, unless it comes from L1 while an event
    -- for a table of the query waits at the node.
    pub LiveReach-IsCurrent :
        (s s' : Live S) (sql : String) (q : QueryResult S.runtime.float.Num)
        → IsIdle s
        → LiveReach S s s'
        → Reply S s' sql q
        → (v : Value) × (unpack v ≡ some (q.columns, q.rows))
          × IsCurrent S sql s'.cluster.database v
    LiveReach-IsCurrent s s' sql q idle run (at_once i n r latency there admitted answered quiet) =
        let h = LiveReach-IsSound idle run in
        let b = begun s' i n r latency sql there admitted h in
        Source-IsCurrent S ok i n r latency sql s'.cluster there h.coherent q admitted
          (b.source q answered) quiet
    LiveReach-IsCurrent s s' sql q idle run
          (behind k a n r latency under_way there up answered same) =
        let h = LiveReach-IsSound idle run in
        let held = h.flights k a under_way in
        let served = flight-Served a n r latency s'.cluster h.coherent there held up in
        subst
          (λ (t : String).
            (v : Value) × (unpack v ≡ some (q.columns, q.rows))
            × IsCurrent S t s'.cluster.database v)
          same
          (Source-IsCurrent S ok a.node n r latency a.sql s'.cluster there h.coherent q held.0
            (served.source q answered)
            (inl (finish_tier r latency a.sql a.plan a.columns a.rows q _ answered)))
