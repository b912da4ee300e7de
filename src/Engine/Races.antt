-- ===== src/Engine/Races.antt =====
-- A write between the execution of a query and the write back of its result: `TieredCache.put` reads
-- the versions when it is called, and not when the query ran.
use cacheopt.Base.{
  ℕ, ◌<◌, ◌≡◌, refl, sym, ◌∙◌, ap, inl, inr, Bool-cases, String, true, Option, none, some,
}
use cacheopt.Dict.{lookup}
use cacheopt.Engine
use cacheopt.Engine.{Cluster, Node, Outcome, world}
use cacheopt.Engine.Outcomes.{write_outcome}
use cacheopt.CostModel.{RoutingPlan}
use cacheopt.Fingerprint.{Fingerprint}
use cacheopt.Planner.{Setting, World, write_back}
use cacheopt.RedisCache.{seconds}
use cacheopt.Runtime.{IsRuntime}
use cacheopt.Tiered
use cacheopt.Tiered.{Caches, Clock, l2}
use cacheopt.Tiered.Sharing.{get-put}
use cacheopt.Value.{Values, tuple, list, pair}
use cacheopt.Value.RoundTrip.{through_redis}
use cacheopt.Versions.Counters.{Counts, bumped}

same_state :
    {A : Type 0} (us us' vs vs' : Values) (d d' : A)
    → ◌≡◌ {A = Option (Values × Values × A)} (some (us, vs, d)) (some (us', vs', d'))
    → d ≡ d'
same_state us us' vs vs' d d' h = cc

module _ (S : Setting) (ok : IsRuntime S.runtime) (f : String → ℕ) (c : Cluster S) (n m : Node S)
    (r r' : Clock S.runtime) (fp : Fingerprint) (plan : RoutingPlan S.runtime.float.Num) where
  -- What the node `n` leaves when it writes a result back in a cluster.
  abbrev pub written_back : Values → Values → Cluster S → World S
  written_back columns rows c' = (write_back S r fp plan columns rows (world S n c')).1

  -- What the node `m` sees after that.
  abbrev pub seen : Values → Values → Cluster S → Caches S.runtime
  seen columns rows c' = record {
    memory = m.memory;
    redis_cache = m.redis_cache;
    server = (written_back columns rows c').caches.server;
  }

  put_server :
      (columns rows : Values) (c' : Cluster S)
      → plan.write_l2 ≡ true
      → (written_back columns rows c').caches.server
        ≡ (Tiered.put S.runtime r fp.cache_key
            (pair (tuple columns) (list rows))
            fp.tables
            plan.write_l1
            true
            (some plan.ttl_seconds)
            (world S n c').caches).1.server
  unfolding write_back
  put_server columns rows c' cached = elim (Bool-cases plan.write_l1) [
    | inl hot ↦ rw (hot, cached) refl
    | inr cold ↦ rw (cold, cached) refl
  ]

  -- Whenever the result was read, it is a hit once it has been written back.
  written_back_hit :
      (g : String → ℕ) (columns rows : Values) (c' : Cluster S)
      → Counts S.runtime.redis g c'.server
      → plan.write_l2 ≡ true
      → 0 < seconds S.runtime (some plan.ttl_seconds) n.redis_cache
      → lookup fp.cache_key m.memory.store ≡ none
      → (Tiered.get S.runtime r' fp.cache_key fp.tables true true (seen columns rows c')).0
        ≡ some (record {
          hit = l2;
          value = some (through_redis S.runtime.utf8 (pair (tuple columns) (list rows)));
        })
  written_back_hit g columns rows c' counts cached lives absent =
      (get-put S.runtime ok g r r' fp.cache_key (pair (tuple columns) (list rows)) fp.tables
        plan.write_l1 (some plan.ttl_seconds) (world S n c').caches (seen columns rows c') counts
        lives (put_server columns rows c' cached) absent).1

  -- Over a server and an encoding as `IsRuntime` describes them, where the counters are numbers and
  -- the time to live is at least a second: the rows that a query has read from the database before
  -- a write, and that are written back to L2 after it, are a hit in L2 after the write, at any node
  -- that has no entry for the key in L1, whichever table the write has bumped.
  pub write-write_back :
      (table dml_sql sql : String) (columns rows changed_columns changed_rows : Values)
      (d d' : S.database.State)
      → Counts S.runtime.redis f c.server
      → S.database.execute sql c.database ≡ some (columns, rows, d)
      → S.database.execute dml_sql c.database ≡ some (changed_columns, changed_rows, d')
      → plan.write_l2 ≡ true
      → 0 < seconds S.runtime (some plan.ttl_seconds) n.redis_cache
      → lookup fp.cache_key m.memory.store ≡ none
      → ((Engine.write S table dml_sql c).1.database ≡ d')
        × ((Tiered.get S.runtime r' fp.cache_key fp.tables true true
              (seen columns rows (Engine.write S table dml_sql c).1)).0
            ≡ some (record {
              hit = l2;
              value = some (through_redis S.runtime.utf8 (pair (tuple columns) (list rows)));
            }))
  write-write_back table dml_sql sql columns rows changed_columns changed_rows d d' counts read ran
        cached lives absent =
      elim (write_outcome S ok.is_redis f table dml_sql c counts) [
        | inl undone ↦ let no = sym ran ∙ undone.raised in cc
        | inr done ↦
            let after = (Engine.write S table dml_sql c).1 in
            let server : after.server ≡ done.server =
              ap (λ (o : Outcome ℕ × Cluster S). o.1.server) done.outcome in
            let same : done.database ≡ d' = same_state _ _ _ _ _ _ (sym done.ran ∙ ran) in
            (
              ap (λ (o : Outcome ℕ × Cluster S). o.1.database) done.outcome ∙ same,
              written_back_hit (bumped S.runtime.redis table f) columns rows after
                  (rw server done.counts) cached lives absent,
            )
      ]
