-- ===== src/Engine/Outcomes.antt =====
-- What `write` and the guard of `execute` do on every branch.
use cacheopt.Base.{
  ℕ, ◌+◌, ◌≡◌, ◌≢◌, ◌↔◌, refl, ap, ◌⊎◌, inl, inr, String, true, Option, none, some, List, [], ◌∷◌,
  map, Bool-cases, Option-cases,
}
use cacheopt.Engine
use cacheopt.Engine.{
  Cluster, Node, Outcome, returned, rejected, failed, admits, world, receive, is_one_select,
}
use cacheopt.Fingerprint.{Sqlglot}
use cacheopt.Planner
use cacheopt.Planner.{Setting, QueryResult}
use cacheopt.Redis.{IsRedis}
use cacheopt.Redis.Keys.{version_key}
use cacheopt.Tiered.{Clock}
use cacheopt.Value.{Values}
use cacheopt.Versions.Counters.{Counts, bumped, bump-Counts}

-- The text parses to one statement, which is a SELECT.
abbrev pub IsOneSelect : (Q : Sqlglot) → String → Type 0
IsOneSelect Q sql =
    (tree : Q.Tree) × (Q.parse sql ≡ some (some tree ∷ [])) × (Q.is_select tree ≡ true)

module _ (Q : Sqlglot) where
  one_select :
      (o : Option (List (Option Q.Tree)))
      → is_one_select Q o ≡ true
      → (tree : Q.Tree) × (o ≡ some (some tree ∷ [])) × (Q.is_select tree ≡ true)
  unfolding is_one_select
  one_select none h = cc
  one_select (some []) h = cc
  one_select (some (none ∷ ts)) h = cc
  one_select (some (some tree ∷ [])) h = (tree, refl, h)
  one_select (some (some tree ∷ t ∷ ts)) h = cc

  admits-iff_IsOneSelect : (sql : String) → (admits Q sql ≡ true) ↔ IsOneSelect Q sql
  unfolding admits is_one_select
  admits-iff_IsOneSelect sql = (one_select (Q.parse sql), λ p. rw p.1 p.2)

module _ (S : Setting) where
  -- Where the statement of a write raises, nothing changes.
  pub record IsUndone (dml_sql : String) (c : Cluster S) (o : Outcome ℕ × Cluster S) : Type 0 where
    pub raised : S.database.execute dml_sql c.database ≡ none
    pub unchanged : o ≡ (failed, c)

  -- Where it does not, the write returns the next version of the table, every node is sent the event,
  -- and the server's other keys stay.
  pub record IsDone (f : String → ℕ) (table dml_sql : String) (c : Cluster S)
      (o : Outcome ℕ × Cluster S) : Type 0 where
    pub columns : Values
    pub rows : Values
    pub database : S.database.State
    pub ran : S.database.execute dml_sql c.database ≡ some (columns, rows, database)
    pub server : S.runtime.redis.State
    pub outcome : o ≡ (
      returned (f table + 1),
      record {
        nodes = map (receive S (record { table = table; version = f table + 1 })) c.nodes;
        server = server;
        database = database;
      },
    )
    pub counts : Counts S.runtime.redis (bumped S.runtime.redis table f) server
    pub others :
        (k : String)
        → k ≢ version_key table
        → S.runtime.redis.get k server ≡ S.runtime.redis.get k c.server

  -- Over a server as `IsRedis` describes it, where the counters are numbers: if the statement of a
  -- write raises, nothing changes; else the write returns the next version of its table, each node
  -- is sent the event with that version, the counter of the table alone goes up, and the other keys
  -- of the server stay.
  pub write_outcome :
      (ok : IsRedis S.runtime.redis) (f : String → ℕ) (table dml_sql : String) (c : Cluster S)
      → Counts S.runtime.redis f c.server
      → IsUndone dml_sql c (Engine.write S table dml_sql c)
        ⊎ IsDone f table dml_sql c (Engine.write S table dml_sql c)
  unfolding Engine.write
  write_outcome ok f table dml_sql c counts =
      elim (Option-cases (S.database.execute dml_sql c.database)) [
        | inl raised ↦ inl (record { raised = raised; unchanged = rw (raised, Engine.write) refl })
        | inr ((columns, rows, d'), ran) ↦
            let (s', bump, kept, others) = bump-Counts S.runtime.redis ok table f c.server counts in
            inr (record {
              columns = columns;
              rows = rows;
              database = d';
              ran = ran;
              server = s';
              outcome = rw (ran, Engine.write, bump) refl;
              counts = kept;
              others = others;
            })
      ]

  not_rejected :
      (i : ℕ) (n : Node S) (r : Clock S.runtime) (latency : S.runtime.float.Num) (sql : String)
      (c : Cluster S)
      → admits S.sqlglot sql ≡ true
      → (Engine.execute S i n r latency sql c).0 ≢ rejected
  unfolding Engine.execute
  not_rejected i n r latency sql c admitted =
      elim (Option-cases (Planner.execute S r latency sql (world S n c)).0) [
        | inl raised ↦ rw (admitted, raised) (λ h. cc)
        | inr (q, answered) ↦ rw (admitted, answered) (λ h. cc)
      ]

  -- A request is rejected exactly if its text does not parse, is not one statement, or is not a
  -- SELECT; then nothing is run and nothing changes.
  pub execute_guard :
      (i : ℕ) (n : Node S) (r : Clock S.runtime) (latency : S.runtime.float.Num) (sql : String)
      (c : Cluster S)
      → (Engine.execute S i n r latency sql c ≡ (rejected, c)) ↔ (¬ IsOneSelect S.sqlglot sql)
  unfolding Engine.execute
  execute_guard i n r latency sql c = (
    λ e one.
        not_rejected i n r latency sql c ((admits-iff_IsOneSelect S.sqlglot sql).1 one)
          (ap (λ (o : Outcome (QueryResult S.runtime.float.Num) × Cluster S). o.0) e),
    λ other. elim (Bool-cases (admits S.sqlglot sql)) [
      | inl admitted ↦ absurd (other ((admits-iff_IsOneSelect S.sqlglot sql).0 admitted))
      | inr refused ↦ rw refused refl
    ],
  )
