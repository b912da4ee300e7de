-- ===== src/Engine/Requests.antt =====
-- A request on a node of a coherent cluster: what it keeps, and what it returns.
use cacheopt.Base.{
  ℕ, ◌≡◌, ◌≢◌, refl, sym, ◌∙◌, subst, ◌⊎◌, inl, inr, String, true, false, Option, none, some,
  get_elem?, Bool-cases,
}
use mathlib.Core.Bool.{false≢true}
use cacheopt.Dict.{lookup}
use cacheopt.Engine
use cacheopt.Engine.{Cluster, Node, Outcome, returned, rejected, failed, admits, world, leave}
use cacheopt.Engine.Coherence.{
  IsSetting, IsCoherent, IsCurrent, L1Claim, L2Claim, tables_of, has_event_for,
}
use cacheopt.Engine.Serving.{
  get_elem?-set, coherent-MayStore, no_news, read-run, NotBehind-of_is_behind,
}
use cacheopt.Memory.{is_older}
use cacheopt.Planner
use cacheopt.Planner.{Setting, World, QueryResult, unpack}
use cacheopt.Planner.Requests.{Served, Source, from_l1, from_l2, from_database, execute-Served}
use cacheopt.Tiered.{Clock, l1}
use cacheopt.Tiered.Lookups.{InMemory, InCaches}
use cacheopt.Tiered.Server.{OnServer}
use cacheopt.Value.{Value, pair, tuple, list}

module _ {N : Type 0} where
  returned_of :
      (q : QueryResult N) (o : Option (QueryResult N))
      → (elim o [ none ↦ failed | some q ↦ returned q ]) ≡ returned q
      → o ≡ some q
  returned_of q none h = cc
  returned_of q (some q') h = cc

  rejected-ne-returned :
      (q : QueryResult N) → ◌≢◌ {A = Outcome (QueryResult N)} rejected (returned q)
  rejected-ne-returned q h = cc

module _ (S : Setting) (ok : IsSetting S) (i : ℕ) (n : Node S) (r : Clock S.runtime)
    (latency : S.runtime.float.Num) (sql : String) (c : Cluster S)
    (there : get_elem? c.nodes i ≡ some n) (h : IsCoherent S c) where
  served :
      admits S.sqlglot sql ≡ true
      → Served S
          (L1Claim S h.counters c.database n.inbox)
          (L2Claim S h.counters c.database)
          h.counters
          sql
          c.database
          (Planner.execute S r latency sql (world S n c))
  served admitted =
      execute-Served S _ _ h.counters sql c.database ok.is_runtime
        (coherent-MayStore S ok h.counters c.database n.inbox sql admitted) r latency (world S n c)
        (record { memory = h.nodes i n there; server = h.server }) refl

  pub leave-IsCoherent :
      (w : World S)
      → InCaches S.runtime
          (L1Claim S h.counters c.database n.inbox)
          (L2Claim S h.counters c.database)
          h.counters
          w.caches
      → w.database ≡ c.database
      → IsCoherent S (leave S i n c w)
  leave-IsCoherent w kept same = record {
    counters = h.counters;
    server =
        subst
          (λ (d : S.database.State).
            OnServer S.runtime (L2Claim S h.counters d) h.counters w.caches.server)
          (sym same) kept.server;
    nodes = λ j m at.
        subst
          (λ (d : S.database.State). InMemory S.runtime (L1Claim S h.counters d m.inbox) m.memory)
          (sym same)
          (elim (get_elem?-set c.nodes i j _ m at) [
            | inl (p, q) ↦
                subst
                  (λ (x : Node S).
                    InMemory S.runtime (L1Claim S h.counters c.database x.inbox) x.memory)
                  (sym q) kept.memory
            | inr old ↦ h.nodes j m old
          ]);
  }

  -- Under what `IsSetting` says, a request leaves a coherent cluster coherent, whatever it returns or
  -- raises.
  pub execute-IsCoherent : IsCoherent S (Engine.execute S i n r latency sql c).1
  unfolding Engine.execute
  execute-IsCoherent = elim (Bool-cases (admits S.sqlglot sql)) [
    | inl admitted ↦
        let s = served admitted in rw admitted (leave-IsCoherent _ s.kept s.same_database)
    | inr refused ↦ rw refused h
  ]

  pub Source-IsCurrent :
      (q : QueryResult S.runtime.float.Num)
      → admits S.sqlglot sql ≡ true
      → Source S
          (L1Claim S h.counters c.database n.inbox)
          (L2Claim S h.counters c.database)
          h.counters
          sql
          c.database
          q
      → (q.tier_hit ≢ l1) ⊎ (has_event_for (tables_of S sql) n.inbox ≡ false)
      → (v : Value) × (unpack v ≡ some (q.columns, q.rows)) × IsCurrent S sql c.database v
  unfolding unpack
  Source-IsCurrent q admitted (from_l1 captured v tier parts p) quiet =
      let sound = p sql admitted refl in
      let silent : has_event_for (tables_of S sql) n.inbox ≡ false = elim quiet [
        | inl other ↦ absurd (other tier)
        | inr silent ↦ silent
      ] in
      (
        v,
        parts,
        sound.current (λ t m. elim (Bool-cases (is_older (lookup t captured) (h.counters t))) [
          | inl old ↦ absurd (
              false≢true (
                sym
                  (no_news S ok h.counters c.database (tables_of S sql) t captured n.inbox silent m)
                ∙ sound.warned t m old))
          | inr level ↦ level
        ]),
      )
  Source-IsCurrent q admitted (from_l2 captured v tier parts p level) quiet =
      let restored =
        (p sql admitted refl).current
          (NotBehind-of_is_behind S ok h.counters c.database captured (tables_of S sql) level) in
      (
        v,
        parts,
        record {
          columns = restored.columns;
          rows = restored.rows;
          is_read = restored.is_read;
          is_value = inr restored.is_value;
        },
      )
  Source-IsCurrent q admitted (from_database columns rows d' tier ran cs rs) quiet = (
    pair (tuple columns) (list rows),
    rw (cs, rs) refl,
    record {
      columns = columns;
      rows = rows;
      is_read = read-run S ok h.counters c.database sql columns rows d' ran;
      is_value = inl refl;
    },
  )

  -- In a coherent cluster, and under what `IsSetting` says, the result of a request is the present answer of the database to the
  -- rewritten query, as the database gives it or as JSON keeps it. A result from L2 or the database
  -- always is; a result from L1 is if no event for a table of the query waits at the node.
  pub execute-IsCurrent :
      (q : QueryResult S.runtime.float.Num)
      → (Engine.execute S i n r latency sql c).0 ≡ returned q
      → (q.tier_hit ≢ l1) ⊎ (has_event_for (tables_of S sql) n.inbox ≡ false)
      → (v : Value) × (unpack v ≡ some (q.columns, q.rows)) × IsCurrent S sql c.database v
  unfolding Engine.execute
  execute-IsCurrent q e quiet = elim (Bool-cases (admits S.sqlglot sql)) [
    | inl admitted ↦
        let s = served admitted in
        let answered = returned_of q _ (rw admitted at e) in
        Source-IsCurrent q admitted (s.source q answered) quiet
    | inr refused ↦ absurd (rejected-ne-returned q (rw refused at e))
  ]
