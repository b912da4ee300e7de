-- ===== src/Engine/Writes.antt =====
-- A write in a coherent cluster: the bump and the events.
use cacheopt.Base.{
  ℕ, zero, suc, ◌+◌, ◌≤◌, ◌≡◌, ◌≢◌, refl, ◌∙◌, ap, subst, inl, inr, String, true, false, Option,
  none, some, List, [], ◌∷◌, ◌++◌, map, ◌&&◌, ◌||◌, arith, get_elem?, Bool-cases, Option-cases,
  dec_str, if_pos, if_neg,
}
use cacheopt.Dict.{Dict, lookup}
use cacheopt.Engine
use cacheopt.Engine.{Cluster, Node, admits, receive}
use cacheopt.Engine.Coherence.{
  IsCoherent, SoundL1, SoundL2, L1Claim, NotBehind, Covers, tables_of, read, has_news,
}
use cacheopt.Memory.{is_member, is_older}
use cacheopt.Planner.{Setting}
use cacheopt.Redis.Keys.{result_key, result_key-ne-version_key}
use cacheopt.Runtime.{IsRuntime}
use cacheopt.Tiered.Lookups.{InMemory}
use cacheopt.Value.{Value, Values}
use cacheopt.Versions.{Event}
use cacheopt.Versions.Counters.{bumped, bump-Counts}

module _ {A B : Type 0} where
  pub get_elem?-map :
      (g : A → B) (xs : List A) (i : ℕ) (y : B)
      → get_elem? (map g xs) i ≡ some y
      → (x : A) × (get_elem? xs i ≡ some x) × (g x ≡ y)
  get_elem?-map g [] i y h = cc
  get_elem?-map g (x ∷ xs) zero y h = (x, refl, cc)
  get_elem?-map g (x ∷ xs) (suc i) y h = get_elem?-map g xs i y h

has_news-append :
    (t : String) (captured : Dict ℕ) (inbox : List Event) (e : Event)
    → has_news t captured (inbox ++ e ∷ []) ≡ (
        has_news t captured inbox
        || is_member t (e.table ∷ []) && is_older (lookup t captured) e.version)
unfolding has_news
has_news-append t captured [] e = ground arith
has_news-append t captured (e' ∷ inbox) e = ground (arith, has_news-append t captured inbox e)

is_older_mono : (o : Option ℕ) (a b : ℕ) → a ≤ b → is_older o b ≡ false → is_older o a ≡ false
unfolding is_older
is_older_mono none a b le h = cc
is_older_mono (some n) a b le h = ground arith

module _ (S : Setting) where
  -- A statement changes the answer of no query that does not name the table.
  abbrev pub WritesOnly : String → S.database.State → S.database.State → Type 0
  WritesOnly table d d' =
      (q : String)
      → admits S.sqlglot q ≡ true
      → is_member table (tables_of S q) ≡ false
      → read S q d' ≡ read S q d

  module _ (table : String) (f : String → ℕ) where
    abbrev g : String → ℕ
    g = bumped S.runtime.redis table f

    bumped_self : g table ≡ f table + 1
    bumped_self = if_pos (dec_str table table) refl (f table + 1) (f table)

    bumped_other : (t : String) → t ≢ table → g t ≡ f t
    bumped_other t p = if_neg (dec_str t table) p (f t + 1) (f t)

    bumped-le : (t : String) → f t ≤ g t
    bumped-le t = ground (arith, dec_str t table)

    module _ (d d' : S.database.State) (only : WritesOnly table d d') where
      Covers-bumped :
          (captured : Dict ℕ) (tables : List String)
          → Covers S f d captured tables
          → Covers S g d' captured tables
      Covers-bumped captured tables h t m =
          let (n, found, le) = h t m in (n, found, omega (arith, bumped-le t))

      -- An entry that the write leaves in step does not name the table, and was in step before.
      level_before :
          (captured : Dict ℕ) (tables : List String)
          → Covers S f d captured tables
          → NotBehind S g d' captured tables
          → (is_member table tables ≡ false) × NotBehind S f d captured tables
      unfolding is_older
      level_before captured tables h level = (
        elim (Bool-cases (is_member table tables)) [
          | inl m ↦
              let (n, found, le) = h table m in
              let l : is_older (some n) (f table + 1) ≡ false =
                rw (found, bumped_self) at (level table m) in
              absurd (ground arith)
          | inr other ↦ other
        ],
        λ t m. is_older_mono (lookup t captured) (f t) (g t) (bumped-le t) (level t m),
      )

      sound_l2 :
          (captured : Dict ℕ) (v : Value) (q : String)
          → admits S.sqlglot q ≡ true
          → SoundL2 S f d captured v q
          → SoundL2 S g d' captured v q
      sound_l2 captured v q admitted s = record {
        unpacks = s.unpacks;
        covers = Covers-bumped captured (tables_of S q) s.covers;
        current = λ level.
            let (other, before) = level_before captured (tables_of S q) s.covers level in
            let r = s.current before in
            record {
              columns = r.columns;
              rows = r.rows;
              is_read = only q admitted other ∙ r.is_read;
              is_value = r.is_value;
            };
      }

      sound_l1 :
          (inbox : List Event) (captured : Dict ℕ) (v : Value) (q : String)
          → admits S.sqlglot q ≡ true
          → SoundL1 S f d inbox captured v q
          → SoundL1 S g d'
              (inbox ++ record { table = table; version = f table + 1 } ∷ [])
              captured
              v
              q
      unfolding is_older is_member
      sound_l1 inbox captured v q admitted s = record {
        unpacks = s.unpacks;
        covers = Covers-bumped captured (tables_of S q) s.covers;
        warned = λ t m old.
            let (n, found, le) = s.covers t m in
            rw has_news-append (elim (dec_str t table) [
              | yes p ↦ rw found (ground (arith, ap f p))
              | no p ↦ let news = s.warned t m (rw (bumped_other t p) at old) in ground arith
            ]);
        current = λ level.
            let (other, before) = level_before captured (tables_of S q) s.covers level in
            let r = s.current before in
            record {
              columns = r.columns;
              rows = r.rows;
              is_read = only q admitted other ∙ r.is_read;
              is_value = r.is_value;
            };
      }

  -- Over a server as `IsRuntime` describes it, a write, whether it returns or raises, keeps the
  -- cluster coherent, if its statement changes the answers of no query that does not name its
  -- table.
  pub write-IsCoherent :
      (ok : IsRuntime S.runtime) (table dml_sql : String) (c : Cluster S)
      → ((columns rows : Values) (d' : S.database.State)
          → S.database.execute dml_sql c.database ≡ some (columns, rows, d')
          → WritesOnly table c.database d')
      → IsCoherent S c
      → IsCoherent S (Engine.write S table dml_sql c).1
  unfolding Engine.write
  write-IsCoherent ok table dml_sql c only h =
      elim (Option-cases (S.database.execute dml_sql c.database)) [
        | inl raised ↦ rw (raised, Engine.write) h
        | inr ((columns, rows, d'), ran) ↦
            let f = h.counters in
            let (s', bump, counts, others) =
              bump-Counts S.runtime.redis ok.is_redis table f c.server h.server.counts in
            rw (ran, Engine.write, bump)
              (record {
                counters = bumped S.runtime.redis table f;
                server = record {
                  counts = counts;
                  entries = λ k e found q admitted same.
                      sound_l2 table f c.database d' (only columns rows d' ran) e.table_versions
                        e.value q admitted
                        (h.server.entries k e
                          (rw (others (result_key k) (result_key-ne-version_key k table)) at found)
                          q admitted same);
                };
                nodes = λ i n at.
                    let (n₀, at₀, received) = get_elem?-map (receive S _) c.nodes i n at in
                    let m = h.nodes i n₀ at₀ in
                    subst
                      (λ (x : Node S).
                        InMemory S.runtime (L1Claim S (bumped S.runtime.redis table f) d' x.inbox)
                          x.memory)
                      received
                      (record {
                        valid = m.valid;
                        entries = λ k e found q admitted same.
                            sound_l1 table f c.database d' (only columns rows d' ran) n₀.inbox
                              e.table_versions e.value q admitted
                              (m.entries k e found q admitted same);
                      });
              })
      ]
