-- ===== src/Engine/Coherence.antt =====
-- Cache coherence of a cluster: what holds of every entry of every tier, between the steps.
use cacheopt.Base.{
  ℕ, ◌≤◌, ◌≡◌, ◌⊎◌, String, Bool, true, false, Option, none, some, List, [], ◌∷◌, ◌&&◌, any,
  get_elem?,
}
use cacheopt.Dict.{Dict, lookup}
use cacheopt.Engine.{Cluster, Node, admits}
use cacheopt.Memory.{is_member, is_older}
use cacheopt.Planner.{unpack, Setting, effective, effective_fp}
use cacheopt.Runtime.{IsRuntime}
use cacheopt.Tiered.Lookups.{Claim, InMemory}
use cacheopt.Tiered.Server.{OnServer}
use cacheopt.Value.{Value, Values, tuple, list, pair}
use cacheopt.Value.RoundTrip.{through_redis}
use cacheopt.Versions.{Event}

-- An event tells of a version of the table `t` that is newer than the captured one.
unfoldable pub has_news : String → Dict ℕ → List Event → Bool
has_news t captured inbox =
    any (λ e. is_member t (e.table ∷ []) && is_older (lookup t captured) e.version) inbox

-- An event is about one of the tables.
unfoldable pub has_event_for : List String → List Event → Bool
has_event_for tables inbox = any (λ e. is_member e.table tables) inbox

-- A value that `columns, rows = value` takes apart.
abbrev pub Unpacks : Value → Type 0
Unpacks v = (columns : Value) × (rows : Value) × (unpack v ≡ some (columns, rows))

module _ (S : Setting) where
  abbrev pub key_of : String → String
  key_of sql = (effective_fp S sql).cache_key

  abbrev pub tables_of : String → List String
  tables_of sql = (effective_fp S sql).tables

  abbrev pub drop_state : Option (Values × Values × S.database.State) → Option (Values × Values)
  drop_state none = none
  drop_state (some (columns, rows, d)) = some (columns, rows)

  -- The columns and rows that the database gives for the rewritten query.
  unfoldable pub read : String → S.database.State → Option (Values × Values)
  read sql d = drop_state (S.database.execute (effective S sql).sql d)

  -- What the program relies on. Equal keys are those of one query up to its spelling (SHA-256 has no
  -- collision here, and the normal form of a query keeps its meaning and its tables). A SELECT
  -- changes nothing.
  pub record IsSetting : Type 0 where
    pub is_runtime : IsRuntime S.runtime
    pub key_tables :
        (p q : String)
        → admits S.sqlglot p ≡ true
        → admits S.sqlglot q ≡ true
        → key_of p ≡ key_of q
        → tables_of p ≡ tables_of q
    pub key_read :
        (p q : String) (d : S.database.State)
        → admits S.sqlglot p ≡ true
        → admits S.sqlglot q ≡ true
        → key_of p ≡ key_of q
        → read p d ≡ read q d
    pub select_pure :
        (q : String) (columns rows : Values) (d d' : S.database.State)
        → admits S.sqlglot q ≡ true
        → S.database.execute (effective S q).sql d ≡ some (columns, rows, d')
        → d' ≡ d

  -- The value is the present answer of the database, as it went through Redis.
  pub record IsRestored (sql : String) (d : S.database.State) (v : Value) : Type 0 where
    pub columns : Values
    pub rows : Values
    pub is_read : read sql d ≡ some (columns, rows)
    pub is_value : v ≡ through_redis S.runtime.utf8 (pair (tuple columns) (list rows))

  -- The value is the present answer, or what Redis makes of it.
  pub record IsCurrent (sql : String) (d : S.database.State) (v : Value) : Type 0 where
    pub columns : Values
    pub rows : Values
    pub is_read : read sql d ≡ some (columns, rows)
    pub is_value :
        (v ≡ pair (tuple columns) (list rows))
        ⊎ (v ≡ through_redis S.runtime.utf8 (pair (tuple columns) (list rows)))

  module _ (f : String → ℕ) (d : S.database.State) where
    -- An entry names a version of each table, and none is ahead of its counter.
    abbrev pub Covers : Dict ℕ → List String → Type 0
    Covers captured tables =
        (t : String)
        → is_member t tables ≡ true
        → (n : ℕ) × (lookup t captured ≡ some n) × (n ≤ f t)

    abbrev pub NotBehind : Dict ℕ → List String → Type 0
    NotBehind captured tables =
        (t : String) → is_member t tables ≡ true → is_older (lookup t captured) (f t) ≡ false

    -- An entry of L2, for every query that has its key.
    pub record SoundL2 (captured : Dict ℕ) (v : Value) (sql : String) : Type 0 where
      pub unpacks : Unpacks v
      pub covers : Covers captured (tables_of sql)
      pub current : NotBehind captured (tables_of sql) → IsRestored sql d v

    -- An entry of L1: for each table whose counter has passed it, an event waits.
    pub record SoundL1 (inbox : List Event) (captured : Dict ℕ) (v : Value) (sql : String)
        : Type 0 where
      pub unpacks : Unpacks v
      pub covers : Covers captured (tables_of sql)
      pub warned :
          (t : String)
          → is_member t (tables_of sql) ≡ true
          → is_older (lookup t captured) (f t) ≡ true
          → has_news t captured inbox ≡ true
      pub current : NotBehind captured (tables_of sql) → IsCurrent sql d v

    abbrev pub L2Claim : Claim
    L2Claim key captured v =
        (sql : String) → admits S.sqlglot sql ≡ true → key_of sql ≡ key → SoundL2 captured v sql

    abbrev pub L1Claim : List Event → Claim
    L1Claim inbox key captured v =
        (sql : String)
        → admits S.sqlglot sql ≡ true
        → key_of sql ≡ key
        → SoundL1 inbox captured v sql

  -- A coherent cluster, with the counters of its tables.
  pub record IsCoherent (c : Cluster S) : Type 0 where
    pub counters : String → ℕ
    pub server : OnServer S.runtime (L2Claim counters c.database) counters c.server
    pub nodes :
        (i : ℕ) (n : Node S)
        → get_elem? c.nodes i ≡ some n
        → InMemory S.runtime (L1Claim counters c.database n.inbox) n.memory
