-- ===== src/Engine/Events.antt =====
-- A node's thread handles an event, and Redis drops keys whose time is over, in a coherent cluster.
use cacheopt.Base.{
  ℕ, ◌≡◌, refl, sym, subst, ◌⊎◌, inl, inr, String, Bool, false, Option, none, some, List, [], ◌∷◌,
  ◌&&◌, arith, any, get_elem?, dec_str, if_neg,
}
use cacheopt.Dict.{Dict, lookup, insert, keys}
use cacheopt.Engine.{Cluster, Node, set, handle_event}
use cacheopt.Engine.Coherence.{IsCoherent, SoundL1, L1Claim, has_news}
use cacheopt.Engine.Serving.{get_elem?-set}
use cacheopt.Memory.{is_member, is_older, is_stale_entry}
use cacheopt.Memory.Entries.{invalidate_tables-Every}
use cacheopt.Memory.Invariant.{invalidate_tables-IsValid}
use cacheopt.Planner.{Setting}
use cacheopt.Redis.Keys.{result_key, version_key}
use cacheopt.RedisCache.{RedisEntry, read_blob}
use cacheopt.Runtime.{Runtime}
use cacheopt.Tiered.Lookups.{InMemory}
use cacheopt.Value.{Value}
use cacheopt.Versions.{Event}

pub List-cases : (l : List Event) → (l ≡ []) ⊎ ((e : Event) × (rest : List Event) × (l ≡ e ∷ rest))
List-cases [] = inl refl
List-cases (e ∷ rest) = inr (e, rest, refl)

any-keys :
    (p : String → Bool) (captured : Dict ℕ) (t : String) (n : ℕ)
    → lookup t captured ≡ some n
    → any p (keys captured) ≡ false
    → p t ≡ false
unfolding lookup
any-keys p [] t n found h = cc
any-keys p ((u, v) ∷ d) t n found h = elim (dec_str t u) [
  | yes same ↦ rw same (ground arith)
  | no other ↦ any-keys p d t n (rw (if_neg (dec_str t u) other) at found) (ground arith)
]

-- An entry that an event leaves in the buffer has no news from the event.
survivor_no_news :
    (t : String) (n : ℕ) (captured : Dict ℕ) (e : Event)
    → lookup t captured ≡ some n
    → is_stale_entry (e.table ∷ []) (insert e.table e.version []) captured ≡ false
    → (is_member t (e.table ∷ []) && is_older (lookup t captured) e.version) ≡ false
unfolding is_stale_entry is_member insert lookup
survivor_no_news t n captured e found fresh =
    let quiet = any-keys _ captured t n found fresh in ground arith

module _ (W : Runtime) where
  pub no_blob :
      (o : Option W.redis.Blob) (e : RedisEntry W.float.Num) → o ≡ none → read_blob W o ≡ some e → ⊥
  unfolding read_blob
  no_blob none e h found = cc
  no_blob (some b) e h found = cc

module _ (S : Setting) where
  handled_l1 :
      (f : String → ℕ) (d : S.database.State) (e : Event) (rest : List Event) (captured : Dict ℕ)
      (v : Value) (q : String)
      → is_stale_entry (e.table ∷ []) (insert e.table e.version []) captured ≡ false
      → SoundL1 S f d (e ∷ rest) captured v q
      → SoundL1 S f d rest captured v q
  unfolding has_news
  handled_l1 f d e rest captured v q fresh s = record {
    unpacks = s.unpacks;
    covers = s.covers;
    warned = λ t m old.
        let (n, found, le) = s.covers t m in
        let news = s.warned t m old in
        let quiet = survivor_no_news t n captured e found fresh in ground arith;
    current = s.current;
  }

  pub handled-InMemory :
      (f : String → ℕ) (d : S.database.State) (n : Node S)
      → InMemory S.runtime (L1Claim S f d n.inbox) n.memory
      → InMemory S.runtime (L1Claim S f d (handle_event S n).inbox) (handle_event S n).memory
  unfolding handle_event
  handled-InMemory f d n h = elim (List-cases n.inbox) [
    | inl quiet ↦ rw (quiet, handle_event) h
    | inr (e, rest, waits) ↦
        rw (waits, handle_event)
          (record {
            valid = invalidate_tables-IsValid _ _ n.memory h.valid;
            entries = λ k x found q admitted same.
                let (sound, fresh) =
                  invalidate_tables-Every (λ k y. L1Claim S f d n.inbox k y.table_versions y.value)
                    (e.table ∷ []) (insert e.table e.version []) n.memory h.valid h.entries k x
                    found in
                handled_l1 f d e rest x.table_versions x.value q fresh
                  (rw waits at (sound q admitted same));
          })
  ]

  -- A node whose entries are sound may take a place in a coherent cluster.
  pub set-IsCoherent :
      (i : ℕ) (n : Node S) (c : Cluster S) (h : IsCoherent S c)
      → InMemory S.runtime (L1Claim S h.counters c.database n.inbox) n.memory
      → IsCoherent S (record c { nodes = set c.nodes i n })
  set-IsCoherent i n c h sound = record {
    counters = h.counters;
    server = h.server;
    nodes = λ j m at. elim (get_elem?-set c.nodes i j _ m at) [
      | inl (p, q) ↦
          subst
            (λ (x : Node S). InMemory S.runtime (L1Claim S h.counters c.database x.inbox) x.memory)
            (sym q) sound
      | inr old ↦ h.nodes j m old
    ];
  }

  -- The thread of a node handles its oldest event, if there is one: the cluster stays coherent.
  pub handle_event-IsCoherent :
      (i : ℕ) (n : Node S) (c : Cluster S)
      → get_elem? c.nodes i ≡ some n
      → IsCoherent S c
      → IsCoherent S (record c { nodes = set c.nodes i (handle_event S n) })
  handle_event-IsCoherent i n c there h =
      set-IsCoherent i (handle_event S n) c h
        (handled-InMemory h.counters c.database n (h.nodes i n there))

  -- Redis has dropped result keys, and no version key.
  pub record HasLapsed (s s' : S.runtime.redis.State) : Type 0 where
    pub results :
        (k : String)
        → (S.runtime.redis.get (result_key k) s' ≡ none)
          ⊎ (S.runtime.redis.get (result_key k) s' ≡ S.runtime.redis.get (result_key k) s)
    pub versions :
        (t : String)
        → S.runtime.redis.get (version_key t) s' ≡ S.runtime.redis.get (version_key t) s

  -- Where Redis drops result keys, the cluster stays coherent.
  pub lapse-IsCoherent :
      (c : Cluster S) (s' : S.runtime.redis.State)
      → HasLapsed c.server s'
      → IsCoherent S c
      → IsCoherent S (record c { server = s' })
  lapse-IsCoherent c s' lapsed h = record {
    counters = h.counters;
    server = record {
      entries = λ k e found. elim (lapsed.results k) [
        | inl gone ↦ absurd (no_blob S.runtime _ e gone found)
        | inr same ↦ h.server.entries k e (rw same at found)
      ];
      counts = λ t. rw (lapsed.versions t) (h.server.counts t);
    };
    nodes = h.nodes;
  }
