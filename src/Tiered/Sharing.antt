-- ===== src/Tiered/Sharing.antt =====
-- What one node puts in L2 and another node gets, before and after a bump of a version.
use cacheopt.Base.{
  ℕ, ◌+◌, ◌<◌, ◌≡◌, refl, sym, ◌∙◌, String, Bool, true, false, Option, none, some, List, [], ◌∷◌,
  arith, if◌then◌else◌, dec_str, if_pos, if_neg,
}
use cacheopt.Dict.{Dict, lookup}
use cacheopt.Memory
use cacheopt.Memory.{is_member, is_older}
use cacheopt.Redis.Keys.{result_key, version_key, result_key-ne-version_key}
use cacheopt.RedisCache
use cacheopt.RedisCache.{RedisCache, RedisEntry, read_blob, entry_of, seconds}
use cacheopt.Runtime.{Runtime, IsRuntime, Payload}
use cacheopt.Tiered
use cacheopt.Tiered.{
  Caches, Clock, CacheLookupResult, TierHit, l1, l2, miss, missed, put_l1, put_l2, get_l2, take_l2,
}
use cacheopt.Tiered.Lookups.{needs_discard-is_behind}
use cacheopt.Value.{Value}
use cacheopt.Value.Json.{to_json}
use cacheopt.Value.RoundTrip.{through_redis}
use cacheopt.Versions.{Event, bump_and_publish}
use cacheopt.Versions.Counters.{
  Counts, bumped, is_behind, current_versions-Counts, bump-Counts, member_head, member_tail,
}

same_server {ℓ} :
    {A : Type ℓ} (n m : ℕ) (e e' : Event) (s s' : A) (o : Option (ℕ × Event × A))
    → o ≡ some (n, e, s)
    → o ≡ some (m, e', s')
    → s ≡ s'
same_server n m e e' s s' o p q = cc

module _ (W : Runtime) where
  read_decoded :
      (blob : W.redis.Blob) (p : Payload W.float.Num)
      → W.decode blob ≡ some p
      → read_blob W (some blob) ≡ some (entry_of W p)
  unfolding read_blob
  read_decoded blob p h = ground arith

  level-is_behind :
      (f : String → ℕ) (captured : Dict ℕ) (ts : List String)
      → ((t : String) → is_member t ts ≡ true → lookup t captured ≡ some (f t))
      → is_behind W.redis f captured ts ≡ false
  unfolding is_older
  level-is_behind f captured [] h = refl
  level-is_behind f captured (t ∷ ts) h = ground (
    arith,
    h t (member_head t ts),
    level-is_behind f captured ts (λ u m. h u (member_tail u t ts m)),
  )

  old-is_behind :
      (f : String → ℕ) (captured : Dict ℕ) (t : String) (n : ℕ) (ts : List String)
      → lookup t captured ≡ some n
      → n < f t
      → is_member t ts ≡ true
      → is_behind W.redis f captured ts ≡ true
  unfolding is_older is_member
  old-is_behind f captured t n [] found lt m = cc
  old-is_behind f captured t n (u ∷ ts) found lt m = elim (dec_str t u) [
    | yes p ↦ rw (← p) (ground arith)
    | no p ↦
        let rest =
          old-is_behind f captured t n ts found lt
            (sym (if_neg (dec_str t u) p true (is_member t ts)) ∙ m) in
        ground arith
  ]

  -- The server holds `v` for `key`, with the versions that `f` gives the tables.
  record Holds (f : String → ℕ) (key : String) (v : Value) (tables : List String)
      (s : W.redis.State) : Type 0 where
    entry : RedisEntry W.float.Num
    there : read_blob W (W.redis.get (result_key key) s) ≡ some entry
    value : entry.value ≡ v
    versions : (t : String) → is_member t tables ≡ true → lookup t entry.table_versions ≡ some (f t)

  module _ (ok : IsRuntime W) (f : String → ℕ) (r : Clock W) (key : String) (v : Value)
      (tables : List String) (ttl : Option W.float.Num) where
    set_lem :
        (versions : Dict ℕ) (cache : RedisCache) (s : W.redis.State)
        → Counts W.redis f s
        → 0 < seconds W ttl cache
        → ((t : String) → lookup t versions ≡ (if is_member t tables then some (f t) else none))
        → (s' : W.redis.State) × (RedisCache.put W r.l2_created key v versions ttl cache s
            ≡ some s')
          × Counts W.redis f s'
          × Holds f key (through_redis W.utf8 v) tables s'
    unfolding RedisCache.put read_blob entry_of
    set_lem versions cache s counts lives read =
        let p : Payload W.float.Num = record {
          value = to_json W.utf8 v;
          table_versions = versions;
          created_at = r.l2_created;
        } in
        let (s', ran) =
          ok.is_redis.set_pos (result_key key) (W.encode p) (seconds W ttl cache) s lives in
        let get = λ (j : String). ok.is_redis.get-set j (result_key key) (W.encode p) _ s s' ran in
        (
          s',
          ran,
          λ t.
              rw
                (
                  get (version_key t),
                  if_neg (dec_str (version_key t) (result_key key))
                      (λ q. result_key-ne-version_key key t (sym q)),
                )
                (counts t),
          record {
            entry = entry_of W p;
            there =
                rw (get (result_key key), if_pos (dec_str (result_key key) (result_key key)) refl)
                  (read_decoded (W.encode p) p (ok.decode-encode p));
            value = refl;
            versions = λ t m. read t ∙ rw m refl;
          },
        )

    put_lem :
        (write_l1 : Bool) (c : Caches W)
        → Counts W.redis f c.server
        → 0 < seconds W ttl c.redis_cache
        → ((Tiered.put W r key v tables write_l1 true ttl c).0 ≡ some tt)
          × Counts W.redis f (Tiered.put W r key v tables write_l1 true ttl c).1.server
          × Holds f key
              (through_redis W.utf8 v)
              tables
              (Tiered.put W r key v tables write_l1 true ttl c).1.server
    unfolding Tiered.put put_l1 put_l2
    put_lem false c counts lives =
        let (versions, ran, read) = current_versions-Counts W.redis f c.server tables counts in
        let (s', stored, kept, held) = set_lem versions c.redis_cache c.server counts lives read in
        rw (ran, stored) (refl, kept, held)
    put_lem true c counts lives =
        let (versions, ran, read) = current_versions-Counts W.redis f c.server tables counts in
        let (s', stored, kept, held) = set_lem versions c.redis_cache c.server counts lives read in
        rw (ran, stored) (refl, kept, held)

  -- A lookup of a key that is not in L1, where L2 holds an entry.
  get_held :
      (f : String → ℕ) (r : Clock W) (key : String) (tables : List String) (b : Caches W)
      (e : RedisEntry W.float.Num)
      → Counts W.redis f b.server
      → lookup key b.memory.store ≡ none
      → read_blob W (W.redis.get (result_key key) b.server) ≡ some e
      → (c : Caches W) × (c.server ≡ b.server)
        × (Tiered.get W r key tables true true b
            ≡ take_l2 W r key true e (some (is_behind W.redis f e.table_versions tables)) c)
  unfolding Tiered.get Memory.get RedisCache.get
  get_held f r key tables b e counts absent there = (
    record {
      memory = record b.memory { misses = b.memory.misses + 1 };
      redis_cache = record b.redis_cache { hits = b.redis_cache.hits + 1 };
      server = b.server;
    },
    refl,
    rw (absent, there, needs_discard-is_behind W f tables e.table_versions b.server counts) refl,
  )

  module _ (ok : IsRuntime W) (f : String → ℕ) (r r' : Clock W) (key : String) (v : Value)
      (tables : List String) (write_l1 : Bool) (ttl : Option W.float.Num) (c : Caches W) where
    abbrev pub stored : Option (Unit {0}) × Caches W
    stored = Tiered.put W r key v tables write_l1 true ttl c

    -- Over a server and an encoding as `IsRuntime` describes them, where the counters are numbers
    -- and the time to live is at least a second: a value that `put` writes to L2 is a hit in L2 at
    -- any node that has no entry for the key in L1, as Redis gives it back.
    pub get-put :
        (b : Caches W)
        → Counts W.redis f c.server
        → 0 < seconds W ttl c.redis_cache
        → b.server ≡ stored.1.server
        → lookup key b.memory.store ≡ none
        → (stored.0 ≡ some tt)
          × ((Tiered.get W r' key tables true true b).0
              ≡ some (record { hit = l2; value = some (through_redis W.utf8 v) }))
    unfolding take_l2
    get-put b counts lives same absent =
        let (done, kept, held) = put_lem ok f r key v tables ttl write_l1 c counts lives in
        let level = level-is_behind f held.entry.table_versions tables (λ t m. held.versions t m) in
        let (c', _, got) =
          get_held f r' key tables b held.entry (rw same kept) absent (rw same held.there) in
        (done, rw (got, level, held.value) refl)

    -- Over a server and an encoding as `IsRuntime` describes them, where the counters are numbers
    -- and the time to live is at least a second: once the version of one of the tables has been
    -- bumped after `put`, the value is no hit any more at a node that has no entry for the key in
    -- L1: the lookup is a miss, and the entry is gone from the server.
    pub get-put-bump :
        (b : Caches W) (table : String) (version : ℕ) (e : Event)
        → Counts W.redis f c.server
        → 0 < seconds W ttl c.redis_cache
        → bump_and_publish W.redis table stored.1.server ≡ some (version, e, b.server)
        → is_member table tables ≡ true
        → lookup key b.memory.store ≡ none
        → ((Tiered.get W r' key tables true true b).0 ≡ some missed)
          × (W.redis.get (result_key key) (Tiered.get W r' key tables true true b).1.server ≡ none)
    unfolding take_l2 RedisCache.invalidate
    get-put-bump b table version e counts lives bumped_once named absent =
        let (done, kept, held) = put_lem ok f r key v tables ttl write_l1 c counts lives in
        let (s', ran, kept', others) =
          bump-Counts W.redis ok.is_redis table f stored.1.server kept in
        let same : b.server ≡ s' = same_server _ _ _ _ _ _ _ bumped_once ran in
        let g = bumped W.redis table f in
        let there : read_blob W (W.redis.get (result_key key) b.server) ≡ some held.entry =
          rw (same, others (result_key key) (result_key-ne-version_key key table)) held.there in
        let behind =
          old-is_behind g held.entry.table_versions table (f table) tables
            (held.versions table named) (rw (if_pos (dec_str table table) refl) (omega arith))
            named in
        let (c', l2_server, got) =
          get_held g r' key tables b held.entry (rw same kept') absent there in
        rw (got, behind)
          (
            refl,
            rw (ok.is_redis.get-delete, if_pos (dec_str (result_key key) (result_key key)) refl)
                refl,
          )

    -- `put` returns, unless the time to live of what goes to L2 is below a second.
    pub put-returns :
        (write_l2 : Bool)
        → Counts W.redis f c.server
        → (write_l2 ≡ true → 0 < seconds W ttl c.redis_cache)
        → (Tiered.put W r key v tables write_l1 write_l2 ttl c).0 ≡ some tt
    unfolding Tiered.put put_l2
    put-returns false counts lives =
        let (versions, ran, read) = current_versions-Counts W.redis f c.server tables counts in
        rw ran refl
    put-returns true counts lives =
        (put_lem ok f r key v tables ttl write_l1 c counts (lives refl)).0
