-- ===== src/Tiered/Lookups.antt =====
-- What `TieredCache.get` and `put` return and keep, of any properties of the entries.
use cacheopt.Base.{
  ℕ, ◌≡◌, refl, inl, inr, String, Bool, true, false, Option, none, some, List, [], ◌∷◌,
  Option-cases, if◌then◌else◌,
}
use cacheopt.Dict.{Dict, lookup}
use cacheopt.Memory
use cacheopt.Memory.{MemoryBuffer, CacheEntry, is_member, new_entry}
use cacheopt.Memory.Entries.{Every, get-Every, get_found, store_entry-Every}
use cacheopt.Memory.Invariant.{IsValid, get-IsValid, put-IsValid}
use cacheopt.RedisCache
use cacheopt.RedisCache.{RedisCache, RedisEntry, read_blob}
use cacheopt.Redis.Keys.{result_key}
use cacheopt.Runtime.{Runtime, IsRuntime}
use cacheopt.Tiered
use cacheopt.Tiered.{
  Caches, Clock, CacheLookupResult, TierHit, l1, l2, miss, missed, look_l1, needs_discard, take_l2,
  get_l2, put_l1, put_l2,
}
use cacheopt.Tiered.Server.{OnServer, delete-OnServer, put-OnServer}
use cacheopt.Value.{Value}
use cacheopt.Value.RoundTrip.{through_redis}
use cacheopt.Versions.Counters.{is_behind, is_stale-is_behind, current_versions-Counts, Counts}

abbrev pub Claim : Type 1
Claim = String → Dict ℕ → Value → Type 0

module _ (W : Runtime) where
  -- `P` holds of the key, the captured versions and the value of each entry of a valid buffer.
  pub record InMemory (P : Claim) (b : MemoryBuffer W.float.Num) : Type 0 where
    pub valid : IsValid b
    pub entries : Every (λ k e. P k e.table_versions e.value) b

  pub record InCaches (P₁ P₂ : Claim) (f : String → ℕ) (c : Caches W) : Type 0 where
    pub memory : InMemory P₁ c.memory
    pub server : OnServer W P₂ f c.server

  pub needs_discard-is_behind :
      (f : String → ℕ) (tables : List String) (captured : Dict ℕ) (s : W.redis.State)
      → Counts W.redis f s
      → needs_discard W captured tables s ≡ some (is_behind W.redis f captured tables)
  unfolding needs_discard
  needs_discard-is_behind f [] captured s h = refl
  needs_discard-is_behind f (t ∷ ts) captured s h =
      is_stale-is_behind W.redis f s captured (t ∷ ts) h

  pub put-InMemory :
      (P : Claim) (now created : W.float.Num) (key : String) (v : Value) (captured : Dict ℕ)
      (ttl : Option W.float.Num) (b : MemoryBuffer W.float.Num)
      → InMemory P b
      → P key captured v
      → InMemory P (Memory.put W.float W.getsizeof now created key v captured ttl b)
  unfolding Memory.put new_entry
  put-InMemory P now created key v captured ttl b h new = record {
    valid = put-IsValid W.float W.getsizeof now created key v captured ttl b h.valid;
    entries =
        store_entry-Every (λ k e. P k e.table_versions e.value) key
          (new_entry W.float W.getsizeof now created v captured ttl) b h.valid h.entries new;
  }

  module _ (P₁ P₂ : Claim) (f : String → ℕ) (key : String) (tables : List String) where
    -- The results of a lookup of `key` for a query over `tables`.
    pub data Found (r : CacheLookupResult) : Type 0 where
      in_l1 :
          (captured : Dict ℕ) (v : Value)
          → r ≡ record { hit = l1; value = some v }
          → P₁ key captured v
          → Found r
      in_l2 :
          (captured : Dict ℕ) (v : Value)
          → r ≡ record { hit = l2; value = some v }
          → P₂ key captured v
          → is_behind W.redis f captured tables ≡ false
          → Found r
      nowhere : r ≡ missed → Found r

    -- A call of `get` returns, finds only what is there and current, and keeps all that held.
    pub record Looked (o : Option CacheLookupResult × Caches W) : Type 0 where
      pub result : CacheLookupResult
      pub returns : o.0 ≡ some result
      pub found : Found result
      pub kept : InCaches P₁ P₂ f o.1

    module _ (ok : IsRuntime W) where
      take_l2-Looked :
          (r : Clock W) (check_l1 stale : Bool) (e : RedisEntry W.float.Num) (c : Caches W)
          → InCaches P₁ P₂ f c
          → P₂ key e.table_versions e.value
          → is_behind W.redis f e.table_versions tables ≡ stale
          → ((captured : Dict ℕ) (v : Value)
              → P₂ key captured v
              → is_behind W.redis f captured tables ≡ false
              → P₁ key captured v)
          → Looked (take_l2 W r key check_l1 e (some stale) c)
      unfolding take_l2
      take_l2-Looked r check_l1 true e c h p b up = record {
        result = missed;
        returns = refl;
        found = nowhere refl;
        kept = record {
          memory = h.memory;
          server = delete-OnServer W ok P₂ f key c.server h.server;
        };
      }
      take_l2-Looked r false false e c h p b up = record {
        result = record { hit = l2; value = some e.value };
        returns = refl;
        found = in_l2 e.table_versions e.value refl p b;
        kept = h;
      }
      take_l2-Looked r true false e c h p b up = record {
        result = record { hit = l2; value = some e.value };
        returns = refl;
        found = in_l2 e.table_versions e.value refl p b;
        kept = record {
          memory =
              put-InMemory P₁ _ _ key e.value e.table_versions none c.memory h.memory (up _ _ p b);
          server = h.server;
        };
      }

      get_l2-Looked :
          (r : Clock W) (check_l1 check_l2 : Bool) (c : Caches W)
          → InCaches P₁ P₂ f c
          → ((captured : Dict ℕ) (v : Value)
              → P₂ key captured v
              → is_behind W.redis f captured tables ≡ false
              → P₁ key captured v)
          → Looked (get_l2 W r key tables check_l1 check_l2 c)
      unfolding get_l2 RedisCache.get
      get_l2-Looked r check_l1 false c h up = record {
        result = missed;
        returns = refl;
        found = nowhere refl;
        kept = h;
      }
      get_l2-Looked r check_l1 true c h up =
          elim (Option-cases (read_blob W (W.redis.get (result_key key) c.server))) [
            | inl absent ↦ rw absent (record {
              result = missed;
              returns = refl;
              found = nowhere refl;
              kept = record { memory = h.memory; server = h.server };
            })
            | inr (e, there) ↦
                rw
                  (
                    there,
                    needs_discard-is_behind f tables e.table_versions c.server h.server.counts,
                  )
                  (take_l2-Looked r check_l1 _ e _ (record { memory = h.memory; server = h.server })
                    (h.server.entries key e there) refl up)
          ]

      -- Where the counters are numbers, `get` returns, whatever tiers it checks. A hit in L1 has the
      -- property `P₁` of the entries of L1; a hit in L2 has the property `P₂` of those of L2, and its
      -- versions are not behind the counters of the query's tables. The entries keep their
      -- properties, if `P₂` of an entry that is not behind gives `P₁`, as promotion needs.
      pub get-Looked :
          (r : Clock W) (check_l1 check_l2 : Bool) (c : Caches W)
          → InCaches P₁ P₂ f c
          → ((captured : Dict ℕ) (v : Value)
              → P₂ key captured v
              → is_behind W.redis f captured tables ≡ false
              → P₁ key captured v)
          → Looked (Tiered.get W r key tables check_l1 check_l2 c)
      unfolding Tiered.get look_l1
      get-Looked r false check_l2 c h up = get_l2-Looked r false check_l2 c h up
      get-Looked r true check_l2 c h up =
          let found = Memory.get W.float r.looked_up key c.memory in
          let Q = λ (k : String) (e : CacheEntry W.float.Num). P₁ k e.table_versions e.value in
          let kept : InCaches P₁ P₂ f (record c { memory = found.0 }) = record {
            memory = record {
              valid = get-IsValid W.float r.looked_up key c.memory h.memory.valid;
              entries =
                  get-Every W.float Q r.looked_up key c.memory h.memory.valid h.memory.entries;
            };
            server = h.server;
          } in
          elim (Option-cases found.1) [
            | inl absent ↦ rw absent (get_l2-Looked r true check_l2 _ kept up)
            | inr (e, there) ↦ rw there (record {
              result = record { hit = l1; value = some e.value };
              returns = refl;
              found =
                  in_l1 e.table_versions e.value refl
                    (get_found W.float Q r.looked_up key c.memory e h.memory.entries there);
              kept = kept;
            })
          ]

      put_l2-InCaches :
          (r : Clock W) (value : Value) (versions : Dict ℕ) (write : Bool)
          (ttl : Option W.float.Num) (c : Caches W)
          → InCaches P₁ P₂ f c
          → P₂ key versions (through_redis W.utf8 value)
          → InCaches P₁ P₂ f (put_l2 W r key value versions write ttl c).1
      unfolding put_l2
      put_l2-InCaches r value versions false ttl c h new = h
      put_l2-InCaches r value versions true ttl c h new =
          let s = RedisCache.put W r.l2_created key value versions ttl c.redis_cache c.server in
          elim (Option-cases s) [
            | inl raised ↦ rw raised h
            | inr (s', ran) ↦ rw ran (record {
              memory = h.memory;
              server =
                  put-OnServer W ok P₂ f r.l2_created key value versions ttl c.redis_cache c.server
                    s' ran h.server new;
            })
          ]

      put_l1-InCaches :
          (r : Clock W) (value : Value) (versions : Dict ℕ) (write : Bool)
          (ttl : Option W.float.Num) (c : Caches W)
          → InCaches P₁ P₂ f c
          → P₁ key versions value
          → InCaches P₁ P₂ f (put_l1 W r key value versions write ttl c)
      unfolding put_l1
      put_l1-InCaches r value versions false ttl c h new = h
      put_l1-InCaches r value versions true ttl c h new = record {
        memory = put-InMemory P₁ _ _ key value versions ttl c.memory h.memory new;
        server = h.server;
      }

      -- `put` keeps what held, raising or not, if it holds of the value under the counters of the
      -- query's tables.
      pub put-InCaches :
          (r : Clock W) (value : Value) (write_l1 write_l2 : Bool) (ttl : Option W.float.Num)
          (c : Caches W)
          → InCaches P₁ P₂ f c
          → ((versions : Dict ℕ)
              → ((t : String)
                  → lookup t versions ≡ (if is_member t tables then some (f t) else none))
              → P₁ key versions value × P₂ key versions (through_redis W.utf8 value))
          → InCaches P₁ P₂ f (Tiered.put W r key value tables write_l1 write_l2 ttl c).1
      unfolding Tiered.put
      put-InCaches r value write_l1 write_l2 ttl c h new =
          let (versions, ran, read) =
            current_versions-Counts W.redis f c.server tables h.server.counts in
          rw ran (
            put_l2-InCaches r value versions write_l2 ttl _
              (put_l1-InCaches r value versions write_l1 ttl c h (new versions read).0)
              (new versions read).1)
