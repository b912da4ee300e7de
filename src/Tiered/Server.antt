-- ===== src/Tiered/Server.antt =====
-- What holds of the entries and the counters on the server, through every command that the caches
-- send.
use cacheopt.Base.{ℕ, ◌≡◌, sym, subst, String, Option, none, some, arith, dec_str, if_pos, if_neg}
use cacheopt.Dict.{Dict}
use cacheopt.Redis.Keys.{result_key, version_key, result_key-ne-version_key, result_key_inj}
use cacheopt.RedisCache
use cacheopt.RedisCache.{RedisCache, RedisEntry, read_blob, entry_of}
use cacheopt.Runtime.{Runtime, IsRuntime, Payload}
use cacheopt.Value.{Value}
use cacheopt.Value.RoundTrip.{through_redis}
use cacheopt.Versions.Counters.{Counts}

module _ (W : Runtime) where
  -- `P` holds of the key, the captured versions and the value of each entry that L2 can return, and
  -- `f` gives the counters.
  pub record OnServer (P : String → Dict ℕ → Value → Type 0) (f : String → ℕ) (s : W.redis.State)
      : Type 0 where
    pub entries :
        (k : String) (e : RedisEntry W.float.Num)
        → read_blob W (W.redis.get (result_key k) s) ≡ some e
        → P k e.table_versions e.value
    pub counts : Counts W.redis f s

  module _ (ok : IsRuntime W) (P : String → Dict ℕ → Value → Type 0) (f : String → ℕ) where
    read_written :
        (p : Payload W.float.Num) (e : RedisEntry W.float.Num)
        → read_blob W (some (W.encode p)) ≡ some e
        → entry_of W p ≡ e
    unfolding read_blob
    read_written p e h = let q = ok.decode-encode p in ground arith

    pub delete-OnServer :
        (key : String) (s : W.redis.State)
        → OnServer P f s
        → OnServer P f (RedisCache.invalidate W key s)
    unfolding RedisCache.invalidate read_blob
    delete-OnServer key s h = record {
      entries = λ k e found. elim (dec_str (result_key k) (result_key key)) [
        | yes p ↦
            let none_there : none ≡ some e =
              rw (ok.is_redis.get-delete, if_pos (dec_str (result_key k) (result_key key)) p) at
                found in
            cc
        | no p ↦ h.entries k e (
            rw (ok.is_redis.get-delete, if_neg (dec_str (result_key k) (result_key key)) p) at
              found)
      ];
      counts = λ t.
          rw
            (
              ok.is_redis.get-delete,
              if_neg (dec_str (version_key t) (result_key key))
                  (λ q. result_key-ne-version_key key t (sym q)),
            )
            (h.counts t);
    }

    pub put-OnServer :
        (created : W.float.Num) (key : String) (value : Value) (versions : Dict ℕ)
        (ttl : Option W.float.Num) (c : RedisCache) (s s' : W.redis.State)
        → RedisCache.put W created key value versions ttl c s ≡ some s'
        → OnServer P f s
        → P key versions (through_redis W.utf8 value)
        → OnServer P f s'
    unfolding RedisCache.put entry_of
    put-OnServer created key value versions ttl c s s' ran h new = record {
      entries = λ k e found. elim (dec_str (result_key k) (result_key key)) [
        | yes p ↦
            let same = read_written _ e (
              rw
                (
                  ok.is_redis.get-set (result_key k) (result_key key) _ _ s s' ran,
                  if_pos (dec_str (result_key k) (result_key key)) p,
                )
                at found) in
            subst (λ (x : RedisEntry W.float.Num). P k x.table_versions x.value) same
              (subst (λ (x : String). P x versions (through_redis W.utf8 value))
                (sym (result_key_inj k key p)) new)
        | no p ↦ h.entries k e (
            rw
              (
                ok.is_redis.get-set (result_key k) (result_key key) _ _ s s' ran,
                if_neg (dec_str (result_key k) (result_key key)) p,
              )
              at found)
      ];
      counts = λ t.
          rw
            (
              ok.is_redis.get-set (version_key t) (result_key key) _ _ s s' ran,
              if_neg (dec_str (version_key t) (result_key key))
                  (λ q. result_key-ne-version_key key t (sym q)),
            )
            (h.counts t);
    }
