-- ===== src/Versions/Counters.antt =====
-- The counters as the clients of `TableVersionManager` see them.
use cacheopt.Base.{
  ℕ, ◌+◌, ◌≡◌, refl, ap, ◌∙◌, ◌≢◌, String, Bool, true, Option, none, some, List, [], ◌∷◌, arith,
  dec_str, ite, if_pos, if_neg, if◌then◌else◌, any, ◌||◌, or_else,
}
use mathlib.Core.Path.{ap₂}
use cacheopt.Dict.{Dict, lookup, lookup_or, insert}
use cacheopt.Dict.Laws.{lookup-insert}
use cacheopt.Memory.{is_older, is_member}
use cacheopt.Redis.{Redis, IsRedis}
use cacheopt.Redis.Keys.{version_key, version_key_inj}
use cacheopt.Versions.{version_of, collect, current_versions, bump_and_publish, is_stale}

pub member_head : (t : String) (ts : List String) → is_member t (t ∷ ts) ≡ true
unfolding is_member
member_head t ts = if_pos (dec_str t t) refl true (is_member t ts)

pub member_tail :
    (u t : String) (ts : List String) → is_member u ts ≡ true → is_member u (t ∷ ts) ≡ true
unfolding is_member
member_tail u t ts m = ground arith

module _ (R : Redis) where
  open R use {State}

  -- `f` gives the counters of the server: each version key is absent or holds a number.
  abbrev pub Counts : (String → ℕ) → State → Type 0
  Counts f s = (t : String) → version_of R t s ≡ some (f t)

  -- The counters after the one of `table` has gone up.
  abbrev pub bumped : String → (String → ℕ) → String → ℕ
  bumped table f t = ite (dec_str t table) (f t + 1) (f t)

  collect-Counts :
      (f : String → ℕ) (s : State)
      → Counts f s
      → (acc : Dict ℕ) (ts : List String)
      → (d : Dict ℕ) × (collect R acc ts s ≡ some d)
        × ((t : String) → lookup t d ≡ (if is_member t ts then some (f t) else lookup t acc))
  unfolding collect is_member
  collect-Counts f s h acc [] = (acc, refl, λ t. refl)
  collect-Counts f s h acc (u ∷ ts) =
      let (d, ran, read) = collect-Counts f s h (insert u (f u) acc) ts in
      (d, rw (h u, ran), λ t. ground (arith, read t, lookup-insert t u (f u) acc, ap f))

  -- The versions that `current_versions` returns are the counters of the given tables.
  pub current_versions-Counts :
      (f : String → ℕ) (s : State) (tables : List String)
      → Counts f s
      → (d : Dict ℕ) × (current_versions R tables s ≡ some d)
        × ((t : String) → lookup t d ≡ (if is_member t tables then some (f t) else none))
  unfolding current_versions lookup
  current_versions-Counts f s tables h = collect-Counts f s h [] tables

  -- A captured version of some table is behind the table's counter.
  abbrev pub is_behind : (String → ℕ) → Dict ℕ → List String → Bool
  is_behind f captured tables = any (λ t. is_older (lookup t captured) (f t)) tables

  has_moved-is_behind :
      (f : String → ℕ) (captured current : Dict ℕ) (all ts : List String)
      → ((t : String) → lookup t current ≡ (if is_member t all then some (f t) else none))
      → ((t : String) → is_member t ts ≡ true → is_member t all ≡ true)
      → any (λ t. is_older (lookup t captured) (lookup_or t 0 current)) ts ≡ is_behind f captured ts
  has_moved-is_behind f captured current all [] read sub = refl
  has_moved-is_behind f captured current all (t ∷ ts) read sub =
      let present : (if is_member t all then some (f t) else none) ≡ some (f t) =
        rw (sub t (member_head t ts)) refl in
      ap₂ ◌||◌
        (ap (λ (v : Option ℕ). is_older (lookup t captured) (or_else v 0)) (read t ∙ present))
        (has_moved-is_behind f captured current all ts read (λ u m. sub u (member_tail u t ts m)))

  -- Where the counters are numbers, `is_stale` tells whether some counter has passed the captured
  -- version of its table.
  pub is_stale-is_behind :
      (f : String → ℕ) (s : State) (captured : Dict ℕ) (tables : List String)
      → Counts f s
      → is_stale R captured (some tables) s ≡ some (is_behind f captured tables)
  unfolding is_stale
  is_stale-is_behind f s captured tables h =
      let (d, ran, read) = current_versions-Counts f s tables h in
      rw ran (ap some (has_moved-is_behind f captured d tables tables read (λ t m. m)))

  module _ (ok : IsRedis R) where
    -- Over a server as `IsRedis` describes it, where the counters are numbers, `bump_and_publish`
    -- raises the counter of its table by one, publishes the new version, and leaves the other
    -- counters and every other key as they are.
    pub bump-Counts :
        (table : String) (f : String → ℕ) (s : State)
        → Counts f s
        → (s' : State) × (bump_and_publish R table s
            ≡ some (f table + 1, record { table = table; version = f table + 1 }, s'))
          × Counts (bumped table f) s'
          × ((k : String) → k ≢ version_key table → R.get k s' ≡ R.get k s)
    unfolding bump_and_publish
    bump-Counts table f s h =
        let (s', ran) = ok.incr_counter (version_key table) (f table) s (h table) in
        (
          s',
          rw ran refl,
          λ t. elim (dec_str t table) [
            | yes p ↦
                rw (if_pos (dec_str t table) p, p)
                  (ok.counter-incr (version_key table) (f table + 1) s s' ran)
            | no p ↦
                rw
                  (
                    if_neg (dec_str t table) p,
                    ok.get-incr_ne (version_key t) (version_key table) (f table + 1) s s' ran
                        (λ e. p (version_key_inj t table e)),
                  )
                  (h t)
          ],
          λ k ne. ok.get-incr_ne k (version_key table) _ s s' ran ne,
        )
