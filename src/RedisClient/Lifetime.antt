-- ===== src/RedisClient/Lifetime.antt =====
-- The life of the shared client, over any calls.
use text.Mathlib.TextEquality.{eq_iff}
use mathlib.Core.Bool.{false≢true}
use cacheopt.Base.{
  ◌≡◌, ◌≢◌, refl, sym, ◌∙◌, ap, ◌++◌, String, true, false, Option, none, some, List, [], ◌∷◌,
  dec_str, if_neg, All, inl, inr, Option-cases, Bool-cases,
}
use cacheopt.Config.{Config}
use cacheopt.RedisClient.{
  Address, Action, connected, shut_down, embedded, Globals, fresh, address_of, get_redis_client,
  reset_client, opened, is_embedded, stopped,
}

pub data Op (N : Type 0) : Type 0 where
  acquire : Config N → Op N
  reset : Op N

other_mode : ◌≢◌ {A = String} "embedded" "external"
other_mode h = false≢true ((eq_iff "embedded" "external").1 h)

embedded_address :
    {N : Type 0} (config : Config N)
    → config.redis_mode ≡ "embedded"
    → address_of config ≡ embedded config.redis_rdb_path
unfolding address_of
embedded_address config e =
    if_neg (dec_str config.redis_mode "external") (λ p. other_mode (sym e ∙ p)) _ _

is_embedded-true : (m : Option String) → is_embedded m ≡ true → m ≡ some "embedded"
unfolding is_embedded
is_embedded-true none e = absurd (false≢true e)
is_embedded-true (some m) e = elim (dec_str m "embedded") [
  | yes p ↦ ap some p
  | no other ↦ absurd (false≢true (sym (if_neg (dec_str m "embedded") other true false) ∙ e))
]

module _ {C : Type 0} (connect : Address → Option C) where
  -- The client is an embedded server that the process started.
  abbrev pub IsOwned : C → Type 0
  IsOwned client = (path : String) × (connect (embedded path) ≡ some client)

  abbrev pub IsProper : Action C → Type 0
  IsProper (connected a) = Unit
  IsProper (shut_down client) = IsOwned client

  -- A client whose mode is "embedded" is owned.
  abbrev pub IsTracked : Globals C → Type 0
  IsTracked g = (client : C) → g.singleton ≡ some client → g.mode ≡ some "embedded" → IsOwned client

  fresh-IsTracked : IsTracked fresh
  unfolding fresh
  fresh-IsTracked client there mode = cc

  stopped-IsProper :
      (g : Globals C) → IsTracked g → All IsProper (stopped g.singleton (is_embedded g.mode))
  unfolding stopped
  stopped-IsProper g h = elim (Option-cases g.singleton) [
    | inl absent ↦ rw (absent) tt
    | inr (client, there) ↦ elim (Bool-cases (is_embedded g.mode)) [
      | inl own ↦ rw (there, own) (h client there (is_embedded-true g.mode own), tt)
      | inr other ↦ rw (there, other) tt
    ]
  ]

  All-append :
      (xs ys : List (Action C)) → All IsProper xs → All IsProper ys → All IsProper (xs ++ ys)
  All-append [] ys h k = k
  All-append (x ∷ xs) ys h k = (h.0, All-append xs ys h.1 k)

  module _ {N : Type 0} where
    unfoldable pub apply : Op N → Globals C → Globals C × List (Action C)
    apply (acquire config) g =
        let (client, g', actions) = get_redis_client connect config g in (g', actions)
    apply reset g = reset_client g

    -- What any calls leave, and what they did outside.
    unfoldable pub apply_all : List (Op N) → Globals C → Globals C × List (Action C)
    apply_all [] g = (g, [])
    apply_all (o ∷ os) g =
        let (g₁, actions) = apply o g in let (g₂, later) = apply_all os g₁ in (g₂, actions ++ later)

    new-IsTracked :
        (config : Config N) (client : C)
        → connect (address_of config) ≡ some client
        → IsTracked (record { singleton = some client; mode = some config.redis_mode })
    new-IsTracked config client started client' there mode =
        (config.redis_rdb_path, ap connect (sym (embedded_address config cc)) ∙ started ∙ there)

    opened-IsTracked :
        (config : Config N) (started : Option C) (g : Globals C)
        → connect (address_of config) ≡ started
        → IsTracked g
        → IsTracked (opened connect config started g).1
          × All IsProper (opened connect config started g).2
    unfolding opened
    opened-IsTracked config none g raised h = (h, tt)
    opened-IsTracked config (some client) g started h =
        (new-IsTracked config client started, (tt, tt))

    acquired :
        (config : Config N) (singleton : Option C) (mode : Option String)
        → IsTracked (record { singleton = singleton; mode = mode })
        → IsTracked (apply (acquire config) (record { singleton = singleton; mode = mode })).0
          × All IsProper (apply (acquire config) (record { singleton = singleton; mode = mode })).1
    unfolding apply get_redis_client
    acquired config (some client) mode h = (h, tt)
    acquired config none mode h = opened-IsTracked config (connect (address_of config)) _ refl h

    apply-IsTracked :
        (o : Op N) (g : Globals C)
        → IsTracked g
        → IsTracked (apply o g).0 × All IsProper (apply o g).1
    unfolding apply reset_client
    apply-IsTracked reset g h = (fresh-IsTracked, stopped-IsProper g h)
    apply-IsTracked (acquire config) g h = acquired config g.singleton g.mode h

    apply_all-IsTracked :
        (os : List (Op N)) (g : Globals C)
        → IsTracked g
        → IsTracked (apply_all os g).0 × All IsProper (apply_all os g).1
    unfolding apply_all
    apply_all-IsTracked [] g h = (h, tt)
    apply_all-IsTracked (o ∷ os) g h =
        let step = apply-IsTracked o g h in
        let rest = apply_all-IsTracked os (apply o g).0 step.0 in
        (rest.0, All-append _ _ step.1 rest.1)

    -- From a fresh process, whatever clients are acquired, with whatever settings, and reset in between,
    -- no server is shut down but an embedded one that the process started.
    pub apply_all-IsProper : (os : List (Op N)) → All IsProper (apply_all os fresh).1
    apply_all-IsProper os = (apply_all-IsTracked os fresh fresh-IsTracked).1
