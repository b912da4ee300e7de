-- ===== src/Config/Loading.antt =====
-- When the module of the settings can be imported.
use cacheopt.Base.{
  ℕ, ◌≡◌, String, Bool, true, false, Option, none, some, List, [], ◌∷◌, arith, any, is_some, not,
}
use cacheopt.Config.{Environ, int_var, load}
use cacheopt.Float.{Float}

-- The variables that are read as numbers.
abbrev pub numeric_vars : List String
numeric_vars =
    "CACHEOPT_L1_MAX_ENTRIES" ∷ "CACHEOPT_L1_MAX_BYTES" ∷ "REDIS_PORT" ∷ "REDIS_DB"
    ∷ "CACHEOPT_DEFAULT_TTL" ∷ []

module _ (F : Float) (int_of : String → Option ℕ) where
  -- The variable is set, to a text that is no number.
  abbrev pub is_malformed : Environ → String → Bool
  is_malformed env k = elim (env k) [
    | none ↦ false
    | some s ↦ elim (int_of s) [ none ↦ true | some n ↦ false ]
  ]

  -- The settings load exactly if no numeric variable is set to a text that is no number; no other
  -- variable can make them fail.
  pub load_outcome :
      (env : Environ) → is_some (load F int_of env) ≡ not (any (is_malformed env) numeric_vars)
  unfolding load int_var
  load_outcome env = ground arith
