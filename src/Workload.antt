-- ===== src/Workload.antt =====
-- scripts/query_templates.py: `Template`, and the draws from `random.Random`, whose state is threaded.
pub mod Templates
pub mod Traffic
pub mod Arity
pub mod HotSet
pub mod Items
use Prim.Native.String.{slice, ◌++◌}
use cacheopt.Base.{
  ℕ, zero, suc, ◌+◌, ◌/◌, ◌%◌, ◌≤◌, ◌<◌, ◌≡◌, String, Option, none, some, List, [], ◌∷◌, ltb,
  get_elem?, length, if◌then◌else◌, arith,
}

-- `choice_index n` is the index that `choice` takes of a sequence of length `n`.
pub record Random (N : Type 0) : Type 1 where
  pub State : Type 0
  pub seeded : ℕ → State
  pub randint : ℕ → ℕ → State → ℕ × State
  pub random : State → N × State
  pub choice_index : ℕ → State → ℕ × State

-- `random.choice` of a sequence that is not empty takes one of its elements.
abbrev pub IsRandom : {N : Type 0} → Random N → Type 0
IsRandom R = (n : ℕ) (g : R.State) → 0 < n → (R.choice_index n g).0 < n

digit : ℕ → String
digit d = slice "0123456789" d (d + 1)

digits : ℕ → ℕ → String
unfolding digit
digits zero n = ""
digits (suc fuel) n =
    let front = digits fuel (n / 10) in if ltb n 10 then digit n else front ++ digit (n % 10)

-- `str` of an integer that is not negative, which has no more digits than one more than its value.
unfoldable pub int_text : ℕ → String
unfolding digits
int_text n = digits (n + 1) n

module _ {N : Type 0} (R : Random N) where
  -- `sql_fn` is `none` for a tuple of another length, where the call raises.
  pub record Template : Type 0 where
    pub name : String
    pub sql_fn : List ℕ → Option String
    pub hot_params : List (List ℕ)
    pub cold_param_fn : R.State → Option (List ℕ × R.State)

  chosen {ℓ} : {A : Type ℓ} → Option A → R.State → Option (A × R.State)
  chosen none g = none
  chosen (some x) g = some (x, g)

  -- `rng.choice`; `none` where it raises.
  unfoldable pub choice {ℓ} : {A : Type ℓ} → List A → R.State → Option (A × R.State)
  unfolding chosen
  choice xs g = let (i, g') = R.choice_index (length xs) g in chosen (get_elem? xs i) g'

  -- `(rng.randint(a, b),)` and `(rng.randint(a, b), rng.randint(c, d))`
  unfoldable pub one_int : ℕ → ℕ → R.State → Option (List ℕ × R.State)
  one_int a b g = let (x, g') = R.randint a b g in some (x ∷ [], g')

  unfoldable pub two_ints : ℕ → ℕ → ℕ → ℕ → R.State → Option (List ℕ × R.State)
  two_ints a b c d g =
      let (x, g₁) = R.randint a b g in let (y, g₂) = R.randint c d g₁ in some (x ∷ y ∷ [], g₂)

  with_limit : ℕ → Option (ℕ × R.State) → Option (List ℕ × R.State)
  with_limit x none = none
  with_limit x (some (limit, g)) = some (x ∷ limit ∷ [], g)

  -- `(rng.randint(a, b), rng.choice(limits))`
  unfoldable pub int_and_choice : ℕ → ℕ → List ℕ → R.State → Option (List ℕ × R.State)
  unfolding with_limit choice
  int_and_choice a b limits g = let (x, g') = R.randint a b g in with_limit x (choice limits g')
