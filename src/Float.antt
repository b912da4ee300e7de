-- ===== src/Float.antt =====
-- Python's `float`: a type of numbers with the operations that the program uses.
-- An `int` that meets a float is converted by `num`; `decimal m n` is the literal m / n.
use cacheopt.Base.{ℕ, Bool, if◌then◌else◌}

pub record Float : Type 1 where
  pub Num : Type 0
  pub num : ℕ → Num
  pub decimal : ℕ → ℕ → Num
  pub add : Num → Num → Num
  pub sub : Num → Num → Num
  pub mul : Num → Num → Num
  pub div : Num → Num → Num
  -- `x < y`
  pub lt : Num → Num → Bool
  -- `x == 0.0`, by which `if x` tests
  pub is_zero : Num → Bool
  -- `int(x)` and `math.ceil(x)`, of a number that is not negative
  pub truncate : Num → ℕ
  pub ceil : Num → ℕ
  pub neg : Num → Num
  -- `math.log`, `math.log1p`, `math.exp`, `pow`
  pub log : Num → Num
  pub log1p : Num → Num
  pub exp : Num → Num
  pub pow : Num → Num → Num

-- `max(x, y)`
abbrev pub float_max : (F : Float) → F.Num → F.Num → F.Num
float_max F x y = if F.lt x y then y else x
