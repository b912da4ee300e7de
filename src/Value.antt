-- ===== src/Value.antt =====
-- The Python values that the caches hold, and `_approx_size` (src/cacheopt/cache/memory_buffer.py).
pub mod Json
pub mod RoundTrip
use cacheopt.Base.{ℕ, zero, suc, ◌+◌, ◌*◌, ◌/◌, String, Bool, List, [], ◌∷◌, Option, none, some}
use Prim.Native.Nat.{max}

pub data Integer : Type 0 where
  pos : ℕ → Integer
  negsuc : ℕ → Integer

-- A float stands by its `repr`, a date, time or timestamp by its `isoformat`, a `Decimal` and an
-- object of any other class by its `str`.
mutual
  pub data Value : Type 0 where
    null : Value
    bool : Bool → Value
    int : Integer → Value
    float : String → Value
    str : String → Value
    moment : String → Value
    decimal : String → Value
    bytes : List ℕ → Value
    object : String → Value
    list : Values → Value
    tuple : Values → Value

  pub data Values : Type 0 where
    nil : Values
    cons : Value → Values → Values

abbrev pub pair : Value → Value → Value
pair a b = tuple (cons a (cons b nil))

-- `len`
unfoldable pub count : Values → ℕ
count nil = 0
count (cons v vs) = suc (count vs)

-- `vs[:n]`
unfoldable pub first : ℕ → Values → Values
first zero vs = nil
first (suc n) nil = nil
first (suc n) (cons v vs) = cons v (first n vs)

chars : String → Values
chars String.[] = nil
chars (String.◌∷◌ c s) = cons (str (String.◌∷◌ c String.[])) (chars s)

octets : List ℕ → Values
octets [] = nil
octets (b ∷ bs) = cons (int (pos b)) (octets bs)

-- What `for c in row` runs over; `none` where Python raises `TypeError`.
unfoldable pub iterate : Value → Option Values
unfolding chars octets
iterate (list vs) = some vs
iterate (tuple vs) = some vs
iterate (str s) = some (chars s)
iterate (bytes bs) = some (octets bs)
iterate _ = none

-- `sys.getsizeof` is the interpreter's.
module _ (getsizeof : Value → ℕ) where
  cells_size : Values → ℕ
  cells_size nil = 0
  cells_size (cons c cs) = getsizeof c + cells_size cs

  row_size : Value → Option Values → Option ℕ
  unfolding cells_size
  row_size row none = none
  row_size row (some cells) = some (getsizeof row + cells_size cells)

  add_sizes : Option ℕ → Option ℕ → Option ℕ
  add_sizes (some a) (some b) = some (a + b)
  add_sizes _ _ = none

  rows_size : Values → Option ℕ
  unfolding row_size add_sizes iterate
  rows_size nil = some 0
  rows_size (cons row rows) = add_sizes (row_size row (iterate row)) (rows_size rows)

  -- The `except` branch, or the estimate from the first rows.
  scale_size : Values → Option ℕ → ℕ
  unfolding count
  scale_size rows none = 1024
  scale_size rows (some n) = n * max 1 (count rows / 50) + getsizeof (list rows)

  unfoldable pub approx_size : Value → ℕ
  unfolding rows_size scale_size first
  approx_size (list rows) = scale_size rows (rows_size (first 50 rows))
  approx_size value = getsizeof value
