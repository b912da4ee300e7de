-- ===== src/Value/Json.antt =====
-- src/cacheopt/cache/redis_cache.py: a value through `json.dumps` and `json.loads`, with
-- `_json_default` and `_restore_value`.
use cacheopt.Base.{ℕ, String, Bool, List}
use cacheopt.Value.{
  Value, Values, Integer, null, bool, int, float, str, moment, decimal, bytes, object, list, tuple,
  nil, cons, pair,
}

-- A value that a JSON text stands for.
mutual
  pub data Json : Type 0 where
    nothing : Json
    boolean : Bool → Json
    integer : Integer → Json
    real : String → Json
    text : String → Json
    array : Jsons → Json

  pub data Jsons : Type 0 where
    empty : Jsons
    more : Json → Jsons → Jsons

-- `bytes.decode("utf-8", errors="replace")` is Python's.
module _ (decode : List ℕ → String) where
  -- `_json_default`, of the values that JSON has no form for; the clauses of `to_json` for the
  -- others are `json.dumps`.
  unfoldable pub json_default : Value → String
  json_default (moment iso) = iso
  json_default (decimal digits) = digits
  json_default (bytes octets) = decode octets
  json_default (object shown) = shown
  json_default _ = ""

  unfoldable mutual
    unfolding json_default

    pub to_json : Value → Json
    to_json null = nothing
    to_json (bool b) = boolean b
    to_json (int n) = integer n
    to_json (float r) = real r
    to_json (str s) = text s
    to_json (moment iso) = text (json_default (moment iso))
    to_json (decimal digits) = text (json_default (decimal digits))
    to_json (bytes octets) = text (json_default (bytes octets))
    to_json (object shown) = text (json_default (object shown))
    to_json (list vs) = array (to_jsons vs)
    to_json (tuple vs) = array (to_jsons vs)

    pub to_jsons : Values → Jsons
    to_jsons nil = empty
    to_jsons (cons v vs) = more (to_json v) (to_jsons vs)

-- `json.loads`
unfoldable mutual
  pub of_json : Json → Value
  of_json nothing = null
  of_json (boolean b) = bool b
  of_json (integer n) = int n
  of_json (real r) = float r
  of_json (text s) = str s
  of_json (array js) = list (of_jsons js)

  pub of_jsons : Jsons → Values
  of_jsons empty = nil
  of_jsons (more j js) = cons (of_json j) (of_jsons js)

-- `tuple(x) if isinstance(x, list) else x`
unfoldable pub list_to_tuple : Value → Value
list_to_tuple (list vs) = tuple vs
list_to_tuple v = v

unfoldable pub rows_to_tuples : Values → Values
unfolding list_to_tuple
rows_to_tuples nil = nil
rows_to_tuples (cons r rs) = cons (list_to_tuple r) (rows_to_tuples rs)

unfoldable pub restore_value : Value → Value
unfolding list_to_tuple rows_to_tuples
restore_value (list (cons columns (cons (list rows) nil))) =
    pair (list_to_tuple columns) (list (rows_to_tuples rows))
restore_value value = value
