-- ===== src/Dict.antt =====
-- Python's `dict` and `collections.OrderedDict` with text keys, in insertion order.
pub mod Laws
use cacheopt.Base.{
  String, ◌≡◌, Bool, Option, none, some, List, [], ◌∷◌, ◌++◌, map, dec_str, ite, is_some, or_else,
}

abbrev pub Dict {ℓ} : Type ℓ → Type ℓ
Dict V = List (String × V)

module _ {ℓ} {V : Type ℓ} where
  -- `d.get(k)`
  unfoldable pub lookup : String → Dict V → Option V
  lookup k [] = none
  lookup k ((j, v) ∷ d) = ite (dec_str k j) (some v) (lookup k d)

  -- `d.get(k, default)`
  abbrev pub lookup_or : String → V → Dict V → V
  lookup_or k default d = or_else (lookup k d) default

  -- `k in d`
  abbrev pub contains : String → Dict V → Bool
  contains k d = is_some (lookup k d)

  -- `d[k] = v`: an old key keeps its place, a new one goes to the end
  unfoldable pub insert : String → V → Dict V → Dict V
  insert k v [] = (k, v) ∷ []
  insert k v ((j, w) ∷ d) = ite (dec_str k j) ((k, v) ∷ d) ((j, w) ∷ insert k v d)

  -- `del d[k]`, `d.pop(k, None)`
  unfoldable pub erase : String → Dict V → Dict V
  erase k [] = []
  erase k ((j, w) ∷ d) = ite (dec_str k j) d ((j, w) ∷ erase k d)

  -- `d.move_to_end(k)`, of a key that is there
  unfoldable pub move_to_end : String → Dict V → Dict V
  move_to_end k [] = []
  move_to_end k ((j, w) ∷ d) = ite (dec_str k j) (d ++ (j, w) ∷ []) ((j, w) ∷ move_to_end k d)

  abbrev pub keys : Dict V → List String
  keys [] = []
  keys ((j, w) ∷ d) = j ∷ keys d
