-- ===== src/Redis/Keys.antt =====
-- The two families of Redis keys.
use Prim.Native.String.{◌++◌}
use text.Mathlib.TextLemmas.{append_assoc, append_cancel_left, append_inj}
use text.Mathlib.TextEquality.{eq_iff}
use mathlib.Core.Bool.{false≢true}
use cacheopt.Base.{◌≡◌, ◌≢◌, refl, ◌∙◌, String}

-- `VERSION_KEY_PREFIX`
abbrev pub version_key_prefix : String
version_key_prefix = "cacheopt:tblver:"

-- `RedisCache.KEY_PREFIX`
abbrev pub key_prefix : String
key_prefix = "cacheopt:qr:"

unfoldable pub version_key : String → String
version_key table = version_key_prefix ++ table

-- `RedisCache._k`
unfoldable pub result_key : String → String
result_key cache_key = key_prefix ++ cache_key

-- No result key is a version key, so that results and versions share one server without clashes.
pub result_key-ne-version_key : (k t : String) → result_key k ≢ version_key t
unfolding result_key version_key
result_key-ne-version_key k t e =
    let regrouped : key_prefix ++ k ≡ "cacheopt:tbl" ++ ("ver:" ++ t) =
      e ∙ append_assoc "cacheopt:tbl" "ver:" t in
    let heads = append_inj regrouped refl in
    false≢true ((eq_iff key_prefix "cacheopt:tbl").1 heads.0)

pub result_key_inj : (k j : String) → result_key k ≡ result_key j → k ≡ j
unfolding result_key
result_key_inj k j e = append_cancel_left key_prefix k j e

pub version_key_inj : (t u : String) → version_key t ≡ version_key u → t ≡ u
unfolding version_key
version_key_inj t u e = append_cancel_left version_key_prefix t u e
