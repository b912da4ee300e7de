-- ===== src/Workload/Traffic.antt =====
-- scripts/query_templates.py: `generate_workload`, and scripts/run_benchmark.py: `_hot_set`.
use cacheopt.Base.{ℕ, zero, suc, String, Option, some, List, [], ◌∷◌, ◌++◌, if◌then◌else◌}
use cacheopt.Float.{Float}
use cacheopt.Versions.{◌>>=◌}
use cacheopt.Workload.{Random, Template, choice}
use cacheopt.Workload.Templates.{templates}

module _ (F : Float) (R : Random F.Num) where
  unfoldable pub draw_params : F.Num → Template R → F.Num × R.State → Option (List ℕ × R.State)
  unfolding choice
  draw_params p_hot t (u, g) = if F.lt u p_hot then choice R t.hot_params g else t.cold_param_fn g

  -- The body of the loop: the item and the generator after it.
  unfoldable pub next_item : F.Num → R.State → Option ((String × String) × R.State)
  unfolding draw_params choice
  next_item p_hot g = do
    (template, g₁) ← choice R (templates R) g
    (params, g₂) ← draw_params p_hot template (R.random g₁)
    sql ← template.sql_fn params
    some ((template.name, sql), g₂)

  unfoldable pub items_from : F.Num → ℕ → R.State → Option (List (String × String))
  unfolding next_item
  items_from p_hot zero g = some []
  items_from p_hot (suc n) g = do
    (item, g') ← next_item p_hot g
    rest ← items_from p_hot n g'
    some (item ∷ rest)

  -- `none` where it raises
  unfoldable pub generate_workload : ℕ → F.Num → ℕ → Option (List (String × String))
  unfolding items_from
  generate_workload n p_hot seed = items_from p_hot n (R.seeded seed)

  -- The texts for some hot parameters of a template, without the white space around them.
  unfoldable pub hot_texts : (String → String) → Template R → List (List ℕ) → Option (List String)
  hot_texts strip t [] = some []
  hot_texts strip t (params ∷ more) = do
    sql ← t.sql_fn params
    rest ← hot_texts strip t more
    some (strip sql ∷ rest)

  unfoldable pub hot_texts_of : (String → String) → List (Template R) → Option (List String)
  unfolding hot_texts
  hot_texts_of strip [] = some []
  hot_texts_of strip (t ∷ ts) = do
    texts ← hot_texts strip t t.hot_params
    rest ← hot_texts_of strip ts
    some (texts ++ rest)

  -- `_hot_set`: the set as a list.
  unfoldable pub hot_set : (String → String) → Option (List String)
  unfolding hot_texts_of
  hot_set strip = hot_texts_of strip (templates R)
