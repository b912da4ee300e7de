-- ===== src/Workload/Items.antt =====
-- What `generate_workload` returns, and how `_hot_set` classifies it.
use cacheopt.Base.{
  ℕ, zero, suc, ◌≡◌, refl, ap, subst, String, true, some, List, [], ◌∷◌, All, inl, inr, Bool-cases,
  length, get_elem?, get_elem?_total, ◌<◌, false,
}
use cacheopt.Float.{Float}
use cacheopt.Memory.{is_member}
use cacheopt.Workload.{Random, IsRandom, Template, choice}
use cacheopt.Workload.Arity.{length-have_length, some_templates, IsWell, templates-IsWell}
use cacheopt.Workload.Templates.{templates}
use cacheopt.Workload.Traffic.{next_item, items_from, generate_workload, hot_set, draw_params}
use cacheopt.Workload.HotSet.{Covers, CoversAll, hot_texts_of_total}

module _ (F : Float) (R : Random F.Num) (strip : String → String) where
  -- The draw of parameters for a template after `u` was drawn, its text, and the generator after it:
  -- below `p_hot` an element of the hot parameters, whose text is one of `hot`, else cold ones.
  pub data Draws (p_hot : F.Num) (hot : List String) (t : Template R) (u : F.Num) (g g' : R.State)
      (sql : String) : Type 0 where
    repeated :
        (j : ℕ) (params : List ℕ)
        → F.lt u p_hot ≡ true
        → R.choice_index (length t.hot_params) g ≡ (j, g')
        → get_elem? t.hot_params j ≡ some params
        → t.sql_fn params ≡ some sql
        → is_member (strip sql) hot ≡ true
        → Draws p_hot hot t u g g' sql
    fresh :
        (params : List ℕ)
        → F.lt u p_hot ≡ false
        → t.cold_param_fn g ≡ some (params, g')
        → t.sql_fn params ≡ some sql
        → Draws p_hot hot t u g g' sql

  -- The item that is drawn from the generator `g`: a template, `u`, and parameters for the template.
  pub record IsItem (p_hot : F.Num) (hot : List String) (g : R.State) (item : String × String)
      (g' : R.State) : Type 0 where
    pub place : ℕ
    pub template : Template R
    pub after_choice : R.State
    pub chosen : R.choice_index (length (templates R)) g ≡ (place, after_choice)
    pub listed : get_elem? (templates R) place ≡ some template
    pub name : item.0 ≡ template.name
    pub draws :
        Draws p_hot hot template (R.random after_choice).0 (R.random after_choice).1 g' item.1

  -- The items that are drawn one after the other.
  abbrev pub AreItems : F.Num → List String → R.State → List (String × String) → Type 0
  AreItems p_hot hot g [] = Unit
  AreItems p_hot hot g (item ∷ items) =
      (g' : R.State) × IsItem p_hot hot g item g' × AreItems p_hot hot g' items

  choice_taken :
      {A : Type 0} (xs : List A) (g : R.State)
      → IsRandom R
      → 0 < length xs
      → (i : ℕ) × (x : A) × (g' : R.State) × (R.choice_index (length xs) g ≡ (i, g'))
        × (get_elem? xs i ≡ some x)
        × (choice R xs g ≡ some (x, g'))
  unfolding choice
  choice_taken xs g random pos =
      let (i, g') = R.choice_index (length xs) g in
      let (x, found) = get_elem?_total xs i (random (length xs) g pos) in
      (i, x, g', refl, found, rw found refl)

  All-get_elem? :
      {A : Type 0} (P : A → Type 0) (xs : List A) (i : ℕ) (x : A)
      → All P xs
      → get_elem? xs i ≡ some x
      → P x
  All-get_elem? P [] i x h at = cc
  All-get_elem? P (y ∷ ys) zero x h at = let same : y ≡ x = cc in subst P same h.0
  All-get_elem? P (y ∷ ys) (suc i) x h at = All-get_elem? P ys i x h.1 at

  params_total :
      (random : IsRandom R) (p_hot : F.Num) (t : Template R) (hot : List String) (u : F.Num)
      (g : R.State)
      → IsWell R t
      → Covers F R strip t t.hot_params hot
      → (params : List ℕ) × (g' : R.State) × (sql : String) × (draw_params F R p_hot t (u, g)
          ≡ some (params, g'))
        × (t.sql_fn params ≡ some sql)
        × Draws p_hot hot t u g g' sql
  unfolding draw_params Covers
  params_total random p_hot t hot u g w covered = elim (Bool-cases (F.lt u p_hot)) [
    | inl below ↦
        let (j, params, g', took, at, drawn) = choice_taken t.hot_params g random w.some_hot in
        let (sql, rendered) =
          w.takes params (length-have_length w.arity t.hot_params j params w.hot at) in
        (
          params,
          g',
          sql,
          rw below drawn,
          rendered,
          repeated j params below took at rendered (covered j params sql at rendered),
        )
    | inr above ↦
        let (params, g', drawn, fits) = w.cold g in
        let (sql, rendered) = w.takes params fits in
        (params, g', sql, rw above drawn, rendered, fresh params above drawn rendered)
  ]

  next_item_total :
      (random : IsRandom R) (p_hot : F.Num) (hot : List String) (g : R.State)
      → CoversAll F R strip (templates R) hot
      → (item : String × String) × (g' : R.State) × (next_item F R p_hot g ≡ some (item, g'))
        × IsItem p_hot hot g item g'
  unfolding next_item CoversAll
  next_item_total random p_hot hot g covered =
      let (i, t, g₁, took, at, drawn) = choice_taken (templates R) g random (some_templates R) in
      let (u, g₂) = R.random g₁ in
      let w = All-get_elem? (IsWell R) (templates R) i t (templates-IsWell R random) at in
      let (params, g₃, sql, picked, rendered, draws) =
        params_total random p_hot t hot u g₂ w (covered i t at) in
      (
        (t.name, sql),
        g₃,
        rw (drawn, picked, rendered) refl,
        record {
          place = i;
          template = t;
          after_choice = g₁;
          chosen = took;
          listed = at;
          name = refl;
          draws = draws;
        },
      )

  items_from_total :
      (random : IsRandom R) (p_hot : F.Num) (hot : List String) (n : ℕ) (g : R.State)
      → CoversAll F R strip (templates R) hot
      → (items : List (String × String)) × (items_from F R p_hot n g ≡ some items)
        × (length items ≡ n)
        × AreItems p_hot hot g items
  unfolding items_from
  items_from_total random p_hot hot zero g covered = ([], refl, refl, tt)
  items_from_total random p_hot hot (suc n) g covered =
      let (item, g', drawn, is_item) = next_item_total random p_hot hot g covered in
      let (items, rest, count, are_items) = items_from_total random p_hot hot n g' covered in
      (item ∷ items, rw (drawn, rest) refl, ap suc count, (g', is_item, are_items))

  -- Where random choices take elements, `_hot_set` and `generate_workload` return. The workload has
  -- as many items as were asked for, drawn one after the other from the seed: each has the name of a
  -- template that is chosen and its text, for a chosen element of its hot parameters where the number
  -- drawn is below `p_hot`, and then the set holds the text, and for cold parameters where it is not.
  pub generate_workload_items :
      IsRandom R
      → (n : ℕ) (p_hot : F.Num) (seed : ℕ)
      → (hot : List String) × (items : List (String × String)) × (hot_set F R strip ≡ some hot)
        × (generate_workload F R n p_hot seed ≡ some items)
        × (length items ≡ n)
        × AreItems p_hot hot (R.seeded seed) items
  unfolding generate_workload hot_set
  generate_workload_items random n p_hot seed =
      let (hot, rendered, covered) =
        hot_texts_of_total F R strip (templates R) (templates-IsWell R random) in
      let (items, rest, count, are_items) =
        items_from_total random p_hot hot n (R.seeded seed) covered in
      (hot, items, rendered, rest, count, are_items)
