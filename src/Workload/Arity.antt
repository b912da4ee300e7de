-- ===== src/Workload/Arity.antt =====
-- The lengths of the tuples of parameters that may be drawn for a template.
use cacheopt.Base.{
  ℕ, zero, suc, ◌<◌, ◌≡◌, refl, ap, String, Bool, true, Option, some, List, [], ◌∷◌, ◌==◌, ◌&&◌,
  arith, All, length, get_elem?, get_elem?_total,
}
use cacheopt.Workload.{
  Random, IsRandom, Template, choice, one_int, two_ints, int_and_choice, chosen, with_limit,
}
use cacheopt.Workload.Templates.{
  templates, revenue_by_region_last_n_days, daily_region_rollup, top_products_by_revenue,
  customer_lifetime_value, category_revenue_breakdown, region_macro_area_breakdown,
  signup_cohort_revenue, event_type_breakdown, single_region_point_lookup,
  revenue_by_region_last_n_days_sql, daily_region_rollup_sql, top_products_by_revenue_sql,
  customer_lifetime_value_sql, category_revenue_breakdown_sql, region_macro_area_breakdown_sql,
  signup_cohort_revenue_sql, event_type_breakdown_sql, single_region_point_lookup_sql,
}

-- Whether all of some tuples have a length.
abbrev pub have_length : ℕ → List (List ℕ) → Bool
have_length k [] = true
have_length k (ps ∷ more) = (length ps == k) && have_length k more

pub length-have_length :
    (k : ℕ) (pss : List (List ℕ)) (j : ℕ) (ps : List ℕ)
    → have_length k pss ≡ true
    → get_elem? pss j ≡ some ps
    → length ps ≡ k
length-have_length k [] j ps h found = cc
length-have_length k (qs ∷ more) zero ps h found =
    let same : qs ≡ ps = cc in rw (← same) (ground arith)
length-have_length k (qs ∷ more) (suc j) ps h found =
    length-have_length k more j ps (ground arith) found

pub some_templates : {N : Type 0} (R : Random N) → 0 < length (templates R)
unfolding templates
some_templates R = omega arith

module _ {N : Type 0} (R : Random N) where
  abbrev pub Renders : (List ℕ → Option String) → List ℕ → Type 0
  Renders f params = (sql : String) × (f params ≡ some sql)

  takes_one :
      (f : List ℕ → Option String)
      → ((x : ℕ) → Renders f (x ∷ []))
      → (ps : List ℕ) → length ps ≡ 1
      → Renders f ps
  takes_one f h [] e = absurd (omega (arith, e))
  takes_one f h (x ∷ []) e = h x
  takes_one f h (x ∷ y ∷ ps) e = absurd (omega (arith, e))

  takes_two :
      (f : List ℕ → Option String)
      → ((x y : ℕ) → Renders f (x ∷ y ∷ []))
      → (ps : List ℕ) → length ps ≡ 2
      → Renders f ps
  takes_two f h [] e = absurd (omega (arith, e))
  takes_two f h (x ∷ []) e = absurd (omega (arith, e))
  takes_two f h (x ∷ y ∷ []) e = h x y
  takes_two f h (x ∷ y ∷ z ∷ ps) e = absurd (omega (arith, e))

  -- `sql_fn` takes tuples of one length, which all tuples that may be drawn have.
  pub record IsWell (t : Template R) : Type 0 where
    pub arity : ℕ
    pub takes : (ps : List ℕ) → length ps ≡ arity → Renders t.sql_fn ps
    pub hot : have_length arity t.hot_params ≡ true
    pub some_hot : 0 < length t.hot_params
    pub cold :
        (g : R.State)
        → (ps : List ℕ) × (g' : R.State) × (t.cold_param_fn g ≡ some (ps, g')) × (length ps ≡ arity)

  choice_total :
      {A : Type 0} (xs : List A) (g : R.State)
      → IsRandom R
      → 0 < length xs
      → (i : ℕ) × (x : A) × (g' : R.State) × (get_elem? xs i ≡ some x)
        × (choice R xs g ≡ some (x, g'))
  unfolding choice chosen
  choice_total xs g random pos =
      let (i, g') = R.choice_index (length xs) g in
      let (x, found) = get_elem?_total xs i (random (length xs) g pos) in
      (i, x, g', found, ap (λ o. chosen R o g') found)

  revenue_by_region_last_n_days-IsWell : IsWell (revenue_by_region_last_n_days R)
  unfolding revenue_by_region_last_n_days revenue_by_region_last_n_days_sql one_int
  revenue_by_region_last_n_days-IsWell = record {
    arity = 1;
    takes = takes_one _ (λ x. (_, refl));
    hot = refl;
    some_hot = omega arith;
    cold = λ g. (_, _, refl, refl);
  }

  daily_region_rollup-IsWell : IsWell (daily_region_rollup R)
  unfolding daily_region_rollup daily_region_rollup_sql two_ints
  daily_region_rollup-IsWell = record {
    arity = 2;
    takes = takes_two _ (λ x y. (_, refl));
    hot = refl;
    some_hot = omega arith;
    cold = λ g. (_, _, refl, refl);
  }

  customer_lifetime_value-IsWell : IsWell (customer_lifetime_value R)
  unfolding customer_lifetime_value customer_lifetime_value_sql one_int
  customer_lifetime_value-IsWell = record {
    arity = 1;
    takes = takes_one _ (λ x. (_, refl));
    hot = refl;
    some_hot = omega arith;
    cold = λ g. (_, _, refl, refl);
  }

  category_revenue_breakdown-IsWell : IsWell (category_revenue_breakdown R)
  unfolding category_revenue_breakdown category_revenue_breakdown_sql one_int
  category_revenue_breakdown-IsWell = record {
    arity = 1;
    takes = takes_one _ (λ x. (_, refl));
    hot = refl;
    some_hot = omega arith;
    cold = λ g. (_, _, refl, refl);
  }

  region_macro_area_breakdown-IsWell : IsWell (region_macro_area_breakdown R)
  unfolding region_macro_area_breakdown region_macro_area_breakdown_sql one_int
  region_macro_area_breakdown-IsWell = record {
    arity = 1;
    takes = takes_one _ (λ x. (_, refl));
    hot = refl;
    some_hot = omega arith;
    cold = λ g. (_, _, refl, refl);
  }

  signup_cohort_revenue-IsWell : IsWell (signup_cohort_revenue R)
  unfolding signup_cohort_revenue signup_cohort_revenue_sql one_int
  signup_cohort_revenue-IsWell = record {
    arity = 1;
    takes = takes_one _ (λ x. (_, refl));
    hot = refl;
    some_hot = omega arith;
    cold = λ g. (_, _, refl, refl);
  }

  event_type_breakdown-IsWell : IsWell (event_type_breakdown R)
  unfolding event_type_breakdown event_type_breakdown_sql one_int
  event_type_breakdown-IsWell = record {
    arity = 1;
    takes = takes_one _ (λ x. (_, refl));
    hot = refl;
    some_hot = omega arith;
    cold = λ g. (_, _, refl, refl);
  }

  single_region_point_lookup-IsWell : IsWell (single_region_point_lookup R)
  unfolding single_region_point_lookup single_region_point_lookup_sql one_int
  single_region_point_lookup-IsWell = record {
    arity = 1;
    takes = takes_one _ (λ x. (_, refl));
    hot = refl;
    some_hot = omega arith;
    cold = λ g. (_, _, refl, refl);
  }

  top_products_by_revenue-IsWell : IsRandom R → IsWell (top_products_by_revenue R)
  unfolding top_products_by_revenue top_products_by_revenue_sql int_and_choice with_limit
  top_products_by_revenue-IsWell random = record {
    arity = 2;
    takes = takes_two _ (λ x y. (_, refl));
    hot = refl;
    some_hot = omega arith;
    cold = λ g.
        let (i, x, g', at, drawn) =
          choice_total (5 ∷ 10 ∷ 15 ∷ 25 ∷ []) (R.randint 1 180 g).1 random (omega arith) in
        ((R.randint 1 180 g).0 ∷ x ∷ [], g', ap (with_limit R (R.randint 1 180 g).0) drawn, refl);
  }

  pub templates-IsWell : IsRandom R → All IsWell (templates R)
  unfolding templates
  templates-IsWell random = (
    revenue_by_region_last_n_days-IsWell,
    (
      daily_region_rollup-IsWell,
      (
        top_products_by_revenue-IsWell random,
        (
          customer_lifetime_value-IsWell,
          (
            category_revenue_breakdown-IsWell,
            (
              region_macro_area_breakdown-IsWell,
              (
                signup_cohort_revenue-IsWell,
                (event_type_breakdown-IsWell, (single_region_point_lookup-IsWell, tt)),
              ),
            ),
          ),
        ),
      ),
    ),
  )
