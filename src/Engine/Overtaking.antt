-- ===== src/Engine/Overtaking.antt =====
-- Requests under way, and the statements that overtake them.
use cacheopt.Base.{
  ℕ, zero, suc, ◌≡◌, refl, ◌∙◌, subst, String, true, false, Option, none, some, List, [], ◌∷◌,
  arith, get_elem?,
}
use cacheopt.CostModel.{RoutingPlan}
use cacheopt.Engine
use cacheopt.Engine.{Cluster, Node, admits, world, leave, returned}
use cacheopt.Engine.Coherence.{drop_state, IsSetting, read}
use cacheopt.Engine.Flights.{Flight, remove, depart, overtake, overtake_all}
use cacheopt.Engine.Serving.{read-run}
use cacheopt.Engine.Writes.{WritesOnly, get_elem?-map}
use cacheopt.Planner.{Setting, effective}
use cacheopt.Planner.Phases.{Begun, ended, pending}
use cacheopt.Value.{Values}
use cacheopt.Versions.{Event}

same_some : {A : Type 0} {x y : A} → some x ≡ some y → x ≡ y
same_some h = cc

get_elem?-remove :
    {A : Type 0} (i j : ℕ) (xs : List A) (x : A)
    → get_elem? (remove i xs) j ≡ some x
    → (k : ℕ) × (get_elem? xs k ≡ some x)
unfolding remove
get_elem?-remove i j [] x h = (j, h)
get_elem?-remove zero j (y ∷ xs) x h = (suc j, h)
get_elem?-remove (suc i) zero (y ∷ xs) x h = (zero, h)
get_elem?-remove (suc i) (suc j) (y ∷ xs) x h =
    let (k, there) = get_elem?-remove i j xs x h in (suc k, there)

module _ (S : Setting) where
  -- A request under way that is not overtaken holds the present answer of the database.
  abbrev pub IsUpToDate : S.database.State → Flight S → Type 0
  IsUpToDate d a =
      (admits S.sqlglot a.sql ≡ true)
      × (a.overtaken ≡ false → read S a.sql d ≡ some (a.columns, a.rows))

  abbrev pub AreUpToDate : S.database.State → List (Flight S) → Type 0
  AreUpToDate d fs = (k : ℕ) (a : Flight S) → get_elem? fs k ≡ some a → IsUpToDate d a

  pub ran_of_read :
      (d : S.database.State) (columns rows : Values)
      (o : Option (Values × Values × S.database.State))
      → drop_state S o ≡ some (columns, rows)
      → (d' : S.database.State) × (o ≡ some (columns, rows, d'))
  ran_of_read d columns rows none h = cc
  ran_of_read d columns rows (some (cs, rs, d')) h = (d', cc)

  pub remove-AreUpToDate :
      (d : S.database.State) (k : ℕ) (fs : List (Flight S))
      → AreUpToDate d fs
      → AreUpToDate d (remove k fs)
  remove-AreUpToDate d k fs h j a at = let (i, there) = get_elem?-remove k j fs a at in h i a there

  pub overtake_all-AreUpToDate :
      (table : String) (d : S.database.State) (fs : List (Flight S))
      (o : Option (Values × Values × S.database.State)) (d₁ : S.database.State)
      → AreUpToDate d fs
      → (o ≡ none → d₁ ≡ d)
      → ((cs rs : Values) (d' : S.database.State)
          → o ≡ some (cs, rs, d')
          → (d₁ ≡ d') × WritesOnly S table d d')
      → AreUpToDate d₁ (overtake_all S table o fs)
  unfolding overtake_all
  overtake_all-AreUpToDate table d fs none d₁ h same only k a at = rw (same refl) (h k a at)
  overtake_all-AreUpToDate table d fs (some (cs, rs, d')) d₁ h same only k a at =
      let (b, there, made) = get_elem?-map (overtake S table) fs k a at in
      let (admitted, held) = h k b there in
      let (after_it, unchanged) = only cs rs d' refl in
      subst (IsUpToDate d₁) made (
        admitted,
        λ quiet. rw after_it (unchanged b.sql admitted (ground arith) ∙ held (ground arith)),
      )

  database-published :
      (c : Cluster S) (o : Option (ℕ × Event × S.runtime.redis.State))
      → (Engine.published S c o).1.database ≡ c.database
  unfolding Engine.write
  database-published c none = refl
  database-published c (some (version, e, s)) = refl

  pub raised_write :
      (table dml_sql : String) (c : Cluster S)
      → S.database.execute dml_sql c.database ≡ none
      → (Engine.write S table dml_sql c).1.database ≡ c.database
  unfolding Engine.write
  raised_write table dml_sql c raised = rw (raised, Engine.write) refl

  pub no_flight : (k : ℕ) (a : Flight S) → get_elem? [] k ≡ some a → ⊥
  no_flight k a h = cc

  pub database-write :
      (table dml_sql : String) (c : Cluster S) (cs rs : Values) (d' : S.database.State)
      → S.database.execute dml_sql c.database ≡ some (cs, rs, d')
      → (Engine.write S table dml_sql c).1.database ≡ d'
  unfolding Engine.write
  database-write table dml_sql c cs rs d' ran =
      rw (ran, Engine.write) (database-published (record c { database = d' }) _)

  module _ (ok : IsSetting S) where
    pub depart-AreUpToDate :
        (i : ℕ) (sql : String) (b : Begun S) (d : S.database.State) (fs : List (Flight S))
        → admits S.sqlglot sql ≡ true
        → ((plan : RoutingPlan S.runtime.float.Num) (columns rows : Values)
            → b ≡ pending plan columns rows
            → (d' : S.database.State) × (S.database.execute (effective S sql).sql d
                ≡ some (columns, rows, d')))
        → AreUpToDate d fs
        → AreUpToDate d (depart S i sql b fs)
    unfolding depart
    depart-AreUpToDate i sql (ended o) d fs admitted is_read h k a at = h k a at
    depart-AreUpToDate i sql (pending plan columns rows) d fs admitted is_read h zero a at =
        let (d', ran) = is_read plan columns rows refl in
        subst (IsUpToDate d) (same_some at)
          (admitted, λ quiet. read-run S ok (λ t. 0) d sql columns rows d' ran)
    depart-AreUpToDate i sql (pending plan columns rows) d fs admitted is_read h (suc k) a at =
        h k a at
