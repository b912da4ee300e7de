-- ===== src/Workload/HotSet.antt =====
-- `_hot_set`: it returns, and it holds the text of each hot parameters of each template.
use mathlib.Core.Bool.{false≢true}
use cacheopt.Base.{
  ℕ, zero, suc, ◌≡◌, refl, sym, ◌∙◌, subst, String, true, some, List, [], ◌∷◌, ◌++◌, dec_str,
  if_pos, if_neg, arith, All, get_elem?,
}
use cacheopt.Float.{Float}
use cacheopt.Memory.{is_member}
use cacheopt.Workload.{Random, Template}
use cacheopt.Workload.Arity.{have_length, IsWell}
use cacheopt.Workload.Traffic.{hot_texts, hot_texts_of}

is_member_tail :
    (x y : String) (xs : List String) → is_member x xs ≡ true → is_member x (y ∷ xs) ≡ true
unfolding is_member
is_member_tail x y xs h = elim (dec_str x y) [
  | yes p ↦ if_pos (dec_str x y) p true (is_member x xs)
  | no p ↦ if_neg (dec_str x y) p true (is_member x xs) ∙ h
]

is_member_head : (x : String) (xs : List String) → is_member x (x ∷ xs) ≡ true
unfolding is_member
is_member_head x xs = if_pos (dec_str x x) refl true (is_member x xs)

is_member_right :
    (x : String) (xs ys : List String) → is_member x ys ≡ true → is_member x (xs ++ ys) ≡ true
is_member_right x [] ys h = h
is_member_right x (y ∷ xs) ys h = is_member_tail x y (xs ++ ys) (is_member_right x xs ys h)

is_member_left :
    (x : String) (xs ys : List String) → is_member x xs ≡ true → is_member x (xs ++ ys) ≡ true
unfolding is_member
is_member_left x [] ys h = absurd (false≢true h)
is_member_left x (y ∷ xs) ys h = elim (dec_str x y) [
  | yes p ↦ if_pos (dec_str x y) p true (is_member x (xs ++ ys))
  | no p ↦
      if_neg (dec_str x y) p true (is_member x (xs ++ ys))
      ∙ is_member_left x xs ys (sym (if_neg (dec_str x y) p true (is_member x xs)) ∙ h)
]

module _ (F : Float) (R : Random F.Num) (strip : String → String) where
  -- The texts hold that of each tuple.
  unfoldable pub Covers : (t : Template R) → List (List ℕ) → List String → Type 0
  Covers t pss texts =
      (j : ℕ) (ps : List ℕ) (sql : String)
      → get_elem? pss j ≡ some ps
      → t.sql_fn ps ≡ some sql
      → is_member (strip sql) texts ≡ true

  covers_cons :
      (t : Template R) (ps : List ℕ) (more : List (List ℕ)) (sql : String) (texts : List String)
      → t.sql_fn ps ≡ some sql
      → Covers t more texts
      → Covers t (ps ∷ more) (strip sql ∷ texts)
  unfolding Covers
  covers_cons t ps more sql texts rendered rest zero ps' sql' at found =
      let same : sql ≡ sql' = cc in rw (← same) (is_member_head (strip sql) texts)
  covers_cons t ps more sql texts rendered rest (suc j) ps' sql' at found =
      is_member_tail (strip sql') (strip sql) texts (rest j ps' sql' at found)

  hot_texts_total :
      (t : Template R) (w : IsWell R t) (pss : List (List ℕ))
      → have_length w.arity pss ≡ true
      → (texts : List String) × (hot_texts F R strip t pss ≡ some texts) × Covers t pss texts
  unfolding hot_texts Covers
  hot_texts_total t w [] fits = ([], refl, λ j ps sql at found. cc)
  hot_texts_total t w (ps ∷ more) fits =
      let (sql, rendered) = w.takes ps (ground arith) in
      let (texts, rest, covered) = hot_texts_total t w more (ground arith) in
      (
        strip sql ∷ texts,
        rw (rendered, rest) refl,
        covers_cons t ps more sql texts rendered covered,
      )

  -- Each template is covered.
  unfoldable pub CoversAll : List (Template R) → List String → Type 0
  CoversAll ts texts =
      (i : ℕ) (t : Template R) → get_elem? ts i ≡ some t → Covers t t.hot_params texts

  covers_append :
      (t : Template R) (ts : List (Template R)) (own others : List String)
      → Covers t t.hot_params own
      → CoversAll ts others
      → CoversAll (t ∷ ts) (own ++ others)
  unfolding Covers CoversAll
  covers_append t ts own others h k zero u at j ps sql there found =
      let same : t ≡ u = cc in
      let covered = subst (λ (v : Template R). Covers v v.hot_params own) same h in
      is_member_left (strip sql) own others (covered j ps sql there found)
  covers_append t ts own others h k (suc i) u at j ps sql there found =
      is_member_right (strip sql) own others (k i u at j ps sql there found)

  pub hot_texts_of_total :
      (ts : List (Template R))
      → All (IsWell R) ts
      → (hot : List String) × (hot_texts_of F R strip ts ≡ some hot) × CoversAll ts hot
  unfolding hot_texts_of CoversAll
  hot_texts_of_total [] ws = ([], refl, λ i t at. cc)
  hot_texts_of_total (t ∷ ts) ws =
      let (texts, rendered, own) = hot_texts_total t ws.0 t.hot_params ws.0.hot in
      let (hot, rest, others) = hot_texts_of_total ts ws.1 in
      (texts ++ hot, rw (rendered, rest) refl, covers_append t ts texts hot own others)
