-- ===== src/Stats/History.antt =====
-- What the tracker knows of a template after any sequence of `record` calls.
use cacheopt.Base.{
  ℕ, ◌+◌, ◌≤◌, ◌≡◌, refl, ap, ◌∙◌, sym, String, Option, none, some, List, [], ◌∷◌, ◌++◌, arith,
  dec_str, ite, if_pos, if_neg, length, length-append, ltb, Bool-cases, inl, inr, or_else,
}
use Prim.Native.Nat.{min}
use mathlib.Core.List.{append_assoc, append-nil}
use cacheopt.Dict.{lookup}
use cacheopt.Dict.Laws.{lookup-insert}
use cacheopt.Float.{Float}
use cacheopt.Stats.{
  TemplateStats, AccessPatternTracker, drop_oldest, append_bounded, observe, new_template,
  record_query,
}

module _ {ℓ} {A : Type ℓ} where
  pub length-drop_oldest : (n : ℕ) (xs : List A) → length (drop_oldest n xs) ≡ min n (length xs)
  unfolding drop_oldest
  length-drop_oldest n [] = omega arith
  length-drop_oldest n (x ∷ xs) = ground (arith, length-drop_oldest n xs)

  -- What stays is an end of the list.
  pub drop_oldest-suffix :
      (n : ℕ) (xs : List A) → (front : List A) × (front ++ drop_oldest n xs ≡ xs)
  unfolding drop_oldest
  drop_oldest-suffix n [] = ([], refl)
  drop_oldest-suffix n (x ∷ xs) = elim (Bool-cases (ltb n (length (x ∷ xs)))) [
    | inl long ↦ let (front, e) = drop_oldest-suffix n xs in (x ∷ front, rw (long) (ap (◌∷◌ x) e))
    | inr short ↦ ([], rw (short) refl)
  ]

  drop_oldest_fits : (n : ℕ) (xs : List A) → length xs ≤ n → drop_oldest n xs ≡ xs
  unfolding drop_oldest
  drop_oldest_fits n [] h = refl
  drop_oldest_fits n (x ∷ xs) h = ground arith

  -- Elements that have left a bounded deque do not matter for what stays later.
  pub drop_oldest_twice :
      (n : ℕ) (xs ys : List A) → drop_oldest n (drop_oldest n xs ++ ys) ≡ drop_oldest n (xs ++ ys)
  unfolding drop_oldest
  drop_oldest_twice n [] ys = refl
  drop_oldest_twice n (x ∷ xs) ys = elim (Bool-cases (ltb n (length (x ∷ xs)))) [
    | inl long ↦ rw (long) (ground (arith, drop_oldest_twice n xs ys, length-append xs ys))
    | inr short ↦ rw (short) refl
  ]

module _ (F : Float) where
  open F use {Num}

  -- A call of `record`: its template, its latency, and its reading of the clock.
  pub record Sample : Type 0 where
    pub template_id : String
    pub latency_ms : Num
    pub now : Num

  unfoldable pub record_all : List Sample → AccessPatternTracker F → AccessPatternTracker F
  record_all [] tracker = tracker
  record_all (c ∷ cs) tracker =
      record_all cs (record_query F c.template_id c.latency_ms c.now tracker)

  -- The latencies recorded for one template, oldest first.
  unfoldable pub latencies : String → List Sample → List Num
  latencies t [] = []
  latencies t (c ∷ cs) =
      ite (dec_str t c.template_id) (c.latency_ms ∷ latencies t cs) (latencies t cs)

  abbrev pub seen : Option (TemplateStats Num) → ℕ
  seen none = 0
  seen (some t) = t.count

  abbrev pub history : Option (TemplateStats Num) → List Num
  history none = []
  history (some t) = t.latency_history_ms

  observed :
      (window : ℕ) (now latency : Num) (o : Option (TemplateStats Num))
      → ((observe F window now latency (or_else o (new_template F))).count ≡ seen o + 1)
        × ((observe F window now latency (or_else o (new_template F))).latency_history_ms
            ≡ append_bounded window (history o) latency)
  unfolding observe new_template append_bounded
  observed window now latency none = (omega arith, refl)
  observed window now latency (some ts) = (refl, refl)

  -- What one call changes: the count and the history of its own template.
  recorded :
      (c : Sample) (tracker : AccessPatternTracker F) (t : String)
      → length (history (lookup t tracker.templates)) ≤ tracker.history_window
      → (seen (lookup t (record_query F c.template_id c.latency_ms c.now tracker).templates)
          ≡ seen (lookup t tracker.templates) + length (latencies t (c ∷ [])))
        × (history (lookup t (record_query F c.template_id c.latency_ms c.now tracker).templates)
            ≡ drop_oldest tracker.history_window
                (history (lookup t tracker.templates) ++ latencies t (c ∷ [])))
  unfolding record_query latencies append_bounded
  recorded c tracker t fits = elim (dec_str t c.template_id) [
    | yes p ↦
        let o = observed tracker.history_window c.now c.latency_ms (lookup t tracker.templates) in
        rw
          (
            lookup-insert,
            if_pos (dec_str t c.template_id) p,
            if_pos (dec_str t c.template_id) p,
            ← p,
          )
          (o.0, o.1)
    | no p ↦
        rw (lookup-insert, if_neg (dec_str t c.template_id) p, if_neg (dec_str t c.template_id) p)
          (omega arith, sym (drop_oldest_fits _ _ (rw append-nil fits) ∙ append-nil _))
  ]

  latencies-cons :
      (t : String) (c : Sample) (cs : List Sample)
      → latencies t (c ∷ cs) ≡ latencies t (c ∷ []) ++ latencies t cs
  unfolding latencies
  latencies-cons t c cs = ground arith

  window_kept :
      (c : Sample) (tracker : AccessPatternTracker F)
      → (record_query F c.template_id c.latency_ms c.now tracker).history_window
        ≡ tracker.history_window
  unfolding record_query
  window_kept c tracker = refl

  -- From a tracker whose histories are within the window: a template's count goes up by the number of
  -- its calls, and its history is the last `history_window` of its old history and its new latencies.
  pub record_all-history :
      (cs : List Sample) (tracker : AccessPatternTracker F) (t : String)
      → length (history (lookup t tracker.templates)) ≤ tracker.history_window
      → (seen (lookup t (record_all cs tracker).templates)
          ≡ seen (lookup t tracker.templates) + length (latencies t cs))
        × (history (lookup t (record_all cs tracker).templates)
            ≡ drop_oldest tracker.history_window
                (history (lookup t tracker.templates) ++ latencies t cs))
  unfolding record_all latencies
  record_all-history [] tracker t fits =
      (omega arith, sym (drop_oldest_fits _ _ (rw append-nil fits) ∙ append-nil _))
  record_all-history (c ∷ cs) tracker t fits =
      let r = recorded c tracker t fits in
      let w = window_kept c tracker in
      let ih = record_all-history cs (record_query F c.template_id c.latency_ms c.now tracker) t (
        rw (r.1, w)
          (omega (
            arith,
            length-drop_oldest tracker.history_window
                (history (lookup t tracker.templates) ++ latencies t (c ∷ [])),
          ))) in
      let split = latencies-cons t c cs in
      (
        omega (
          arith,
          ih.0,
          r.0,
          ap (length {A = Num}) split,
          length-append {0} (latencies t (c ∷ [])) (latencies t cs),
        ),
        ih.1
            ∙ rw (w, r.1)
                (drop_oldest_twice tracker.history_window _ (latencies t cs)
                  ∙ ap (drop_oldest tracker.history_window) (
                      append_assoc (history (lookup t tracker.templates)) (latencies t (c ∷ [])) _
                      ∙ ap (λ (l : List Num). history (lookup t tracker.templates) ++ l)
                          (sym split))),
      )
