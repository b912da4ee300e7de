-- ===== src/Engine/Routing.antt =====
-- `EngineCluster.route`: the range of the choice, and the turns without a key.
use cacheopt.Base.{
  ℕ, zero, suc, ◌+◌, ◌-◌, ◌%◌, ◌<◌, ◌≡◌, sym, ◌∙◌, ap, Option, none, some, arith, ltb, Bool-cases,
  inl, inr,
}
use native.Mathlib.Nat.{mod-add-mod, mod-eq_of_lt, mod-lt, mod-eq-sub-mod}
use cacheopt.Engine.{route}

-- The node that call `k` of those without a key chooses, from the counter `rr` on.
unfoldable pub turn : ℕ → ℕ → ℕ → ℕ
turn num_nodes rr zero = (route none rr num_nodes).0
turn num_nodes rr (suc k) = turn num_nodes (route none rr num_nodes).1 k

pub route-lt : (key : Option ℕ) (rr n : ℕ) → 0 < n → (route key rr n).0 < n
unfolding route
route-lt (some d) rr n pos = grind arith
route-lt none rr n pos = grind arith

turn_mod : (n rr k : ℕ) → turn n rr k ≡ (rr + k) % n
unfolding turn route
turn_mod n rr zero = ap (λ (x : ℕ). x % n) (omega arith)
turn_mod n rr (suc k) = turn_mod n (rr + 1) k ∙ ap (λ (x : ℕ). x % n) (omega arith)

shifted : (n rr k : ℕ) → (rr + k) % n ≡ (rr % n + k) % n
shifted n rr k = sym (mod-add-mod rr n k)

wrapped : (n i : ℕ) → i < n → (i + n) % n ≡ i
wrapped n i h = mod-eq-sub-mod (omega arith) ∙ ap (λ (x : ℕ). x % n) (omega arith) ∙ mod-eq_of_lt h

-- Among `n` calls without a key in a row, from any counter on, there is one for each of `n` nodes.
pub turn_total : (n rr i : ℕ) → i < n → (k : ℕ) × (k < n) × (turn n rr k ≡ i)
turn_total n rr i h =
    let below : rr % n < n = mod-lt rr (omega arith) in
    elim (Bool-cases (ltb i (rr % n))) [
      | inl before ↦ (
        i + n - rr % n,
        ground arith,
        turn_mod n rr (i + n - rr % n)
            ∙ shifted n rr (i + n - rr % n)
            ∙ ap (λ (x : ℕ). x % n) (ground arith)
            ∙ wrapped n i h,
      )
      | inr behind ↦ (
        i - rr % n,
        ground arith,
        turn_mod n rr (i - rr % n)
            ∙ shifted n rr (i - rr % n)
            ∙ ap (λ (x : ℕ). x % n) (ground arith)
            ∙ mod-eq_of_lt h,
      )
    ]
