-- ===== src/Memory/Loops.antt =====
-- src/cacheopt/cache/memory_buffer.py: the `while` loop of `_enforce_limits`, round by round.
use cacheopt.Base.{
  ℕ, zero, suc, ◌+◌, ◌-◌, ◌<◌, ◌≡◌, ◌∙◌, refl, ap, inl, inr, true, false, Option, none, some, [],
  ◌∷◌, arith, length, Bool-cases,
}
use cacheopt.Dict.{Dict}
use cacheopt.Memory.{MemoryBuffer, CacheEntry, is_over, shrink, enforce_limits}

module _ {N : Type 0} where
  -- The body of the loop, without the entry that it drops.
  drop_oldest : MemoryBuffer N → Dict (CacheEntry N) → Option (MemoryBuffer N)
  drop_oldest b [] = none
  drop_oldest b ((oldest_key, oldest_entry) ∷ rest) = some (record b {
    store = rest;
    bytes_used = b.bytes_used - oldest_entry.size_bytes;
    evictions = b.evictions + 1;
  })

  -- One round: `none` where the condition of the loop fails, or the store is empty and it breaks.
  unfoldable pub round : MemoryBuffer N → Option (MemoryBuffer N)
  unfolding drop_oldest is_over
  round b = elim (is_over b) [ false ↦ none | true ↦ drop_oldest b b.store ]

  -- The loop with at most as many rounds as the first argument; `none` where it has not left then.
  unfoldable pub rounds : ℕ → MemoryBuffer N → Option (MemoryBuffer N)
  rounds zero b = none
  rounds (suc fuel) b = elim (round b) [ none ↦ some b | some b' ↦ rounds fuel b' ]

  round_fits : (b : MemoryBuffer N) → is_over b ≡ false → round b ≡ none
  unfolding round
  round_fits b h = rw (h, round) refl

  round_over : (b : MemoryBuffer N) → is_over b ≡ true → round b ≡ drop_oldest b b.store
  unfolding round
  round_over b h = rw (h, round) refl

  shrink_fits : (d : Dict (CacheEntry N)) (b : MemoryBuffer N) → is_over b ≡ false → shrink d b ≡ b
  unfolding shrink
  shrink_fits [] b h = refl
  shrink_fits ((k, e) ∷ rest) b h = rw (h, shrink) refl

  rounds-shrink :
      (d : Dict (CacheEntry N)) (b : MemoryBuffer N) (fuel : ℕ)
      → b.store ≡ d
      → length d < fuel
      → rounds fuel b ≡ some (shrink d b)
  unfolding rounds shrink drop_oldest
  rounds-shrink d b zero at enough = absurd (omega arith)
  rounds-shrink [] b (suc fuel) at enough = elim (Bool-cases (is_over b)) [
    | inl over ↦
        let ends : round b ≡ none = round_over b over ∙ ap (drop_oldest b) at in
        rw (ends, rounds) refl
    | inr fits ↦ rw (round_fits b fits, rounds) refl
  ]
  rounds-shrink ((k, e) ∷ rest) b (suc fuel) at enough = elim (Bool-cases (is_over b)) [
    | inl over ↦
        let goes_on : round b ≡ drop_oldest b ((k, e) ∷ rest) =
          round_over b over ∙ ap (drop_oldest b) at in
        rw (goes_on, rounds, over, shrink) (rounds-shrink rest _ fuel refl (omega arith))
    | inr fits ↦ rw (round_fits b fits, rounds, fits, shrink) refl
  ]

  -- The loop of `_enforce_limits` leaves: one round more than the store has entries is enough, whatever
  -- the limits and the counted bytes are, and it leaves the buffer of `enforce_limits`.
  pub rounds-enforce_limits :
      (b : MemoryBuffer N) (fuel : ℕ)
      → length b.store < fuel
      → rounds fuel b ≡ some (enforce_limits b)
  unfolding enforce_limits
  rounds-enforce_limits b fuel enough = rounds-shrink b.store b fuel refl enough
