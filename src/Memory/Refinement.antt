-- ===== src/Memory/Refinement.antt =====
-- A `MemoryBuffer` as a map that may forget: what the calls of a run put, with what they withdrew.
use cacheopt.Base.{
  ℕ, ◌≡◌, refl, sym, ◌∙◌, ap, inl, inr, String, Option, none, some, List, [], ◌∷◌, dec_str, ite,
  if_pos, if_neg,
}
use cacheopt.Dict.{lookup}
use cacheopt.Float.{Float}
use cacheopt.Memory
use cacheopt.Memory.{
  CacheEntry, MemoryBuffer, init, evict, new_entry, store_entry, has_expired, is_stale_entry,
}
use cacheopt.Memory.Calls.{Call, get, put, invalidate, invalidate_tables, call, run, call-IsValid}
use cacheopt.Memory.Entries.{Every, store_entry_found}
use cacheopt.Memory.Invalidation.{lookup-invalidate_tables, unless_stale}
use cacheopt.Memory.Invariant.{IsValid, init-IsValid}
use cacheopt.Memory.Reads.{lookup-get, lookup-evict, get-live, live}
use cacheopt.Value.{Value}

module _ (F : Float) (getsizeof : Value → ℕ) where
  open F use {Num}

  -- The abstract cache: what each key holds.
  abbrev pub Spec : Type 0
  Spec = String → Option (CacheEntry Num)

  abbrev pub update : String → Option (CacheEntry Num) → Spec → Spec
  update key o f j = ite (dec_str j key) o (f j)

  -- The calls on the abstract cache, which forgets nothing but what it is told to drop.
  abbrev pub replay_call : Call Num → Spec → Spec
  replay_call (get now key) f = update key (live F now (f key)) f
  replay_call (put now created key value versions ttl) f =
      update key (some (new_entry F getsizeof now created value versions ttl)) f
  replay_call (invalidate key) f = update key none f
  replay_call (invalidate_tables tables current) f = λ j. unless_stale tables current (f j)

  unfoldable pub replay : List (Call Num) → Spec → Spec
  replay [] f = f
  replay (c ∷ cs) f = replay cs (replay_call c f)

  -- What the buffer holds, the abstract cache holds.
  abbrev pub Forgets : MemoryBuffer Num → Spec → Type 0
  Forgets b f = Every (λ k e. f k ≡ some e) b

  weaken :
      (o p : Option (CacheEntry Num)) (e : CacheEntry Num)
      (g : Option (CacheEntry Num) → Option (CacheEntry Num))
      → g none ≡ none
      → ((e' : CacheEntry Num) → o ≡ some e' → p ≡ some e')
      → g o ≡ some e
      → g p ≡ some e
  weaken none p e g empty sub h = let gone = sym empty ∙ h in cc
  weaken (some e') p e g empty sub h = rw (sub e' refl) h

  ite_keeps :
      (k key : String) (o p c d : Option (CacheEntry Num)) (e : CacheEntry Num)
      → (o ≡ some e → p ≡ some e)
      → (c ≡ some e → d ≡ some e)
      → ite (dec_str k key) o c ≡ some e
      → ite (dec_str k key) p d ≡ some e
  ite_keeps k key o p c d e self other h = elim (dec_str k key) [
    | yes q ↦ if_pos (dec_str k key) q p d ∙ self (sym (if_pos (dec_str k key) q o c) ∙ h)
    | no q ↦ if_neg (dec_str k key) q p d ∙ other (sym (if_neg (dec_str k key) q o c) ∙ h)
  ]

  call-Forgets :
      (c : Call Num) (b : MemoryBuffer Num) (f : Spec)
      → IsValid b
      → Forgets b f
      → Forgets (call F getsizeof c b) (replay_call c f)
  unfolding call Memory.put Memory.invalidate
  call-Forgets (get now key) b f v h k e found =
      let old = sym (lookup-get F now key b k v.is_counted.distinct) ∙ found in
      ite_keeps k key (live F now (lookup key b.store)) (live F now (f key)) (lookup k b.store)
        (f k) e (weaken (lookup key b.store) (f key) e (live F now) refl (h key)) (h k e) old
  call-Forgets (put now created key value versions ttl) b f v h k e found =
      elim (store_entry_found k key e _ b v found) [
        | inl (p, q) ↦ if_pos (dec_str k key) p _ _ ∙ ap some (sym q)
        | inr (ne, old) ↦ if_neg (dec_str k key) ne _ _ ∙ h k e old
      ]
  call-Forgets (invalidate key) b f v h k e found =
      let old = sym (lookup-evict k key b v.is_counted.distinct) ∙ found in
      ite_keeps k key none none (lookup k b.store) (f k) e (λ p. p) (h k e) old
  call-Forgets (invalidate_tables tables current) b f v h k e found =
      let old = sym (lookup-invalidate_tables tables current b v k) ∙ found in
      weaken (lookup k b.store) (f k) e (unless_stale tables current) refl (h k) old

  -- Any calls on a valid buffer that holds what an abstract cache holds lead to such a buffer, where
  -- the abstract cache makes the same calls and forgets nothing for want of room.
  pub run_refines :
      (cs : List (Call Num)) (b : MemoryBuffer Num) (f : Spec)
      → IsValid b
      → Forgets b f
      → IsValid (run F getsizeof cs b) × Forgets (run F getsizeof cs b) (replay cs f)
  unfolding run replay
  run_refines [] b f v h = (v, h)
  run_refines (c ∷ cs) b f v h =
      run_refines cs (call F getsizeof c b) (replay_call c f) (call-IsValid F getsizeof c b v)
        (call-Forgets c b f v h)

  -- After any calls on a new buffer, an entry that `get` returns is the one that was put last under
  -- its key, and it has not been invalidated, gone stale for an invalidation, or expired since.
  pub get-run :
      (cs : List (Call Num)) (entries bytes : ℕ) (now : Num) (key : String) (e : CacheEntry Num)
      → (Memory.get F now key (run F getsizeof cs (init entries bytes))).1 ≡ some e
      → live F now (replay cs (λ k. none) key) ≡ some e
  unfolding init lookup
  get-run cs entries bytes now key e found =
      let b = run F getsizeof cs (init entries bytes) in
      let (v, h) =
        run_refines cs (init entries bytes) (λ k. none) (init-IsValid entries bytes)
          (λ k x here. here) in
      weaken (lookup key b.store) (replay cs (λ k. none) key) e (live F now) refl (h key)
        (sym (get-live F now key b) ∙ found)
