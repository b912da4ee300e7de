-- ===== src/Memory/Calls.antt =====
-- Any sequence of calls of a `MemoryBuffer`, whatever the clock reads.
use cacheopt.Base.{ℕ, String, Option, List, [], ◌∷◌}
use cacheopt.Dict.{Dict}
use cacheopt.Float.{Float}
use cacheopt.Value.{Value}
use cacheopt.Memory
use cacheopt.Memory.{MemoryBuffer, CacheEntry, init}
use cacheopt.Memory.Invariant.{
  IsValid, get-IsValid, put-IsValid, invalidate-IsValid, invalidate_tables-IsValid,
}

pub data Call (N : Type 0) : Type 0 where
  get : N → String → Call N
  put : N → N → String → Value → Dict ℕ → Option N → Call N
  invalidate : String → Call N
  invalidate_tables : List String → Dict ℕ → Call N

module _ (F : Float) (getsizeof : Value → ℕ) where
  open F use {Num}

  unfoldable pub call : Call Num → MemoryBuffer Num → MemoryBuffer Num
  call (get now key) b = (Memory.get F now key b).0
  call (put now created key value versions ttl) b =
      Memory.put F getsizeof now created key value versions ttl b
  call (invalidate key) b = Memory.invalidate key b
  call (invalidate_tables tables current) b = Memory.invalidate_tables tables current b

  unfoldable pub run : List (Call Num) → MemoryBuffer Num → MemoryBuffer Num
  unfolding call
  run [] b = b
  run (c ∷ cs) b = run cs (call c b)

  pub call-IsValid : (c : Call Num) (b : MemoryBuffer Num) → IsValid b → IsValid (call c b)
  unfolding call
  call-IsValid (get now key) b h = get-IsValid F now key b h
  call-IsValid (put now created key value versions ttl) b h =
      put-IsValid F getsizeof now created key value versions ttl b h
  call-IsValid (invalidate key) b h = invalidate-IsValid key b h
  call-IsValid (invalidate_tables tables current) b h = invalidate_tables-IsValid tables current b h

  -- From a valid buffer, any calls lead to a valid buffer: keys are distinct, the byte counter is the
  -- sum of the entries' sizes, and neither the entry limit nor the byte limit is passed.
  pub run-IsValid : (cs : List (Call Num)) (b : MemoryBuffer Num) → IsValid b → IsValid (run cs b)
  unfolding run
  run-IsValid [] b h = h
  run-IsValid (c ∷ cs) b h = run-IsValid cs (call c b) (call-IsValid c b h)
