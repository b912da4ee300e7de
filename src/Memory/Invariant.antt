-- ===== src/Memory/Invariant.antt =====
-- The invariant of `MemoryBuffer` and the operations that keep it.
use cacheopt.Base.{
  ℕ, ◌+◌, ◌≡◌, refl, ap, subst, ◌≤◌, String, Option, none, some, List, [], ◌∷◌, arith, length,
  length-append, sum_by, sum_by-append, Bool-cases, Option-cases, inl, inr,
}
use cacheopt.Dict.{Dict, lookup, insert, erase, move_to_end}
use cacheopt.Dict.Laws.{
  Distinct, lookup-erase_self, insert_absent, move_to_end-erase, Distinct-erase, Distinct-push,
  sum_by-erase, length-erase,
}
use cacheopt.Float.{Float}
use cacheopt.Value.{Value}
use cacheopt.Memory
use cacheopt.Memory.{
  CacheEntry, MemoryBuffer, init, evict, evict_all, stale_keys, invalidate, invalidate_tables,
  is_over, shrink, enforce_limits, forget, store_entry, has_expired, get_entry, new_entry,
}

module _ {N : Type 0} where
  abbrev pub entry_size : String × CacheEntry N → ℕ
  entry_size e = e.1.size_bytes

  -- Keys are distinct, and the byte counter is the sum of the sizes of the entries.
  pub record IsCounted (b : MemoryBuffer N) : Type 0 where
    pub distinct : Distinct b.store
    pub counted : b.bytes_used ≡ sum_by entry_size b.store

  -- The same, and both limits hold.
  pub record IsValid (b : MemoryBuffer N) : Type 0 where
    pub is_counted : IsCounted b
    pub entries_fit : length b.store ≤ b.max_entries
    pub bytes_fit : b.bytes_used ≤ b.max_bytes

  pub evict-IsCounted : (key : String) (b : MemoryBuffer N) → IsCounted b → IsCounted (evict key b)
  unfolding evict
  evict-IsCounted key b h = elim (Option-cases (lookup key b.store)) [
    | inl miss ↦ rw (miss, evict) h
    | inr (e, hit) ↦
        rw (hit, evict)
          (record {
            distinct = Distinct-erase key b.store h.distinct;
            counted = omega (arith, h.counted, sum_by-erase entry_size key e b.store hit);
          })
  ]

  -- Dropping an entry raises neither the number of entries nor the bytes, and keeps the limits.
  evict_le :
      (key : String) (b : MemoryBuffer N)
      → (length (evict key b).store ≤ length b.store)
        × ((evict key b).bytes_used ≤ b.bytes_used)
        × ((evict key b).max_entries ≡ b.max_entries)
        × ((evict key b).max_bytes ≡ b.max_bytes)
  unfolding evict
  evict_le key b = elim (Option-cases (lookup key b.store)) [
    | inl miss ↦ rw (miss, evict) (omega arith)
    | inr (e, hit) ↦ rw (hit, evict) (omega (arith, length-erase key e b.store hit))
  ]

  pub evict-IsValid : (key : String) (b : MemoryBuffer N) → IsValid b → IsValid (evict key b)
  evict-IsValid key b h = record {
    is_counted = evict-IsCounted key b h.is_counted;
    entries_fit = omega (arith, evict_le key b);
    bytes_fit = omega (arith, evict_le key b);
  }

  pub evict_all-IsValid :
      (ks : List String) (b : MemoryBuffer N) → IsValid b → IsValid (evict_all ks b)
  unfolding evict_all
  evict_all-IsValid [] b h = h
  evict_all-IsValid (k ∷ ks) b h = evict_all-IsValid ks (evict k b) (evict-IsValid k b h)

  -- The loop ends within the limits: with no entry left both tests fail.
  shrink-IsValid :
      (d : Dict (CacheEntry N)) (b : MemoryBuffer N)
      → b.store ≡ d
      → IsCounted b
      → IsValid (shrink d b)
  unfolding shrink
  shrink-IsValid [] b e h =
      let fit : (length b.store ≡ 0) × (sum_by entry_size b.store ≡ 0) = rw e (refl, refl) in
      record { is_counted = h; entries_fit = omega arith; bytes_fit = omega (arith, h.counted) }
  shrink-IsValid ((k, v) ∷ d) b e h = elim (Bool-cases (is_over b)) [
    | inl over ↦
        rw (over, shrink)
          (shrink-IsValid d _ refl (record {
            distinct = (subst Distinct e h.distinct).1;
            counted = omega (arith, h.counted, ap (sum_by entry_size) e);
          }))
    | inr fits ↦
        rw (fits, shrink)
          (record { is_counted = h; entries_fit = ground arith; bytes_fit = ground arith })
  ]

  pub forget-IsCounted :
      (key : String) (b : MemoryBuffer N)
      → IsCounted b
      → IsCounted (forget key b) × (lookup key (forget key b).store ≡ none)
  unfolding forget
  forget-IsCounted key b h = elim (Option-cases (lookup key b.store)) [
    | inl miss ↦ rw (miss, forget) (h, miss)
    | inr (e, hit) ↦
        rw (hit, forget)
          (
            record {
              distinct = Distinct-erase key b.store h.distinct;
              counted = omega (arith, h.counted, sum_by-erase entry_size key e b.store hit);
            },
            lookup-erase_self key b.store h.distinct,
          )
  ]

  -- Any write leaves a valid buffer, also of a buffer whose limits did not hold.
  pub store_entry-IsValid :
      (key : String) (entry : CacheEntry N) (b : MemoryBuffer N)
      → IsCounted b
      → IsValid (store_entry key entry b)
  unfolding store_entry
  store_entry-IsValid key entry b h =
      let (kept, absent) = forget-IsCounted key b h in
      shrink-IsValid (insert key entry (forget key b).store) _ refl (record {
        distinct =
            rw (insert_absent key entry (forget key b).store absent)
              (Distinct-push key entry _ kept.distinct absent);
        counted = rw (insert_absent key entry (forget key b).store absent) (
            omega (
              arith,
              kept.counted,
              sum_by-append entry_size (forget key b).store ((key, entry) ∷ []),
            ));
      })

  pub init-IsValid : (max_entries max_bytes : ℕ) → IsValid (init {N = N} max_entries max_bytes)
  unfolding init
  init-IsValid max_entries max_bytes = record {
    is_counted = record { distinct = tt; counted = refl };
    entries_fit = omega arith;
    bytes_fit = omega arith;
  }

  touch-IsValid :
      (key : String) (e : CacheEntry N) (b : MemoryBuffer N)
      → lookup key b.store ≡ some e
      → IsValid b
      → IsValid (record b { store = move_to_end key b.store; hits = b.hits + 1 })
  touch-IsValid key e b hit h = rw (move_to_end-erase key e b.store hit) (record {
    is_counted = record {
      distinct =
          Distinct-push key e _ (Distinct-erase key b.store h.is_counted.distinct)
            (lookup-erase_self key b.store h.is_counted.distinct);
      counted = omega (
        arith,
        h.is_counted.counted,
        sum_by-erase entry_size key e b.store hit,
        sum_by-append entry_size (erase key b.store) ((key, e) ∷ []),
      );
    };
    entries_fit = omega (
      arith,
      length-erase key e b.store hit,
      length-append {0} (erase key b.store) ((key, e) ∷ []),
    );
    bytes_fit = h.bytes_fit;
  })

  -- So do `invalidate` and `invalidate_tables`.
  pub invalidate-IsValid :
      (key : String) (b : MemoryBuffer N) → IsValid b → IsValid (invalidate key b)
  unfolding invalidate
  invalidate-IsValid key b h = evict-IsValid key b h

  pub invalidate_tables-IsValid :
      (tables : List String) (current : Dict ℕ) (b : MemoryBuffer N)
      → IsValid b
      → IsValid (invalidate_tables tables current b)
  unfolding invalidate_tables
  invalidate_tables-IsValid tables current b h =
      evict_all-IsValid (stale_keys tables current b.store) b h

module _ (F : Float) where
  open F use {Num}

  -- `get` keeps the invariant on a hit, a miss and an expiry.
  pub get-IsValid :
      (now : Num) (key : String) (b : MemoryBuffer Num)
      → IsValid b
      → IsValid (Memory.get F now key b).0
  unfolding Memory.get
  get-IsValid now key b h = elim (Option-cases (lookup key b.store)) [
    | inl miss ↦
        rw (miss, get_entry)
          (record {
            is_counted = record {
              distinct = h.is_counted.distinct;
              counted = h.is_counted.counted;
            };
            entries_fit = h.entries_fit;
            bytes_fit = h.bytes_fit;
          })
    | inr (e, hit) ↦ elim (Bool-cases (has_expired F e.expires_at now)) [
      | inl old ↦
          let v = evict-IsValid key b h in
          rw (hit, old, get_entry)
            (record {
              is_counted = record {
                distinct = v.is_counted.distinct;
                counted = v.is_counted.counted;
              };
              entries_fit = v.entries_fit;
              bytes_fit = v.bytes_fit;
            })
      | inr live ↦ rw (hit, live, get_entry) (touch-IsValid key e b hit h)
    ]
  ]

  -- `put` keeps the invariant.
  pub put-IsValid :
      (getsizeof : Value → ℕ) (now created : Num) (key : String) (value : Value)
      (table_versions : Dict ℕ) (ttl : Option Num) (b : MemoryBuffer Num)
      → IsValid b
      → IsValid (Memory.put F getsizeof now created key value table_versions ttl b)
  unfolding Memory.put
  put-IsValid getsizeof now created key value table_versions ttl b h =
      store_entry-IsValid key (new_entry F getsizeof now created value table_versions ttl) b
        h.is_counted
