-- ===== src/Stats.antt =====
-- src/cacheopt/stats.py: `StatsCatalog`, `TemplateStats` and `AccessPatternTracker`.
pub mod Catalog
pub mod History
pub mod Percentiles
use cacheopt.Base.{
  ℕ, zero, suc, ◌+◌, ◌-◌, ◌≤◌, String, Bool, false, true, Option, none, some, List, [], ◌∷◌, ◌++◌,
  length, get_elem?, ltb, if◌then◌else◌, sum_by, or_else, ◌==◌,
}
use Prim.Native.Nat.{min}
use cacheopt.Dict.{Dict, lookup, insert, keys}
use cacheopt.Float.{Float, float_max}
use cacheopt.Value.{Value}

pub record TableStats : Type 0 where
  pub row_count : ℕ
  pub approx_distinct : Dict ℕ
  pub column_min_max : Dict (Value × Value)

-- `StatsCatalog._tables`
abbrev pub StatsCatalog : Type 0
StatsCatalog = Dict TableStats

count_rows : Option TableStats → ℕ
count_rows none = 0
count_rows (some stats) = stats.row_count

unfoldable pub total_rows : List String → StatsCatalog → ℕ
unfolding count_rows
total_rows tables catalog = sum_by (λ t. count_rows (lookup t catalog)) tables

pub record TemplateStats (N : Type 0) : Type 0 where
  pub count : ℕ
  pub last_seen : N
  pub ewma_interarrival_s : Option N
  pub latency_history_ms : List N

-- `deque(maxlen=n).append(x)`: the oldest element leaves a full deque.
unfoldable pub drop_oldest {ℓ} : {A : Type ℓ} → ℕ → List A → List A
drop_oldest n [] = []
drop_oldest n (x ∷ xs) =
    let rest = drop_oldest n xs in if ltb n (length (x ∷ xs)) then rest else x ∷ xs

unfoldable pub append_bounded {ℓ} : {A : Type ℓ} → ℕ → List A → A → List A
unfolding drop_oldest
append_bounded maxlen xs x = drop_oldest maxlen (xs ++ x ∷ [])

module _ (F : Float) where
  open F use {Num, num, decimal, add, sub, mul, div, lt, ceil, neg, log, log1p, exp}

  unfoldable pub next_ewma : Num → Option Num → Num
  next_ewma gap none = gap
  next_ewma gap (some old) =
      let alpha = decimal 3 10 in add (mul alpha gap) (mul (sub (num 1) alpha) old)

  -- `maxlen` is the bound of the deque.
  unfoldable pub observe : ℕ → Num → Num → TemplateStats Num → TemplateStats Num
  unfolding next_ewma append_bounded
  observe maxlen now latency_ms t = record {
    count = t.count + 1;
    last_seen = now;
    ewma_interarrival_s =
        if ltb 0 t.count
        then some (next_ewma (sub now t.last_seen) t.ewma_interarrival_s)
        else t.ewma_interarrival_s;
    latency_history_ms = append_bounded maxlen t.latency_history_ms latency_ms;
  }

  -- `sorted`: stable, by `<`.
  unfoldable pub insert_sorted : Num → List Num → List Num
  insert_sorted x [] = x ∷ []
  insert_sorted x (y ∷ ys) =
      let rest = insert_sorted x ys in if lt y x then y ∷ rest else x ∷ y ∷ ys

  unfoldable pub sorted : List Num → List Num
  unfolding insert_sorted
  sorted [] = []
  sorted (x ∷ xs) = insert_sorted x (sorted xs)

  -- `min(len(s) - 1, math.ceil(0.95 * len(s)) - 1)`
  unfoldable pub p95_index : ℕ → ℕ
  p95_index n = min (n - 1) (ceil (mul (decimal 95 100) (num n)) - 1)

  unfoldable pub p95_latency_ms : TemplateStats Num → Option Num
  unfolding sorted p95_index
  p95_latency_ms t =
      get_elem? (sorted t.latency_history_ms) (p95_index (length t.latency_history_ms))

  sum_latencies : Num → List Num → Num
  sum_latencies acc [] = acc
  sum_latencies acc (x ∷ xs) = sum_latencies (add acc x) xs

  unfoldable pub avg_latency_ms : TemplateStats Num → Option Num
  unfolding sum_latencies
  avg_latency_ms t = elim t.latency_history_ms [
    | [] ↦ none
    | x ∷ xs ↦ some (div (sum_latencies (num 0) (x ∷ xs)) (num (length (x ∷ xs))))
  ]

  pub record AccessPatternTracker : Type 0 where
    pub half_life : Num
    pub history_window : ℕ
    pub templates : Dict (TemplateStats Num)

  unfoldable pub new_template : TemplateStats Num
  new_template = record {
    count = 0;
    last_seen = num 0;
    ewma_interarrival_s = none;
    latency_history_ms = [];
  }

  -- `record`
  unfoldable pub record_query : String → Num → Num → AccessPatternTracker → AccessPatternTracker
  unfolding observe new_template
  record_query template_id latency_ms now tracker = record tracker {
    templates =
        insert template_id
          (observe tracker.history_window now latency_ms
            (or_else (lookup template_id tracker.templates) new_template))
          tracker.templates;
  }

  hotness_of : Num → Num → Option (TemplateStats Num) → Num
  hotness_of half_life now none = num 0
  hotness_of half_life now (some t) =
      if t.count == 0
      then num 0
      else (let age = float_max F (num 0) (sub now t.last_seen) in
          mul (log1p (num t.count)) (exp (div (mul (neg (log (num 2))) age) half_life)))

  unfoldable pub hotness : String → Num → AccessPatternTracker → Num
  unfolding hotness_of
  hotness template_id now tracker =
      hotness_of tracker.half_life now (lookup template_id tracker.templates)
