-- ===== src/Tests/Toy.antt =====
-- A server that is a function, numbers for floats, and a database with one table, "t".
use cacheopt.Base.{
  ℕ, zero, suc, ◌+◌, ◌-◌, ◌*◌, ◌/◌, ◌<◌, ◌≡◌, ◌≢◌, refl, sym, ap, ◌∙◌, String, true, false, Option,
  none, some, [], ◌∷◌, ltb, ◌==◌, dec_str, ite, if_pos, if_neg, arith, get_elem?,
}
use mathlib.Core.Bool.{false≢true}
use cacheopt.CostModel.{CostConfig}
use cacheopt.Database.{Database}
use cacheopt.Engine.{Cluster, Node, admits}
use cacheopt.Engine.Coherence.{IsSetting, key_of, tables_of, read}
use cacheopt.Engine.Runs.{IsStarted}
use cacheopt.Engine.Writes.{WritesOnly}
use cacheopt.Explain.{object, array, end}
use cacheopt.Fingerprint.{Sqlglot, fingerprint, literal_placeholder}
use cacheopt.Float.{Float}
use cacheopt.Memory.{init, is_member}
use cacheopt.Planner.{Setting, effective, effective_fp}
use cacheopt.Redis.{Redis, IsRedis, counter}
use cacheopt.Runtime.{Runtime, IsRuntime, Payload, Readings}
use cacheopt.Explain
use cacheopt.Value.{Values, pos, int, str, tuple, nil, cons}

abbrev pub whole : Float
whole = record {
  Num = ℕ;
  num = λ n. n;
  decimal = λ m n. m / n;
  add = λ m n. m + n;
  sub = λ m n. m - n;
  mul = λ m n. m * n;
  div = λ m n. m / n;
  lt = λ m n. ltb m n;
  is_zero = λ n. n == 0;
  truncate = λ n. n;
  ceil = λ n. n;
  neg = λ n. n;
  log = λ n. n;
  log1p = λ n. n;
  exp = λ n. n;
  pow = λ m n. m;
}

pub data Blob : Type 0 where
  digits : ℕ → Blob
  dumped : Payload ℕ → Blob

abbrev pub Store : Type 0
Store = String → Option Blob

abbrev pub to_number : Blob → Option ℕ
to_number (digits n) = some n
to_number (dumped p) = none

abbrev pub to_payload : Blob → Option (Payload ℕ)
to_payload (digits n) = none
to_payload (dumped p) = some p

abbrev pub write_at : String → Option Blob → Store → Store
write_at k o s = λ j. ite (dec_str j k) o (s j)

abbrev pub put_for : ℕ → String → Blob → Store → Option Store
put_for zero k v s = none
put_for (suc ex) k v s = some (write_at k (some v) s)

abbrev pub raise_at : String → Option ℕ → Store → Option (ℕ × Store)
raise_at k none s = none
raise_at k (some n) s = some (n + 1, write_at k (some (digits (n + 1))) s)

abbrev pub count_of : Option Blob → Option ℕ
count_of none = some 0
count_of (some b) = to_number b

abbrev pub server : Redis
server = record {
  State = Store;
  Blob = Blob;
  get = λ k s. s k;
  set = λ k v ex s. put_for ex k v s;
  delete = λ k s. write_at k none s;
  incr = λ k s. raise_at k (count_of (s k)) s;
  int_of = to_number;
}

abbrev pub runtime : Runtime
runtime = record {
  float = whole;
  redis = server;
  getsizeof = λ v. 56;
  utf8 = λ bs. "?";
  encode = dumped;
  decode = to_payload;
}

abbrev pub sqlglot : Sqlglot
sqlglot = record {
  Tree = String;
  parse_one = λ s. some s;
  parse = λ s. some (some s ∷ []);
  is_select = λ s. ite (dec_str s "insert into t") false true;
  table_names = λ s. "t" ∷ [];
  transform = λ g s. g s;
  is_literal = λ s. false;
  placeholder = λ s. s;
  normalized_sql = λ s. s;
  sha256 = λ s. s;
  lower = λ s. s;
  strip = λ s. s;
}

abbrev pub columns_of_t : Values
columns_of_t = cons (str "n") nil

abbrev pub rows_of_t : ℕ → Values
rows_of_t d = cons (tuple (cons (int (pos d)) nil)) nil

-- The state is the number that the table holds; the statement "insert into t" raises it.
abbrev pub database : Database
database = record {
  State = ℕ;
  Leaf = ℕ;
  int_of = λ n. some n;
  execute = λ s d.
      ite (dec_str s "insert into t") (some (nil, nil, d + 1))
        (some (columns_of_t, rows_of_t d, d));
  explain_rows = λ s d. some ((str "[{}]" ∷ []) ∷ []);
  starts_with_bracket = λ s. true;
  loads = λ s. some (array (Explain.cons (object end) Explain.nil));
  where_columns = λ s. none;
}

abbrev pub config : CostConfig ℕ
config = record {
  default_ttl_seconds = 60;
  cache_admission_min_cost_ms = 0;
  max_cacheable_rows = 100;
}

abbrev pub setting : Setting
setting = record {
  runtime = runtime;
  database = database;
  sqlglot = sqlglot;
  rewrite = λ s catalog. record { sql = s; applied = [] };
  config = config;
  rows_per_ms = 1000;
  catalog = [];
}

abbrev pub node : Node setting
node = record {
  memory = record {
    max_entries = 8;
    max_bytes = 1000;
    store = [];
    bytes_used = 0;
    hits = 0;
    misses = 0;
    evictions = 0;
  };
  redis_cache = record { default_ttl = 60; hits = 0; misses = 0 };
  tracker = record { half_life = 3600; history_window = 50; templates = [] };
  inbox = [];
}

-- Two nodes that have just been started.
abbrev pub cluster : Cluster setting
cluster = record { nodes = node ∷ node ∷ []; server = λ k. none; database = 5 }

abbrev pub clock : Readings ℕ
clock = record {
  looked_up = 10;
  promoted = 11;
  l1_expiry = 12;
  l1_created = 13;
  l2_created = 14;
  hotness = 9;
  recorded = 15;
}

put_for_pos :
    (k : String) (v : Blob) (ex : ℕ) (s : Store)
    → 0 < ex
    → put_for ex k v s ≡ some (write_at k (some v) s)
put_for_pos k v zero s h = absurd (omega arith)
put_for_pos k v (suc ex) s h = refl

put_for-some :
    (k : String) (v : Blob) (ex : ℕ) (s s' : Store)
    → put_for ex k v s ≡ some s'
    → s' ≡ write_at k (some v) s
put_for-some k v zero s s' h = cc
put_for-some k v (suc ex) s s' h = cc

raise_at-some :
    (k : String) (o : Option ℕ) (n : ℕ) (s s' : Store)
    → raise_at k o s ≡ some (n, s')
    → s' ≡ write_at k (some (digits n)) s
raise_at-some k none n s s' h = cc
raise_at-some k (some m) n s s' h = cc

count_of-counter : (o : Option Blob) → count_of o ≡ counter server o
count_of-counter none = refl
count_of-counter (some b) = refl

pub server-IsRedis : IsRedis server
server-IsRedis = record {
  set_zero = λ k v s. refl;
  set_pos = λ k v ex s pos. (write_at k (some v) s, put_for_pos k v ex s pos);
  get-set = λ j k v ex s s' ran. ap (λ (f : Store). f j) (put_for-some k v ex s s' ran);
  get-delete = λ j k s. refl;
  incr_counter = λ k n s found. (
    write_at k (some (digits (n + 1))) s,
    ap (λ (o : Option ℕ). raise_at k o s) (count_of-counter (s k) ∙ found),
  );
  get-incr_ne = λ j k n s s' ran ne.
      ap (λ (f : Store). f j) (raise_at-some k _ n s s' ran)
      ∙ if_neg (dec_str j k) ne (some (digits n)) (s j);
  counter-incr = λ k n s s' ran.
      ap (λ (f : Store). count_of (f k)) (raise_at-some k _ n s s' ran)
      ∙ ap count_of (if_pos (dec_str k k) refl (some (digits n)) (s k));
}

pub runtime-IsRuntime : IsRuntime runtime
runtime-IsRuntime = record { is_redis = server-IsRedis; decode-encode = λ p. refl }

is_select_ne : (q : String) → admits sqlglot q ≡ true → q ≢ "insert into t"
unfolding admits
is_select_ne q h p = false≢true (sym (if_pos (dec_str q "insert into t") p false true) ∙ h)

key_of_lem : (q : String) → key_of setting q ≡ q
unfolding effective_fp effective fingerprint literal_placeholder
key_of_lem q = refl

select_keeps :
    (q : String) (columns rows : Values) (d d' : ℕ)
    → q ≢ "insert into t"
    → database.execute q d ≡ some (columns, rows, d')
    → d' ≡ d
select_keeps q columns rows d d' other ran =
    let same =
      sym (
        if_neg (dec_str q "insert into t") other (some (nil, nil, d + 1))
          (some (columns_of_t, rows_of_t d, d)))
      ∙ ran in
    cc

nodes_made :
    (i : ℕ) (n : Node setting) → get_elem? cluster.nodes i ≡ some n → n.memory ≡ init 8 1000
unfolding init
nodes_made zero n at = cc
nodes_made (suc zero) n at = cc
nodes_made (suc (suc i)) n at = cc

pub setting-IsSetting : IsSetting setting
unfolding effective
setting-IsSetting = record {
  is_runtime = runtime-IsRuntime;
  key_tables = λ p q hp hq same. ap (tables_of setting) (sym (key_of_lem p) ∙ same ∙ key_of_lem q);
  key_read = λ p q d hp hq same.
      ap (λ (s : String). read setting s d) (sym (key_of_lem p) ∙ same ∙ key_of_lem q);
  select_pure = λ q columns rows d d' admitted ran.
      select_keeps q columns rows d d' (is_select_ne q admitted) ran;
}

pub cluster-IsStarted : IsStarted setting cluster
cluster-IsStarted = record { no_keys = λ k. refl; empty = λ i n at. (8, 1000, nodes_made i n at) }

-- Each query names the table "t".
pub writes_t : (d d' : ℕ) → WritesOnly setting "t" d d'
unfolding effective_fp effective fingerprint literal_placeholder is_member dec_str
writes_t d d' q admitted other = absurd (false≢true (sym other))
