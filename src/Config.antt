-- ===== src/Config.antt =====
-- src/cacheopt/config.py: `Config` and its defaults from the environment.
pub mod Loading
use cacheopt.Base.{
  ℕ, ◌*◌, String, Bool, true, false, Option, none, some, List, [], ◌∷◌, dec_str, ite, or_else,
}
use cacheopt.CostModel.{CostConfig}
use cacheopt.Float.{Float}
use cacheopt.Versions.{◌>>=◌}

pub record Config (N : Type 0) : Type 0 where
  pub duckdb_path : String
  pub duckdb_read_only : Bool
  pub l1_max_entries : ℕ
  pub l1_max_bytes : ℕ
  pub redis_host : String
  pub redis_port : ℕ
  pub redis_db : ℕ
  pub redis_password : Option String
  pub redis_mode : String
  pub redis_rdb_path : String
  pub default_ttl_seconds : ℕ
  pub hotness_half_life_seconds : N
  pub history_window : ℕ
  pub cost_l1_ms : N
  pub cost_l2_ms : N
  pub cost_l3_min_ms : N
  pub cache_admission_min_cost_ms : N
  pub max_cacheable_rows : ℕ

-- `os.environ`
abbrev pub Environ : Type 0
Environ = String → Option String

-- `os.environ.get(k, default)` of a text, and `… or None`.
abbrev pub text_var : Environ → String → String → String
text_var env k default = or_else (env k) default

unfoldable pub or_none : Option String → Option String
or_none none = none
or_none (some s) = ite (dec_str s "") none (some s)

-- `int` of a text, for a number that is not negative; `none` where it raises.
module _ (F : Float) (int_of : String → Option ℕ) where
  -- `int(os.environ.get(k, str(default)))`
  unfoldable pub int_var : Environ → String → ℕ → Option ℕ
  int_var env k default = elim (env k) [ none ↦ some default | some s ↦ int_of s ]

  -- The defaults of the fields, in their order; `none` where a text is no number.
  unfoldable pub load : Environ → Option (Config F.Num)
  unfolding int_var or_none
  load env = do
    l1_max_entries ← int_var env "CACHEOPT_L1_MAX_ENTRIES" 512
    l1_max_bytes ← int_var env "CACHEOPT_L1_MAX_BYTES" (64 * 1024 * 1024)
    redis_port ← int_var env "REDIS_PORT" 6379
    redis_db ← int_var env "REDIS_DB" 0
    default_ttl_seconds ← int_var env "CACHEOPT_DEFAULT_TTL" 300
    some (record {
      duckdb_path = text_var env "CACHEOPT_DUCKDB_PATH" "data/warehouse.duckdb";
      duckdb_read_only = false;
      l1_max_entries = l1_max_entries;
      l1_max_bytes = l1_max_bytes;
      redis_host = text_var env "REDIS_HOST" "localhost";
      redis_port = redis_port;
      redis_db = redis_db;
      redis_password = or_none (env "REDIS_PASSWORD");
      redis_mode = text_var env "CACHEOPT_REDIS_MODE" "embedded";
      redis_rdb_path = text_var env "CACHEOPT_REDIS_RDB" "data/cacheopt_redis.rdb";
      default_ttl_seconds = default_ttl_seconds;
      hotness_half_life_seconds = F.num 60;
      history_window = 200;
      cost_l1_ms = F.decimal 1 100;
      cost_l2_ms = F.decimal 6 10;
      cost_l3_min_ms = F.num 5;
      cache_admission_min_cost_ms = F.num 1;
      max_cacheable_rows = 3000000;
    })

-- What `CostModel` is given of it.
abbrev pub cost_config : {N : Type 0} → Config N → CostConfig N
cost_config config = record {
  default_ttl_seconds = config.default_ttl_seconds;
  cache_admission_min_cost_ms = config.cache_admission_min_cost_ms;
  max_cacheable_rows = config.max_cacheable_rows;
}
