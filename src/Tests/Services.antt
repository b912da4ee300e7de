-- ===== src/Tests/Services.antt =====
-- The service from its start to its end, the thread of a node, and the loop of the buffer's limits.
use cacheopt.Base.{ℕ, ◌≡◌, ◌≢◌, refl, true, false, Option, none, some, List, [], ◌∷◌, arith, length}
use cacheopt.Api.Lifetime
use cacheopt.Engine.Draining.{run_thread}
use cacheopt.Engine.Subscribers.{run-run_thread}
use cacheopt.Memory.{MemoryBuffer, CacheEntry, enforce_limits}
use cacheopt.Memory.Loops.{rounds, rounds-enforce_limits}
use cacheopt.Stats.Catalog.{Connection}
use cacheopt.Tests.Requests.{warned}
use cacheopt.Tests.Toy.{setting}
use cacheopt.Value.{int, pos, str}
use cacheopt.Versions.{Event}
use cacheopt.Versions.Subscriber.{
  Wire, IsWire, Message, Round, Delivers, stopped, event, timeout, other_kind, unreadable,
  published, returns, run,
}

-- Messages whose data is the event, or a text that is no JSON.
abbrev wire : Wire
wire = record { Data = Option Event; dumps = λ e. some e; payload = λ o. o }

wire-IsWire : IsWire wire
wire-IsWire = record { payload-dumps = λ e. refl }

abbrev subscribed : Message wire
subscribed = record { kind = "psubscribe"; body = none }

abbrev garbled : Message wire
garbled = record { kind = "pmessage"; body = none }

abbrev news : Event
news = record { table = "t"; version = 1 }

abbrev late_news : Event
late_news = record { table = "t"; version = 2 }

-- The second event comes behind the stop.
abbrev met : List (Round wire)
met =
    (false, returns (some subscribed))
    ∷ (false, returns none)
    ∷ (false, returns (some (published wire news)))
    ∷ (false, returns (some garbled))
    ∷ (true, returns (some (published wire late_news)))
    ∷ []

subscribed-ne : subscribed.kind ≢ "pmessage"
subscribed-ne h = cc

delivered : Delivers wire met warned.inbox
delivered =
    other_kind subscribed subscribed-ne (timeout (event news (unreadable garbled refl stopped)))

run-run_thread_example :
    run wire met warned.memory ≡ (run_thread setting (length warned.inbox) warned).memory
run-run_thread_example = run-run_thread wire setting wire-IsWire met warned delivered

abbrev entry : CacheEntry ℕ
entry = record {
  value = str "y";
  table_versions = [];
  created_at = 4;
  expires_at = none;
  size_bytes = 56;
}

-- Two entries where there is room for one.
abbrev crowded : MemoryBuffer ℕ
crowded = record {
  max_entries = 1;
  max_bytes = 100;
  store = ("a", entry) ∷ ("b", entry) ∷ [];
  bytes_used = 112;
  hits = 0;
  misses = 0;
  evictions = 0;
}

rounds-enforce_limits_example : rounds 3 crowded ≡ some (enforce_limits crowded)
rounds-enforce_limits_example = rounds-enforce_limits crowded 3 (omega arith)

abbrev connection : Connection
connection = record {
  row_count = λ t. some 5000;
  approx_count_distinct = λ t col. some 20;
  min_max = λ t col. some (int (pos 0), int (pos 19));
}
