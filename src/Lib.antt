-- ===== src/Lib.antt =====
-- cacheopt: a two-tier query cache in front of DuckDB. A request goes through
-- `QueryEngine.execute` (the guard), `DistributedExecutionPlanner.execute` (fingerprint, rewrite,
-- routing plan, cache lookup, execution, write back) and `TieredCache` (L1 in memory, L2 in Redis).
-- A write runs a statement and bumps the counter of its table in Redis, which publishes an event
-- that each node's thread handles by dropping outdated L1 entries.
--
-- Paths are below src/cacheopt/ unless they start with scripts/.
--
--   Base, Dict, Float    lists, Python's dict, and Python's float as an interface
--   Value                Python values, `_approx_size` (cache/memory_buffer.py), and in Value/Json
--                        the JSON form of values (cache/redis_cache.py)
--   Memory               cache/memory_buffer.py: `MemoryBuffer` as a record, each method a function
--                        to the new buffer; Memory/* hold its invariant and what its methods do,
--                        Memory/Refinement and Memory/Exactness compare
--                        it with an abstract cache, Memory/Loops has the loop of `_enforce_limits`
--                        round by round, Memory/Accounting holds `stats`
--   Redis                the commands that the program sends, as an interface with the documented
--                        behaviour `IsRedis`, and the keys
--   Runtime              what else is not in the repository: sizes, UTF-8, the encoded blob
--   RedisCache           cache/redis_cache.py
--   Versions             invalidation.py: `TableVersionManager`, and in Versions/Subscriber
--                        `InvalidationSubscriber`
--   Tiered               cache/tiered_cache.py; Tiered/Server is what holds on the server, and
--                        Tiered/Lookups what `get` and `put` do to both tiers, Tiered/Sharing what
--                        one node reads of what another stored
--   Stats                stats.py; Stats/History is what the tracker knows after any calls,
--                        Stats/Catalog `refresh_from_duckdb`, Stats/Percentiles `p95_latency_ms`
--   Explain, Database    storage/duckdb_backend.py: the reading of EXPLAIN over what the program uses
--                        of a database, and in Database/Backend the methods over a connection
--   CostModel            optimizer/cost_model.py; CostModel/Calibration holds `calibrate` and
--                        `EngineCluster.refresh_stats` (engine.py)
--   Config               config.py: `Config` with its defaults from the environment
--   RedisClient          cache/redis_client.py: the client that a process shares
--   Fingerprint          fingerprint.py over an interface of sqlglot, SHA-256 and `lower`
--   Rewriter             optimizer/rewriter.py over an interface of sqlglot's trees; Rewriter/Joins is
--                        about `join_reorder`, Rewriter/Sorting about its order. The planner takes
--                        any rewriter
--   Planner              optimizer/planner.py: `execute`; Planner/Requests is where a result comes
--                        from, for any properties of the cache entries, Planner/Answers when there
--                        is one; Planner/Phases and Planner/Beginnings split `execute` in two
--                        phases, up to the database and from the write back on
--   Engine               engine.py: `execute`, `write`, the nodes of a cluster and their waiting
--                        events; Engine/Coherence says what is kept, Engine/Requests, Writes and
--                        Events that each step keeps it, Engine/Runs puts the steps in any order;
--                        Engine/Startup holds the constructors, Engine/Availability when a request
--                        returns, Engine/Draining the thread of a node, Engine/Outcomes the branches
--                        of `write` and of the guard, Engine/Routing `route`, Engine/Races a write
--                        between the execution of a query and its write back, Engine/Flights,
--                        Overtaking and Overlaps requests that overlap with each other and with
--                        writes, Engine/Subscribers the loop `_run` at a node, Engine/Lifetime
--                        `close`, Engine/Reports the methods named `stats`
--   Api                  api/app.py: `run_query` (Api/Requests) and its reply to what the engine
--                        returns or raises, `_startup` and `_shutdown` (Api/Lifetime), and the
--                        replies that never change (Api/Samples)
--   Workload             scripts/query_templates.py over an interface of `random.Random`
--   Dataset              scripts/generate_dataset.py: the statements of `generate`
--   Benchmark            scripts/run_benchmark.py: the loops of both runs and `percentile`, in
--                        Benchmark/Report the stage "report", in
--                        Benchmark/Stages `run_baseline` and `run_optimized` as a whole; Benchmark/
--                        Totals and Replays say when the report returns
--   Tests                toy instances of every interface, and the theorems at concrete inputs
--
-- State is passed from call to call. A method that can raise returns an `Option` beside the state,
-- so that what was written before the exception stays. The readings of the clock are arguments.
-- The lock of an object makes each call of it one step. In Engine/Runs a request or a write of a
-- node is one step of the cluster too; in Engine/Overlaps a request that misses takes two, and
-- others come between its reading of the rows and its write back. There a request finishes only if no
-- statement has changed one of its tables since it read them (Engine/Races is about one that does not
-- wait for that).
--
-- No finer interleaving is covered. No lock of the code joins the steps of a lookup in both tiers (the
-- version check and the promotion into L1), those of `put`, or the statement of a write and the bump of
-- its table, and another thread can run between them: there the code can serve old rows, which these
-- theorems do not exclude. The bump sends its event to the inbox of each node: Redis delivers an event
-- at most once, and an event that is lost, or a thread that has ended, is not covered. The client's
-- `get` of a result and `publish` are taken to return. Coherence relies on what `IsSetting` names: that
-- queries with one key have one meaning, and that a SELECT changes nothing; a write is one that only
-- changes the answers of queries that name its table.
--
-- The search of an EXPLAIN tree runs on fuel, the number of values in the tree and one more: it takes
-- one value in a round. The loop of Memory/Loops has a round more than the store has entries: each
-- round drops one. The text of an integer has no more digits than its fuel. All else is
-- structural recursion.
--
-- Not modelled: the end of a thread within the second that `stop` waits for it, and negative estimates of
-- EXPLAIN; the command line, the files and the printing of scripts/run_benchmark.py and
-- scripts/generate_dataset.py, and scripts/make_chart.py, which are input and output. Numbers of rows are
-- natural numbers. Floats have no laws here but those of `IsMeasure`, and what is read of `int`, `round`,
-- `str.split`, MD5, json.loads, `statistics.mean` and random numbers is a parameter.
pub mod Base
pub mod Dict
pub mod Float
pub mod Value
pub mod Memory
pub mod Redis
pub mod Versions
pub mod Runtime
pub mod RedisCache
pub mod Tiered
pub mod Stats
pub mod Explain
pub mod CostModel
pub mod Fingerprint
pub mod Database
pub mod Config
pub mod Planner
pub mod Engine
pub mod Api
pub mod RedisClient
pub mod Workload
pub mod Dataset
pub mod Benchmark
pub mod Rewriter
pub mod Tests
