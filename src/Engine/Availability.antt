-- ===== src/Engine/Availability.antt =====
-- When a request in a coherent cluster returns.
use cacheopt.Engine
use cacheopt.Engine.{Outcome, failed}
