-- ===== src/Tests.antt =====
-- Toy instances of what the repository does not hold, and the theorems at concrete inputs.
mod Toy
mod Caches
mod Requests
mod Overlaps
mod Services
mod Stages
mod Numbers
mod Rewrites
mod Replies
mod Clusters
mod Shared
mod Settings
mod Traffic
