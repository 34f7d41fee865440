-- ===== src/Tests.antt =====
-- Concrete nodes, runs of the code on them, and the properties at such inputs (internal/).
pub mod Fixtures
mod Runs
mod Votes
mod Restarts
mod Elections
pub mod Clusters
mod Matching
mod Indices
mod Client
mod Logs
mod Stores
mod Database
mod Writes
pub mod Gateway
