-- ===== src/Examples.antt =====
-- Concrete numbers, tables and calls, and the theorems applied to them.
pub mod Data
pub mod Policies
pub mod Events
pub mod Registries
pub mod Engine
pub mod Framework
pub mod Requests
pub mod Candidates
pub mod Cycles
pub mod Replays
pub mod Ledgers
