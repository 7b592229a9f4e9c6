-- ===== src/Examples.antt =====
-- Concrete runs of the models, one for each theorem with a hypothesis.
pub mod Ranges
pub mod Sizes
pub mod Teams
pub mod Threads
pub mod Messages
pub mod Modules
pub mod Loads
pub mod Paths
pub mod Caches
pub mod Calls
pub mod Hosts
