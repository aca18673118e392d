-- ===== src/Fleet.antt =====
-- The fleet control program, package fleet.
pub mod Experiments
pub mod Dispatcher
pub mod Publishing
pub mod Watcher
