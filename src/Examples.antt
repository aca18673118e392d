-- ===== src/Examples.antt =====
-- Tests and instances of the theorems, over a coarse stand-in for float64: whole numbers, where the
-- operations are those of the absolute difference.
pub mod Coarse
pub mod Orders
mod Faults
pub mod Engine
pub mod Handler
mod Reports
mod Messages
pub mod Dispatch
mod Losses
mod Channels
mod Panel
mod Requests
mod Driving
mod Rounds
mod Circuit
