-- ===== src/Robot.antt =====
-- The robot program, package robot.
pub mod OrderState
pub mod AcceptOrder
pub mod ActionEngine
pub mod Main
pub mod InstantActions
pub mod Session
pub mod Drive
pub mod Loop
pub mod RoundTrip
pub mod State
