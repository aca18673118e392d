-- ===== src/Models.antt =====
-- common/models: the messages. Each file of models is a child module.
pub mod Action
pub mod Order
pub mod State
pub mod Connection
