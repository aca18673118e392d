-- ===== src/Models/Connection.antt =====
-- common/models/connection.go and visualization.go.
use vda.Prelude.Text.{String}
use vda.Models.Action.{Header}

pub data ConnectionState : Type 0 where
  online offline hibernating connection_broken : ConnectionState

pub record Connection : Type 0 where
  pub header : Header
  pub connection_state : ConnectionState

pub record Visualization (F : Type 0) : Type 0 where
  pub header : Header
  pub x : F
  pub y : F
  pub theta : F
  pub map_id : String
