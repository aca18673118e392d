-- ===== src/Models/Order.antt =====
-- common/models/order.go. `F` stands for float64; Go's `int` is ℤ, since no sum of the program that
-- starts at a message's numbers goes past them by more than one.
use vda.Prelude.{Bool, List}
use vda.Prelude.Int.{ℤ}
use vda.Prelude.Text.{String}
use vda.Geometry.{NodePosition}
use vda.Models.Action.{Header, Action}

-- A string in the source, never read by the robot.
pub data OrientationType : Type 0 where
  tangential global : OrientationType
  other : String → OrientationType

pub record Node (F : Type 0) : Type 0 where
  pub node_id : String
  pub sequence_id : ℤ
  pub node_descriptor : String
  pub released : Bool
  pub node_position : NodePosition F
  pub actions : List Action

pub record Trajectory : Type 0 where
  pub degree : ℤ
  pub knot_vector : List (Unit {0})
  pub control_points : List (Unit {0})

-- `corridor`, an empty struct, holds nothing and is left out.
pub record Edge (F : Type 0) : Type 0 where
  pub edge_id : String
  pub sequence_id : ℤ
  pub start_node_id : String
  pub end_node_id : String
  pub released : Bool
  pub maximum_speed : F
  pub maximum_mobile_robot_height : F
  pub orientation : F
  pub orientation_type : OrientationType
  pub rotation_allowed : Bool
  pub trajectory : Trajectory
  pub actions : List Action

pub record Order (F : Type 0) : Type 0 where
  pub header : Header
  pub order_id : String
  pub order_update_id : ℤ
  pub order_description : String
  pub nodes : List (Node F)
  pub edges : List (Edge F)
