-- ===== src/Models/State.antt =====
-- common/models/state.go: what the robot reports.
use vda.Prelude.{ℕ, Bool, Option, List}
use vda.Prelude.Int.{ℤ}
use vda.Prelude.Text.{String}
use vda.Errors.{VdaError}
use vda.Geometry.{NodePosition, Position}
use vda.Models.Action.{Header}
use vda.Models.Order.{Trajectory}

pub data OperatingMode : Type 0 where
  startup automatic semiautomatic intervened manual service teach_in : OperatingMode

pub data ActionStatus : Type 0 where
  waiting initializing running paused retriable finished failed : ActionStatus

pub data EmergencyStop : Type 0 where
  stop_manual stop_remote stop_none : EmergencyStop

pub data InfoLevel : Type 0 where
  debug info : InfoLevel

pub record NodeState (F : Type 0) : Type 0 where
  pub node_id : String
  pub sequence_id : ℤ
  pub node_descriptor : String
  pub released : Bool
  pub node_position : NodePosition F

pub record EdgeState : Type 0 where
  pub edge_id : String
  pub sequence_id : ℤ
  pub edge_descriptor : String
  pub released : Bool
  pub trajectory : Trajectory

pub record ActionState : Type 0 where
  pub action_id : String
  pub action_type : String
  pub action_descriptor : String
  pub action_status : ActionStatus
  pub action_result : String

pub record PowerSupply (F : Type 0) : Type 0 where
  pub state_of_charge : F
  pub battery_voltage : F
  pub battery_current : F
  pub battery_health : ℤ
  pub charging : Bool
  pub range : ℕ

-- The zero value of a string type is the empty text: no active stop is `stop_none`.
pub record SafetyState : Type 0 where
  pub active_emergency_stop : EmergencyStop
  pub field_violation : Bool

pub record MobileRobotPosition (F : Type 0) : Type 0 where
  pub position : Position F
  pub map_id : String
  pub localized : Bool
  pub localization_score : F
  pub deviation_range : F

pub record Velocity (F : Type 0) : Type 0 where
  pub vx : F
  pub vy : F
  pub omega : F

pub record Info : Type 0 where
  pub info_type : String
  pub info_descriptor : String
  pub info_level : InfoLevel

pub record State (F : Type 0) : Type 0 where
  pub header : Header
  pub order_id : String
  pub order_update_id : ℤ
  pub last_node_id : String
  pub last_node_sequence_id : ℤ
  pub node_states : List (NodeState F)
  pub edge_states : List EdgeState
  pub mobile_robot_position : Option (MobileRobotPosition F)
  pub velocity : Velocity F
  pub driving : Bool
  pub paused : Bool
  pub new_base_request : Bool
  pub distance_since_last_node : F
  pub action_states : List ActionState
  pub instant_action_states : List ActionState
  pub zone_action_states : List ActionState
  pub power_supply : PowerSupply F
  pub operating_mode : OperatingMode
  pub errors : List VdaError
  pub information : List Info
  pub safety_state : SafetyState
