-- ===== src/Robot/Drive.antt =====
-- One round of the simulator's loop with the robot around it: `Run` of sim/kinematics.go, and the gate and
-- the `onTick` that `onOrder` of robot/main.go hands to it.
pub mod Held
pub mod Rejection
use mathlib.Core.Option
use vda.Prelude.{
  Bool, true, false, not, ◌&&◌, Option, none, some, List, [], ◌∷◌, inl, inr, if◌then◌else◌,
}
use vda.Prelude.Text.{String, ◌<>◌}
use vda.Geometry.{Float64, Position}
use vda.Errors.{VdaError}
use vda.Headers.{HeaderGenerator, generate}
use vda.Models.Connection.{Visualization}
use vda.Topics.{topic_for, qos, join_slash, interface_name, major_version}
use vda.Mqtt.{Request, publish}
use vda.Sim
use vda.Sim.{Simulator, can_drive}
use vda.Robot.ActionEngine.{driving_allowed}
use vda.Robot.Main.{Robot, on_tick, position}
use vda.Robot.Session.{robot_manufacturer, robot_serial_number}

module _ {F : Type 0} where
  -- The closure that is set as the drive gate.
  unfoldable pub drive_gate : Robot F → Bool
  drive_gate r = driving_allowed r.actions && not r.state.paused

module _ {F : Type 0} ⦃fl : Float64 F⦄ where
  -- A round of the loop, from the test of `canDrive`. The robot is as it was where the loop waits to be
  -- woken, and where the gate holds the drive.
  unfoldable pub drive_round : Robot F → Simulator F → Option (Robot F)
  drive_round r m =
      if not (can_drive m)
      then some r
      else if not (drive_gate r)
      then some r
      else Option.map (λ q. on_tick (record r { simulator = some q.0 }) q.1) (Sim.step m)

  -- The end of `onTick`: the message for the viewer, with the robot's position. The topic is made before,
  -- and where it is no topic there is no drive.
  unfoldable pub visualization :
      (Visualization F → Bool)
      → String
      → String
      → HeaderGenerator
      → Position F
      → HeaderGenerator × List (Request (Visualization F))
  visualization encodes now topic generator at =
      let (generator', header) =
        generate generator now "visualization" robot_manufacturer robot_serial_number in
      let message : Visualization F = record {
        header = header;
        x = at.x;
        y = at.y;
        theta = at.theta;
        map_id = "floor1";
      } in
      if encodes message
      then (generator', publish topic (qos "visualization") false message ∷ [])
      else (generator', [])

abbrev rejection_topic : String
rejection_topic = join_slash interface_name (
    join_slash major_version
      (join_slash robot_manufacturer (join_slash robot_serial_number "debug/rejection")))

-- `publishRejection`, for an error that can be encoded.
unfoldable pub publish_rejection : VdaError → Request VdaError
publish_rejection rejection = publish rejection_topic 0 false rejection
