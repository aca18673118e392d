-- ===== src/Delivery/Feedback.antt =====
-- The requests for a new base as one system: the robot's state messages, the watcher of fleet/state.go, the
-- `OnRequest` that fleet/main.go gives to it, and the dispatcher. A state message is heard at once, or never.
pub mod Road
pub mod Overlooked
pub mod Cycle
use vda.Prelude.{
  ℕ, Bool, ◌≡◌, ◌≢◌, Option, none, some, List, length, keep, map, ltb, if◌then◌else◌, ◌>>=◌,
}
use vda.Prelude.Int.{◌≤ℤ◌}
use vda.Prelude.Text.{String, ◌<>◌}
use vda.Geometry.{Float64}
use vda.Models.Action.{Action, Header}
use vda.Models.Order.{Order}
use vda.Models.State.{State, ActionState}
use vda.Fleet.Dispatcher.{extend_if_needed}
use vda.Fleet.Watcher
use vda.Fleet.Watcher.{BaseRequestWatcher, robot_id}
use vda.Robot.ActionEngine.{Moment}
use vda.Robot.Main.{Robot, on_order, on_tick, sequence_id_for}
use vda.Robot.InstantActions.{apply_instant_action}
use vda.Robot.State.{build_state, engine_tick}
use vda.Delivery.{System}

pub record Watching (F : Type 0) : Type 0 where
  pub system : System F
  pub watcher : BaseRequestWatcher

-- Who sent a message with the header.
abbrev pub sender : Header → String
sender h = h.manufacturer <> ("/" <> h.serial_number)

module _ {F : Type 0} ⦃fl : Float64 F⦄ where
  -- `OnState` on a state message of any robot, with the dispatch experiment's `OnRequest`: what it leaves,
  -- and the order that the dispatcher sends, to its own robot.
  unfoldable pub hear_state : State F → Watching F → Option (Watching F × Option (Order F))
  hear_state s y =
      let (w, called) = Watcher.on_state y.watcher s in
      if called
      then (extend_if_needed y.system.dispatcher s.order_id >>= λ (d, sent).
          some (record { system = record y.system { dispatcher = d }; watcher = w }, sent))
      else some (record y { watcher = w }, none)

  -- The same on a message of the dispatcher's robot.
  unfoldable pub hear : Header → Watching F → Option (Watching F × Option (Order F))
  unfolding hear_state
  hear header y = hear_state (build_state header y.system.robot) y

  abbrev pub with_robot : Watching F → Robot F → Watching F
  with_robot y r = record y { system = record y.system { robot = r } }

  -- An order that is sent arrives at once, or is lost. A robot that arrives does so at a node of its order
  -- that is not behind the last one. `me` is the robot as its messages name it; of the messages of other
  -- robots those come for which `Others` holds.
  pub data Step (me : String) (Others : State F → Type 0) : Watching F → Watching F → Type 0 where
    silent :
        {y z : Watching F} (h : Header)
        → sender h ≡ me
        → hear h y ≡ some (z, none)
        → Step me Others y z
    sent :
        {y z : Watching F} {r : Robot F} (h : Header) (o : Order F)
        → sender h ≡ me
        → hear h y ≡ some (z, some o)
        → on_order z.system.robot o ≡ some r
        → Step me Others y (with_robot z r)
    lost :
        {y z : Watching F} (h : Header) (o : Order F)
        → sender h ≡ me
        → hear h y ≡ some (z, some o)
        → Step me Others y z
    other_silent :
        {y z : Watching F} (s : State F)
        → robot_id s ≢ me
        → Others s
        → hear_state s y ≡ some (z, none)
        → Step me Others y z
    other_sent :
        {y z : Watching F} {r : Robot F} (s : State F) (o : Order F)
        → robot_id s ≢ me
        → Others s
        → hear_state s y ≡ some (z, some o)
        → on_order z.system.robot o ≡ some r
        → Step me Others y (with_robot z r)
    other_lost :
        {y z : Watching F} (s : State F) (o : Order F)
        → robot_id s ≢ me
        → Others s
        → hear_state s y ≡ some (z, some o)
        → Step me Others y z
    arrive :
        {y : Watching F} (node_id : String)
        → y.system.robot.state.last_node_sequence_id ≤ℤ sequence_id_for y.system.robot node_id
        → Step me Others y (with_robot y (on_tick y.system.robot node_id))
    work :
        {y : Watching F} (at : ℕ → Moment) (last : List ActionState)
        → Step me Others y (with_robot y (engine_tick at y.system.robot last).0)
    instant :
        {y : Watching F} (now : ℕ) (a : Action)
        → Step me Others y (with_robot y (apply_instant_action now y.system.robot a))

  pub data Reach (me : String) (Others : State F → Type 0) (y : Watching F)
      : Watching F → Type 0 where
    here : Reach me Others y y
    later : {z w : Watching F} → Reach me Others y z → Step me Others z w → Reach me Others y w
