-- ===== src/Delivery.antt =====
-- A dispatcher of fleet/dispatcher.go and the robot of robot/main.go that drives its route, on a channel
-- that delivers each order before anything else happens. A cancelOrder is not among the steps.
pub mod InStep
pub mod Accepted
pub mod Synced
pub mod Release
pub mod Lost
pub mod Behind
pub mod Cancelled
pub mod Feedback
use vda.Prelude.{ℕ, ◌≡◌, ◌≢◌, Option, none, some, List}
use vda.Prelude.Text.{String}
use vda.Geometry.{Float64}
use vda.Models.Action.{Action}
use vda.Models.Order.{Order}
use vda.Models.State.{ActionState}
use vda.Fleet.Dispatcher.{Dispatcher, extend_if_needed}
use vda.Robot.ActionEngine.{Moment}
use vda.Robot.Main.{Robot, on_order, on_tick}
use vda.Robot.InstantActions.{apply_instant_action}
use vda.Robot.State.{engine_tick}

pub record System (F : Type 0) : Type 0 where
  pub dispatcher : Dispatcher F
  pub robot : Robot F

-- The watcher's `OnRequest` hands the dispatcher the robot's order id. `quiet` is a request on which
-- nothing is sent; `arrive` and `work` are ticks of the drive and of the action engine.
pub data Step {F : Type 0} ⦃fl : Float64 F⦄ : System F → System F → Type 0 where
  request :
      {y : System F} {d : Dispatcher F} {r : Robot F} (o : Order F)
      → extend_if_needed y.dispatcher y.robot.state.order_id ≡ some (d, some o)
      → on_order y.robot o ≡ some r
      → Step y (record { dispatcher = d; robot = r })
  quiet :
      {y : System F} {d : Dispatcher F}
      → extend_if_needed y.dispatcher y.robot.state.order_id ≡ some (d, none)
      → Step y (record y { dispatcher = d })
  arrive : {y : System F} (node_id : String) → Step y (record y { robot = on_tick y.robot node_id })
  work :
      {y : System F} (at : ℕ → Moment) (last : List ActionState)
      → Step y (record y { robot = (engine_tick at y.robot last).0 })
  instant :
      {y : System F} (now : ℕ) (a : Action)
      → a.action_type ≢ "cancelOrder"
      → Step y (record y { robot = apply_instant_action now y.robot a })

pub data Reach {F : Type 0} ⦃fl : Float64 F⦄ (y : System F) : System F → Type 0 where
  here : Reach y y
  step_on : {z w : System F} → Reach y z → Step z w → Reach y w
