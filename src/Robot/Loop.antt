-- ===== src/Robot/Loop.antt =====
-- The loop of `Run` in sim/kinematics.go, one shared access at a time, with the gate and the `onTick` that
-- `onOrder` of robot/main.go hands to it, and the robot's handlers in between. A handler is one step. The
-- ticker may let the loop go on at any time.
mod Roused
pub mod Wake
pub mod Resumes
pub mod Crash
pub mod FirstLeg
pub mod Runs
pub mod Course
pub mod Late
use mathlib.Core.Option
use vda.Prelude.{
  ℕ, zero, suc, Bool, true, false, not, ◌&&◌, Option, none, some, List, ◌≡◌, if◌then◌else◌, ◌>>=◌,
}
use vda.Prelude.Text.{String}
use vda.Geometry.{Float64}
use vda.Models.Action.{Action}
use vda.Models.Order.{Order}
use vda.Models.State.{ActionState}
use vda.Sim
use vda.Sim.{Simulator, can_drive}
use vda.Robot.ActionEngine.{Moment, driving_allowed}
use vda.Robot.Main.{Robot, on_order, on_tick}
use vda.Robot.InstantActions.{apply_instant_action}
use vda.Robot.State.{engine_tick}

-- Where the loop stands.
pub data Pc : Type 0 where
  checking : Pc  -- before `canDrive`
  blocked : Pc  -- at `<-s.wake`
  ticking : Pc  -- at `<-ticker.C`
  gating : Pc  -- before the gate reads `Paused`
  looked : (paused : Bool) → Pc  -- in the gate, before `DrivingAllowed`
  stepping : Pc  -- before `step`
  arrived : (node_id : String) → Pc  -- before `onTick`

pub record Machine (F : Type 0) : Type 0 where
  pub robot : Robot F
  pub pc : Pc

module _ {F : Type 0} ⦃fl : Float64 F⦄ where
  -- The next access of the loop; the simulator is the robot's. `none` is a panic. At `blocked` the loop
  -- stays while the channel is empty.
  unfoldable pub loop_step : Robot F → Simulator F → Pc → Option (Machine F)
  loop_step r m checking =
      some (record { robot = r; pc = if not (can_drive m) then blocked else ticking })
  loop_step r m blocked =
      if m.wake
      then some (record {
        robot = record r { simulator = some (record m { wake = false }) };
        pc = checking;
      })
      else some (record { robot = r; pc = blocked })
  loop_step r m ticking = some (record { robot = r; pc = gating })
  loop_step r m gating = some (record { robot = r; pc = looked r.state.paused })
  loop_step r m (looked paused) = some (record {
    robot = r;
    pc = if driving_allowed r.actions && not paused then stepping else checking;
  })
  loop_step r m stepping =
      Option.map (λ q. record { robot = record r { simulator = some q.0 }; pc = arrived q.1 })
        (Sim.step m)
  loop_step r m (arrived node_id) = some (record { robot = on_tick r node_id; pc = checking })

  -- Before the first order is accepted there is no loop.
  unfoldable pub go_on : Machine F → Option (Machine F)
  unfolding loop_step
  go_on y = elim y.robot.simulator [ none ↦ some y | some m ↦ loop_step y.robot m y.pc ]

  -- So many accesses with nothing in between.
  unfoldable pub moves : ℕ → Machine F → Option (Machine F)
  unfolding go_on
  moves zero y = some y
  moves (suc n) y = go_on y >>= λ z. moves n z

  -- What else happens to the robot.
  pub data Handles : Robot F → Robot F → Type 0 where
    order : {r r' : Robot F} (o : Order F) → on_order r o ≡ some r' → Handles r r'
    engine :
        {r : Robot F} (at : ℕ → Moment) (last : List ActionState)
        → Handles r (engine_tick at r last).0
    instant : {r : Robot F} (now : ℕ) (a : Action) → Handles r (apply_instant_action now r a)

  pub data Step : Machine F → Machine F → Type 0 where
    loop : {y z : Machine F} → go_on y ≡ some z → Step y z
    handle : {y : Machine F} {r : Robot F} → Handles y.robot r → Step y (record y { robot = r })

  -- A robot at rest, whose loop will begin at `checking`.
  abbrev pub IsFresh : Machine F → Type 0
  IsFresh y = (y.robot.simulator ≡ none) × (y.pc ≡ checking)

  pub data Reach (y : Machine F) : Machine F → Type 0 where
    here : Reach y y
    later : {z w : Machine F} → Reach y z → Step z w → Reach y w
