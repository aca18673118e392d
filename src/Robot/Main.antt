-- ===== src/Robot/Main.antt =====
-- robot/main.go: the robot's state, and the handlers of an order message and of a tick of the drive.
-- A handler runs as one step, between its messages; logging and publishing are left out. The topic of
-- the visualization, which the handler builds from constants, counts as valid.
pub mod Extension
pub mod Skips
pub mod Handler
use vda.Prelude.{Bool, true, Option, none, some, List, [], ◌∷◌, if◌then◌else◌, ◌>>=◌}
use vda.Prelude.Int.{ℤ, negsuc}
use vda.Prelude.Text.{String, str_eq}
use vda.Geometry.{Float64, Position}
use vda.Models.Action.{Action}
use vda.Models.Order.{Node, Order}
use vda.Models.State.{ActionState}
use vda.Validation.{validate_order}
use vda.Sim
use vda.Sim.{Simulator}
use vda.Robot.OrderState.{OrderState}
use vda.Robot.AcceptOrder.{Verdict, accept_order}
use vda.Robot.ActionEngine.{Queue, enqueue}

-- `dirty` is the flag of the state publisher, which the handlers set.
pub record Robot (F : Type 0) : Type 0 where
  pub state : OrderState F
  pub simulator : Option (Simulator F)
  pub actions : Queue
  pub instant_action_states : List ActionState
  pub dirty : Bool

module _ {F : Type 0} where
  pub actions_for : String → List (Node F) → List Action
  actions_for node_id [] = []
  actions_for node_id (n ∷ rest) =
      if str_eq n.node_id node_id then n.actions else actions_for node_id rest

  unfoldable pub actions_for_node : Robot F → String → List Action
  unfolding actions_for
  actions_for_node r node_id = actions_for node_id r.state.nodes

  pub sequence_id_in : String → List (Node F) → ℤ
  sequence_id_in node_id [] = negsuc 0
  sequence_id_in node_id (n ∷ rest) =
      if str_eq n.node_id node_id then n.sequence_id else sequence_id_in node_id rest

  unfoldable pub sequence_id_for : Robot F → String → ℤ
  unfolding sequence_id_in
  sequence_id_for r node_id = sequence_id_in node_id r.state.nodes

  -- The part of `onTick` that changes the robot.
  unfoldable pub on_tick : Robot F → String → Robot F
  on_tick r arrived_node_id = if str_eq arrived_node_id "" then r else record r {
    state = record r.state {
      last_node_id = arrived_node_id;
      last_node_sequence_id = sequence_id_for r arrived_node_id;
    };
    actions = enqueue r.actions (actions_for_node r arrived_node_id);
    dirty = true;
  }

module _ {F : Type 0} ⦃fl : Float64 F⦄ where
  open fl use {lit}

  unfoldable pub position : Robot F → Position F
  position r = elim r.simulator [
    | none ↦ record { x = lit 0 1; y = lit 0 1; theta = lit 0 1 }
    | some s ↦ s.position
  ]

  -- The end of `onOrder`: the drive is started, or gets the new chain.
  unfoldable pub drive_on : Robot F → Option (Robot F)
  unfolding Sim.new_simulator Sim.extend
  drive_on r = elim r.simulator [
    | none ↦ Sim.new_simulator r.state.nodes r.state.edges >>= λ s.
        some (record r { simulator = some s })
    | some s ↦ some (record r { simulator = some (Sim.extend s r.state.nodes r.state.edges) })
  ]

  unfoldable pub after_verdict : Robot F → Verdict F → Option (Robot F)
  unfolding drive_on
  after_verdict r v =
      if v.accepted
      then drive_on (record r { state = v.state; dirty = true })
      else some (record r { state = v.state })

  -- `onOrder`, for a message that unmarshals to `order`.
  unfoldable pub on_order : Robot F → Order F → Option (Robot F)
  unfolding after_verdict
  on_order r order = elim (validate_order order) [
    | some e ↦ some r
    | none ↦ accept_order r.state order (position r) >>= λ v. after_verdict r v
  ]
