-- ===== src/Robot/State.antt =====
-- robot/state.go: the state message and when it is due; and the comparison of action states from
-- robot/instant_actions.go. Times are nanoseconds; the header comes from the generator.
pub mod Reports
pub mod Round
use vda.Prelude.{
  ℕ, suc, ◌-◌, Bool, true, false, not, ◌&&◌, Option, none, some, List, [], ◌∷◌, ◌++◌, map, keep,
  length, ltb, ◌==◌, if◌then◌else◌,
}
use vda.Prelude.Int.{ℤ, pos, leb_ℤ}
use vda.Prelude.Text.{String, str_eq}
use vda.Geometry.{Float64}
use vda.Models.Action.{Action, Header}
use vda.Models.Order.{Node, Edge}
use vda.Models.State.{
  State, NodeState, EdgeState, ActionState, ActionStatus, waiting, initializing, running, paused,
  retriable, finished, failed, automatic, stop_none,
}
use vda.Sim
use vda.Sim.{Simulator}
use vda.Robot.ActionEngine.{seconds, driving_allowed, action_states, advance, Moment}
use vda.Robot.Main.{Robot}

pub record StatePublisher : Type 0 where
  pub dirty : Bool
  pub last_publish : ℕ

abbrev pub state_heartbeat : ℕ
state_heartbeat = seconds 30

unfoldable pub mark_dirty : StatePublisher → StatePublisher
mark_dirty p = record p { dirty = true }

-- `now` is the time that both calls of the clock read.
unfoldable pub due : ℕ → StatePublisher → StatePublisher × Bool
due now p =
    if not p.dirty && ltb (now - p.last_publish) state_heartbeat
    then (p, false)
    else (record { dirty = false; last_publish = now }, true)

-- An action that is not in the engine's queue yet.
abbrev pub planned : Action → ActionState
planned a = record {
  action_id = a.action_id;
  action_type = a.action_type;
  action_descriptor = a.action_descriptor;
  action_status = waiting;
  action_result = "";
}

module _ {F : Type 0} where
  abbrev pub node_state : Node F → NodeState F
  node_state n = record {
    node_id = n.node_id;
    sequence_id = n.sequence_id;
    node_descriptor = n.node_descriptor;
    released = n.released;
    node_position = n.node_position;
  }

  abbrev pub edge_state : Edge F → EdgeState
  edge_state e = record {
    edge_id = e.edge_id;
    sequence_id = e.sequence_id;
    edge_descriptor = "";
    released = e.released;
    trajectory = e.trajectory;
  }

  -- What the loops do not pass over.
  unfoldable pub nodes_ahead : Robot F → List (Node F)
  unfolding keep
  nodes_ahead r = keep (λ n. not (leb_ℤ n.sequence_id r.state.last_node_sequence_id)) r.state.nodes

  unfoldable pub edges_ahead : Robot F → List (Edge F)
  unfolding keep
  edges_ahead r = keep (λ e. not (leb_ℤ e.sequence_id r.state.last_node_sequence_id)) r.state.edges

  pub planned_of_nodes : List (Node F) → List ActionState
  planned_of_nodes [] = []
  planned_of_nodes (n ∷ rest) = map planned n.actions ++ planned_of_nodes rest

  pub planned_of_edges : List (Edge F) → List ActionState
  planned_of_edges [] = []
  planned_of_edges (e ∷ rest) = map planned e.actions ++ planned_of_edges rest

  abbrev simulator_driving : Option (Simulator F) → Bool
  simulator_driving none = false
  simulator_driving (some m) = Sim.driving m

  unfoldable pub is_driving : Robot F → Bool
  is_driving r = simulator_driving r.simulator && driving_allowed r.actions && not r.state.paused

module _ {F : Type 0} ⦃fl : Float64 F⦄ where
  open fl use {lit}

  unfoldable pub build_state : Header → Robot F → State F
  unfolding nodes_ahead edges_ahead planned_of_nodes planned_of_edges is_driving keep
  build_state header r =
      let node_states' = map node_state (nodes_ahead r) in
      record {
        header = header;
        order_id = r.state.order_id;
        order_update_id = r.state.order_update_id;
        last_node_id = r.state.last_node_id;
        last_node_sequence_id = r.state.last_node_sequence_id;
        node_states = node_states';
        edge_states = map edge_state (edges_ahead r);
        mobile_robot_position = none;
        velocity = record { vx = lit 0 1; vy = lit 0 1; omega = lit 0 1 };
        driving = is_driving r;
        paused = r.state.paused;
        new_base_request = ltb (length (keep (λ n. n.released) node_states')) 2;
        distance_since_last_node = lit 0 1;
        action_states =
            (action_states r.actions ++ planned_of_nodes (nodes_ahead r))
            ++ planned_of_edges (edges_ahead r);
        instant_action_states = r.instant_action_states;
        zone_action_states = [];
        power_supply = record {
          state_of_charge = lit 100 1;
          battery_voltage = lit 0 1;
          battery_current = lit 0 1;
          battery_health = pos 0;
          charging = false;
          range = 0;
        };
        operating_mode = automatic;
        errors = [];
        information = [];
        safety_state = record { active_emergency_stop = stop_none; field_violation = false };
      }

-- `==` on statuses, by the number of the constant.
abbrev status_number : ActionStatus → ℕ
status_number waiting = 0
status_number initializing = 1
status_number running = 2
status_number paused = 3
status_number retriable = 4
status_number finished = 5
status_number failed = 6

-- The text of the test in the loop of `equalActionStates`, negated.
abbrev same_report : ActionState → ActionState → Bool
same_report a b =
    str_eq a.action_id b.action_id
    && (status_number a.action_status == status_number b.action_status)

-- Lists of different lengths differ; on equal lengths the loop compares them by their index.
unfoldable pub equal_action_states : List ActionState → List ActionState → Bool
equal_action_states [] [] = true
equal_action_states [] (y ∷ ys) = false
equal_action_states (x ∷ xs) [] = false
equal_action_states (x ∷ xs) (y ∷ ys) =
    let rest = equal_action_states xs ys in if same_report x y then rest else false

module _ {F : Type 0} where
  -- One tick of `runActionEngine`, with the action states that it last saw.
  unfoldable pub engine_tick :
      (ℕ → Moment) → Robot F → List ActionState → Robot F × List ActionState
  unfolding equal_action_states
  engine_tick at r last =
      let queue = advance at r.actions in
      let states = action_states queue in
      let r' = record r { actions = queue } in
      if not (equal_action_states states last)
      then (record r' { dirty = true }, states)
      else (r', last)
