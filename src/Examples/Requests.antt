-- ===== src/Examples/Requests.antt =====
-- The robot of the dispatch experiment at r_1, where it asks for a new base.
use mathlib.Core.Option
use vda.Sim.{Simulator}
use vda.Validation.{validate_order}
use vda.Robot.AcceptOrder.{accept_order}
use vda.Robot.OrderState.{decision_point, is_idle, has_horizon, stitch, accept}
use vda.Robot.Main.Skips.{update_skips}
use vda.Fleet.Dispatcher.{released_node}
use vda.Prelude.{
  ◌*◌, suc, Option, get_elem?, ◌>>=◌, ℕ, ◌≡◌, ◌≢◌, ◌∙◌, refl, true, false, none, some, [], arith,
}
use vda.Prelude.Int.{pos, ◌+ℤ◌}
use vda.Prelude.Text.{String, itoa_ℕ, eq_iff}
use vda.Models.Action.{Header}
use vda.Models.State.{State}
use vda.Fleet.Experiments.{no_header, demo_node, demo_edge}
use vda.Fleet.Watcher.{robot_id, new_base_request_watcher}
use vda.Fleet.Dispatcher.{route_nodes, route_edges}
use vda.Fleet.Dispatcher.Plan.{window}
use vda.Fleet.Dispatcher.Demo.{demo_plan, node_at}
use vda.Robot.Main.{Robot, on_order, position}
use vda.Robot.State.{build_state, engine_tick}
use vda.Delivery.Synced.{IsSynced, next_window}
use vda.Delivery.Feedback.{Watching, hear, with_robot, here, later, work, other_silent}
use vda.Delivery.Feedback.Cycle.{Answered, request-Answered}
use vda.Delivery.Feedback.Overlooked.{lost_order_stalls, overheard, hear_another}
use vda.Examples.Coarse.{coarse}
use vda.Examples.Dispatch.{plan, begun, begun-Represents, first_window, driving_robot, parked}

abbrev at_r_1 : Robot ℕ
at_r_1 = record driving_robot {
  state = record driving_robot.state {
    last_node_id = "r_1";
    last_node_sequence_id = pos 2;
    nodes = (window plan 0 2 0).nodes;
    edges = (window plan 0 2 0).edges;
  };
}

abbrev watching : Watching ℕ
watching = record {
  system = record { dispatcher = begun; robot = at_r_1 };
  watcher = new_base_request_watcher;
}

abbrev header : Header
header = record no_header { manufacturer = "KIT"; serial_number = "0001" }

watching-IsSynced : IsSynced plan first_window watching.system
unfolding demo_plan node_at demo_node route_nodes itoa_ℕ
watching-IsSynced = record {
  stands = begun-Represents;
  in_step = record {
    same_id = refl;
    older = omega arith;
    running = refl;
    node = node_at 2;
    node_here = refl;
    decision_id = refl;
    decision_number = refl;
  };
}

at_r_1_asks : (build_state header at_r_1).new_base_request ≡ true
unfolding build_state demo_plan node_at demo_node route_nodes
at_r_1_asks = refl

answered : Answered "KIT/0001" plan first_window watching header header
unfolding demo_plan route_nodes
answered =
    request-Answered "KIT/0001" plan first_window watching header header refl refl watching-IsSynced
      refl at_r_1_asks (omega arith) (omega arith)

request-Answered_example : Answered "KIT/0001" plan first_window watching header header
unfolding demo_plan route_nodes
request-Answered_example =
    request-Answered "KIT/0001" plan first_window watching header header refl refl watching-IsSynced
      refl at_r_1_asks (omega arith) (omega arith)

-- The state after the request, where the window that is sent does not arrive.
abbrev asked : Watching ℕ
asked = answered.asked

-- A robot without an order asks for a new base.
abbrev idle_message : State ℕ
idle_message = build_state (record header { serial_number = "0002" }) parked

idle_robot_asks : idle_message.new_base_request ≡ true
unfolding build_state
idle_robot_asks = refl

abbrev after_message : Watching ℕ
after_message = overheard idle_message asked

other_order : idle_message.order_id ≢ asked.system.dispatcher.order_id
unfolding demo_plan build_state
other_order q = ground (arith, q ∙ answered.in_step.stands.same_id, eq_iff "" "demo-route-1")

other_robot : robot_id idle_message ≢ "KIT/0001"
unfolding build_state
other_robot q = ground (arith, q, eq_iff "KIT/0002" "KIT/0001")

abbrev worked : Watching ℕ
worked =
    with_robot after_message
      (engine_tick (λ i. record { now = 0; unlucky = false }) after_message.system.robot []).0

lost_order_stalls_example :
    (v : Watching ℕ) × (hear header worked ≡ some (v, none))
    × (v.system.dispatcher ≡ asked.system.dispatcher)
lost_order_stalls_example =
    lost_order_stalls "KIT/0001" watching asked worked header header (next_window plan first_window)
      refl answered.sends
      (later
        (later here (
          other_silent idle_message other_robot other_order
            (hear_another idle_message asked other_order)))
        (work (λ i. record { now = 0; unlucky = false }) []))
      refl

-- The drive at r_1 takes the second window and heads for r_3: it never arrives in r_2.
abbrev drive_at_r_1 : Simulator ℕ
drive_at_r_1 = record {
  nodes = (window plan 0 2 0).nodes;
  edges = (window plan 0 2 0).edges;
  edge_idx = 1;
  position = record { x = 2; y = 0; theta = 0 };
  wake = false;
}

abbrev target : Simulator ℕ → Option String
target m = Option.map (λ n. n.node_id) (get_elem? m.nodes (suc m.edge_idx))

heads_for_r_2 : target drive_at_r_1 ≡ some "r_2"
unfolding demo_plan node_at demo_node route_nodes itoa_ℕ
heads_for_r_2 = refl

abbrev takes_second : Option (Robot ℕ)
takes_second =
    on_order (record at_r_1 { simulator = some drive_at_r_1 }) (next_window plan first_window)

heads_for_r_3 : (takes_second >>= λ r. r.simulator >>= λ m. target m) ≡ some "r_3"
unfolding on_order validate_order accept_order accept is_idle has_horizon decision_point stitch
    demo_plan node_at demo_node route_nodes route_edges demo_edge itoa_ℕ ◌+ℤ◌ position
heads_for_r_3 = refl

update_skips_example :
    (r' : Robot ℕ) × (m' : Simulator ℕ) × (takes_second ≡ some r')
    × (r'.simulator ≡ some m')
    × (get_elem? m'.nodes (suc m'.edge_idx) ≡ some (released_node (node_at 3)))
    × ((released_node (node_at {F = ℕ} 3)).sequence_id
        ≡ (released_node (node_at {F = ℕ} 1)).sequence_id +ℤ pos (2 * suc 1))
unfolding validate_order accept_order accept is_idle has_horizon decision_point stitch demo_plan
    node_at demo_node route_nodes route_edges demo_edge itoa_ℕ ◌+ℤ◌ position
update_skips_example =
    update_skips (record at_r_1 { simulator = some drive_at_r_1 }) drive_at_r_1
      (next_window plan first_window) _ (released_node (node_at 1)) (released_node (node_at 3)) _
      refl refl refl refl refl
      (
        record { edge_next = refl; node_next = refl; from_start = refl; to_end = refl },
        (
          record { edge_next = refl; node_next = refl; from_start = refl; to_end = refl },
          (
            record { edge_next = refl; node_next = refl; from_start = refl; to_end = refl },
            (record { edge_next = refl; node_next = refl; from_start = refl; to_end = refl }, tt),
          ),
        ),
      )
      refl
