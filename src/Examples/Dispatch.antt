-- ===== src/Examples/Dispatch.antt =====
-- The route that fleet/main.go dispatches, and a robot that drives it.
use mathlib.Core.Option
use vda.Prelude.{ℕ, ◌≡◌, refl, false, none, some, List, [], ◌∷◌, map, arith, ap, ◌∙◌}
use vda.Prelude.Int.{pos, ◌+ℤ◌}
use vda.Prelude.Text.{String, eq_iff, itoa_ℕ}
use vda.Geometry.{inside_deviation_ellipse}
use vda.Models.Order.{Order}
use vda.Fleet.Experiments.{demo_node, demo_edge}
use vda.Robot.Main.{Robot, on_order, position}
use vda.Robot.OrderState.{is_idle}
use vda.Fleet.Dispatcher.{
  Dispatcher, new_dispatcher, start, extend_if_needed, release, build_order, clamp_end, slice,
  release_range, released_node, released_edge, route_nodes, route_edges,
}
use vda.Fleet.Dispatcher.Plan.{Plan, Progress, Represents, window, begin, send_next, mark}
use vda.Fleet.Dispatcher.Demo.{demo_plan, node_at}
use vda.Fleet.Dispatcher.Refines.{IsNew, extend-refines}
use vda.Delivery.{System, here}
use vda.Delivery.InStep.{InStep}
use vda.Delivery.Accepted.{IsTaken, CanBegin, begin_accepted}
use vda.Delivery.Synced.{IsSynced}
use vda.Delivery.Release.{Finishes, deliveries-IsTaken, releases_all}
use vda.Examples.Coarse.{coarse}
use vda.Examples.Orders.{idle_state}

abbrev pub plan : Plan ℕ
plan = demo_plan "demo-route-1" 9

abbrev pub fresh : Dispatcher ℕ
fresh = new_dispatcher "KIT" "0001" "demo-route-1" (plan.first ∷ plan.rest) plan.edges

-- Behind the first window, r_0 to r_2.
abbrev pub begun : Dispatcher ℕ
begun = record fresh {
  nodes = mark released_node 3 (plan.first ∷ plan.rest);
  edges = mark released_edge 2 plan.edges;
  released_idx = pos 2;
  next_update_id = pos 1;
}

abbrev pub first_window : Progress
first_window = record { reached = 2; next_update = 1 }

pub begun-Represents : Represents plan first_window begun
unfolding new_dispatcher demo_plan route_nodes
begun-Represents = record {
  same_id = refl;
  nodes_marked = refl;
  edges_marked = refl;
  same_index = refl;
  same_update = refl;
  within = omega arith;
}

ids : Order ℕ → List String
ids o = map (λ n. n.node_id) o.nodes

start_sends : Option.map (λ q. ids q.1) (start fresh) ≡ some ("r_0" ∷ "r_1" ∷ "r_2" ∷ [])
unfolding start clamp_end release build_order slice release_range new_dispatcher demo_plan node_at
    route_nodes route_edges demo_node demo_edge itoa_ℕ ◌+ℤ◌ ids
start_sends = refl

extend_sends :
    Option.map (λ q. Option.map ids q.1) (extend_if_needed begun "demo-route-1")
    ≡ some (some ("r_2" ∷ "r_3" ∷ "r_4" ∷ "r_5" ∷ []))
unfolding extend_if_needed clamp_end release build_order slice release_range new_dispatcher
    demo_plan node_at route_nodes route_edges demo_node demo_edge itoa_ℕ ◌+ℤ◌ ids
extend_sends = refl

extend-refines_example :
    (d : Dispatcher ℕ) × (extend_if_needed begun "demo-route-1"
      ≡ some (d, (send_next plan first_window).1))
    × Represents plan (send_next plan first_window).0 d
unfolding demo_plan
extend-refines_example = extend-refines plan first_window begun begun-Represents

abbrev pub parked : Robot ℕ
parked = record {
  state = idle_state;
  simulator = none;
  actions = [];
  instant_action_states = [];
  dirty = false;
}

fresh-IsNew : IsNew plan fresh
unfolding new_dispatcher demo_plan
fresh-IsNew = record { same_id = refl; same_nodes = refl; same_edges = refl }

parked-CanBegin : CanBegin plan parked
unfolding demo_plan node_at demo_node is_idle position inside_deviation_ellipse
parked-CanBegin = record {
  other_id = ground (arith, eq_iff "demo-route-1" "");
  idle = refl;
  in_range = refl;
}

begin_accepted_example :
    (d : Dispatcher ℕ) × (r : Robot ℕ) × (start fresh ≡ some (d, (begin plan).1))
    × IsTaken parked (begin plan).1
    × (on_order parked (begin plan).1 ≡ some r)
    × Represents plan (begin plan).0 d
    × InStep plan (begin plan).0 r.state
begin_accepted_example = begin_accepted plan fresh parked fresh-IsNew parked-CanBegin

-- The robot that has taken the first window.
abbrev pub driving_robot : Robot ℕ
driving_robot = record parked {
  state = record idle_state {
    order_id = "demo-route-1";
    order_update_id = pos 0;
    decision_node_id = "r_2";
    decision_sequence_id = pos 4;
  };
}

pub driving_robot-InStep : InStep plan first_window driving_robot.state
unfolding demo_plan node_at demo_node route_nodes itoa_ℕ
driving_robot-InStep = record {
  same_id = refl;
  older = omega arith;
  running = refl;
  node = node_at 2;
  node_here = refl;
  decision_id = refl;
  decision_number = refl;
}

abbrev pub synced : System ℕ
synced = record { dispatcher = begun; robot = driving_robot }

pub synced-IsSynced : IsSynced plan first_window synced
synced-IsSynced = record { stands = begun-Represents; in_step = driving_robot-InStep }

releases_all_example : Finishes 3 plan synced
unfolding demo_plan route_nodes
releases_all_example = releases_all 3 plan first_window synced synced-IsSynced (omega arith)

-- What becomes of the first order.
first_delivery :
    (d : Dispatcher ℕ) × (r : Robot ℕ) × (start fresh ≡ some (d, (begin plan).1))
    × IsTaken parked (begin plan).1
    × (on_order parked (begin plan).1 ≡ some r)
    × Represents plan (begin plan).0 d
    × InStep plan (begin plan).0 r.state
first_delivery = begin_accepted plan fresh parked fresh-IsNew parked-CanBegin

abbrev after_start : System ℕ
after_start = record { dispatcher = first_delivery.0; robot = first_delivery.1 }

request_after_start :
    (d : Dispatcher ℕ) × (extend_if_needed after_start.dispatcher after_start.robot.state.order_id
      ≡ some (d, some (window plan 2 3 1)))
unfolding demo_plan route_nodes
request_after_start =
    let (d, e, _) = extend-refines plan (begin plan).0 after_start.dispatcher first_delivery.5 in
    (d, ap (extend_if_needed after_start.dispatcher) first_delivery.6.same_id ∙ e)

deliveries-IsTaken_example : IsTaken after_start.robot (window plan 2 3 1)
deliveries-IsTaken_example =
    deliveries-IsTaken plan fresh first_delivery.0 parked first_delivery.1 (begin plan).1
      after_start request_after_start.0 (window plan 2 3 1) fresh-IsNew parked-CanBegin
      first_delivery.2 first_delivery.4 here request_after_start.1
