-- ===== src/Examples/Losses.antt =====
-- Windows of the route that do not arrive.
use vda.Prelude.{ℕ, ◌≡◌, refl, some, ◌∷◌, arith}
use vda.Prelude.Int.{pos}
use vda.Robot.AcceptOrder.Decision.{Accepts}
use vda.Fleet.Dispatcher.{
  Dispatcher, new_dispatcher, extend_if_needed, released_node, released_edge, route_nodes,
}
use vda.Fleet.Dispatcher.Plan.{Progress, Represents, window, mark}
use vda.Fleet.Dispatcher.Demo.{demo_plan}
use vda.Fleet.Dispatcher.Refines.{extend-refines}
use vda.Delivery.{System, here}
use vda.Delivery.Behind.{IsBehind, lost_update, unsent_window}
use vda.Headers.{new_header_generator}
use vda.Prelude.Text.{codes}
use vda.Prelude.{true, false, []}
use vda.Models.Action.{Action, BlockingType}
use vda.Robot.Main.{Robot}
use vda.Robot.InstantActions.{apply_instant_action, cancel_order}
use vda.Delivery.Cancelled.{AnyReach, cancelled_refuses}
use vda.Topics.{
  topic_for, validate_segment, validate_serial, first_invalid, contains, validate_topic_name,
}
use vda.Fleet.Publishing.{Outside, Outcome, PublishError, extend_published, publish_to}
use vda.Examples.Coarse.{coarse, origin}
use vda.Examples.Dispatch.{
  plan, fresh, begun, first_window, driving_robot, synced, begun-Represents, driving_robot-InStep,
  synced-IsSynced,
}

-- The dispatcher behind the second window, r_2 to r_5.
abbrev further : Dispatcher ℕ
further = record fresh {
  nodes = mark released_node 6 (plan.first ∷ plan.rest);
  edges = mark released_edge 5 plan.edges;
  released_idx = pos 5;
  next_update_id = pos 2;
}

abbrev second_window : Progress
second_window = record { reached = 5; next_update = 2 }

further-Represents : Represents plan second_window further
unfolding new_dispatcher demo_plan route_nodes
further-Represents = record {
  same_id = refl;
  nodes_marked = refl;
  edges_marked = refl;
  same_index = refl;
  same_update = refl;
  within = omega arith;
}

-- The request behind the first window, answered by the second one.
second_request :
    (d : Dispatcher ℕ) × (extend_if_needed begun "demo-route-1"
      ≡ some (d, some (window plan 2 3 1)))
    × Represents plan second_window d
unfolding demo_plan route_nodes
second_request = extend-refines plan first_window begun begun-Represents

third_request :
    (d : Dispatcher ℕ) × (extend_if_needed further "demo-route-1"
      ≡ some (d, some (window plan 5 3 2)))
    × Represents plan (record { reached = 8; next_update = 3 }) d
unfolding demo_plan route_nodes
third_request = extend-refines plan second_window further further-Represents

-- The second window is lost, and the third one arrives.
abbrev ahead : System ℕ
ahead = record { dispatcher = further; robot = driving_robot }

ahead-IsBehind : IsBehind plan ahead
ahead-IsBehind = record {
  ahead = second_window;
  held = first_window;
  stands = further-Represents;
  in_step = driving_robot-InStep;
  further = omega arith;
}

third_refused : ¬ Accepts driving_robot.state (window plan 5 3 2) origin
third_refused =
    lost_update plan ahead ahead third_request.0 (window plan 5 3 2) origin ahead-IsBehind here
      third_request.1

-- A client that publishes nothing.
abbrev offline_client : Outside ℕ
offline_client = record { encodes = λ o. true; fails = λ c. true }

second_publish :
    (outcome : Outcome ℕ) × (extend_published offline_client "now" new_header_generator begun
        "demo-route-1"
      ≡ some (second_request.0, outcome))
    × (outcome.error ≡ some PublishError.not_sent)
unfolding extend_published publish_to new_dispatcher topic_for validate_segment validate_serial
    first_invalid contains validate_topic_name codes
second_publish =
    let e = second_request.1 in
    (
      publish_to offline_client "KIT" "0001" "now" new_header_generator (window plan 2 3 1),
      ground arith,
      refl,
    )

after_second :
    (d : Dispatcher ℕ) × (extend_if_needed second_request.0 "demo-route-1"
      ≡ some (d, some (window plan 5 3 2)))
    × Represents plan (record { reached = 8; next_update = 3 }) d
unfolding demo_plan route_nodes
after_second = extend-refines plan second_window second_request.0 second_request.2

unsent_window_example : ¬ Accepts driving_robot.state (window plan 5 3 2) origin
unsent_window_example =
    unsent_window plan first_window synced (record synced { dispatcher = second_request.0 })
      offline_client "now" new_header_generator second_request.0 after_second.0 second_publish.0
      PublishError.not_sent (window plan 5 3 2) origin synced-IsSynced second_publish.1
      second_publish.2 here after_second.1

abbrev cancel : Action
cancel = record {
  action_type = "cancelOrder";
  action_id = "c";
  action_descriptor = "";
  blocking_type = BlockingType.hard;
  action_parameters = [];
  retriable = false;
}

abbrev cancelled_robot : Robot ℕ
cancelled_robot = apply_instant_action 0 driving_robot cancel

-- The dispatcher sends its second window to the robot that has cancelled.
sends_on :
    (d : Dispatcher ℕ) × (extend_if_needed begun cancelled_robot.state.order_id
      ≡ some (d, some (window plan 2 3 1)))
    × Represents plan second_window d
unfolding demo_plan route_nodes apply_instant_action cancel_order
sends_on = extend-refines plan first_window begun begun-Represents

cancelled_refuses_example : ¬ Accepts cancelled_robot.state (window plan 2 3 1) origin
cancelled_refuses_example =
    cancelled_refuses plan first_window synced (record synced { robot = cancelled_robot }) 0 cancel
      sends_on.0 (window plan 2 3 1) origin synced-IsSynced refl AnyReach.here sends_on.1
