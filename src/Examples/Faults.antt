-- ===== src/Examples/Faults.antt =====
-- Instances of the theorems about orders that stop the robot.
use vda.Prelude.{ℕ, ◌≡◌, refl, ◌≢◌, ◌↔◌, true, false, none, [], ◌∷◌, arith}
use vda.Prelude.Int.{pos}
use vda.Prelude.Text.{String, eq_iff}
use vda.Geometry.{inside_deviation_ellipse}
use vda.Models.Order.{Node, Order}
use vda.Validation.{validate_order}
use vda.Validation.Sorting.{sort_slice}
use vda.Robot.OrderState.{
  OrderState, is_idle, accept, has_horizon, close_accept, replace_order, decision_point,
}
use vda.Robot.AcceptOrder.{accept_order}
use vda.Robot.AcceptOrder.Decision.{Accepts}
use vda.Robot.AcceptOrder.Faults.{
  ReachesNode, accept_order_panics_iff, empty_order_panics, unreleased_start_sticks,
}
use vda.Robot.Main.{Robot}
use vda.Robot.InstantActions.{cancel_order}
use vda.Robot.InstantActions.Cancel.{cancel_order_sticks}
use vda.Fleet.Experiments.{base_order, good_update, demo_node, no_header}
use vda.Examples.Coarse.{coarse, origin}
use vda.Examples.Orders.{idle_state, base, update, update_valid, after_base, node_a, node_c}

abbrev empty_order : Order ℕ
empty_order = record {
  header = no_header;
  order_id = "empty";
  order_update_id = pos 0;
  order_description = "";
  nodes = [];
  edges = [];
}

named : {s : String} → s ≡ "empty" → s ≢ ""
named e h = ground (arith, eq_iff "empty" "")

accept_order_panics_iff_example :
    (accept_order idle_state empty_order origin ≡ none)
    ↔ ((empty_order.nodes ≡ []) × ReachesNode idle_state empty_order)
accept_order_panics_iff_example = accept_order_panics_iff idle_state empty_order origin

nothing_ordered :
    (validate_order empty_order ≡ none) × (accept_order idle_state empty_order origin ≡ none)
unfolding is_idle
nothing_ordered = empty_order_panics idle_state empty_order origin refl refl (named refl) refl refl

-- An order of a single node that is not released.
abbrev lone_node : Node ℕ
lone_node = demo_node "n_A" (pos 0) false 0 0

abbrev lone_order : Order ℕ
lone_order = record empty_order { nodes = lone_node ∷ [] }

abbrev after_lone : OrderState ℕ
after_lone = close_accept lone_order (replace_order idle_state lone_order lone_node)

unreleased_start_sticks_example : ¬ Accepts after_lone update origin
unfolding good_update accept_order accept is_idle inside_deviation_ellipse has_horizon
    decision_point sort_slice demo_node
unreleased_start_sticks_example =
    unreleased_start_sticks idle_state lone_order origin
      (record { state = after_lone; accepted = true; error = none }) lone_node [] [] update origin
      node_c _ refl refl refl (named refl)
      (record { other_id = named refl; idle = refl; number_zero = refl; in_range = refl }) refl
      update_valid refl

-- The robot on the way of the base order, at its first node.
abbrev on_the_way : Robot ℕ
on_the_way = record {
  state = after_base;
  simulator = none;
  actions = [];
  instant_action_states = [];
  dirty = true;
}

cancel_order_sticks_example : ¬ Accepts (cancel_order on_the_way).state base origin
unfolding base_order decision_point
cancel_order_sticks_example =
    cancel_order_sticks on_the_way base origin node_a _
      (λ e. ground (arith, eq_iff "demo-order-1" "")) (λ e. cc) refl
