-- ===== src/Examples/Circuit.antt =====
-- An order that leads from n_A to n_B and back.
use vda.Prelude.{ℕ, ◌≡◌, refl, true, none, some, [], ◌∷◌, arith}
use vda.Prelude.Int.{pos, ◌+ℤ◌}
use vda.Prelude.Text.{eq_iff}
use vda.Geometry.{inside_deviation_ellipse}
use vda.Models.Order.{Order}
use vda.Validation.{validate_order}
use vda.Validation.Sorting.{sort_slice}
use vda.Fleet.Experiments.{base_order, demo_node, demo_edge}
use vda.Robot.OrderState.{decision_point, is_idle, has_horizon, accept}
use vda.Robot.AcceptOrder.{accept_order}
use vda.Robot.AcceptOrder.Decision.{Accepts, FitsNew}
use vda.Robot.Main.{Robot, on_order, on_tick, position, sequence_id_for}
use vda.Robot.Loop.FirstLeg.{begun_robot}
use vda.Robot.RoundTrip.{ComesBack, here, arrive, round_trip_sticks}
use vda.Examples.Coarse.{coarse}
use vda.Examples.Orders.{base, node_a, idle_state}
use vda.Examples.Dispatch.{parked}

abbrev circuit : Order ℕ
circuit = record base {
  nodes = node_a ∷ demo_node "n_B" (pos 2) true 2 0 ∷ demo_node "n_A" (pos 4) true 0 0 ∷ [];
  edges = demo_edge "e_1" (pos 1) "n_A" "n_B" true ∷ demo_edge "e_2" (pos 3) "n_B" "n_A" true ∷ [];
}

circuit_valid : validate_order circuit ≡ none
unfolding validate_order base_order ◌+ℤ◌ demo_node demo_edge
circuit_valid = refl

circuit-ComesBack : ComesBack circuit node_a
unfolding base_order sort_slice demo_node demo_edge decision_point
circuit-ComesBack = record {
  rest = _;
  tail = _;
  named = ground (arith, eq_iff "demo-order-1" "");
  lists = refl;
  sorted = refl;
  base = refl;
  back = refl;
  later = λ q. cc;
}

circuit-FitsNew : FitsNew idle_state circuit (position parked) node_a
unfolding base_order is_idle position inside_deviation_ellipse
circuit-FitsNew = record {
  other_id = ground (arith, eq_iff "demo-order-1" "");
  idle = refl;
  number_zero = refl;
  in_range = refl;
}

abbrev circling : Robot ℕ
circling = begun_robot parked circuit node_a

circling_by : on_order parked circuit ≡ some circling
unfolding on_order validate_order base_order ◌+ℤ◌ accept_order accept is_idle has_horizon
    inside_deviation_ellipse decision_point position demo_node demo_edge
circling_by = refl

-- Back at n_A.
abbrev back_home : Robot ℕ
back_home = on_tick (on_tick circling "n_B") "n_A"

takes_start : back_home.state.last_node_sequence_id ≡ pos 0
unfolding on_tick base_order demo_node sequence_id_for
takes_start = refl

abbrev another : Order ℕ
another = record base { order_id = "demo-order-2" }

round_trip_sticks_example :
    (¬ Accepts back_home.state another (position back_home))
    × (on_order back_home another ≡ some back_home)
unfolding base_order on_tick
round_trip_sticks_example =
    round_trip_sticks parked circling back_home circuit node_a circuit-ComesBack another node_a _
      circuit_valid circuit-FitsNew circling_by (arrive "n_A" (arrive "n_B" here)) refl
      (ground (arith, eq_iff "demo-order-2" "demo-order-1"))
