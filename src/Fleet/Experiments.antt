-- ===== src/Fleet/Experiments.antt =====
-- fleet/publish.go: the orders of the drop and the failure experiment.
use vda.Prelude.{Bool, true, false, [], ◌∷◌}
use vda.Prelude.Int.{ℤ, pos}
use vda.Prelude.Text.{String}
use vda.Geometry.{Float64, NodePosition}
use vda.Models.Action.{Header}
use vda.Models.Order.{Node, Edge, Order, other}

-- The header is set when the order is published.
abbrev pub no_header : Header
no_header = record {
  header_id = 0;
  timestamp = "";
  version = "";
  manufacturer = "";
  serial_number = "";
}

module _ {F : Type 0} ⦃fl : Float64 F⦄ where
  open fl use {lit}

  unfoldable pub demo_node_position : F → F → NodePosition F
  demo_node_position x y = record {
    position = record { x = x; y = y; theta = lit 0 1 };
    map_id = "floor1";
    allowed_deviation_xy = record { a = lit 1 10; b = lit 1 10; theta = lit 0 1 };
    allowed_deviation_theta = lit 1 10;
  }

  -- A node of the literals; the fields that they leave out have their zero values.
  unfoldable pub demo_node : String → ℤ → Bool → F → F → Node F
  unfolding demo_node_position
  demo_node id number released x y = record {
    node_id = id;
    sequence_id = number;
    node_descriptor = "";
    released = released;
    node_position = demo_node_position x y;
    actions = [];
  }

  unfoldable pub demo_edge : String → ℤ → String → String → Bool → Edge F
  demo_edge id number from to released = record {
    edge_id = id;
    sequence_id = number;
    start_node_id = from;
    end_node_id = to;
    released = released;
    maximum_speed = lit 1 1;
    maximum_mobile_robot_height = lit 0 1;
    orientation = lit 0 1;
    orientation_type = other "";
    rotation_allowed = false;
    trajectory = record { degree = pos 0; knot_vector = []; control_points = [] };
    actions = [];
  }

  unfoldable pub base_order : Order F
  unfolding demo_node demo_edge
  base_order = record {
    header = no_header;
    order_id = "demo-order-1";
    order_update_id = pos 0;
    order_description = "";
    nodes =
        demo_node "n_A" (pos 0) true (lit 0 1) (lit 0 1)
        ∷ demo_node "n_B" (pos 2) true (lit 2 1) (lit 0 1)
        ∷ demo_node "n_C" (pos 4) true (lit 4 1) (lit 1 1)
        ∷ demo_node "n_D" (pos 6) false (lit 6 1) (lit 1 1)
        ∷ demo_node "n_E" (pos 8) false (lit 8 1) (lit 0 1)
        ∷ [];
    edges =
        demo_edge "e_1" (pos 1) "n_A" "n_B" true
        ∷ demo_edge "e_2" (pos 3) "n_B" "n_C" true
        ∷ demo_edge "e_3" (pos 5) "n_C" "n_D" false
        ∷ demo_edge "e_4" (pos 7) "n_D" "n_E" false
        ∷ [];
  }

  unfoldable pub good_update : Order F
  unfolding demo_node demo_edge
  good_update = record {
    header = no_header;
    order_id = "demo-order-1";
    order_update_id = pos 1;
    order_description = "";
    nodes =
        demo_node "n_C" (pos 4) true (lit 4 1) (lit 1 1)
        ∷ demo_node "n_D" (pos 6) true (lit 6 1) (lit 1 1)
        ∷ demo_node "n_E" (pos 8) false (lit 8 1) (lit 0 1)
        ∷ [];
    edges =
        demo_edge "e_3" (pos 5) "n_C" "n_D" true ∷ demo_edge "e_4" (pos 7) "n_D" "n_E" false ∷ [];
  }

  unfoldable pub bad_update : Order F
  unfolding demo_node demo_edge
  bad_update = record {
    header = no_header;
    order_id = "demo-order-1";
    order_update_id = pos 1;
    order_description = "";
    nodes =
        demo_node "n_B" (pos 2) true (lit 2 1) (lit 0 1)
        ∷ demo_node "n_D" (pos 6) true (lit 6 1) (lit 1 1)
        ∷ [];
    edges = demo_edge "e_x" (pos 3) "n_B" "n_D" true ∷ [];
  }
