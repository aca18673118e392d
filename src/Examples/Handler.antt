-- ===== src/Examples/Handler.antt =====
-- The good update of the experiments at a robot that waits in the decision node of the base order.
use mathlib.Core.Option
use vda.Prelude.{ℕ, ◌≡◌, refl, false, none, some, [], arith}
use vda.Prelude.Int.{pos, rem}
use vda.Sim.{Simulator, driving}
use vda.Fleet.Experiments.{base_order, good_update}
use vda.Validation.Sorting.{sort_slice}
use vda.Robot.OrderState.{OrderState, decision_point}
use vda.Robot.OrderState.Sound.{IsSound}
use vda.Robot.Main.{Robot, on_order, position}
use vda.Robot.Main.Extension.{update_stalls}
use vda.Robot.Main.Handler.{Handled, on_order-Handled, on_order-IsSound}
use vda.Examples.Coarse.{coarse}
use vda.Examples.Orders.{
  idle_state, update, update_valid, base, after_base, after_base-IsSound, node_c, update_tail,
}

-- The drive has arrived at n_C, along both edges of the base.
abbrev arrived : OrderState ℕ
arrived = record after_base { last_node_id = "n_C"; last_node_sequence_id = pos 4 }

abbrev drive : Simulator ℕ
drive = record {
  nodes = base.nodes;
  edges = base.edges;
  edge_idx = 2;
  position = record { x = 4; y = 1; theta = 0 };
  wake = false;
}

abbrev pub waiting_robot : Robot ℕ
waiting_robot = record {
  state = arrived;
  simulator = some drive;
  actions = [];
  instant_action_states = [];
  dirty = false;
}

arrived-IsSound : IsSound arrived
unfolding rem
arrived-IsSound =
    let s = after_base-IsSound in record { route = s.route; decided = s.decided; on_node = refl }

update_stalls_example :
    (r' : Robot ℕ) × (on_order waiting_robot update ≡ some r')
    × (r'.state.order_update_id ≡ update.order_update_id)
    × (r'.state.edges ≡ update.edges)
    × (Option.map (λ s. driving s) r'.simulator ≡ some false)
unfolding base_order good_update decision_point
update_stalls_example =
    update_stalls waiting_robot drive update node_c _ refl arrived-IsSound refl update_valid refl
      (record {
        same_id = refl;
        newer = omega arith;
        running = refl;
        decision_id = refl;
        decision_number = refl;
      })
      (omega arith)

on_order-Handled_example :
    (r' : Robot ℕ) × (on_order waiting_robot update ≡ some r') × Handled waiting_robot update r'
unfolding good_update
on_order-Handled_example = on_order-Handled waiting_robot update node_c _ refl

on_order-IsSound_example :
    (r' : Robot ℕ) × (on_order waiting_robot update ≡ some r') × IsSound r'.state
unfolding good_update sort_slice
on_order-IsSound_example =
    on_order-IsSound waiting_robot update node_c _ update_tail arrived-IsSound refl refl refl

-- The good update at a robot that has no order.
abbrev no_order : Robot ℕ
no_order = record waiting_robot { state = idle_state; simulator = none }
