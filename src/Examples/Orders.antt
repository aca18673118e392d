-- ===== src/Examples/Orders.antt =====
-- Runs of `ValidateOrder` and `AcceptOrder` on the orders of the experiments.
use mathlib.Core.Option
use vda.Prelude.{ℕ, ◌≡◌, refl, ◌↔◌, ◌⊎◌, true, false, none, some, List, [], ◌∷◌, arith, map}
use vda.Prelude.Int.{pos, negsuc, ◌+ℤ◌}
use vda.Errors.{
  VdaError, ErrorType, ErrorLevel, invalid_order, warning, same_order_update_id,
  outdated_order_update,
}
use vda.Geometry.{inside_deviation_ellipse}
use vda.Models.Order.{Node, Order}
use vda.Validation.{validate_order, sequence_of, at_index}
use vda.Validation.Sorting.{Sequence, of_node, of_edge, sort_slice}
use vda.Validation.Route.{IsRoute}
use vda.Validation.Decides.{validate_order_iff, validate_order_type}
use vda.Errors
use vda.Robot.OrderState.{
  close_accept, replace_order, update_order, stitch, OrderState, is_idle, decision_point, accept,
  has_horizon,
}
use vda.Robot.AcceptOrder.{Verdict, accept_order, rejected, error_first_node}
use vda.Robot.AcceptOrder.Decision.{
  Accepts, FitsNew, FitsUpdate, accept_order_iff, accept_order-IsSettled, IsSettled,
  accept_order_reason, Reason,
}
use vda.Robot.AcceptOrder.Replay.{Taken, accept_order-Taken, accept_order_again, accept_order_late}
use vda.Robot.AcceptOrder.Soundness.{replace-IsSound, accept_order-IsSound}
use vda.Robot.OrderState.Sound.{IsSound}
use vda.Fleet.Experiments.{base_order, good_update, bad_update, demo_node, demo_edge}
use vda.Examples.Coarse.{coarse, origin}

-- The zero value of the robot's order state.
abbrev pub idle_state : OrderState ℕ
idle_state = record {
  order_id = "";
  order_update_id = pos 0;
  cancelled = false;
  paused = false;
  last_node_id = "";
  last_node_sequence_id = pos 0;
  decision_node_id = "";
  decision_sequence_id = pos 0;
  nodes = [];
  edges = [];
}

-- The order that the robot takes first.
abbrev pub base : Order ℕ
base = base_order

abbrev pub update : Order ℕ
update = good_update

abbrev bad : Order ℕ
bad = bad_update

abbrev pub node_a : Node ℕ
node_a = demo_node "n_A" (pos 0) true 0 0

abbrev pub node_c : Node ℕ
node_c = demo_node "n_C" (pos 4) true 4 1

abbrev pub after_base : OrderState ℕ
after_base = close_accept base (replace_order idle_state base node_a)

abbrev base_verdict : Verdict ℕ
base_verdict = record { state = after_base; accepted = true; error = none }

pub base_valid : validate_order base ≡ none
unfolding validate_order base_order ◌+ℤ◌
base_valid = refl

pub update_valid : validate_order update ≡ none
unfolding validate_order good_update ◌+ℤ◌
update_valid = refl

base_decides : decision_point base.nodes base.edges ≡ ("n_C", pos 4)
unfolding decision_point base_order
base_decides = refl

base_accepted : accept_order idle_state base origin ≡ some base_verdict
unfolding accept_order accept is_idle base_order inside_deviation_ellipse has_horizon decision_point
base_accepted = refl

-- The update on the wrong node is refused, if it gets as far as `AcceptOrder`; `ValidateOrder` refuses it
-- for the gap between its sequenceIds.
bad_refused : Option.map (λ v. v.accepted) (accept_order after_base bad origin) ≡ some false
unfolding accept_order accept is_idle base_order bad_update inside_deviation_ellipse decision_point
bad_refused = refl

-- The update on the decision point is taken, and the nodes of the new base follow the kept one.
update_taken :
    Option.map (λ v. map (λ n. n.node_id) v.state.nodes) (accept_order after_base update origin)
    ≡ some ("n_A" ∷ "n_B" ∷ "n_C" ∷ "n_D" ∷ "n_E" ∷ [])
unfolding accept_order accept is_idle base_order good_update inside_deviation_ellipse decision_point
    stitch
update_taken = refl

validate_order_iff_example :
    (validate_order base ≡ none) ↔ IsRoute (sort_slice (sequence_of base.nodes base.edges))
validate_order_iff_example = validate_order_iff base

bad_reported : (invalid_order ≡ invalid_order) × (warning ≡ warning)
unfolding validate_order bad_update ◌+ℤ◌ Errors.new
bad_reported =
    validate_order_type bad {x = at_index "sequenceId at index " 2 " is not strictly increasing"}
      refl

accept_order_iff_example :
    (Accepts idle_state base origin
      ↔ (FitsNew idle_state base origin node_a ⊎ FitsUpdate idle_state base node_a))
    × ((turned : ℕ)
        → accept_order idle_state base (record origin { theta = turned })
          ≡ accept_order idle_state base origin)
unfolding base_order
accept_order_iff_example = accept_order_iff idle_state base origin node_a _ refl

accept_order-IsSettled_example : IsSettled idle_state true after_base none
accept_order-IsSettled_example =
    accept_order-IsSettled idle_state base origin base_verdict base_accepted

abbrev bad_error : VdaError
bad_error = error_first_node after_base (demo_node {F = ℕ} "n_B" (pos 2) true 2 0)

bad_verdict : accept_order after_base bad origin ≡ rejected after_base bad_error
unfolding accept_order accept is_idle base_order bad_update inside_deviation_ellipse decision_point
bad_verdict = refl

accept_order_reason_example : Reason after_base bad origin invalid_order
unfolding error_first_node Errors.new
accept_order_reason_example =
    accept_order_reason after_base bad origin
      (record { state = after_base; accepted = false; error = some bad_error }) bad_error
      bad_verdict refl

base-Taken : Taken idle_state base after_base
base-Taken = accept_order-Taken idle_state base origin base_verdict base_accepted refl

accept_order_again_example :
    (x : VdaError) × (accept_order after_base base origin ≡ rejected after_base x)
    × (x.error_type ≡ same_order_update_id)
accept_order_again_example =
    accept_order_again idle_state base origin base_verdict origin base_accepted refl

abbrev late : Order ℕ
late = record base { order_update_id = negsuc 0 }

base_late :
    (x : VdaError) × (accept_order after_base late origin ≡ rejected after_base x)
    × (x.error_type ≡ outdated_order_update)
unfolding base_order
base_late =
    accept_order_late idle_state base origin base_verdict late origin base_accepted refl refl
      (omega arith)

pub after_base-IsSound : IsSound after_base
unfolding base_order
after_base-IsSound = replace-IsSound idle_state base node_a _ base_valid refl

abbrev pub after_update : OrderState ℕ
after_update = close_accept update (update_order after_base update)

abbrev update_verdict : Verdict ℕ
update_verdict = record { state = after_update; accepted = true; error = none }

update_accepted : accept_order after_base update origin ≡ some update_verdict
unfolding accept_order accept is_idle base_order good_update inside_deviation_ellipse has_horizon
    decision_point
update_accepted = refl

abbrev pub update_tail : List (Sequence ℕ)
update_tail =
    of_edge (demo_edge "e_3" (pos 5) "n_C" "n_D" true)
    ∷ of_node (demo_node "n_D" (pos 6) true 6 1)
    ∷ of_edge (demo_edge "e_4" (pos 7) "n_D" "n_E" false)
    ∷ of_node (demo_node "n_E" (pos 8) false 8 0)
    ∷ []

accept_order-IsSound_example : IsSound after_update
unfolding good_update sort_slice
accept_order-IsSound_example =
    accept_order-IsSound after_base update origin update_verdict node_c _ update_tail
      (λ e. after_base-IsSound) update_valid refl refl refl update_accepted refl
