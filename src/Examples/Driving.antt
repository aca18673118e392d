-- ===== src/Examples/Driving.antt =====
-- The drive's loop with handlers in between: an update that wakes it, and a cancelOrder on the way.
use vda.Prelude.{ℕ, ◌≡◌, refl, true, false, none, some, [], ◌∷◌, arith, inr}
use vda.Robot.Loop.Late.{late_arrival}
use vda.Prelude.Int.{negsuc, pos, ◌+ℤ◌}
use vda.Prelude.Text.{eq_iff}
use vda.Geometry.{inside_deviation_ellipse}
use vda.Models.Action.{Action}
use vda.Models.Order.{Order}
use vda.Validation.{validate_order}
use vda.Validation.Sorting.{sort_slice}
use vda.Sim.{Simulator, can_drive}
use vda.Fleet.Experiments.{base_order, demo_node, demo_edge}
use vda.Robot.ActionEngine.{driving_allowed}
use vda.Robot.OrderState.{
  close_accept, update_order, decision_point, is_idle, has_horizon, stitch, accept,
}
use vda.Robot.AcceptOrder.{accept_order}
use vda.Robot.AcceptOrder.Decision.{FitsNew}
use vda.Robot.Main.{Robot, on_order, position}
use vda.Robot.InstantActions.{apply_instant_action}
use vda.Robot.Loop.{
  Machine, checking, blocked, ticking, arrived, go_on, loop_step, moves, order, loop, handle, Reach,
  here, later,
}
use vda.Robot.Loop.Wake.{blocked_finds_wake}
use vda.Robot.Loop.Resumes.{Drives, drive_resumes}
use vda.Robot.Loop.Crash.{cancel_order_panics}
use vda.Robot.Loop.FirstLeg.{begun_robot, first_leg_panics}
use vda.Robot.Loop.Runs.{Roomy, runs_on, begin, handled}
use vda.Examples.Coarse.{coarse, origin}
use vda.Examples.Orders.{idle_state, base, base_valid, node_a}
use vda.Examples.Dispatch.{parked}

-- An order that ends where it starts, and an update that leads on.
abbrev pub short : Order ℕ
short = record base { nodes = node_a ∷ []; edges = [] }

abbrev pub longer : Order ℕ
longer = record base { order_update_id = pos 1 }

abbrev pub started : Robot ℕ
started = begun_robot parked short node_a

pub started_by : on_order parked short ≡ some started
unfolding on_order validate_order base_order ◌+ℤ◌ accept_order accept is_idle has_horizon
    inside_deviation_ellipse decision_point position
started_by = refl

abbrev pub drive : Simulator ℕ
drive = record { nodes = node_a ∷ []; edges = []; edge_idx = 0; position = origin; wake = false }

abbrev pub woken : Simulator ℕ
woken = record drive { nodes = longer.nodes; edges = longer.edges; wake = true }

abbrev pub extended : Robot ℕ
extended = record started {
  state = close_accept longer (update_order started.state longer);
  simulator = some woken;
}

pub extended_by : on_order started longer ≡ some extended
unfolding on_order validate_order base_order ◌+ℤ◌ accept_order accept is_idle has_horizon
    inside_deviation_ellipse decision_point position stitch
extended_by = refl

abbrev pub at_rest : Machine ℕ
at_rest = record { robot = parked; pc = checking }

abbrev pub waiting : Machine ℕ
waiting = record { robot = started; pc = blocked }

abbrev pub called : Machine ℕ
called = record { robot = extended; pc = blocked }

pub waits : go_on (record { robot = started; pc = checking }) ≡ some waiting
unfolding go_on loop_step can_drive
waits = refl

reaches : Reach at_rest called
reaches =
    later (later (later here (handle (order short started_by))) (loop waits))
      (handle (order longer extended_by))

pub woken_drives : can_drive woken ≡ true
unfolding can_drive base_order
woken_drives = refl

blocked_finds_wake_example : woken.wake ≡ true
blocked_finds_wake_example =
    blocked_finds_wake at_rest called woken (refl, refl) reaches refl refl woken_drives

drive_resumes_example : Drives called
unfolding driving_allowed
drive_resumes_example =
    drive_resumes at_rest called woken (refl, refl) reaches refl woken_drives
      (record { allowed = refl; unpaused = refl }) (λ id q. cc)

abbrev pub cancel : Action
cancel = record {
  action_type = "cancelOrder";
  action_id = "c";
  action_descriptor = "";
  blocking_type = vda.Models.Action.BlockingType.hard;
  action_parameters = [];
  retriable = false;
}

parked-FitsNew : FitsNew idle_state base (position parked) node_a
unfolding base_order is_idle position inside_deviation_ellipse
parked-FitsNew = record {
  other_id = ground (arith, eq_iff "demo-order-1" "");
  idle = refl;
  number_zero = refl;
  in_range = refl;
}

cancelled_at_once :
    (r' : Robot ℕ) × (on_order parked base ≡ some r')
    × (moves 4 (record { robot = apply_instant_action 0 r' cancel; pc = ticking }) ≡ none)
unfolding base_order sort_slice
cancelled_at_once =
    first_leg_panics parked base node_a _ _ ticking 0 cancel refl refl base_valid refl refl
      parked-FitsNew tt refl

-- At n_B, on the way to n_C.
abbrev halfway : Simulator ℕ
halfway = record {
  nodes = base.nodes;
  edges = base.edges;
  edge_idx = 1;
  position = record { x = 2; y = 0; theta = 0 };
  wake = false;
}

abbrev halfway_robot : Robot ℕ
halfway_robot = record parked {
  state = record idle_state {
    order_id = "demo-order-1";
    last_node_id = "n_B";
    last_node_sequence_id = pos 2;
    decision_node_id = "n_C";
    decision_sequence_id = pos 4;
    nodes = base.nodes;
    edges = base.edges;
  };
  simulator = some halfway;
}

cancel_order_panics_example :
    moves 4 (record { robot = apply_instant_action 0 halfway_robot cancel; pc = ticking }) ≡ none
unfolding base_order demo_edge
cancel_order_panics_example =
    cancel_order_panics halfway_robot halfway ticking 0 cancel refl tt refl (omega arith) refl

roomy : Roomy at_rest (record { robot = started; pc = checking })
unfolding demo_node
roomy =
    handled begin (order short started_by)
      (inr (λ m e. let same : drive ≡ m = cc in rw (← same) (omega arith, λ f. absurd f)))

runs_after_short : (w : Machine ℕ) × (go_on (record { robot = started; pc = checking }) ≡ some w)
runs_after_short = runs_on at_rest (record { robot = started; pc = checking }) (refl, refl) roomy

-- The drive has just stepped onto n_C.
arrived_late :
    (z : Machine ℕ) × (go_on
        (record { robot = apply_instant_action 0 halfway_robot cancel; pc = arrived "n_C" })
      ≡ some z)
    × (z.robot.state.last_node_id ≡ "n_C")
    × (z.robot.state.last_node_sequence_id ≡ negsuc 0)
unfolding base_order demo_node
arrived_late =
    late_arrival halfway_robot halfway "n_C" 0 cancel refl (ground (arith, eq_iff "n_C" ""))
      (
        λ e. absurd (ground (arith, eq_iff "n_A" "n_C")),
        (
          λ e. absurd (ground (arith, eq_iff "n_B" "n_C")),
          (λ e. omega arith, (λ e. omega arith, (λ e. omega arith, tt))),
        ),
      )
      refl
