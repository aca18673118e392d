-- ===== src/Examples/Rounds.antt =====
-- The drive's loop from the first order on, with an update and an instant action in between.
use vda.Prelude.{ℕ, ◌≡◌, refl, false, some, [], arith}
use vda.Prelude.Text.{eq_iff}
use vda.Models.Action.{Action}
use vda.Validation.Sorting.{sort_slice}
use vda.Sim.{can_drive}
use vda.Fleet.Experiments.{base_order, demo_node}
use vda.Robot.Main.{Robot}
use vda.Robot.InstantActions.{apply_instant_action}
use vda.Robot.Loop.{Machine, checking, ticking, go_on, loop_step}
use vda.Robot.Loop.Course.{OnCourse}
use vda.Robot.Loop.Course.Keeps.{IsProper, Course, begin, move, ordered, instructed, drive-OnCourse}
use vda.Examples.Coarse.{coarse}
use vda.Examples.Orders.{node_a}
use vda.Examples.Driving.{
  short, longer, started_by, woken, extended, extended_by, at_rest, called, waits, cancel,
}

short-IsProper : IsProper short
unfolding base_order sort_slice demo_node
short-IsProper = record {
  first = node_a;
  rest = [];
  tail = [];
  named = ground (arith, eq_iff "demo-order-1" "");
  lists = refl;
  sorted = refl;
  base = refl;
}

longer-IsProper : IsProper longer
unfolding base_order sort_slice demo_node
longer-IsProper = record {
  first = node_a;
  rest = _;
  tail = _;
  named = ground (arith, eq_iff "demo-order-1" "");
  lists = refl;
  sorted = refl;
  base = refl;
}

abbrev roused : Robot ℕ
roused = record extended { simulator = some (record woken { wake = false }) }

abbrev rolling : Machine ℕ
rolling = record { robot = roused; pc = ticking }

abbrev pause : Action
pause = record cancel { action_type = "startPause" }

wakes : go_on called ≡ some (record { robot = roused; pc = checking })
unfolding go_on loop_step
wakes = refl

rolls : go_on (record { robot = roused; pc = checking }) ≡ some rolling
unfolding go_on loop_step can_drive base_order
rolls = refl

paused_course :
    Course at_rest (record rolling { robot = apply_instant_action 0 rolling.robot pause })
paused_course =
    instructed 0 pause
      (move
        (move
          (ordered longer (move (ordered short begin short-IsProper started_by tt) waits)
            longer-IsProper extended_by tt)
          wakes)
        rolls)
      (ground (arith, eq_iff "startPause" "cancelOrder"))

drive-OnCourse_example :
    OnCourse (apply_instant_action 0 roused pause)
    × ((w : Machine ℕ) × (go_on
            (record { robot = apply_instant_action 0 roused pause; pc = ticking })
          ≡ some w))
drive-OnCourse_example =
    drive-OnCourse at_rest (record rolling { robot = apply_instant_action 0 rolling.robot pause })
      (refl, refl) refl paused_course
