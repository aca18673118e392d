-- ===== src/Examples/Reports.antt =====
-- What the robot of the experiments reports.
use vda.Prelude.{ℕ, ◌≡◌, refl, ◌↔◌, ◌⊎◌, true, false, [], ◌∷◌, arith, map, keep, not, ◌≤◌, ◌-◌}
use vda.Prelude.Int.{leb_ℤ}
use vda.Prelude.Text.{eq_iff}
use vda.Models.State.{ActionState, waiting, running}
use vda.Fleet.Experiments.{base_order, no_header}
use vda.Robot.ActionEngine.{seconds, action_states, cancel_all}
use vda.Robot.Main.{Robot, on_tick, sequence_id_for}
use vda.Robot.InstantActions.{cancel_order}
use vda.Robot.State.{
  StatePublisher, due, state_heartbeat, build_state, equal_action_states, engine_tick,
}
use vda.Robot.State.Reports.{
  MayDrive, driving_iff, cancel_order_empties, reported, equal_action_states_lem, engine_tick_lem,
  due_next, on_tick_shrinks,
}
use vda.Examples.Coarse.{coarse}
use vda.Examples.Orders.{after_base}
use vda.Examples.Engine.{at_time}
use vda.Examples.Handler.{waiting_robot}

driving_iff_example :
    ((build_state no_header waiting_robot).driving ≡ true) ↔ MayDrive waiting_robot
driving_iff_example = driving_iff no_header waiting_robot

states_emptied :
    ((build_state no_header (cancel_order waiting_robot)).node_states ≡ [])
    × ((build_state no_header (cancel_order waiting_robot)).edge_states ≡ [])
    × ((build_state no_header (cancel_order waiting_robot)).action_states
        ≡ action_states (cancel_all []))
states_emptied = cancel_order_empties no_header waiting_robot

abbrev beep : ActionState
beep = record {
  action_id = "b0";
  action_type = "beep";
  action_descriptor = "";
  action_status = waiting;
  action_result = "";
}

abbrev started : ActionState
started = record beep { action_status = running }

same_reports :
    (equal_action_states (beep ∷ []) (started ∷ []) ≡ true)
    ↔ (map reported (beep ∷ []) ≡ map reported (started ∷ []))
same_reports = equal_action_states_lem (beep ∷ []) (started ∷ [])

engine_ticked :
    (map reported (engine_tick (at_time 1 false) waiting_robot (beep ∷ [])).1
      ≡ map reported
          (action_states (engine_tick (at_time 1 false) waiting_robot (beep ∷ [])).0.actions))
    × ((engine_tick (at_time 1 false) waiting_robot (beep ∷ [])).0.dirty ≡ false
        → (waiting_robot.dirty ≡ false)
          × (map reported
                (action_states (engine_tick (at_time 1 false) waiting_robot (beep ∷ [])).0.actions)
              ≡ map reported (beep ∷ [])))
engine_ticked = engine_tick_lem (at_time 1 false) waiting_robot (beep ∷ [])

abbrev publisher : StatePublisher
publisher = record { dirty = true; last_publish = 0 }

due_next_example :
    ((due (seconds 31) (due (seconds 1) publisher).0).1 ≡ true)
    ↔ ((false ≡ true) ⊎ (state_heartbeat ≤ seconds 31 - seconds 1))
unfolding due
due_next_example = due_next (seconds 1) (seconds 31) publisher false refl

-- The robot at the first node of the base order.
abbrev starting : Robot ℕ
starting = record waiting_robot { state = after_base }

states_shrunk :
    (build_state no_header (on_tick starting "n_B")).node_states
    ≡ keep
        (λ n. not (leb_ℤ n.sequence_id (sequence_id_for starting "n_B")))
        (build_state no_header starting).node_states
unfolding base_order sequence_id_for
states_shrunk =
    on_tick_shrinks no_header starting "n_B" (λ e. ground (arith, eq_iff "n_B" "")) (omega arith)
