-- ===== src/Examples/Engine.antt =====
-- Runs of the action engine, among them those of robot/action_engine_test.go.
use vda.Prelude.{ℕ, ◌≡◌, refl, ◌↔◌, ◌⊎◌, Bool, true, false, none, List, [], ◌∷◌, map, All}
use vda.Prelude.Text.{String}
use vda.Models.Action.{Action, BlockingType, blocking_none, hard}
use vda.Models.State.{ActionStatus, waiting, running, retriable, finished}
use vda.Robot.ActionEngine.{
  Moment, QueuedAction, Queue, queued, seconds, enqueue, advance, driving_allowed, drop_terminal,
  cancel_all, retry, skip_retry, is_terminal, stops_driving,
}
use vda.Robot.ActionEngine.Orderly.{enqueues, advances, run, step, Resting, run_exclusive}
use vda.Robot.ActionEngine.Progress.{
  IsMoving, advance-IsMoving, Advanced, advance-Advanced, driving_allowed_iff, cancel_all_frees,
}
use vda.Robot.ActionEngine.Retry.{
  IsOutcome, run_again, give_up, retry-IsOutcome, skip_retry-IsOutcome,
}

abbrev action : String → String → BlockingType → Bool → Action
action kind id blocking may_retry = record {
  action_type = kind;
  action_id = id;
  action_descriptor = "";
  blocking_type = blocking;
  action_parameters = [];
  retriable = may_retry;
}

-- `beep(NONE), pick(HARD), beep(NONE)`.
abbrev gated : List Action
gated =
    action "beep" "b0" blocking_none false
    ∷ action "pick" "p1" hard true
    ∷ action "beep" "b2" blocking_none false
    ∷ []

-- Every clock reading is `t`, and no pick fails, or every one does.
abbrev pub at_time : ℕ → Bool → ℕ → Moment
at_time t bad i = record { now = t; unlucky = bad }

abbrev statuses : Queue → List ActionStatus
statuses = map λ qa. qa.status

first_pass :
    statuses (run [] (enqueues gated ∷ advances (at_time 1 false) ∷ []))
    ≡ running ∷ waiting ∷ waiting ∷ []
unfolding run step enqueue advance
first_pass = refl

second_pass :
    statuses (
      run []
        (enqueues gated ∷ advances (at_time 1 false) ∷ advances (at_time (seconds 2) false) ∷ []))
    ≡ finished ∷ running ∷ waiting ∷ []
unfolding run step enqueue advance
second_pass = refl

third_pass :
    statuses (
      run [] (
        enqueues gated
        ∷ advances (at_time 1 false)
        ∷ advances (at_time (seconds 2) false)
        ∷ advances (at_time (seconds 9) true)
        ∷ []))
    ≡ retriable ∷ waiting ∷ []
unfolding run step enqueue advance
third_pass = refl

abbrev picking : QueuedAction
picking = record {
  action = action "pick" "p1" hard true;
  status = running;
  result = "";
  started_at = seconds 2;
}

abbrev beeped : QueuedAction
beeped = record {
  action = action "beep" "b0" blocking_none false;
  status = finished;
  result = "";
  started_at = 1;
}

abbrev last_beep : QueuedAction
last_beep = queued (action "beep" "b2" blocking_none false)

run_exclusive_example :
    All (λ x. is_terminal x.status ≡ true) (beeped ∷ []) × Resting (last_beep ∷ [])
unfolding run step enqueue advance
run_exclusive_example =
    run_exclusive
      (enqueues gated ∷ advances (at_time 1 false) ∷ advances (at_time (seconds 2) false) ∷ [])
      (beeped ∷ []) picking (last_beep ∷ []) refl refl refl

advance-IsMoving_example : IsMoving (advance (at_time 5 false) (map queued gated))
advance-IsMoving_example = advance-IsMoving (at_time 5 false) (map queued gated)

beeped-Advanced :
    Advanced
      (drop_terminal (beeped ∷ picking ∷ []))
      (advance (at_time 5 false) (beeped ∷ picking ∷ []))
beeped-Advanced = advance-Advanced (at_time 5 false) (beeped ∷ picking ∷ [])

driving_decided :
    (driving_allowed (beeped ∷ picking ∷ []) ≡ true)
    ↔ All
        (λ qa. (is_terminal qa.status ≡ true) ⊎ (stops_driving qa.action.blocking_type ≡ false))
        (beeped ∷ picking ∷ [])
driving_decided = driving_allowed_iff (beeped ∷ picking ∷ [])

cancelled_drives :
    (driving_allowed (cancel_all (picking ∷ [])) ≡ true)
    × (advance (at_time 5 false) (cancel_all (picking ∷ [])) ≡ [])
cancelled_drives = cancel_all_frees (at_time 5 false) (picking ∷ [])

abbrev stalled : Queue
stalled = beeped ∷ record picking { status = retriable } ∷ last_beep ∷ []

pick_retried : IsOutcome (run_again 7) "p1" stalled (retry 7 "p1" stalled).0 none
unfolding retry
pick_retried = retry-IsOutcome 7 "p1" stalled

pick_skipped : IsOutcome give_up "p1" stalled (skip_retry "p1" stalled).0 none
unfolding skip_retry
pick_skipped = skip_retry-IsOutcome "p1" stalled
