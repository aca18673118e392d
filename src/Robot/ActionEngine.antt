-- ===== src/Robot/ActionEngine.antt =====
-- robot/action_engine.go: the queue of the actions of reached nodes and edges. The mutex makes each
-- method one step; a method that changes the queue returns the new one. Times are nanoseconds.
pub mod Orderly
pub mod Progress
pub mod Retry
use vda.Prelude.{
  ℕ, suc, ◌+◌, ◌-◌, ◌*◌, ◌^◌, Bool, true, false, not, ◌&&◌, ◌||◌, Option, none, some, List, [], ◌∷◌,
  ◌++◌, map, keep, ltb, if◌then◌else◌,
}
use vda.Prelude.Text.{String, ◌<>◌, str_eq}
use vda.Errors
use vda.Errors.{VdaError, reference, invalid_instant_action}
use vda.Models.Action.{Action, BlockingType, blocking_none, single, soft, hard, other}
use vda.Models.State.{
  ActionState, ActionStatus, waiting, initializing, running, paused, retriable, finished, failed,
}

abbrev pub seconds : ℕ → ℕ
seconds n = n * 10 ^ 9

-- The map `actionDurations`; `none` is a missing key.
unfoldable pub action_duration : String → Option ℕ
action_duration t =
    if str_eq t "pick"
    then some (seconds 3)
    else if str_eq t "drop"
    then some (seconds 3)
    else if str_eq t "beep"
    then some (seconds 1)
    else none

pub record QueuedAction : Type 0 where
  pub action : Action
  pub status : ActionStatus
  pub result : String
  pub started_at : ℕ

-- The pointers in the queue are shared with nobody, so the queue is a list of values.
abbrev pub Queue : Type 0
Queue = List QueuedAction

-- `time.Time{}` is the time 0.
abbrev pub queued : Action → QueuedAction
queued a = record { action = a; status = waiting; result = ""; started_at = 0 }

unfoldable pub enqueue : Queue → List Action → Queue
enqueue queue actions = queue ++ map queued actions

abbrev pub is_terminal : ActionStatus → Bool
is_terminal finished = true
is_terminal failed = true
is_terminal _ = false

abbrev pub is_active : ActionStatus → Bool
is_active initializing = true
is_active running = true
is_active paused = true
is_active retriable = true
is_active _ = false

-- What the outside world answers while one queued action is visited: the clock that it reads, and
-- whether `rand.Float64() < pickFailRate` if it asks.
pub record Moment : Type 0 where
  pub now : ℕ
  pub unlucky : Bool

unfoldable pub start : Moment → QueuedAction → QueuedAction
start m qa = record qa { status = running; started_at = m.now }

-- The part of `completeIfDue` behind the test of the duration.
complete : Moment → QueuedAction → QueuedAction
complete m qa =
    if str_eq qa.action.action_type "pick" && m.unlucky
    then (if qa.action.retriable
        then record qa { status = retriable }
        else record qa { status = failed })
    else record qa { status = finished }

-- `time.Since(qa.StartedAt)`; the clock does not run backwards.
complete_after : Moment → QueuedAction → Option ℕ → QueuedAction
unfolding complete
complete_after m qa none = qa
complete_after m qa (some duration) =
    if ltb (m.now - qa.started_at) duration then qa else complete m qa

unfoldable pub complete_if_due : Moment → QueuedAction → QueuedAction
unfolding complete_after action_duration
complete_if_due m qa = complete_after m qa (action_duration qa.action.action_type)

abbrev pub is_running : ActionStatus → Bool
is_running running = true
is_running _ = false

abbrev pub is_waiting : ActionStatus → Bool
is_waiting waiting = true
is_waiting _ = false

-- SINGLE or HARD, the types at which the pass stops while the action is active.
abbrev pub is_exclusive : BlockingType → Bool
is_exclusive single = true
is_exclusive hard = true
is_exclusive _ = false

-- NONE or SOFT, the types that start beside other actions.
abbrev pub is_parallel : BlockingType → Bool
is_parallel blocking_none = true
is_parallel soft = true
is_parallel _ = false

-- The first statement of the loop body of `Advance`.
abbrev pub visit : Moment → QueuedAction → QueuedAction
visit m qa = if is_running qa.status then complete_if_due m qa else qa

-- The loop of `Advance`, over the rest of the queue, with `anyActive`. The oracle gives the moments at
-- which the actions are visited, by their index.
pub walk : (ℕ → Moment) → ℕ → Bool → Queue → Queue
unfolding start complete_if_due
walk at i any_active [] = []
walk at i any_active (qa ∷ rest) =
    let visited = visit (at i) qa in
    let go_on = visited ∷ walk at (suc i) true rest in
    let pass_by = visited ∷ walk at (suc i) any_active rest in
    let begin = start (at i) visited in
    let begin_beside = begin ∷ walk at (suc i) true rest in
    if is_active visited.status
    then (if is_exclusive visited.action.blocking_type then visited ∷ rest else go_on)
    else if is_waiting visited.status
    then (if is_parallel visited.action.blocking_type
        then begin_beside
        else if not any_active
        then begin ∷ rest
        else visited ∷ rest)
    else pass_by

unfoldable pub drop_terminal : Queue → Queue
unfolding keep
drop_terminal queue = keep (λ qa. not (is_terminal qa.status)) queue

unfoldable pub advance : (ℕ → Moment) → Queue → Queue
unfolding walk drop_terminal
advance at queue = walk at 0 false (drop_terminal queue)

-- SOFT or HARD, the types that stop driving.
abbrev pub stops_driving : BlockingType → Bool
stops_driving soft = true
stops_driving hard = true
stops_driving _ = false

unfoldable pub driving_allowed : Queue → Bool
driving_allowed [] = true
driving_allowed (qa ∷ rest) =
    let later = driving_allowed rest in
    if is_terminal qa.status
    then later
    else if stops_driving qa.action.blocking_type
    then false
    else later

abbrev pub action_state : QueuedAction → ActionState
action_state qa = record {
  action_id = qa.action.action_id;
  action_type = qa.action.action_type;
  action_descriptor = qa.action.action_descriptor;
  action_status = qa.status;
  action_result = qa.result;
}

unfoldable pub action_states : Queue → List ActionState
action_states queue = map action_state queue

-- `%s` of a status.
unfoldable pub status_text : ActionStatus → String
status_text waiting = "WAITING"
status_text initializing = "INITIALIZING"
status_text running = "RUNNING"
status_text paused = "PAUSED"
status_text retriable = "RETRIABLE"
status_text finished = "FINISHED"
status_text failed = "FAILED"

abbrev pub is_retriable : ActionStatus → Bool
is_retriable retriable = true
is_retriable _ = false

error_not_retriable : String → ActionStatus → VdaError
unfolding status_text Errors.new
error_not_retriable action_id status =
    Errors.new invalid_instant_action
      ("action " <> (action_id <> (" is not RETRIABLE (status=" <> (status_text status <> ")"))))
      (reference "actionId" action_id ∷ [])

error_not_found : String → VdaError
unfolding Errors.new
error_not_found action_id =
    Errors.new invalid_instant_action ("action " <> (action_id <> " not found"))
      (reference "actionId" action_id ∷ [])

-- The search of `Retry` and `SkipRetry`: the first action with the id is resolved by `f`, if it is
-- RETRIABLE.
pub resolve : (QueuedAction → QueuedAction) → String → Queue → Queue × Option VdaError
unfolding error_not_retriable error_not_found
resolve f action_id [] = ([], some (error_not_found action_id))
resolve f action_id (qa ∷ rest) =
    let (rest', err) = resolve f action_id rest in
    if not (str_eq qa.action.action_id action_id)
    then (qa ∷ rest', err)
    else if not (is_retriable qa.status)
    then (qa ∷ rest, some (error_not_retriable action_id qa.status))
    else (f qa ∷ rest, none)

unfoldable pub retry : ℕ → String → Queue → Queue × Option VdaError
unfolding resolve
retry now action_id queue =
    resolve (λ qa. record qa { status = running; started_at = now }) action_id queue

unfoldable pub skip_retry : String → Queue → Queue × Option VdaError
unfolding resolve
skip_retry action_id queue = resolve (λ qa. record qa { status = failed }) action_id queue

unfoldable pub cancel_all : Queue → Queue
cancel_all queue =
    map (λ qa. if not (is_terminal qa.status) then record qa { status = failed } else qa) queue
