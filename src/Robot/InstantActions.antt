-- ===== src/Robot/InstantActions.antt =====
-- robot/instant_actions.go: the actions that a message asks for at once.
pub mod Cancel
use vda.Prelude.{
  ℕ, Bool, true, false, ◌&&◌, Option, none, some, List, [], ◌∷◌, ◌++◌, keep, if◌then◌else◌,
}
use vda.Prelude.Int.{ℤ, leb_ℤ}
use vda.Prelude.Text.{String, ◌<>◌, str_eq}
use vda.Errors
use vda.Errors.{VdaError}
use vda.Models.Action.{Action, ActionParameter, Value, text}
use vda.Models.Order.{Node, Edge}
use vda.Models.State.{ActionState, ActionStatus, finished, failed}
use vda.Sim
use vda.Sim.{Simulator}
use vda.Robot.OrderState.{OrderState}
use vda.Robot.ActionEngine.{Queue, retry, skip_retry, cancel_all}
use vda.Robot.Main.{Robot}

module _ {F : Type 0} where
  unfoldable pub keep_nodes_up_to : List (Node F) → ℤ → List (Node F)
  unfolding keep
  keep_nodes_up_to nodes last = keep (λ n. leb_ℤ n.sequence_id last) nodes

  unfoldable pub keep_edges_up_to : List (Edge F) → ℤ → List (Edge F)
  unfolding keep
  keep_edges_up_to edges last = keep (λ e. leb_ℤ e.sequence_id last) edges

abbrev text_value : Value → Option String
text_value (text s) = some s
text_value _ = none

-- The first parameter with the key and a text for its value.
string_param_in : String → List ActionParameter → Option String
string_param_in key [] = none
string_param_in key (p ∷ rest) =
    let later = string_param_in key rest in
    if str_eq p.key key then elim (text_value p.value) [ some s ↦ some s | none ↦ later ] else later

unfoldable pub string_param : Action → String → Option String
unfolding string_param_in
string_param action key = string_param_in key action.action_parameters

-- What is reported of the instant action.
abbrev done : Action → ActionState
done action = record {
  action_id = action.action_id;
  action_type = action.action_type;
  action_descriptor = "";
  action_status = finished;
  action_result = "";
}

abbrev refused : Action → String → ActionState
refused action why = record (done action) { action_status = failed; action_result = why }

abbrev outcome : Action → Option VdaError → ActionState
outcome action none = done action
outcome action (some e) = refused action (Errors.error_message e)

module _ {F : Type 0} where
  abbrev pub report : Robot F → ActionState → Robot F
  report r s = record r { instant_action_states = r.instant_action_states ++ (s ∷ []) }

  abbrev extend_simulator : Option (Simulator F) → OrderState F → Option (Simulator F)
  extend_simulator none s = none
  extend_simulator (some m) s = some (Sim.extend m s.nodes s.edges)

  -- `case "cancelOrder"`.
  unfoldable pub cancel_order : Robot F → Robot F
  unfolding keep_nodes_up_to keep_edges_up_to
  cancel_order r =
      let s = record r.state {
        cancelled = true;
        nodes = keep_nodes_up_to r.state.nodes r.state.last_node_sequence_id;
        edges = keep_edges_up_to r.state.edges r.state.last_node_sequence_id;
      } in
      record r {
        state = s;
        actions = cancel_all r.actions;
        simulator = extend_simulator r.simulator s;
      }

  -- `case "retry"` and `case "skipRetry"`, with the engine's method for a target.
  unfoldable pub resolve_target :
      (String → Queue → Queue × Option VdaError) → String → Robot F → Action → Robot F
  resolve_target method missing r action = elim (string_param action "actionId") [
    | none ↦ report r (refused action missing)
    | some target ↦
        let (queue, err) = method target r.actions in
        report (record r { actions = queue }) (outcome action err)
  ]

  -- `now` is the time that `Retry` reads.
  unfoldable pub apply_instant_action : ℕ → Robot F → Action → Robot F
  unfolding resolve_target
  apply_instant_action now r action =
      if str_eq action.action_type "cancelOrder"
      then report (cancel_order r) (done action)
      else if str_eq action.action_type "startPause"
      then report (record r { state = record r.state { paused = true } }) (done action)
      else if str_eq action.action_type "stopPause"
      then report (record r { state = record r.state { paused = false } }) (done action)
      else if str_eq action.action_type "retry"
      then resolve_target (λ target q. retry now target q) "retry requires an actionId parameter" r
          action
      else if str_eq action.action_type "skipRetry"
      then resolve_target (λ target q. skip_retry target q)
          "skipRetry requires an actionId parameter" r action
      else report r (refused action ("unsupported instant action: " <> action.action_type))

  -- The loop of `onInstantActions`, over each action with the time at which it is applied.
  pub apply_all : Robot F → List (ℕ × Action) → Robot F
  unfolding apply_instant_action
  apply_all r [] = r
  apply_all r ((now, a) ∷ rest) = apply_all (apply_instant_action now r a) rest

  -- `onInstantActions`, for a message that unmarshals to these actions.
  unfoldable pub on_instant_actions : Robot F → List (ℕ × Action) → Robot F
  unfolding apply_all
  on_instant_actions r actions = record (apply_all r actions) { dirty = true }
