-- ===== src/Delivery/InStep.antt =====
-- The robot holds the order of the dispatcher's plan, up to where the plan is released.
use vda.Prelude.{
  ℕ, suc, ◌+◌, ◌≡◌, ◌≢◌, refl, Option, some, false, List, ◌∷◌, get_elem?, arith, ap, ◌∙◌, Bool,
  Bool-cases, inl, inr,
}
use vda.Prelude.Int.{ℤ, pos, ◌<ℤ◌}
use vda.Prelude.Text.{String, str_eq, eq_iff}
use vda.Geometry.{Float64}
use vda.Models.Action.{Action}
use vda.Models.Order.{Node}
use vda.Models.State.{ActionState}
use vda.Robot.OrderState.{OrderState}
use vda.Robot.OrderState.Base.{decision_point-IsBase}
use vda.Robot.AcceptOrder.Replay.{Taken}
use vda.Robot.ActionEngine
use vda.Robot.ActionEngine.{Moment, Queue, action_states, retry, skip_retry}
use vda.Robot.Main.{Robot, on_tick}
use vda.Errors.{VdaError}
use vda.Robot.InstantActions.{apply_instant_action, resolve_target}
use vda.Robot.State.{engine_tick, equal_action_states}
use vda.Fleet.Dispatcher.Plan.{Plan, Progress, window}
use vda.Fleet.Dispatcher.Windows.{IsWindow}

module _ {F : Type 0} where
  pub record InStep (p : Plan F) (s : Progress) (t : OrderState F) : Type 0 where
    pub same_id : t.order_id ≡ p.order_id
    pub older : t.order_update_id <ℤ pos s.next_update
    pub running : t.cancelled ≡ false
    pub node : Node F
    pub node_here : get_elem? (p.first ∷ p.rest) s.reached ≡ some node
    pub decision_id : t.decision_node_id ≡ node.node_id
    pub decision_number : t.decision_sequence_id ≡ node.sequence_id

module _ {F : Type 0} ⦃fl : Float64 F⦄ where
  -- What an accepted window leaves.
  pub Taken-InStep :
      (p : Plan F) (i k j u v : ℕ) (w : IsWindow p i k u) (t t' : OrderState F)
      → j ≡ i + k
      → v ≡ suc u
      → Taken t (window p i k u) t'
      → InStep p (record { reached = j; next_update = v }) t'
  Taken-InStep p i k j u v w t t' ej ev taken =
      let same_update : t'.order_update_id ≡ pos u = taken.update_id in
      let older : t'.order_update_id <ℤ pos v = rw same_update (omega arith) in
      let decided : (t'.decision_node_id, t'.decision_sequence_id)
          ≡ (w.to.node_id, w.to.sequence_id) =
        taken.decision
        ∙ decision_point-IsBase (window p i k u) w.base
        ∙ ap (λ (n : Node F). (n.node_id, n.sequence_id)) w.last_is in
      record {
        same_id = taken.order_id;
        older = older;
        running = taken.not_cancelled;
        node = w.to;
        node_here = rw ej w.to_here;
        decision_id = ap (λ q. q.0) decided;
        decision_number = ap (λ q. q.1) decided;
      }

  -- What `InStep` reads of the state.
  abbrev pub order_part : OrderState F → String × (ℤ × (Bool × (String × ℤ)))
  order_part t =
      (t.order_id, (t.order_update_id, (t.cancelled, (t.decision_node_id, t.decision_sequence_id))))

  carry :
      (p : Plan F) (s : Progress) (t t' : OrderState F)
      → order_part t' ≡ order_part t
      → InStep p s t
      → InStep p s t'
  carry p s t t' e h =
      let same_update : t'.order_update_id ≡ t.order_update_id = ap (λ q. q.1.0) e in
      record {
        same_id = ap (λ q. q.0) e ∙ h.same_id;
        older = rw same_update h.older;
        running = ap (λ q. q.1.1.0) e ∙ h.running;
        node = h.node;
        node_here = h.node_here;
        decision_id = ap (λ q. q.1.1.1.0) e ∙ h.decision_id;
        decision_number = ap (λ q. q.1.1.1.1) e ∙ h.decision_number;
      }

  pub on_tick-order_part :
      (r : Robot F) (id : String) → order_part (on_tick r id).state ≡ order_part r.state
  unfolding on_tick
  on_tick-order_part r id = elim (Bool-cases (str_eq id "")) [
    | inl e ↦ rw e refl
    | inr e ↦ rw e refl
  ]

  pub engine_tick-order_part :
      (at : ℕ → Moment) (r : Robot F) (last : List ActionState)
      → order_part (engine_tick at r last).0.state ≡ order_part r.state
  unfolding engine_tick
  engine_tick-order_part at r last =
      elim (Bool-cases
        (equal_action_states (action_states (ActionEngine.advance at r.actions)) last)) [
          | inl e ↦ rw e refl
          | inr e ↦ rw e refl
        ]

  resolve-order_part :
      (method : String → Queue → Queue × Option VdaError) (missing : String) (r : Robot F)
      (a : Action)
      → order_part (resolve_target method missing r a).state ≡ order_part r.state
  unfolding resolve_target
  resolve-order_part method missing r a = ground arith

  pub instant-order_part :
      (now : ℕ) (r : Robot F) (a : Action)
      → a.action_type ≢ "cancelOrder"
      → order_part (apply_instant_action now r a).state ≡ order_part r.state
  unfolding apply_instant_action
  instant-order_part now r a other = ground (
    arith,
    eq_iff a.action_type "cancelOrder",
    resolve-order_part (λ target q. retry now target q) "retry requires an actionId parameter" r a,
    resolve-order_part (λ target q. skip_retry target q) "skipRetry requires an actionId parameter"
        r a,
  )

  pub on_tick-InStep :
      (p : Plan F) (s : Progress) (r : Robot F) (id : String)
      → InStep p s r.state
      → InStep p s (on_tick r id).state
  on_tick-InStep p s r id = carry p s r.state (on_tick r id).state (on_tick-order_part r id)

  pub engine_tick-InStep :
      (p : Plan F) (s : Progress) (r : Robot F) (at : ℕ → Moment) (last : List ActionState)
      → InStep p s r.state
      → InStep p s (engine_tick at r last).0.state
  engine_tick-InStep p s r at last = carry p s r.state _ (engine_tick-order_part at r last)

  pub instant-InStep :
      (p : Plan F) (s : Progress) (r : Robot F) (now : ℕ) (a : Action)
      → a.action_type ≢ "cancelOrder"
      → InStep p s r.state
      → InStep p s (apply_instant_action now r a).state
  instant-InStep p s r now a other = carry p s r.state _ (instant-order_part now r a other)
