-- ===== src/Robot/AcceptOrder/Decision.antt =====
-- What `AcceptOrder` decides, and why.
use mathlib.Core.Option
use vda.Prelude.{
  ◌≡◌, refl, ◌≢◌, ◌↔◌, ◌⊎◌, inl, inr, Bool, true, false, Option, none, some, List, ◌∷◌, arith,
  head?,
}
use vda.Prelude.Int.{pos, ◌<ℤ◌, eqb_ℤ_iff}
use vda.Prelude.Text.{eq_iff}
use vda.Errors.{
  ErrorType, VdaError, warning, invalid_order, other_order_active, start_node_out_of_range,
  outdated_order_update, order_update_following_cancel, same_order_update_id,
}
use vda.Geometry.{Float64, Position, inside_deviation_ellipse}
use vda.Models.Order.{Node, Order}
use vda.Robot.OrderState.{OrderState, is_idle, accept, close_accept, replace_order, update_order}
use vda.Robot.AcceptOrder.{Verdict, accept_order, is_decision_node, start_node_in_range}

module _ {F : Type 0} ⦃fl : Float64 F⦄ where
  -- The order is taken as a new one.
  pub record FitsNew (s : OrderState F) (o : Order F) (p : Position F) (first : Node F)
      : Type 0 where
    pub other_id : o.order_id ≢ s.order_id
    pub idle : is_idle s ≡ true
    pub number_zero : o.order_update_id ≡ pos 0
    pub in_range : inside_deviation_ellipse p first.node_position ≡ true

  -- The order is taken as an update.
  pub record FitsUpdate (s : OrderState F) (o : Order F) (first : Node F) : Type 0 where
    pub same_id : o.order_id ≡ s.order_id
    pub newer : s.order_update_id <ℤ o.order_update_id
    pub running : s.cancelled ≡ false
    pub decision_id : first.node_id ≡ s.decision_node_id
    pub decision_number : first.sequence_id ≡ s.decision_sequence_id

  abbrev pub Accepts : OrderState F → Order F → Position F → Type 0
  Accepts s o p = (v : Verdict F) × (accept_order s o p ≡ some v) × (v.accepted ≡ true)

  Accepts-fits :
      (s : OrderState F) (o : Order F) (p : Position F) (first : Node F) (rest : List (Node F))
      → o.nodes ≡ first ∷ rest
      → Accepts s o p
      → FitsNew s o p first ⊎ FitsUpdate s o first
  unfolding accept_order accept
  Accepts-fits s o p first rest e (v, h, a) = ground (
    arith,
    eq_iff o.order_id s.order_id,
    eqb_ℤ_iff o.order_update_id (pos 0),
    eqb_ℤ_iff o.order_update_id s.order_update_id,
    eq_iff first.node_id s.decision_node_id,
    eqb_ℤ_iff first.sequence_id s.decision_sequence_id,
  )

  pub FitsNew-accepted :
      (s : OrderState F) (o : Order F) (p : Position F) (first : Node F) (rest : List (Node F))
      → o.nodes ≡ first ∷ rest
      → FitsNew s o p first
      → Accepts s o p
  unfolding accept_order accept
  FitsNew-accepted s o p first rest e f = (
    record { state = close_accept o (replace_order s o first); accepted = true; error = none },
    ground (arith, eq_iff o.order_id s.order_id, eqb_ℤ_iff o.order_update_id (pos 0)),
    refl,
  )

  pub FitsUpdate-accepted :
      (s : OrderState F) (o : Order F) (p : Position F) (first : Node F) (rest : List (Node F))
      → o.nodes ≡ first ∷ rest
      → FitsUpdate s o first
      → Accepts s o p
  unfolding accept_order accept
  FitsUpdate-accepted s o p first rest e f = (
    record { state = close_accept o (update_order s o); accepted = true; error = none },
    ground (
      arith,
      eq_iff o.order_id s.order_id,
      eqb_ℤ_iff o.order_update_id s.order_update_id,
      eq_iff first.node_id s.decision_node_id,
      eqb_ℤ_iff first.sequence_id s.decision_sequence_id,
    ),
    refl,
  )

  pub FitsNew-state :
      (s : OrderState F) (o : Order F) (p : Position F) (v : Verdict F) (first : Node F)
      (rest : List (Node F))
      → o.nodes ≡ first ∷ rest
      → FitsNew s o p first
      → accept_order s o p ≡ some v
      → v.state ≡ close_accept o (replace_order s o first)
  unfolding accept_order accept
  FitsNew-state s o p v first rest e f h =
      ground (arith, eq_iff o.order_id s.order_id, eqb_ℤ_iff o.order_update_id (pos 0))

  pub FitsUpdate-state :
      (s : OrderState F) (o : Order F) (p : Position F) (v : Verdict F) (first : Node F)
      (rest : List (Node F))
      → o.nodes ≡ first ∷ rest
      → FitsUpdate s o first
      → accept_order s o p ≡ some v
      → v.state ≡ close_accept o (update_order s o)
  unfolding accept_order accept
  FitsUpdate-state s o p v first rest e f h = ground (
    arith,
    eq_iff o.order_id s.order_id,
    eqb_ℤ_iff o.order_update_id s.order_update_id,
    eq_iff first.node_id s.decision_node_id,
    eqb_ℤ_iff first.sequence_id s.decision_sequence_id,
  )

  pub Accepts-iff :
      (s : OrderState F) (o : Order F) (p : Position F) (first : Node F) (rest : List (Node F))
      → o.nodes ≡ first ∷ rest
      → Accepts s o p ↔ (FitsNew s o p first ⊎ FitsUpdate s o first)
  Accepts-iff s o p first rest e = (
    Accepts-fits s o p first rest e,
    λ f. elim f [
      | inl n ↦ FitsNew-accepted s o p first rest e n
      | inr u ↦ FitsUpdate-accepted s o p first rest e u
    ],
  )

  heading_ignored :
      (s : OrderState F) (o : Order F) (p : Position F) (turned : F)
      → accept_order s o (record p { theta = turned }) ≡ accept_order s o p
  unfolding accept_order inside_deviation_ellipse start_node_in_range
  heading_ignored s o p turned = refl

  -- `AcceptOrder` takes an order with nodes exactly when it is a new order numbered 0 for an idle robot
  -- within the allowedDeviationXY of its first node, or a newer update of the current order, not cancelled,
  -- whose first node is the decision node. The robot's heading makes no difference.
  pub accept_order_iff :
      (s : OrderState F) (o : Order F) (p : Position F) (first : Node F) (rest : List (Node F))
      → o.nodes ≡ first ∷ rest
      → (Accepts s o p ↔ (FitsNew s o p first ⊎ FitsUpdate s o first))
        × ((turned : F) → accept_order s o (record p { theta = turned }) ≡ accept_order s o p)
  accept_order_iff s o p first rest e = (Accepts-iff s o p first rest e, heading_ignored s o p)

  -- The order is taken and there is no error, or there is an error and nothing has changed.
  abbrev pub IsSettled : OrderState F → Bool → OrderState F → Option VdaError → Type 0
  IsSettled s accepted s' none = accepted ≡ true
  IsSettled s accepted s' (some x) = (accepted ≡ false) × (s' ≡ s) × (x.error_level ≡ warning)

  -- `AcceptOrder` returns no error exactly with `true`; with an error, always a warning, it leaves the
  -- order state as it was.
  pub accept_order-IsSettled :
      (s : OrderState F) (o : Order F) (p : Position F) (v : Verdict F)
      → accept_order s o p ≡ some v
      → IsSettled s v.accepted v.state v.error
  unfolding accept_order accept
  accept_order-IsSettled s o p v h = ground arith

  -- What an error type says of the state and the order.
  abbrev pub Reason : OrderState F → Order F → Position F → ErrorType → Type 0
  Reason s o p other_order_active = (o.order_id ≢ s.order_id) × (is_idle s ≡ false)
  Reason s o p start_node_out_of_range =
      (o.order_id ≢ s.order_id) × (start_node_in_range o p ≡ some false)
  Reason s o p outdated_order_update =
      (o.order_id ≡ s.order_id) × (o.order_update_id <ℤ s.order_update_id)
  Reason s o p order_update_following_cancel = (o.order_id ≡ s.order_id) × (s.cancelled ≡ true)
  Reason s o p same_order_update_id =
      (o.order_id ≡ s.order_id) × (o.order_update_id ≡ s.order_update_id)
  Reason s o p invalid_order =
      ((o.order_id ≢ s.order_id) × (o.order_update_id ≢ pos 0))
      ⊎ ((o.order_id ≡ s.order_id) × (Option.map (is_decision_node s) (head? o.nodes) ≡ some false))
  Reason s o p _ = ⊥

  -- The error type of a rejection tells the truth about the order.
  pub accept_order_reason :
      (s : OrderState F) (o : Order F) (p : Position F) (v : Verdict F) (x : VdaError)
      → accept_order s o p ≡ some v
      → v.error ≡ some x
      → Reason s o p x.error_type
  unfolding accept_order accept
  accept_order_reason s o p v x h e = ground (
    arith,
    eq_iff o.order_id s.order_id,
    eqb_ℤ_iff o.order_update_id (pos 0),
    eqb_ℤ_iff o.order_update_id s.order_update_id,
  )
