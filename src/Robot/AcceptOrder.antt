-- ===== src/Robot/AcceptOrder.antt =====
-- robot/order_state.go, `AcceptOrder`: the checks on an order message, in their order, and the errors
-- that they return. `none` is a panic, on an order without nodes.
pub mod Decision
pub mod Replay
pub mod Soundness
pub mod Faults
use mathlib.Core.Option
use vda.Prelude.{
  Bool, true, false, not, ◌&&◌, ◌||◌, Option, none, some, List, [], ◌∷◌, head?, if◌then◌else◌,
  ◌>>=◌,
}
use vda.Prelude.Int.{ℤ, pos, ltb_ℤ, eqb_ℤ}
use vda.Prelude.Text.{String, ◌<>◌, str_eq, itoa}
use vda.Errors
use vda.Errors.{
  VdaError, ErrorReference, reference, invalid_order, other_order_active, start_node_out_of_range,
  outdated_order_update, order_update_following_cancel, same_order_update_id,
}
use vda.Geometry.{Float64, Position, inside_deviation_ellipse}
use vda.Models.Order.{Node, Order}
use vda.Robot.OrderState.{OrderState, is_idle, accept}

-- The references that the errors carry.
abbrev order_reference : String → ErrorReference
order_reference id = reference "orderId" id

abbrev update_reference : ℤ → ErrorReference
update_reference id = reference "orderUpdateId" (itoa id)

module _ {F : Type 0} where
  -- Check 3.
  unfoldable pub error_other_order : OrderState F → VdaError
  unfolding Errors.new
  error_other_order s =
      Errors.new other_order_active
        ("Order rejected: there is already an active order "
          <> (s.order_id <> (": " <> itoa s.order_update_id)))
        (order_reference s.order_id ∷ update_reference s.order_update_id ∷ [])

  -- Check 4.
  unfoldable pub error_update_of_new : Order F → VdaError
  unfolding Errors.new
  error_update_of_new incoming =
      Errors.new invalid_order
        ("Order rejected: orderUpdateId for new order must be 0, received "
          <> itoa incoming.order_update_id)
        (order_reference incoming.order_id ∷ update_reference incoming.order_update_id ∷ [])

  -- Check 5.
  unfoldable pub error_out_of_range : Order F → VdaError
  unfolding Errors.new
  error_out_of_range incoming =
      Errors.new start_node_out_of_range
        "Order rejected: first node is not within allowed deviation of robot position"
        (order_reference incoming.order_id ∷ [])

  -- The text of checks 6 and 8.
  abbrev update_text : OrderState F → Order F → String
  update_text s incoming =
      "Order update rejected: order "
      <> (s.order_id
          <> (" is currently at update "
              <> (itoa s.order_update_id
                  <> (", but received update " <> itoa incoming.order_update_id))))

  unfoldable pub error_outdated : OrderState F → Order F → VdaError
  unfolding Errors.new
  error_outdated s incoming =
      Errors.new outdated_order_update (update_text s incoming)
        (order_reference s.order_id ∷ update_reference s.order_update_id ∷ [])

  -- Check 7.
  unfoldable pub error_cancelled : OrderState F → Order F → VdaError
  unfolding Errors.new
  error_cancelled s incoming =
      Errors.new order_update_following_cancel
        ("Order update rejected: order "
          <> (s.order_id <> " was cancelled and can no longer be updated"))
        (order_reference s.order_id ∷ update_reference incoming.order_update_id ∷ [])

  unfoldable pub error_same_update : OrderState F → Order F → VdaError
  unfolding Errors.new
  error_same_update s incoming =
      Errors.new same_order_update_id (update_text s incoming)
        (order_reference s.order_id ∷ update_reference s.order_update_id ∷ [])

  -- Checks 9 and 10.
  unfoldable pub error_first_node : OrderState F → Node F → VdaError
  unfolding Errors.new
  error_first_node s first =
      Errors.new invalid_order
        ("Order update rejected: order " <> (s.order_id <> " has invalid first node"))
        (order_reference s.order_id
          ∷ update_reference s.order_update_id
          ∷ reference "currentNodeId" s.decision_node_id
          ∷ reference "incomingNodeId" first.node_id
          ∷ [])

  abbrev pub is_new_order : OrderState F → Order F → Bool
  is_new_order current incoming = not (str_eq incoming.order_id current.order_id)

  abbrev pub is_decision_node : OrderState F → Node F → Bool
  is_decision_node current first = not (
      not (str_eq first.node_id current.decision_node_id)
      || not (eqb_ℤ first.sequence_id current.decision_sequence_id))

-- What `AcceptOrder` returns, with the state that it leaves.
pub record Verdict (F : Type 0) : Type 0 where
  pub state : OrderState F
  pub accepted : Bool
  pub error : Option VdaError

module _ {F : Type 0} where
  abbrev pub rejected : OrderState F → VdaError → Option (Verdict F)
  rejected s e = some (record { state = s; accepted = false; error = some e })

  abbrev pub take_order : OrderState F → Order F → Bool → Option (Verdict F)
  take_order current incoming is_new =
      Option.map (λ s. record { state = s; accepted = true; error = none })
        (accept current incoming is_new)

  -- Checks 6 to 10, and the acceptance. Check 9 reads the first node of an update only.
  pub check_update : OrderState F → Order F → Bool → Option (Verdict F)
  unfolding error_outdated error_cancelled error_same_update error_first_node
  check_update current incoming is_new =
      if not is_new && ltb_ℤ incoming.order_update_id current.order_update_id
      then rejected current (error_outdated current incoming)
      else if not is_new && current.cancelled
      then rejected current (error_cancelled current incoming)
      else if not is_new && eqb_ℤ incoming.order_update_id current.order_update_id
      then rejected current (error_same_update current incoming)
      else if not is_new
      then (head? incoming.nodes >>= λ first.
          if not (is_decision_node current first)
          then rejected current (error_first_node current first)
          else take_order current incoming is_new)
      else take_order current incoming is_new

module _ {F : Type 0} ⦃fl : Float64 F⦄ where
  pub start_node_in_range : Order F → Position F → Option Bool
  start_node_in_range incoming robot_pos =
      Option.map (λ first. inside_deviation_ellipse robot_pos first.node_position)
        (head? incoming.nodes)

  unfoldable pub accept_order : OrderState F → Order F → Position F → Option (Verdict F)
  unfolding error_other_order error_update_of_new error_out_of_range check_update
      start_node_in_range
  accept_order current incoming robot_pos =
      let is_new = is_new_order current incoming in
      if is_new && not (is_idle current)
      then rejected current (error_other_order current)
      else if is_new && not (eqb_ℤ incoming.order_update_id (pos 0))
      then rejected current (error_update_of_new incoming)
      else if is_new
      then (start_node_in_range incoming robot_pos >>= λ in_range.
          if not in_range
          then rejected current (error_out_of_range incoming)
          else check_update current incoming is_new)
      else check_update current incoming is_new
