-- ===== src/Robot/InstantActions/Cancel.antt =====
-- What `cancelOrder` leaves behind.
use vda.Prelude.{◌≡◌, refl, ◌≢◌, inl, inr, true, List, ◌∷◌, arith}
use vda.Prelude.Int.{eqb_ℤ_iff}
use vda.Prelude.Text.{eq_iff}
use vda.Geometry.{Float64, Position}
use vda.Models.Order.{Node, Order}
use vda.Robot.OrderState.{is_idle}
use vda.Robot.AcceptOrder.Decision.{Accepts, Accepts-iff}
use vda.Robot.Main.{Robot}
use vda.Robot.InstantActions.{cancel_order}

module _ {F : Type 0} where
  not_idle_of_cancel :
      (r : Robot F)
      → r.state.order_id ≢ ""
      → r.state.last_node_sequence_id ≢ r.state.decision_sequence_id
      → is_idle (cancel_order r).state ≢ true
  unfolding cancel_order is_idle
  not_idle_of_cancel r named apart h = ground (
    arith,
    eq_iff r.state.order_id "",
    eqb_ℤ_iff r.state.last_node_sequence_id r.state.decision_sequence_id,
  )

  cancelled_of_cancel : (r : Robot F) → (cancel_order r).state.cancelled ≡ true
  unfolding cancel_order
  cancelled_of_cancel r = refl

module _ {F : Type 0} ⦃fl : Float64 F⦄ where
  -- After a cancelOrder of an order with an id, before the last node is the decision node, `AcceptOrder`
  -- takes no order with nodes from the state as it is then, neither a new one nor an update.
  pub cancel_order_sticks :
      (r : Robot F) (o : Order F) (p : Position F) (first : Node F) (rest : List (Node F))
      → r.state.order_id ≢ ""
      → r.state.last_node_sequence_id ≢ r.state.decision_sequence_id
      → o.nodes ≡ first ∷ rest
      → ¬ Accepts (cancel_order r).state o p
  cancel_order_sticks r o p first rest named apart e a =
      elim ((Accepts-iff (cancel_order r).state o p first rest e).0 a) [
        | inl new ↦ not_idle_of_cancel r named apart new.idle
        | inr upd ↦ cc (upd.running, cancelled_of_cancel r)
      ]
