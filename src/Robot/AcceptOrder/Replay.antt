-- ===== src/Robot/AcceptOrder/Replay.antt =====
-- Orders over an unreliable channel: what becomes of an order that arrives again, or too late.
use vda.Prelude.{◌≡◌, refl, true, false, some, arith, sym, ◌∙◌}
use vda.Prelude.Int.{◌<ℤ◌}
use vda.Prelude.Text.{eq_iff}
use vda.Errors.{VdaError, same_order_update_id, outdated_order_update}
use vda.Geometry.{Float64, Position}
use vda.Models.Order.{Order}
use vda.Robot.OrderState.{OrderState, accept, decision_point}
use vda.Robot.AcceptOrder.{Verdict, accept_order, rejected, error_same_update, error_outdated}

module _ {F : Type 0} ⦃fl : Float64 F⦄ where
  -- What an accepted order leaves in the state.
  pub record Taken (s : OrderState F) (o : Order F) (t : OrderState F) : Type 0 where
    pub order_id : t.order_id ≡ o.order_id
    pub update_id : t.order_update_id ≡ o.order_update_id
    pub decision : (t.decision_node_id, t.decision_sequence_id) ≡ decision_point o.nodes o.edges
    pub not_cancelled : t.cancelled ≡ false
    pub same_pause : t.paused ≡ s.paused

  -- An accepted order hands the state its id, its update number and its decision point; the order
  -- counts as not cancelled, and a pause stays.
  pub accept_order-Taken :
      (s : OrderState F) (o : Order F) (p : Position F) (v : Verdict F)
      → accept_order s o p ≡ some v
      → v.accepted ≡ true
      → Taken s o v.state
  unfolding accept_order accept
  accept_order-Taken s o p v h a = ground (arith, eq_iff o.order_id s.order_id)

  refuses_same :
      (s : OrderState F) (o : Order F) (p : Position F)
      → o.order_id ≡ s.order_id
      → o.order_update_id ≡ s.order_update_id
      → s.cancelled ≡ false
      → (x : VdaError) × (accept_order s o p ≡ rejected s x) × (x.error_type ≡ same_order_update_id)
  unfolding accept_order
  refuses_same s o p e n c =
      (error_same_update s o, ground (arith, eq_iff o.order_id s.order_id), refl)

  refuses_late :
      (s : OrderState F) (o : Order F) (p : Position F)
      → o.order_id ≡ s.order_id
      → o.order_update_id <ℤ s.order_update_id
      → (x : VdaError) × (accept_order s o p ≡ rejected s x)
        × (x.error_type ≡ outdated_order_update)
  unfolding accept_order
  refuses_late s o p e n = (error_outdated s o, ground (arith, eq_iff o.order_id s.order_id), refl)

  -- An order that was accepted and arrives again is rejected with SAME_ORDER_UPDATE_ID wherever the
  -- robot stands by then, and changes nothing.
  pub accept_order_again :
      (s : OrderState F) (o : Order F) (p : Position F) (v : Verdict F) (p' : Position F)
      → accept_order s o p ≡ some v
      → v.accepted ≡ true
      → (x : VdaError) × (accept_order v.state o p' ≡ rejected v.state x)
        × (x.error_type ≡ same_order_update_id)
  accept_order_again s o p v p' h a =
      let t = accept_order-Taken s o p v h a in
      refuses_same v.state o p' (sym t.order_id) (sym t.update_id) t.not_cancelled

  -- After an accepted order, an order with its id and a lower update number is rejected with
  -- OUTDATED_ORDER_UPDATE, wherever the robot stands, and changes nothing.
  pub accept_order_late :
      (s : OrderState F) (o : Order F) (p : Position F) (v : Verdict F) (late : Order F)
      (p' : Position F)
      → accept_order s o p ≡ some v
      → v.accepted ≡ true
      → late.order_id ≡ o.order_id
      → late.order_update_id <ℤ o.order_update_id
      → (x : VdaError) × (accept_order v.state late p' ≡ rejected v.state x)
        × (x.error_type ≡ outdated_order_update)
  accept_order_late s o p v late p' h a e n =
      let t = accept_order-Taken s o p v h a in
      refuses_late v.state late p' (e ∙ sym t.order_id) (rw t.update_id n)
