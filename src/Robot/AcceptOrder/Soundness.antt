-- ===== src/Robot/AcceptOrder/Soundness.antt =====
-- `AcceptOrder` keeps the order state sound.
use vda.Prelude.{◌≡◌, refl, true, none, some, List, ◌∷◌, inl, inr, All, All-append_left, map, sym}
use vda.Prelude.Int.{IsEven}
use vda.Geometry.{Float64, Position}
use vda.Models.Order.{Node, Order}
use vda.Validation.{validate_order, sequence_of}
use vda.Validation.Sorting.{Sequence, of_node, of_edge, sort_slice}
use vda.Validation.Route.{IsRoute}
use vda.Validation.Decides.{validate_order_iff}
use vda.Validation.Numbers.{HasParity, IsRoute-parity, sort_slice-All_of}
use vda.Robot.OrderState.{OrderState, close_accept, replace_order}
use vda.Robot.OrderState.Sound.{IsSound, StartsIn}
use vda.Robot.OrderState.Updates.{update-IsSound}
use vda.Robot.AcceptOrder.{Verdict, accept_order}
use vda.Robot.AcceptOrder.Decision.{Accepts-iff, FitsNew-state, FitsUpdate-state}

module _ {F : Type 0} where
  validate-StartsIn :
      (o : Order F) (first : Node F) (tail : List (Sequence F))
      → validate_order o ≡ none
      → sort_slice (sequence_of o.nodes o.edges) ≡ of_node first ∷ tail
      → first.released ≡ true
      → StartsIn o first tail
  validate-StartsIn o first tail valid sorted base =
      let (even, goes) : IsRoute (of_node first ∷ tail) =
        rw sorted at ((validate_order_iff o).0 valid) in
      record { sorted = sorted; base = base; even = even; goes = goes }

  pub first-IsEven :
      (o : Order F) (first : Node F) (rest : List (Node F))
      → validate_order o ≡ none
      → o.nodes ≡ first ∷ rest
      → IsEven first.sequence_id
  first-IsEven o first rest valid e =
      let parities =
        sort_slice-All_of HasParity (sequence_of o.nodes o.edges)
          (IsRoute-parity _ ((validate_order_iff o).0 valid)) in
      let (even, _) : All HasParity (map of_node (first ∷ rest)) =
        rw e at (All-append_left HasParity (map of_node o.nodes) (map of_edge o.edges) parities) in
      even

  pub replace-IsSound :
      (s : OrderState F) (o : Order F) (first : Node F) (rest : List (Node F))
      → validate_order o ≡ none
      → o.nodes ≡ first ∷ rest
      → IsSound (close_accept o (replace_order s o first))
  replace-IsSound s o first rest valid e = record {
    route = (validate_order_iff o).0 valid;
    decided = refl;
    on_node = first-IsEven o first rest valid e;
  }

module _ {F : Type 0} ⦃fl : Float64 F⦄ where
  -- An order that passes `ValidateOrder` and is accepted leaves a sound order state: its graph, for an
  -- update what is kept of the old one and the update, is a route again, and the stored decision point
  -- is that of the graph. For an update the state has to be sound before, and the node that the order
  -- lists first has to be released and to have the lowest sequenceId.
  pub accept_order-IsSound :
      (s : OrderState F) (o : Order F) (p : Position F) (v : Verdict F) (first : Node F)
      (rest : List (Node F)) (tail : List (Sequence F))
      → (o.order_id ≡ s.order_id → IsSound s)
      → validate_order o ≡ none
      → o.nodes ≡ first ∷ rest
      → sort_slice (sequence_of o.nodes o.edges) ≡ of_node first ∷ tail
      → first.released ≡ true
      → accept_order s o p ≡ some v
      → v.accepted ≡ true
      → IsSound v.state
  accept_order-IsSound s o p v first rest tail sound valid e sorted base h a =
      elim ((Accepts-iff s o p first rest e).0 (v, h, a)) [
        | inl new ↦
            rw (FitsNew-state s o p v first rest e new h) (replace-IsSound s o first rest valid e)
        | inr upd ↦ rw (FitsUpdate-state s o p v first rest e upd h) (
            update-IsSound s o first tail (sound upd.same_id)
              (validate-StartsIn o first tail valid sorted base)
              (record { same_id = sym upd.decision_id; same_number = sym upd.decision_number }))
      ]
