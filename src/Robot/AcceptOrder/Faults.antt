-- ===== src/Robot/AcceptOrder/Faults.antt =====
-- Orders on which `AcceptOrder` panics, and an order after which it takes no other.
use vda.Prelude.{
  ◌≡◌, ◌≢◌, ◌↔◌, ◌⊎◌, inl, inr, true, false, none, some, List, [], ◌∷◌, arith, ap, sym, ◌∙◌, any,
}
use vda.Prelude.Int.{pos, negsuc, ◌<ℤ◌, eqb_ℤ_iff}
use vda.Prelude.Text.{eq_iff}
use vda.Geometry.{Float64, Position}
use vda.Models.Order.{Node, Edge, Order}
use vda.Validation.{validate_order, sequence_of}
use vda.Validation.Decides.{validate_order_iff}
use vda.Validation.Sorting.{Sequence, of_node, sort_slice}
use vda.Robot.OrderState.{
  OrderState, is_idle, has_horizon, decision_point, accept, close_accept, replace_order,
}
use vda.Robot.OrderState.Sound.{not_undecided, decide_horizon}
use vda.Robot.AcceptOrder.{Verdict, accept_order}
use vda.Robot.AcceptOrder.Decision.{Accepts, FitsNew, Accepts-iff, FitsNew-state}
use vda.Robot.AcceptOrder.Soundness.{first-IsEven}

module _ {F : Type 0} ⦃fl : Float64 F⦄ where
  -- No check before the one that reads the first node refuses the order.
  abbrev pub ReachesNode : OrderState F → Order F → Type 0
  ReachesNode s o =
      ((o.order_id ≢ s.order_id) × (is_idle s ≡ true) × (o.order_update_id ≡ pos 0))
      ⊎ ((o.order_id ≡ s.order_id)
          × (s.order_update_id <ℤ o.order_update_id)
          × (s.cancelled ≡ false))

  panics_of_reach :
      (s : OrderState F) (o : Order F) (p : Position F)
      → o.nodes ≡ []
      → ReachesNode s o
      → accept_order s o p ≡ none
  unfolding accept_order
  panics_of_reach s o p e r = ground (
    arith,
    eq_iff o.order_id s.order_id,
    eqb_ℤ_iff o.order_update_id (pos 0),
    eqb_ℤ_iff o.order_update_id s.order_update_id,
  )

  reach_of_panics :
      (s : OrderState F) (o : Order F) (p : Position F)
      → accept_order s o p ≡ none
      → (o.nodes ≡ []) × ReachesNode s o
  unfolding accept_order accept
  reach_of_panics s o p h = ground (
    arith,
    eq_iff o.order_id s.order_id,
    eqb_ℤ_iff o.order_update_id (pos 0),
    eqb_ℤ_iff o.order_update_id s.order_update_id,
  )

  -- `AcceptOrder` panics exactly on an order without nodes that is new and numbered 0 for an idle robot,
  -- or is a newer update of a current order that was not cancelled.
  pub accept_order_panics_iff :
      (s : OrderState F) (o : Order F) (p : Position F)
      → (accept_order s o p ≡ none) ↔ ((o.nodes ≡ []) × ReachesNode s o)
  accept_order_panics_iff s o p = (reach_of_panics s o p, λ (e, r). panics_of_reach s o p e r)

  -- An order without nodes and edges passes `ValidateOrder`, and with a new id and number 0 it makes
  -- `AcceptOrder` panic on an idle robot.
  pub empty_order_panics :
      (s : OrderState F) (o : Order F) (p : Position F)
      → o.nodes ≡ []
      → o.edges ≡ []
      → o.order_id ≢ s.order_id
      → is_idle s ≡ true
      → o.order_update_id ≡ pos 0
      → (validate_order o ≡ none) × (accept_order s o p ≡ none)
  empty_order_panics s o p n e other idle zero = (
    (validate_order_iff o).1 (rw (n, e) (unfold sort_slice in tt)),
    panics_of_reach s o p n (inl (other, idle, zero)),
  )

  -- A robot whose order has a horizon and no decision point.
  pub record IsStuck (s : OrderState F) : Type 0 where
    pub has_order : s.order_id ≢ ""
    pub horizon : has_horizon s ≡ true
    pub undecided : s.decision_sequence_id ≡ negsuc 0

  not_idle : (s : OrderState F) → IsStuck s → is_idle s ≢ true
  unfolding is_idle
  not_idle s stuck h = ground (arith, eq_iff s.order_id "")

  -- It takes no validated order with nodes any more, neither a new one nor an update.
  pub IsStuck-refuses :
      (s : OrderState F) (o : Order F) (p : Position F) (first : Node F) (rest : List (Node F))
      → IsStuck s
      → validate_order o ≡ none
      → o.nodes ≡ first ∷ rest
      → ¬ Accepts s o p
  IsStuck-refuses s o p first rest stuck valid e a = elim ((Accepts-iff s o p first rest e).0 a) [
    | inl new ↦ not_idle s stuck new.idle
    | inr upd ↦
        not_undecided first.sequence_id (first-IsEven o first rest valid e)
          (sym stuck.undecided ∙ sym upd.decision_number)
  ]

  has_horizon_first :
      (s : OrderState F) (first : Node F) (rest : List (Node F))
      → s.nodes ≡ first ∷ rest
      → first.released ≡ false
      → has_horizon s ≡ true
  unfolding has_horizon any
  has_horizon_first s first rest e u = rw (e, u)

  decision_point_unreleased :
      (nodes : List (Node F)) (edges : List (Edge F)) (first : Node F) (tail : List (Sequence F))
      → sort_slice (sequence_of nodes edges) ≡ of_node first ∷ tail
      → first.released ≡ false
      → (decision_point nodes edges).1 ≡ negsuc 0
  unfolding decision_point
  decision_point_unreleased nodes edges first tail sorted u =
      rw sorted (ap (λ q. q.1) (decide_horizon "" (negsuc 0) first tail u))

  unreleased_IsStuck :
      (s : OrderState F) (o : Order F) (p : Position F) (v : Verdict F) (first : Node F)
      (rest : List (Node F)) (tail : List (Sequence F))
      → o.nodes ≡ first ∷ rest
      → sort_slice (sequence_of o.nodes o.edges) ≡ of_node first ∷ tail
      → first.released ≡ false
      → o.order_id ≢ ""
      → FitsNew s o p first
      → accept_order s o p ≡ some v
      → IsStuck v.state
  unreleased_IsStuck s o p v first rest tail e sorted u named new h =
      rw (FitsNew-state s o p v first rest e new h) (record {
        has_order = named;
        horizon = has_horizon_first (close_accept o (replace_order s o first)) first rest e u;
        undecided = decision_point_unreleased o.nodes o.edges first tail sorted u;
      })

  -- Once a new order with an id has been accepted whose first node, the lowest, is not released, every
  -- validated order with nodes that comes next is refused.
  pub unreleased_start_sticks :
      (s : OrderState F) (o : Order F) (p : Position F) (v : Verdict F) (first : Node F)
      (rest : List (Node F)) (tail : List (Sequence F)) (next : Order F) (p' : Position F)
      (first' : Node F) (rest' : List (Node F))
      → o.nodes ≡ first ∷ rest
      → sort_slice (sequence_of o.nodes o.edges) ≡ of_node first ∷ tail
      → first.released ≡ false
      → o.order_id ≢ ""
      → FitsNew s o p first
      → accept_order s o p ≡ some v
      → validate_order next ≡ none
      → next.nodes ≡ first' ∷ rest'
      → ¬ Accepts v.state next p'
  unreleased_start_sticks s o p v first rest tail next p' first' rest' e sorted u named new h valid
        e' =
      IsStuck-refuses v.state next p' first' rest'
        (unreleased_IsStuck s o p v first rest tail e sorted u named new h) valid e'
