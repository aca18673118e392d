-- ===== src/Delivery/Accepted.antt =====
-- The robot takes what the dispatcher sends.
use vda.Prelude.{ℕ, ◌≡◌, ◌≢◌, refl, none, some, true, List, ◌∷◌, arith, ap, ◌∙◌, sym, inl, inr}
use vda.Geometry.{Float64, inside_deviation_ellipse}
use vda.Models.Order.{Node, Order}
use vda.Validation.{validate_order}
use vda.Validation.Weave.{IsBase-valid}
use vda.Robot.OrderState.{OrderState, is_idle}
use vda.Robot.AcceptOrder.Decision.{
  Accepts, FitsNew, FitsUpdate, FitsNew-accepted, FitsUpdate-accepted,
}
use vda.Robot.AcceptOrder.Replay.{Taken, accept_order-Taken}
use vda.Robot.Main.{Robot, on_order, position}
use vda.Robot.Main.Handler.{on_order-Handled}
use vda.Fleet.Dispatcher.{Dispatcher, start}
use vda.Fleet.Dispatcher.Plan.{Plan, Progress, Represents, window, begin, at_most}
use vda.Fleet.Dispatcher.Refines.{IsNew, start-refines}
use vda.Fleet.Dispatcher.Windows.{IsWindow, window_lem}
use vda.Delivery.InStep.{InStep, Taken-InStep}

pub some_inj : {A : Type 0} (a b : A) → some a ≡ some b → a ≡ b
some_inj a b e = cc

module _ {F : Type 0} ⦃fl : Float64 F⦄ where
  -- The order passes both checks of the handler.
  pub record IsTaken (r : Robot F) (o : Order F) : Type 0 where
    pub valid : validate_order o ≡ none
    pub accepted : Accepts r.state o (position r)

  pub IsTaken-state :
      (r : Robot F) (o : Order F) (first : Node F) (rest : List (Node F))
      → o.nodes ≡ first ∷ rest
      → IsTaken r o
      → (r' : Robot F) × (on_order r o ≡ some r') × Taken r.state o r'.state
  IsTaken-state r o first rest e t =
      let (v, h, a) = t.accepted in
      let (r', same, outcome) = on_order-Handled r o first rest e in
      (
        r',
        same,
        elim outcome [
          | inl (inl (x, bad), _) ↦ absurd (cc (t.valid, bad))
          | inl (inr (v', h', a'), _) ↦ absurd (cc (h, h', a, a'))
          | inr (_, (v', h', a', q)) ↦ rw q (accept_order-Taken r.state o (position r) v' h' a')
        ],
      )

  -- The handler leaves a robot that refuses as it was.
  pub refused-same :
      (r r' : Robot F) (o : Order F) (first : Node F) (rest : List (Node F))
      → o.nodes ≡ first ∷ rest
      → ¬ Accepts r.state o (position r)
      → on_order r o ≡ some r'
      → r' ≡ r
  refused-same r r' o first rest e refuses t =
      let (r'', same, outcome) = on_order-Handled r o first rest e in
      let here : r' ≡ r'' = some_inj r' r'' (sym t ∙ same) in
      elim outcome [
        | inl (_, kept) ↦ here ∙ kept
        | inr (_, (v, h, a, _)) ↦ absurd (refuses (v, h, a))
      ]

  -- The next window of the plan fits a robot in step.
  pub window-FitsUpdate :
      (p : Plan F) (s : Progress) (k : ℕ) (t : OrderState F)
      (w : IsWindow p s.reached k s.next_update)
      → InStep p s t
      → FitsUpdate t (window p s.reached k s.next_update) w.base.first
  window-FitsUpdate p s k t w h =
      let from : w.from ≡ h.node = some_inj w.from h.node (sym w.from_here ∙ h.node_here) in
      record {
        same_id = sym h.same_id;
        newer = h.older;
        running = h.running;
        decision_id = ap (λ n. n.node_id) w.first_is ∙ ap (λ n. n.node_id) from ∙ sym h.decision_id;
        decision_number =
            ap (λ n. n.sequence_id) w.first_is
            ∙ ap (λ n. n.sequence_id) from
            ∙ sym h.decision_number;
      }

  pub window-IsTaken :
      (p : Plan F) (s : Progress) (k : ℕ) (r : Robot F) (w : IsWindow p s.reached k s.next_update)
      → InStep p s r.state
      → IsTaken r (window p s.reached k s.next_update)
  window-IsTaken p s k r w h = record {
    valid = IsBase-valid _ w.base;
    accepted =
        FitsUpdate-accepted r.state _ (position r) w.base.first w.base.rest w.base.nodes_are
          (window-FitsUpdate p s k r.state w h);
  }

  -- The robot may begin with the plan: it is idle, has another order or none, and stands on the first node.
  pub record CanBegin (p : Plan F) (r : Robot F) : Type 0 where
    pub other_id : p.order_id ≢ r.state.order_id
    pub idle : is_idle r.state ≡ true
    pub in_range : inside_deviation_ellipse (position r) p.first.node_position ≡ true

  -- A new dispatcher sends the first window of its plan, and a robot that is idle, has another order id
  -- and is in range of the plan's first node takes it: the order is valid and accepted. Then the
  -- dispatcher stands where the plan says, and the robot holds the order up to there.
  pub begin_accepted :
      (p : Plan F) (d : Dispatcher F) (r : Robot F)
      → IsNew p d
      → CanBegin p r
      → (d' : Dispatcher F) × (r' : Robot F) × (start d ≡ some (d', (begin p).1))
        × IsTaken r (begin p).1
        × (on_order r (begin p).1 ≡ some r')
        × Represents p (begin p).0 d'
        × InStep p (begin p).0 r'.state
  begin_accepted p d r new can =
      let k = at_most 2 p 0 in
      let (d', started, rep) = start-refines p d new in
      let w : IsWindow p 0 k 0 = window_lem p 0 k 0 (ground arith) in
      let o = window p 0 k 0 in
      let from : w.from ≡ p.first = some_inj w.from p.first (sym w.from_here) in
      let fits : FitsNew r.state o (position r) w.base.first = record {
        other_id = can.other_id;
        idle = can.idle;
        number_zero = refl;
        in_range =
            ap (λ n. inside_deviation_ellipse (position r) n.node_position) w.first_is
            ∙ ap (λ n. inside_deviation_ellipse (position r) n.node_position) from
            ∙ can.in_range;
      } in
      let taken : IsTaken r o = record {
        valid = IsBase-valid o w.base;
        accepted =
            FitsNew-accepted r.state o (position r) w.base.first w.base.rest w.base.nodes_are fits;
      } in
      let (r', handled, t) = IsTaken-state r o w.base.first w.base.rest w.base.nodes_are taken in
      (
        d',
        r',
        started,
        taken,
        handled,
        rep,
        Taken-InStep p 0 k k 0 1 w r.state r'.state (omega arith) (omega arith) t,
      )
