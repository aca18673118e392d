-- ===== src/Delivery/Lost.antt =====
-- What becomes of the robot when an order of the dispatcher does not arrive.
use mathlib.Core.Path.{subst}
use vda.Prelude.{
  ◌+◌, ltb, Bool-cases, ℕ, zero, suc, ◌<◌, ◌≡◌, some, List, [], ◌∷◌, get_elem?, arith, ap, ◌∙◌, sym,
  inl, inr, All,
}
use vda.Prelude.Int.{◌<ℤ◌, pos_part, neg_part}
use vda.Geometry.{Float64, Position}
use vda.Models.Order.{Node, Edge, Order}
use vda.Validation.Weave.{Connects, weave-above}
use vda.Robot.AcceptOrder.Decision.{Accepts, Accepts-iff}
use vda.Fleet.Dispatcher.{Dispatcher, extend_if_needed}
use vda.Fleet.Dispatcher.Plan.{send_next, Plan, Progress, Represents, at_most}
use vda.Fleet.Dispatcher.Windows.{IsWindow, window_lem}
use vda.Delivery.{System}
use vda.Delivery.InStep.{InStep}
use vda.Delivery.Accepted.{some_inj}
use vda.Delivery.Synced.{send_next-on, send_next-off, next_window, sends-window}

All-get_elem? :
    {A : Type 0} (P : A → Type 0) (xs : List A) (i : ℕ) (x : A)
    → All P xs
    → get_elem? xs i ≡ some x
    → P x
All-get_elem? P [] i x all e = absurd (cc e)
All-get_elem? P (y ∷ ys) zero x (py, all) e = subst P (some_inj y x e) py
All-get_elem? P (y ∷ ys) (suc i) x (py, all) e = All-get_elem? P ys i x all e

module _ {F : Type 0} where
  -- The nodes of a route are numbered upwards.
  get_elem?-lt :
      (n : Node F) (ns : List (Node F)) (es : List (Edge F)) (i j : ℕ) (a b : Node F)
      → Connects n ns es
      → i < j
      → get_elem? (n ∷ ns) i ≡ some a
      → get_elem? (n ∷ ns) j ≡ some b
      → a.sequence_id <ℤ b.sequence_id
  get_elem?-lt n ns es i zero a b c lt ea eb = absurd (omega arith)
  get_elem?-lt n ns es zero (suc j) a b c lt ea eb =
      let same : a ≡ n = sym (some_inj n a ea) in
      rw same (
        All-get_elem? (λ m. n.sequence_id <ℤ m.sequence_id) ns j b
          (weave-above n ns es n.sequence_id (omega arith) c).1 eb)
  get_elem?-lt n [] es (suc i) (suc j) a b c lt ea eb = absurd (cc ea)
  get_elem?-lt n (m ∷ ns) [] (suc i) (suc j) a b c lt ea eb = absurd c
  get_elem?-lt n (m ∷ ns) (e ∷ es) (suc i) (suc j) a b (_, c) lt ea eb =
      get_elem?-lt m ns es i j a b c (omega arith) ea eb

module _ {F : Type 0} ⦃fl : Float64 F⦄ where
  -- A window that is sent reaches further.
  pub send_next-further :
      (p : Plan F) (s : Progress) (o : Order F)
      → (send_next p s).1 ≡ some o
      → s.reached < (send_next p s).0.reached
  send_next-further p s o e = elim (Bool-cases (ltb 0 (at_most 3 p s.reached))) [
    | inl more ↦
        let on : (send_next p s).0.reached ≡ s.reached + at_most 3 p s.reached =
          ap (λ q. q.0.reached) (send_next-on p s more) in
        rw on (ground (arith, more))
    | inr done ↦ let off = ap (λ q. q.1) (send_next-off p s done) in absurd (cc (e, off))
  ]

  -- Where the dispatcher has released its plan further than the robot's order reaches, the robot takes
  -- no order that a request makes the dispatcher send, wherever the robot stands.
  pub next_refused :
      (p : Plan F) (s t : Progress) (y : System F) (d : Dispatcher F) (o : Order F)
      (at : Position F)
      → Represents p s y.dispatcher
      → InStep p t y.robot.state
      → t.reached < s.reached
      → extend_if_needed y.dispatcher y.robot.state.order_id ≡ some (d, some o)
      → ¬ Accepts y.robot.state o at
  next_refused p s t y d o at stands h lt e taken =
      let k = at_most 3 p s.reached in
      let within = stands.within in
      let w : IsWindow p s.reached k s.next_update =
        window_lem p s.reached k s.next_update (ground (arith, within)) in
      let is : o ≡ next_window p s = sends-window p s y d o stands h.same_id e in
      let taken' : Accepts y.robot.state (next_window p s) at =
        subst (λ q. Accepts y.robot.state q at) is taken in
      elim ((Accepts-iff y.robot.state (next_window p s) at w.base.first w.base.rest
          w.base.nodes_are).0
        taken') [
          | inl new ↦ new.other_id (sym h.same_id)
          | inr upd ↦
              let higher =
                get_elem?-lt p.first p.rest p.edges t.reached s.reached h.node w.from p.joined lt
                  h.node_here w.from_here in
              let same : w.from.sequence_id ≡ h.node.sequence_id =
                sym (ap (λ n. n.sequence_id) w.first_is)
                ∙ upd.decision_number
                ∙ h.decision_number in
              absurd (omega (arith, higher, ap pos_part same, ap neg_part same))
        ]
