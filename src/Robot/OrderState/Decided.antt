-- ===== src/Robot/OrderState/Decided.antt =====
-- The node at which `decisionPoint` ends is the only one with its number.
use vda.Prelude.{
  ◌≡◌, sym, ap, ◌∙◌, true, List, [], ◌∷◌, arith, All, All-map, All-of_map, All-append_left, map,
  Bool-cases, inl, inr,
}
use vda.Prelude.Int.{ℤ, negsuc, ◌<ℤ◌, ◌≤ℤ◌, IsEven, pos_part, neg_part}
use vda.Prelude.Text.{String}
use vda.Models.Order.{Node, Edge}
use vda.Validation.{sequence_of}
use vda.Validation.Sorting.{Sequence, of_node, of_edge, sequence_id, sort_slice}
use vda.Validation.Route.{RouteFrom, IsRoute}
use vda.Validation.Decides.{Link-parity, Link-lt}
use vda.Validation.Numbers.{RouteFrom-above, sort_slice-All_of}
use vda.Robot.OrderState.{decide_from, decision_point}
use vda.Robot.OrderState.Kept.{decide_from-ge, decide_end, decide_on, decide_stop}
use vda.Robot.OrderState.Sound.{decide_base}

module _ {F : Type 0} where
  -- A node with the number has the id.
  abbrev Names : String × ℤ → Sequence F → Type 0
  Names d (of_node n) = n.sequence_id ≡ d.1 → n.node_id ≡ d.0
  Names d (of_edge e) = Unit {0}

  above-Names :
      (d : String × ℤ) (ss : List (Sequence F))
      → All (λ s. d.1 <ℤ sequence_id s) ss
      → All (Names d) ss
  above-Names d [] h = tt
  above-Names d (of_node n ∷ ss) (h, hs) =
      (λ q. absurd (omega (arith, ap pos_part q, ap neg_part q)), above-Names d ss hs)
  above-Names d (of_edge e ∷ ss) (h, hs) = (tt, above-Names d ss hs)

  decided-Names :
      (n : Node F) (rest : List (Sequence F)) (d : String × ℤ)
      → decide_from n.node_id n.sequence_id rest ≡ d
      → n.released ≡ true
      → IsEven n.sequence_id
      → RouteFrom n rest
      → IsEven d.1 × All (Names d) (of_node n ∷ rest)
  decided-Names n [] d q u even r =
      let is = sym (decide_end n) ∙ q in (rw (← ap (λ x. x.1) is) even, (λ _. ap (λ x. x.0) is, tt))
  decided-Names n (of_node m ∷ rest) d q u even r = absurd r
  decided-Names n (of_edge e ∷ []) d q u even r = absurd r
  decided-Names n (of_edge e ∷ of_edge f ∷ rest) d q u even r = absurd r
  decided-Names n (of_edge e ∷ of_node m ∷ rest) d q u even (l, r) =
      let (low, high) = Link-lt n e m l in
      elim (Bool-cases m.released) [
        | inl y ↦
            let is = sym (decide_on n e m rest l y) ∙ q in
            let (even', names) = decided-Names m rest d is y (Link-parity n e m even l).0 r in
            let ge : m.sequence_id ≤ℤ d.1 = rw (ap (λ x. x.1) is) at (decide_from-ge m rest y r) in
            (even', (λ k. absurd (omega (arith, ap pos_part k, ap neg_part k)), (tt, names)))
        | inr z ↦
            let is = sym (decide_stop n e m rest l z) ∙ q in
            let first : n.sequence_id ≡ d.1 = ap (λ x. x.1) is in
            (
              rw (← first) even,
              (
                λ _. ap (λ x. x.0) is,
                above-Names d (of_edge e ∷ of_node m ∷ rest) (
                  omega (arith, ap pos_part first, ap neg_part first),
                  (
                    omega (arith, ap pos_part first, ap neg_part first),
                    All-map rest (λ s h. omega (arith, ap pos_part first, ap neg_part first))
                        (RouteFrom-above m rest m.sequence_id (omega arith) r),
                  ),
                ),
              ),
            )
      ]

  decided_by :
      (ns : List (Node F)) (es : List (Edge F)) (first : Node F) (tail : List (Sequence F))
      → sort_slice (sequence_of ns es) ≡ of_node first ∷ tail
      → first.released ≡ true
      → decision_point ns es ≡ decide_from first.node_id first.sequence_id tail
  unfolding decision_point
  decided_by ns es first tail sorted base = rw sorted (decide_base "" (negsuc 0) first tail base)

  -- In an order with a route for a graph that starts in a released node, the number of the decision point is
  -- even, and a node with that number has the id of the decision point.
  pub decision-named :
      (ns : List (Node F)) (es : List (Edge F)) (first : Node F) (tail : List (Sequence F))
      → IsRoute (sort_slice (sequence_of ns es))
      → sort_slice (sequence_of ns es) ≡ of_node first ∷ tail
      → first.released ≡ true
      → IsEven (decision_point ns es).1
        × All
            (λ n. n.sequence_id ≡ (decision_point ns es).1 → n.node_id ≡ (decision_point ns es).0)
            ns
  decision-named ns es first tail route sorted base =
      let d = decision_point ns es in
      let (even, goes) : IsRoute (of_node first ∷ tail) = rw sorted at route in
      let starts : decide_from first.node_id first.sequence_id tail ≡ d =
        sym (decided_by ns es first tail sorted base) in
      let (even', names) = decided-Names first tail d starts base even goes in
      (
        even',
        All-of_map (Names d) of_node ns (
            All-append_left (Names d) (map of_node ns) (map of_edge es)
              (sort_slice-All_of (Names d) (sequence_of ns es) (rw sorted names))),
      )
