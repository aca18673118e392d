-- ===== src/Robot/OrderState/Kept.antt =====
-- What `stitch` keeps of a route, and where `decisionPoint` ends on it.
use vda.Prelude.{
  ◌≡◌, refl, Bool, true, false, List, [], ◌∷◌, arith, keep, All, All-map, Bool-cases, inl, inr, ap,
  ◌∙◌, sym,
}
use vda.Prelude.Int.{ℤ, pos, ◌<ℤ◌, ◌≤ℤ◌, +ℤ_parts, IsEven, rem-two}
use vda.Models.Order.{Node, Edge}
use vda.Validation.Sorting.{Sequence, of_node, of_edge, sequence_id, is_released}
use vda.Validation.Route.{Link, RouteFrom}
use vda.Validation.Decides.{Link-parity, Link-lt}
use vda.Robot.OrderState.{keeps_node, keeps_edge, decide_from}

module _ {F : Type 0} where
  -- The two filters of `stitch` as one on the elements of a sequence.
  abbrev pub keeps : ℤ → ℤ → Sequence F → Bool
  keeps last decision (of_node n) = keeps_node last decision n
  keeps last decision (of_edge e) = keeps_edge last e

  -- Of the horizon nothing is kept.
  pub keep_horizon :
      (last decision : ℤ) (ss : List (Sequence F))
      → All (λ s. is_released s ≡ false) ss
      → keep (keeps last decision) ss ≡ []
  unfolding keep
  keep_horizon last decision [] u = refl
  keep_horizon last decision (of_node n ∷ ss) (u, us) = rw u (keep_horizon last decision ss us)
  keep_horizon last decision (of_edge e ∷ ss) (u, us) = rw u (keep_horizon last decision ss us)

  -- The number at which `decisionPoint` ends is at least that of the released node it starts from.
  pub decide_from-ge :
      (n : Node F) (rest : List (Sequence F))
      → n.released ≡ true
      → RouteFrom n rest
      → n.sequence_id ≤ℤ (decide_from n.node_id n.sequence_id rest).1
  unfolding decide_from
  decide_from-ge n [] u r = omega arith
  decide_from-ge n (of_node m ∷ rest) u r = absurd r
  decide_from-ge n (of_edge e ∷ []) u r = absurd r
  decide_from-ge n (of_edge e ∷ of_edge f ∷ rest) u r = absurd r
  decide_from-ge n (of_edge e ∷ of_node m ∷ rest) u (l, r) = elim (Bool-cases m.released) [
    | inl y ↦ ground (
      arith,
      l,
      decide_from-ge m rest y r,
      +ℤ_parts n.sequence_id (pos 1),
      +ℤ_parts e.sequence_id (pos 1),
    )
    | inr z ↦ ground (arith, l)
  ]

  -- Behind an unreleased node all is horizon.
  pub RouteFrom-horizon :
      (n : Node F) (rest : List (Sequence F))
      → n.released ≡ false
      → RouteFrom n rest
      → All (λ s. is_released s ≡ false) rest
  RouteFrom-horizon n [] u r = tt
  RouteFrom-horizon n (of_node m ∷ rest) u r = absurd r
  RouteFrom-horizon n (of_edge e ∷ []) u r = absurd r
  RouteFrom-horizon n (of_edge e ∷ of_edge f ∷ rest) u r = absurd r
  RouteFrom-horizon n (of_edge e ∷ of_node m ∷ rest) u (l, r) =
      let m_unreleased : m.released ≡ false = ground (arith, l) in
      (l.edge_released ∙ m_unreleased, (m_unreleased, RouteFrom-horizon m rest m_unreleased r))

  pub decide_end :
      (n : Node F) → decide_from {F = F} n.node_id n.sequence_id [] ≡ (n.node_id, n.sequence_id)
  unfolding decide_from
  decide_end n = refl

  pub decide_on :
      (n : Node F) (e : Edge F) (m : Node F) (rest : List (Sequence F))
      → Link n e m
      → m.released ≡ true
      → decide_from n.node_id n.sequence_id (of_edge e ∷ of_node m ∷ rest)
        ≡ decide_from m.node_id m.sequence_id rest
  unfolding decide_from
  decide_on n e m rest l y = rw (l.edge_released, y)

  pub decide_stop :
      (n : Node F) (e : Edge F) (m : Node F) (rest : List (Sequence F))
      → Link n e m
      → m.released ≡ false
      → decide_from n.node_id n.sequence_id (of_edge e ∷ of_node m ∷ rest)
        ≡ (n.node_id, n.sequence_id)
  unfolding decide_from
  decide_stop n e m rest l z = rw (l.edge_released, z)

  -- An edge that starts before an even number ends before it too.
  pub Link-lt_even :
      (n : Node F) (e : Edge F) (m : Node F) (last : ℤ)
      → Link n e m
      → IsEven n.sequence_id
      → IsEven last
      → n.sequence_id <ℤ last
      → e.sequence_id <ℤ last
  Link-lt_even n e m last l even even_last h = ground (
    arith,
    l,
    (Link-parity n e m even l).1,
    rem-two e.sequence_id,
    rem-two last,
    rem-two n.sequence_id,
    +ℤ_parts n.sequence_id (pos 1),
  )

  -- The released elements of a route end at its decision point, at the number `d`.
  pub released-le-decision :
      (n : Node F) (rest : List (Sequence F)) (d : ℤ)
      → (decide_from n.node_id n.sequence_id rest).1 ≡ d
      → n.released ≡ true
      → RouteFrom n rest
      → All (λ s. is_released s ≡ true → sequence_id s ≤ℤ d) (of_node n ∷ rest)
  released-le-decision n [] d q u r = (λ _. rw q at (decide_from-ge n [] u r), tt)
  released-le-decision n (of_node m ∷ rest) d q u r = absurd r
  released-le-decision n (of_edge e ∷ []) d q u r = absurd r
  released-le-decision n (of_edge e ∷ of_edge f ∷ rest) d q u r = absurd r
  released-le-decision n (of_edge e ∷ of_node m ∷ rest) d q u (l, r) =
      elim (Bool-cases m.released) [
        | inl y ↦
            let (first, later) =
              released-le-decision m rest d (ap (λ p. p.1) (sym (decide_on n e m rest l y)) ∙ q) y
                r in
            let up = first y in
            let (low, high) = Link-lt n e m l in
            (λ _. omega arith, (λ _. omega arith, (first, later)))
        | inr z ↦
            let start : n.sequence_id ≤ℤ d =
              rw q at (decide_from-ge n (of_edge e ∷ of_node m ∷ rest) u (l, r)) in
            (
              λ _. start,
              (
                λ y. cc (l.edge_released),
                (λ y. cc, All-map rest (λ s u y. cc) (RouteFrom-horizon m rest z r)),
              ),
            )
      ]
