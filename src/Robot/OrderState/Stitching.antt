-- ===== src/Robot/OrderState/Stitching.antt =====
-- The part of a route that `stitch` keeps, followed by an update's route, is a route.
use vda.Prelude.{
  ◌≡◌, refl, true, false, List, [], ◌∷◌, ◌++◌, arith, keep, Bool-cases, inl, inr, ap, ◌∙◌, sym,
  keep_pass, keep_drop,
}
use vda.Prelude.Int.{ℤ, ◌<ℤ◌, ◌≤ℤ◌, leb_ℤ, leb_ℤ→≤ℤ, eqb_ℤ_iff, IsEven}
use vda.Models.Order.{Node, Edge}
use vda.Validation.Sorting.{Sequence, of_node, of_edge}
use vda.Validation.Route.{RouteFrom, IsRoute}
use vda.Validation.Decides.{Link-parity, Link-lt}
use vda.Robot.OrderState.{decide_from}
use vda.Robot.OrderState.Kept.{
  keeps, keep_horizon, Link-lt_even, decide_end, decide_on, decide_stop, decide_from-ge,
  RouteFrom-horizon,
}

module _ {F : Type 0} where
  keeps_base :
      (last d : ℤ) (n : Node F)
      → n.released ≡ true
      → last ≤ℤ n.sequence_id
      → n.sequence_id <ℤ d
      → keeps last d (of_node n) ≡ true
  keeps_base last d n u h k = ground arith

  keeps_base_edge :
      (last d : ℤ) (e : Edge F)
      → e.released ≡ true
      → last ≤ℤ e.sequence_id
      → keeps last d (of_edge e) ≡ true
  keeps_base_edge last d e u h = ground arith

  drops_decision : (last d : ℤ) (n : Node F) → n.sequence_id ≡ d → keeps last d (of_node n) ≡ false
  drops_decision last d n h = ground (arith, eqb_ℤ_iff n.sequence_id d)

  drops_passed :
      (last d : ℤ) (n : Node F) → n.sequence_id <ℤ last → keeps last d (of_node n) ≡ false
  drops_passed last d n h = ground arith

  drops_passed_edge :
      (last d : ℤ) (e : Edge F) → e.sequence_id <ℤ last → keeps last d (of_edge e) ≡ false
  drops_passed_edge last d e h = ground arith

  -- A list that starts in a copy of the released node `n` and goes on as a route.
  record Joins (n : Node F) (ss : List (Sequence F)) : Type 0 where
    start : Node F
    tail : List (Sequence F)
    splits : ss ≡ of_node start ∷ tail
    same_id : start.node_id ≡ n.node_id
    same_number : start.sequence_id ≡ n.sequence_id
    in_base : start.released ≡ true
    goes_on : RouteFrom start tail

  module _ (first : Node F) (tail : List (Sequence F)) (base : first.released ≡ true)
      (goes : RouteFrom first tail) (last : ℤ) where
    abbrev kept : List (Sequence F) → List (Sequence F)
    kept ss = keep (keeps last first.sequence_id) ss

    -- Behind the decision node nothing is kept, so that the update starts there.
    Joins-here :
        (n : Node F) (ss : List (Sequence F))
        → kept ss ≡ []
        → n.node_id ≡ first.node_id
        → n.sequence_id ≡ first.sequence_id
        → Joins n (kept (of_node n ∷ ss) ++ (of_node first ∷ tail))
    Joins-here n ss h i k = record {
      start = first;
      tail = tail;
      splits = rw (
        keep_drop (keeps last first.sequence_id) (of_node n) ss
            (drops_decision last first.sequence_id n k),
        h,
      );
      same_id = sym i;
      same_number = sym k;
      in_base = base;
      goes_on = goes;
    }

    kept-Joins :
        (n : Node F) (rest : List (Sequence F))
        → n.released ≡ true
        → last ≤ℤ n.sequence_id
        → RouteFrom n rest
        → decide_from n.node_id n.sequence_id rest ≡ (first.node_id, first.sequence_id)
        → Joins n (kept (of_node n ∷ rest) ++ (of_node first ∷ tail))
    kept-Joins n [] u h r d =
        Joins-here n [] (unfold keep in refl) (ap (λ p. p.0) (sym (decide_end n) ∙ d))
          (ap (λ p. p.1) (sym (decide_end n) ∙ d))
    kept-Joins n (of_node m ∷ rest) u h r d = absurd r
    kept-Joins n (of_edge e ∷ []) u h r d = absurd r
    kept-Joins n (of_edge e ∷ of_edge f ∷ rest) u h r d = absurd r
    kept-Joins n (of_edge e ∷ of_node m ∷ rest) u h (l, r) d = elim (Bool-cases m.released) [
      | inl y ↦
          let at_m = sym (decide_on n e m rest l y) ∙ d in
          let join = kept-Joins m rest y (omega (arith, Link-lt n e m l)) r at_m in
          let below : m.sequence_id ≤ℤ first.sequence_id =
            rw (ap (λ p. p.1) at_m) at (decide_from-ge m rest y r) in
          record {
            start = n;
            tail = of_edge e ∷ of_node join.start ∷ join.tail;
            splits =
                rw
                  (
                    keep_pass (keeps last first.sequence_id) (of_node n)
                        (of_edge e ∷ of_node m ∷ rest)
                        (keeps_base last first.sequence_id n u h (omega (arith, Link-lt n e m l))),
                    keep_pass (keeps last first.sequence_id) (of_edge e) (of_node m ∷ rest) (
                        keeps_base_edge last first.sequence_id e (l.edge_released ∙ y)
                          (omega (arith, Link-lt n e m l))),
                  )
                  (ap (λ ss. of_node n ∷ of_edge e ∷ ss) join.splits);
            same_id = refl;
            same_number = refl;
            in_base = u;
            goes_on = (
              record {
                edge_next = l.edge_next;
                node_next = join.same_number ∙ l.node_next;
                from_start = l.from_start;
                to_end = join.same_id ∙ l.to_end;
                edge_released = l.edge_released ∙ y ∙ sym join.in_base;
                base_first = λ _. u;
              },
              join.goes_on,
            );
          }
      | inr z ↦
          let stop = sym (decide_stop n e m rest l z) ∙ d in
          Joins-here n (of_edge e ∷ of_node m ∷ rest)
            (keep_horizon last first.sequence_id (of_edge e ∷ of_node m ∷ rest)
              (l.edge_released ∙ z, (z, RouteFrom-horizon m rest z r)))
            (ap (λ p. p.0) stop) (ap (λ p. p.1) stop)
    ]

    Joins-IsRoute :
        (n : Node F) (ss : List (Sequence F)) → IsEven n.sequence_id → Joins n ss → IsRoute ss
    Joins-IsRoute n ss even j = rw j.splits (rw j.same_number even, j.goes_on)

    first_IsRoute :
        (ss : List (Sequence F))
        → IsEven first.sequence_id
        → ss ≡ []
        → IsRoute (ss ++ (of_node first ∷ tail))
    first_IsRoute ss even e = rw e (even, goes)

    -- The same where the robot is further on than the first nodes of the route.
    pub kept-IsRoute :
        (n : Node F) (rest : List (Sequence F))
        → IsEven first.sequence_id
        → IsEven last
        → IsEven n.sequence_id
        → n.released ≡ true
        → RouteFrom n rest
        → decide_from n.node_id n.sequence_id rest ≡ (first.node_id, first.sequence_id)
        → IsRoute (kept (of_node n ∷ rest) ++ (of_node first ∷ tail))
    kept-IsRoute n [] even_first even_last even u r d =
        first_IsRoute (kept (of_node n ∷ [])) even_first (
          keep_drop (keeps last first.sequence_id) (of_node n) []
            (drops_decision last first.sequence_id n (ap (λ p. p.1) (sym (decide_end n) ∙ d)))
          ∙ unfold keep in refl)
    kept-IsRoute n (of_node m ∷ rest) even_first even_last even u r d = absurd r
    kept-IsRoute n (of_edge e ∷ []) even_first even_last even u r d = absurd r
    kept-IsRoute n (of_edge e ∷ of_edge f ∷ rest) even_first even_last even u r d = absurd r
    kept-IsRoute n (of_edge e ∷ of_node m ∷ rest) even_first even_last even u (l, r) d =
        elim (Bool-cases (leb_ℤ last n.sequence_id)) [
          | inl h ↦ Joins-IsRoute n _ even (
              kept-Joins n (of_edge e ∷ of_node m ∷ rest) u (leb_ℤ→≤ℤ last n.sequence_id h) (l, r)
                d)
          | inr h ↦
              let passed : n.sequence_id <ℤ last = ground arith in
              let skip =
                keep_drop (keeps last first.sequence_id) (of_node n) (of_edge e ∷ of_node m ∷ rest)
                  (drops_passed last first.sequence_id n passed) in
              elim (Bool-cases m.released) [
                | inl y ↦
                    rw
                      (
                        skip,
                        keep_drop (keeps last first.sequence_id) (of_edge e) (of_node m ∷ rest) (
                            drops_passed_edge last first.sequence_id e
                              (Link-lt_even n e m last l even even_last passed)),
                      )
                      (kept-IsRoute m rest even_first even_last (Link-parity n e m even l).0 y r
                        (sym (decide_on n e m rest l y) ∙ d))
                | inr z ↦ first_IsRoute _ even_first (
                    skip
                    ∙ keep_horizon last first.sequence_id (of_edge e ∷ of_node m ∷ rest)
                        (l.edge_released ∙ z, (z, RouteFrom-horizon m rest z r)))
              ]
        ]
