-- ===== src/Validation/Decides.antt =====
-- `ValidateOrder` accepts exactly the orders whose sorted elements form a route.
use vda.Prelude.{
  ℕ, suc, ◌≡◌, refl, Bool, false, not, ◌||◌, ◌↔◌, Option, none, some, List, [], ◌∷◌, arith, inl,
  inr, head?, Option-cases, ◌∙◌,
}
use vda.Prelude.Int.{pos, ◌<ℤ◌, IsEven, rem-two, +ℤ_parts}
use vda.Errors
use vda.Errors.{VdaError, invalid_order, warning}
use vda.Models.Order.{Node, Edge, Order}
use vda.Validation.Sorting.{Sequence, of_node, of_edge, is_released, sort_slice}
use vda.Validation.Route.{Link, RouteFrom, IsRoute}
use vda.Validation.Elements.{
  check-edge, check-edge_of_fits, check-node, check-node_of_fits, check-node_after_node,
  check-edge_before_edge, check-edge_last, check-edge_first, check-node_first,
}
use vda.Validation.{check_element, validate_from, validate_order, sequence_of, some_node}

module _ {F : Type 0} where
  validate_step :
      (i : ℕ) (p : Option (Sequence F)) (seen : Bool) (s : Sequence F) (rest : List (Sequence F))
      → (validate_from i p seen (s ∷ rest) ≡ none) ↔ (
          (check_element i p s (head? rest) seen ≡ none)
          × (validate_from (suc i) (some s) (seen || not (is_released s)) rest ≡ none))
  unfolding validate_from
  validate_step i p seen s rest = elim (Option-cases (check_element i p s (head? rest) seen)) [
    | inl e ↦ rw (e, validate_from) (λ h. (refl, h), λ h. h.1)
    | inr (x, e) ↦ rw (e, validate_from) (λ h. cc, λ h. cc)
  ]

  validate-RouteFrom :
      (i : ℕ) (n : Node F) (seen : Bool) (rest : List (Sequence F))
      → IsEven n.sequence_id
      → seen ≡ not n.released
      → validate_from i (some (of_node n)) seen rest ≡ none
      → RouteFrom n rest
  validate-RouteFrom i n seen [] even e h = tt
  validate-RouteFrom i n seen (of_node m ∷ rest) even e h =
      check-node_after_node i n m _ seen ((validate_step i _ seen (of_node m) rest).0 h).0
  validate-RouteFrom i n seen (of_edge f ∷ []) even e h =
      check-edge_last i _ f seen ((validate_step i _ seen (of_edge f) []).0 h).0
  validate-RouteFrom i n seen (of_edge f ∷ of_edge g ∷ rest) even e h =
      check-edge_before_edge i _ f g seen
        ((validate_step i _ seen (of_edge f) (of_edge g ∷ rest)).0 h).0
  validate-RouteFrom i n seen (of_edge f ∷ of_node m ∷ rest) even e h =
      let (first, h') = (validate_step i _ seen (of_edge f) (of_node m ∷ rest)).0 h in
      let (second, h'') = (validate_step _ _ _ (of_node m) rest).0 h' in
      let edge = check-edge i n f m seen first in
      let node = check-node (suc i) f m (head? rest) _ second in
      (
        record {
          edge_next = edge.next_number;
          node_next = node.next_number;
          from_start = edge.from_start;
          to_end = edge.to_end;
          edge_released = ground (arith, edge, node);
          base_first = ground (arith, edge, node);
        },
        validate-RouteFrom (suc (suc i)) m _ rest node.even_number (ground (arith, node)) h'',
      )

  RouteFrom-edge_follows :
      (n : Node F) (rest : List (Sequence F)) → RouteFrom n rest → some_node (head? rest) ≡ false
  RouteFrom-edge_follows n [] r = refl
  RouteFrom-edge_follows n (of_node m ∷ rest) r = absurd r
  RouteFrom-edge_follows n (of_edge e ∷ rest) r = refl

  -- Two numbers on from an even number stands an even one, and the one between is odd.
  pub Link-parity :
      (n : Node F) (e : Edge F) (m : Node F)
      → IsEven n.sequence_id
      → Link n e m
      → IsEven m.sequence_id × (¬ IsEven e.sequence_id)
  Link-parity n e m even l = ground (
    arith,
    rem-two n.sequence_id,
    rem-two e.sequence_id,
    rem-two m.sequence_id,
    +ℤ_parts n.sequence_id (pos 1),
    +ℤ_parts e.sequence_id (pos 1),
  )

  pub Link-lt :
      (n : Node F) (e : Edge F) (m : Node F)
      → Link n e m
      → (n.sequence_id <ℤ e.sequence_id) × (e.sequence_id <ℤ m.sequence_id)
  Link-lt n e m l =
      ground (arith, l, +ℤ_parts n.sequence_id (pos 1), +ℤ_parts e.sequence_id (pos 1))

  RouteFrom-validate :
      (i : ℕ) (n : Node F) (seen : Bool) (rest : List (Sequence F))
      → IsEven n.sequence_id
      → seen ≡ not n.released
      → RouteFrom n rest
      → validate_from i (some (of_node n)) seen rest ≡ none
  unfolding validate_from
  RouteFrom-validate i n seen [] even e r = refl
  RouteFrom-validate i n seen (of_node m ∷ rest) even e r = absurd r
  RouteFrom-validate i n seen (of_edge f ∷ []) even e r = absurd r
  RouteFrom-validate i n seen (of_edge f ∷ of_edge g ∷ rest) even e r = absurd r
  RouteFrom-validate i n seen (of_edge f ∷ of_node m ∷ rest) even e (l, r) =
      let (even', odd) = Link-parity n f m even l in
      let first = check-edge_of_fits i n f m seen (record {
        next_number = l.edge_next;
        odd_number = odd;
        in_base = ground arith;
        from_start = l.from_start;
        to_end = l.to_end;
        nodes_released = ground arith;
      }) in
      let second = check-node_of_fits (suc i) f m (head? rest) (seen || not f.released) (record {
        next_number = l.node_next;
        even_number = even';
        in_base = ground arith;
        edge_follows = RouteFrom-edge_follows m rest r;
      }) in
      let rest_ok =
        RouteFrom-validate (suc (suc i)) m ((seen || not f.released) || not m.released) rest even'
          (ground arith) r in
      (validate_step i (some (of_node n)) seen (of_edge f) (of_node m ∷ rest)).1 (
        first,
        (validate_step (suc i) (some (of_edge f)) (seen || not f.released) (of_node m) rest).1
            (second, rest_ok),
      )

  validate_all : (ss : List (Sequence F)) → (validate_from 0 none false ss ≡ none) ↔ IsRoute ss
  validate_all [] = (λ h. tt, λ r. unfold validate_from in refl)
  validate_all (of_edge e ∷ rest) = (
    λ h. check-edge_first 0 e _ _ ((validate_step 0 none false (of_edge e) rest).0 h).0,
    λ r. absurd r,
  )
  validate_all (of_node n ∷ rest) = (
    λ h.
        let (first, h') = (validate_step 0 none false (of_node n) rest).0 h in
        let (even, _) = (check-node_first 0 n (head? rest)).0 first in
        (even, validate-RouteFrom 1 n _ rest even refl h'),
    λ (even, r). (validate_step 0 none false (of_node n) rest).1 (
      (check-node_first 0 n (head? rest)).1 (even, RouteFrom-edge_follows n rest r),
      RouteFrom-validate 1 n _ rest even refl r,
    ),
  )

  -- `ValidateOrder` returns nil exactly when the order's nodes and edges, sorted by sequenceId, form a
  -- route: they alternate from node to node, numbered without gaps from an even number, each edge
  -- joins its neighbours, and no released element follows one that is not released.
  pub validate_order_iff :
      (order : Order F)
      → (validate_order order ≡ none) ↔ IsRoute (sort_slice (sequence_of order.nodes order.edges))
  unfolding validate_order
  validate_order_iff order = validate_all _

  check_type :
      (i : ℕ) (p : Option (Sequence F)) (s : Sequence F) (next : Option (Sequence F)) (seen : Bool)
      {x : VdaError}
      → check_element i p s next seen ≡ some x
      → (x.error_type ≡ invalid_order) × (x.error_level ≡ warning)
  unfolding check_element Errors.new
  check_type i p (of_node n) next seen h = ground arith
  check_type i p (of_edge n) next seen h = ground arith

  validate_from_type :
      (i : ℕ) (p : Option (Sequence F)) (seen : Bool) (ss : List (Sequence F)) {x : VdaError}
      → validate_from i p seen ss ≡ some x
      → (x.error_type ≡ invalid_order) × (x.error_level ≡ warning)
  unfolding validate_from
  validate_from_type i p seen [] h = cc
  validate_from_type i p seen (s ∷ rest) h =
      elim (Option-cases (check_element i p s (head? rest) seen)) [
        | inl e ↦ validate_from_type (suc i) (some s) _ rest (rw (e, validate_from) at h)
        | inr (y, e) ↦ check_type i p s _ seen (e ∙ (rw (e, validate_from) at h))
      ]

  -- An order that `ValidateOrder` refuses is reported as INVALID_ORDER, at level WARNING.
  pub validate_order_type :
      (order : Order F) {x : VdaError}
      → validate_order order ≡ some x
      → (x.error_type ≡ invalid_order) × (x.error_level ≡ warning)
  unfolding validate_order
  validate_order_type order h =
      validate_from_type 0 none false (sort_slice (sequence_of order.nodes order.edges)) h
