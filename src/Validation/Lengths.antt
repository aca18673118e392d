-- ===== src/Validation/Lengths.antt =====
-- How many nodes and edges an order with a route for a graph has.
use vda.Prelude.{
  ℕ, ◌+◌, ◌<◌, ◌≡◌, ◌⊎◌, refl, inl, inr, some, List, [], ◌∷◌, ◌++◌, map, head?, length, arith,
}
use vda.Models.Order.{Node, Edge}
use vda.Validation.{sequence_of}
use vda.Validation.Sorting.{Sequence, of_node, of_edge, insert, sort_slice}
use vda.Validation.Route.{RouteFrom, IsRoute}

module _ {F : Type 0} where
  abbrev node_weight : Sequence F → ℕ
  node_weight (of_node n) = 1
  node_weight (of_edge e) = 0

  abbrev edge_weight : Sequence F → ℕ
  edge_weight (of_node n) = 0
  edge_weight (of_edge e) = 1

  unfoldable total : (Sequence F → ℕ) → List (Sequence F) → ℕ
  total f [] = 0
  total f (s ∷ ss) = f s + total f ss

  total-insert :
      (f : Sequence F → ℕ) (s : Sequence F) (ss : List (Sequence F))
      → total f (insert s ss) ≡ f s + total f ss
  unfolding total insert
  total-insert f s [] = refl
  total-insert f s (t ∷ ts) = ground (arith, total-insert f s ts)

  total-sort : (f : Sequence F → ℕ) (ss : List (Sequence F)) → total f (sort_slice ss) ≡ total f ss
  unfolding total sort_slice
  total-sort f [] = refl
  total-sort f (s ∷ ss) = omega (arith, total-insert f s (sort_slice ss), total-sort f ss)

  total-append :
      (f : Sequence F → ℕ) (ss ts : List (Sequence F))
      → total f (ss ++ ts) ≡ total f ss + total f ts
  unfolding total
  total-append f [] ts = omega arith
  total-append f (s ∷ ss) ts = omega (arith, total-append f ss ts)

  node_weights :
      (ns : List (Node F))
      → (total node_weight (map of_node ns) ≡ length ns) × (total edge_weight (map of_node ns) ≡ 0)
  unfolding total
  node_weights [] = (refl, refl)
  node_weights (n ∷ ns) = let (a, b) = node_weights ns in (omega arith, omega arith)

  edge_weights :
      (es : List (Edge F))
      → (total node_weight (map of_edge es) ≡ 0) × (total edge_weight (map of_edge es) ≡ length es)
  unfolding total
  edge_weights [] = (refl, refl)
  edge_weights (e ∷ es) = let (a, b) = edge_weights es in (omega arith, omega arith)

  weights :
      (ns : List (Node F)) (es : List (Edge F))
      → (total node_weight (sort_slice (sequence_of ns es)) ≡ length ns)
        × (total edge_weight (sort_slice (sequence_of ns es)) ≡ length es)
  weights ns es =
      let (a, b) = node_weights ns in
      let (c, d) = edge_weights es in
      (
        omega (
          arith,
          total-sort node_weight (sequence_of ns es),
          total-append node_weight (map of_node ns) (map of_edge es),
        ),
        omega (
          arith,
          total-sort edge_weight (sequence_of ns es),
          total-append edge_weight (map of_node ns) (map of_edge es),
        ),
      )

  RouteFrom-total :
      (n : Node F) (rest : List (Sequence F))
      → RouteFrom n rest
      → total edge_weight rest ≡ total node_weight rest
  unfolding total
  RouteFrom-total n [] r = refl
  RouteFrom-total n (of_node m ∷ rest) r = absurd r
  RouteFrom-total n (of_edge e ∷ []) r = absurd r
  RouteFrom-total n (of_edge e ∷ of_edge f ∷ rest) r = absurd r
  RouteFrom-total n (of_edge e ∷ of_node m ∷ rest) (l, r) = omega (arith, RouteFrom-total m rest r)

  IsRoute-total :
      (ss : List (Sequence F))
      → IsRoute ss
      → (total node_weight ss ≡ 0) ⊎ (total edge_weight ss < total node_weight ss)
  unfolding total
  IsRoute-total [] r = inl refl
  IsRoute-total (of_edge e ∷ ss) r = absurd r
  IsRoute-total (of_node n ∷ ss) (even, r) = inr (omega (arith, RouteFrom-total n ss r))

  head-length : (ns : List (Node F)) (n : Node F) → head? ns ≡ some n → 0 < length ns
  head-length [] n h = absurd (cc)
  head-length (m ∷ ns) n h = omega arith

  -- A route has a node more than edges, if it has a node.
  pub route-lt :
      (ns : List (Node F)) (es : List (Edge F)) (n : Node F)
      → IsRoute (sort_slice (sequence_of ns es))
      → head? ns ≡ some n
      → length es < length ns
  route-lt ns es n r h =
      let (a, b) = weights ns es in
      elim (IsRoute-total (sort_slice (sequence_of ns es)) r) [
        | inl none' ↦ absurd (omega (arith, head-length ns n h))
        | inr more ↦ omega arith
      ]
