-- ===== src/Validation/Route.antt =====
-- What the graph of an order has to be: nodes and edges by turns, base before horizon.
use vda.Prelude.{◌≡◌, true, List, [], ◌∷◌}
use vda.Prelude.Int.{pos, ◌+ℤ◌, IsEven}
use vda.Models.Order.{Node, Edge}
use vda.Validation.Sorting.{Sequence, of_node, of_edge}

module _ {F : Type 0} where
  -- The edge `e` leads from `n` to `m`. It is released exactly when `m` is, and `n` is then too.
  pub record Link (n : Node F) (e : Edge F) (m : Node F) : Type 0 where
    pub edge_next : e.sequence_id ≡ n.sequence_id +ℤ pos 1
    pub node_next : m.sequence_id ≡ e.sequence_id +ℤ pos 1
    pub from_start : n.node_id ≡ e.start_node_id
    pub to_end : m.node_id ≡ e.end_node_id
    pub edge_released : e.released ≡ m.released
    pub base_first : m.released ≡ true → n.released ≡ true

  -- What follows the node `n`.
  abbrev pub RouteFrom : Node F → List (Sequence F) → Type 0
  RouteFrom n [] = Unit {0}
  RouteFrom n (of_edge e ∷ of_node m ∷ rest) = Link n e m × RouteFrom m rest
  RouteFrom n _ = ⊥

  abbrev pub IsRoute : List (Sequence F) → Type 0
  IsRoute [] = Unit {0}
  IsRoute (of_node n ∷ rest) = IsEven n.sequence_id × RouteFrom n rest
  IsRoute (of_edge e ∷ rest) = ⊥
