-- ===== src/Robot/OrderState.antt =====
-- robot/order_state.go: the robot's current order, and the decision whether to take an order message.
-- A function that mutates `*OrderState` returns the new record. `none` is a panic: the code indexes
-- `incoming.Nodes[0]`, also of an order without nodes.
pub mod Kept
pub mod Decided
pub mod Stitching
pub mod Sound
pub mod Base
pub mod Updates
use mathlib.Core.Option
use vda.Prelude.{
  Bool, true, false, not, ◌&&◌, ◌||◌, Option, none, some, List, [], ◌∷◌, ◌++◌, map, keep, any,
  head?, if◌then◌else◌,
}
use vda.Prelude.Int.{ℤ, pos, negsuc, ltb_ℤ, eqb_ℤ}
use vda.Prelude.Text.{String, ◌<>◌, str_eq, itoa}
use vda.Errors
use vda.Errors.{
  VdaError, reference, invalid_order, other_order_active, start_node_out_of_range,
  outdated_order_update, order_update_following_cancel, same_order_update_id,
}
use vda.Geometry.{Float64, Position, inside_deviation_ellipse}
use vda.Models.Order.{Node, Edge, Order}
use vda.Validation.Sorting.{Sequence, of_node, of_edge, sequence_id, is_released, sort_slice}
use vda.Validation.{sequence_of}

pub record OrderState (F : Type 0) : Type 0 where
  pub order_id : String
  pub order_update_id : ℤ
  pub cancelled : Bool
  pub paused : Bool
  pub last_node_id : String
  pub last_node_sequence_id : ℤ
  pub decision_node_id : String
  pub decision_sequence_id : ℤ
  pub nodes : List (Node F)
  pub edges : List (Edge F)

module _ {F : Type 0} where
  unfoldable pub has_horizon : OrderState F → Bool
  unfolding any
  has_horizon s = any (λ n. not n.released) s.nodes

  unfoldable pub is_idle : OrderState F → Bool
  is_idle s =
      if str_eq s.order_id ""
      then true
      else (not (has_horizon s) && eqb_ℤ s.last_node_sequence_id s.decision_sequence_id)

  -- The first half of the loop body of `decisionPoint`: a released node is the candidate.
  abbrev pub mark_node : String → ℤ → Sequence F → String × ℤ
  mark_node node_id number (of_node n) =
      if n.released then (n.node_id, n.sequence_id) else (node_id, number)
  mark_node node_id number (of_edge e) = (node_id, number)

  pub decide_from : String → ℤ → List (Sequence F) → String × ℤ
  decide_from node_id number [] = (node_id, number)
  decide_from node_id number (s ∷ rest) =
      let (node_id', number') = mark_node node_id number s in
      if not (is_released s) then (node_id', number') else decide_from node_id' number' rest

  unfoldable pub decision_point : List (Node F) → List (Edge F) → String × ℤ
  unfolding decide_from sort_slice
  decision_point nodes edges = decide_from "" (negsuc 0) (sort_slice (sequence_of nodes edges))

  -- The negation of the function that `slices.DeleteFunc` takes, for nodes and for edges.
  abbrev pub keeps_node : ℤ → ℤ → Node F → Bool
  keeps_node last decision n =
      not (not n.released || ltb_ℤ n.sequence_id last || eqb_ℤ n.sequence_id decision)

  abbrev pub keeps_edge : ℤ → Edge F → Bool
  keeps_edge last e = not (not e.released || ltb_ℤ e.sequence_id last)

  unfoldable pub stitch : OrderState F → Order F → List (Node F) × List (Edge F)
  unfolding keep
  stitch s incoming =
      let filtered_nodes =
        keep (keeps_node s.last_node_sequence_id s.decision_sequence_id) s.nodes in
      let filtered_edges = keep (keeps_edge s.last_node_sequence_id) s.edges in
      (filtered_nodes ++ incoming.nodes, filtered_edges ++ incoming.edges)

  -- The two branches of `accept`, on the order that the state holds.
  abbrev pub update_order : OrderState F → Order F → OrderState F
  update_order s incoming =
      let (nodes', edges') = stitch s incoming in record s { nodes = nodes'; edges = edges' }

  abbrev pub replace_order : OrderState F → Order F → Node F → OrderState F
  replace_order s incoming first = record s {
    order_id = incoming.order_id;
    last_node_id = first.node_id;
    last_node_sequence_id = first.sequence_id;
    cancelled = false;
    nodes = incoming.nodes;
    edges = incoming.edges;
  }

  -- The assignments behind the branches of `accept`.
  abbrev pub close_accept : Order F → OrderState F → OrderState F
  close_accept incoming s =
      let (node_id, number) = decision_point incoming.nodes incoming.edges in
      record s {
        order_update_id = incoming.order_update_id;
        decision_node_id = node_id;
        decision_sequence_id = number;
      }

  unfoldable pub accept : OrderState F → Order F → Bool → Option (OrderState F)
  accept s incoming false = some (close_accept incoming (update_order s incoming))
  accept s incoming true =
      Option.map (λ first. close_accept incoming (replace_order s incoming first))
        (head? incoming.nodes)
