-- ===== src/Validation.antt =====
-- common/validations/order.go: the check of an order's graph before the robot considers it.
pub mod Sorting
pub mod Route
mod Elements
pub mod Ordered
pub mod Merging
pub mod Numbers
pub mod Lengths
pub mod Decides
pub mod Weave
use vda.Prelude.{
  ℕ, suc, ◌+◌, Bool, true, false, not, ◌&&◌, ◌||◌, Option, none, some, List, [], ◌∷◌, ◌++◌, map,
  head?, if◌then◌else◌,
}
use vda.Prelude.Int.{ℤ, pos, ◌+ℤ◌, rem, eqb_ℤ}
use vda.Prelude.Text.{String, ◌<>◌, str_eq, itoa_ℕ}
use vda.Errors
use vda.Errors.{VdaError, invalid_order}
use vda.Models.Order.{Node, Edge, Order}
use Sorting.{Sequence, of_node, of_edge, sequence_id, is_node, is_released, sort_slice}

-- An error of this file: its type is always INVALID_ORDER and it has no references.
abbrev pub invalid : String → VdaError
invalid description = Errors.new invalid_order description []

-- A message with the index of the element between its two halves.
abbrev pub at_index : String → ℕ → String → VdaError
at_index before i after = invalid (before <> (itoa_ℕ i <> after))

module _ {F : Type 0} where
  -- `prevSeq != nil && prevSeq.IsNode`, and so for `nextSeq`.
  abbrev pub some_node : Option (Sequence F) → Bool
  some_node none = false
  some_node (some s) = is_node s

  abbrev pub is_some : Option (Sequence F) → Bool
  is_some none = false
  is_some (some s) = true

  -- `i > 0 && seq.SequenceId != sequence[i-1].SequenceId+1`
  abbrev breaks_sequence : Option (Sequence F) → Sequence F → Bool
  breaks_sequence none s = false
  breaks_sequence (some p) s = not (eqb_ℤ (sequence_id s) (sequence_id p +ℤ pos 1))

  -- The node behind a neighbour's pointer; the code reads it after it tested `IsNode`.
  abbrev node_has : (Node F → Bool) → Option (Sequence F) → Bool
  node_has p (some (of_node n)) = p n
  node_has p _ = false

  -- The last part of the loop body, for a node.
  check_node : ℕ → Option (Sequence F) → Option (Sequence F) → Option VdaError
  check_node i prev next =
      if some_node prev
      then some (at_index "node at index " i " must have an edge on the left")
      else if some_node next
      then some (at_index "node at index " i " must have an edge on the right")
      else none

  -- The last part of the loop body, for an edge.
  check_edge : ℕ → Option (Sequence F) → Edge F → Option (Sequence F) → Option VdaError
  check_edge i prev e next =
      if not (some_node prev)
      then some (at_index "edge at index " i " must have a node on the left")
      else if not (node_has (λ n. str_eq n.node_id e.start_node_id) prev)
      then some (at_index "edge at index " i " has incorrect start node")
      else if not (some_node next)
      then some (at_index "edge at index " i " must have a node on the right")
      else if not (node_has (λ n. str_eq n.node_id e.end_node_id) next)
      then some (at_index "edge at index " i " has incorrect end node")
      else if e.released
          && (not (node_has (λ n. n.released) prev) || not (node_has (λ n. n.released) next))
      then some (at_index "edge at index " i " is released but its nodes are not")
      else none

  check_sides : ℕ → Option (Sequence F) → Sequence F → Option (Sequence F) → Option VdaError
  unfolding check_node check_edge
  check_sides i prev (of_node n) next = check_node i prev next
  check_sides i prev (of_edge e) next = check_edge i prev e next

  -- The loop body at index `i`, with the neighbours `sequence[i-1]` and `sequence[i+1]`.
  pub check_element :
      ℕ → Option (Sequence F) → Sequence F → Option (Sequence F) → Bool → Option VdaError
  unfolding check_sides rem
  check_element i prev s next seen_unreleased =
      if breaks_sequence prev s
      then some (at_index "sequenceId at index " i " is not strictly increasing")
      else if is_node s && not (eqb_ℤ (rem (sequence_id s) 2) (pos 0))
      then some (at_index "node at index " i " must have an even sequenceId")
      else if not (is_node s) && eqb_ℤ (rem (sequence_id s) 2) (pos 0)
      then some (at_index "edge at index " i " must have an odd sequenceId")
      else if is_released s && seen_unreleased
      then some (at_index "element at index " i " is released after an unreleased element")
      else if not (is_some prev) && not (is_node s)
      then some (invalid "order must start in a node")
      else if not (is_some next) && not (is_node s)
      then some (invalid "order must end in a node")
      else check_sides i prev s next

  -- The loop, with the last element seen and `seenUnreleased`.
  pub validate_from : ℕ → Option (Sequence F) → Bool → List (Sequence F) → Option VdaError
  unfolding check_element
  validate_from i prev seen_unreleased [] = none
  validate_from i prev seen_unreleased (s ∷ rest) =
      elim (check_element i prev s (head? rest) seen_unreleased) [
        | some e ↦ some e
        | none ↦ validate_from (suc i) (some s) (seen_unreleased || not (is_released s)) rest
      ]

  -- The elements of an order as both loops append them: the nodes, then the edges.
  abbrev pub sequence_of : List (Node F) → List (Edge F) → List (Sequence F)
  sequence_of nodes edges = map of_node nodes ++ map of_edge edges

  unfoldable pub validate_order : Order F → Option VdaError
  unfolding validate_from sort_slice
  validate_order order =
      validate_from 0 none false (sort_slice (sequence_of order.nodes order.edges))
