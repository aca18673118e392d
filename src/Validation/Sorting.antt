-- ===== src/Validation/Sorting.antt =====
-- The element type `Sequence` of common/validations/order.go and Go's `sort.Slice` by sequenceId.
-- `sort.Slice` leaves the order of equal keys open; insertion keeps them as they stood.
use vda.Prelude.{Bool, true, false, List, [], ◌∷◌, if◌then◌else◌}
use vda.Prelude.Int.{ℤ, leb_ℤ}
use vda.Models.Order.{Node, Edge}

-- `IsNode` is the constructor; of the two pointers the one that is not nil is its argument.
pub data Sequence (F : Type 0) : Type 0 where
  of_node : Node F → Sequence F
  of_edge : Edge F → Sequence F

module _ {F : Type 0} where
  abbrev pub sequence_id : Sequence F → ℤ
  sequence_id (of_node n) = n.sequence_id
  sequence_id (of_edge e) = e.sequence_id

  abbrev pub is_node : Sequence F → Bool
  is_node (of_node n) = true
  is_node (of_edge e) = false

  abbrev pub is_released : Sequence F → Bool
  is_released (of_node n) = n.released
  is_released (of_edge e) = e.released

  unfoldable pub insert : Sequence F → List (Sequence F) → List (Sequence F)
  insert s [] = s ∷ []
  insert s (t ∷ ts) = if leb_ℤ (sequence_id s) (sequence_id t) then s ∷ t ∷ ts else t ∷ insert s ts

  unfoldable pub sort_slice : List (Sequence F) → List (Sequence F)
  unfolding insert
  sort_slice [] = []
  sort_slice (s ∷ ss) = insert s (sort_slice ss)
