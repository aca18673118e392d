-- ===== src/Validation/Elements.antt =====
-- The loop body of `ValidateOrder` on one element: when it lets the element pass.
use vda.Prelude.{ℕ, ◌≢◌, ◌≡◌, Bool, true, false, ◌↔◌, Option, none, some, arith}
use vda.Prelude.Int.{pos, ◌+ℤ◌, eqb_ℤ_iff, rem, IsEven}
use vda.Prelude.Text.{eq_iff}
use vda.Models.Order.{Node, Edge}
use vda.Validation.Sorting.{Sequence, of_node, of_edge}
use vda.Validation.{check_element, some_node}

module _ {F : Type 0} where
  -- An edge between two nodes passes exactly when its number, its ends and its release fit them.
  pub record EdgeFits (n : Node F) (e : Edge F) (m : Node F) (seen : Bool) : Type 0 where
    pub next_number : e.sequence_id ≡ n.sequence_id +ℤ pos 1
    pub odd_number : ¬ IsEven e.sequence_id
    pub in_base : e.released ≡ true → seen ≡ false
    pub from_start : n.node_id ≡ e.start_node_id
    pub to_end : m.node_id ≡ e.end_node_id
    pub nodes_released : e.released ≡ true → (n.released ≡ true) × (m.released ≡ true)

  pub check-edge :
      (i : ℕ) (n : Node F) (e : Edge F) (m : Node F) (seen : Bool)
      → check_element i (some (of_node n)) (of_edge e) (some (of_node m)) seen ≡ none
      → EdgeFits n e m seen
  unfolding check_element
  check-edge i n e m seen h = ground (
    arith,
    eqb_ℤ_iff (e.sequence_id) (n.sequence_id +ℤ pos 1),
    eqb_ℤ_iff (rem e.sequence_id 2) (pos 0),
    eq_iff n.node_id e.start_node_id,
    eq_iff m.node_id e.end_node_id,
  )

  pub check-edge_of_fits :
      (i : ℕ) (n : Node F) (e : Edge F) (m : Node F) (seen : Bool)
      → EdgeFits n e m seen
      → check_element i (some (of_node n)) (of_edge e) (some (of_node m)) seen ≡ none
  unfolding check_element
  check-edge_of_fits i n e m seen h = ground (
    arith,
    eqb_ℤ_iff (e.sequence_id) (n.sequence_id +ℤ pos 1),
    eqb_ℤ_iff (rem e.sequence_id 2) (pos 0),
    eq_iff n.node_id e.start_node_id,
    eq_iff m.node_id e.end_node_id,
  )

  -- A node after an edge passes exactly when its number fits, it is not released behind the horizon's
  -- start, and no other node follows it.
  pub record NodeFits (e : Edge F) (m : Node F) (next : Option (Sequence F)) (seen : Bool)
      : Type 0 where
    pub next_number : m.sequence_id ≡ e.sequence_id +ℤ pos 1
    pub even_number : IsEven m.sequence_id
    pub in_base : m.released ≡ true → seen ≡ false
    pub edge_follows : some_node next ≡ false

  pub check-node :
      (i : ℕ) (e : Edge F) (m : Node F) (next : Option (Sequence F)) (seen : Bool)
      → check_element i (some (of_edge e)) (of_node m) next seen ≡ none
      → NodeFits e m next seen
  unfolding check_element
  check-node i e m next seen h = ground (
    arith,
    eqb_ℤ_iff (m.sequence_id) (e.sequence_id +ℤ pos 1),
    eqb_ℤ_iff (rem m.sequence_id 2) (pos 0),
  )

  pub check-node_of_fits :
      (i : ℕ) (e : Edge F) (m : Node F) (next : Option (Sequence F)) (seen : Bool)
      → NodeFits e m next seen
      → check_element i (some (of_edge e)) (of_node m) next seen ≡ none
  unfolding check_element
  check-node_of_fits i e m next seen h = ground (
    arith,
    eqb_ℤ_iff (m.sequence_id) (e.sequence_id +ℤ pos 1),
    eqb_ℤ_iff (rem m.sequence_id 2) (pos 0),
  )

  -- The pairs that no order may have side by side.
  pub check-node_after_node :
      (i : ℕ) (n m : Node F) (next : Option (Sequence F)) (seen : Bool)
      → check_element i (some (of_node n)) (of_node m) next seen ≢ none
  unfolding check_element
  check-node_after_node i n m next seen h = ground arith

  pub check-edge_before_edge :
      (i : ℕ) (p : Option (Sequence F)) (e f : Edge F) (seen : Bool)
      → check_element i p (of_edge e) (some (of_edge f)) seen ≢ none
  unfolding check_element
  check-edge_before_edge i p e f seen h = ground arith

  pub check-edge_last :
      (i : ℕ) (p : Option (Sequence F)) (e : Edge F) (seen : Bool)
      → check_element i p (of_edge e) none seen ≢ none
  unfolding check_element
  check-edge_last i p e seen h = ground arith

  pub check-edge_first :
      (i : ℕ) (e : Edge F) (next : Option (Sequence F)) (seen : Bool)
      → check_element i none (of_edge e) next seen ≢ none
  unfolding check_element
  check-edge_first i e next seen h = ground arith

  pub check-node_first :
      (i : ℕ) (n : Node F) (next : Option (Sequence F))
      → (check_element i none (of_node n) next false ≡ none)
        ↔ (IsEven n.sequence_id × (some_node next ≡ false))
  unfolding check_element
  check-node_first i n next = ground (arith, eqb_ℤ_iff (rem n.sequence_id 2) (pos 0))
