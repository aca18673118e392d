-- ===== src/Validation/Weave.antt =====
-- Orders whose nodes and edges are listed in the order of the route: `edges[i]` leads from `nodes[i]` to
-- `nodes[i+1]`. Their sorted elements are the two lists woven into one.
use mathlib.Core.Path.{ap₂}
use vda.Prelude.{
  none, ◌++◌, All-to_map, ◌≡◌, ◌≢◌, refl, true, List, [], ◌∷◌, map, All, All-map, arith, ap, ◌∙◌,
  sym,
}
use vda.Prelude.Int.{ℤ, pos, pos_part, neg_part, ◌+ℤ◌, ◌<ℤ◌, ◌≤ℤ◌, IsEven, +ℤ_parts}
use vda.Models.Order.{Node, Edge, Order}
use vda.Validation.{sequence_of, validate_order}
use vda.Validation.Sorting.{Sequence, of_node, of_edge, sequence_id, sort_slice}
use vda.Validation.Route.{RouteFrom}
use vda.Validation.Decides.{validate_order_iff}
use vda.Validation.Ordered.{AllBelow}
use vda.Validation.Merging.{Apart, sort_slice-sequence_of}

lt_ne : (a b : ℤ) → b <ℤ a → a ≢ b
lt_ne a b h q = absurd (omega (arith, ap pos_part q, ap neg_part q))

module _ {F : Type 0} where
  -- The edge `e` leads from `n` to `m`, which is numbered next.
  pub record Joined (n : Node F) (e : Edge F) (m : Node F) : Type 0 where
    pub edge_next : e.sequence_id ≡ n.sequence_id +ℤ pos 1
    pub node_next : m.sequence_id ≡ e.sequence_id +ℤ pos 1
    pub from_start : n.node_id ≡ e.start_node_id
    pub to_end : m.node_id ≡ e.end_node_id

  -- The edges join the nodes behind `n`, each to the next.
  abbrev pub Connects : Node F → List (Node F) → List (Edge F) → Type 0
  Connects n [] [] = Unit {0}
  Connects n (m ∷ ns) (e ∷ es) = Joined n e m × Connects m ns es
  Connects n _ _ = ⊥

  -- The edges and the nodes by turns.
  abbrev pub weave : List (Node F) → List (Edge F) → List (Sequence F)
  weave (m ∷ ns) (e ∷ es) = of_edge e ∷ of_node m ∷ weave ns es
  weave _ _ = []

  Joined-lt :
      (n : Node F) (e : Edge F) (m : Node F)
      → Joined n e m
      → (n.sequence_id <ℤ e.sequence_id) × (e.sequence_id <ℤ m.sequence_id)
  Joined-lt n e m j =
      ground (arith, j, +ℤ_parts n.sequence_id (pos 1), +ℤ_parts e.sequence_id (pos 1))

  -- What follows the first node has a higher number.
  pub weave-above :
      (n : Node F) (ns : List (Node F)) (es : List (Edge F)) (d : ℤ)
      → d ≤ℤ n.sequence_id
      → Connects n ns es
      → All (λ s. d <ℤ sequence_id s) (weave ns es) × All (λ m. d <ℤ m.sequence_id) ns
  weave-above n [] [] d h c = (tt, tt)
  weave-above n [] (e ∷ es) d h c = absurd c
  weave-above n (m ∷ ns) [] d h c = absurd c
  weave-above n (m ∷ ns) (e ∷ es) d h (j, c) =
      let (low, high) = Joined-lt n e m j in
      let (a, b) = weave-above m ns es d (omega arith) c in
      ((omega arith, (omega arith, a)), (omega arith, b))

  sort_slice-pair :
      (n : Node F) (e : Edge F)
      → n.sequence_id <ℤ e.sequence_id
      → sort_slice (sequence_of (n ∷ []) (e ∷ [])) ≡ of_node n ∷ of_edge e ∷ []
  unfolding sort_slice
  sort_slice-pair n e h = ground arith

  -- Sorting such an order weaves its lists.
  pub sort_slice-weave :
      (n : Node F) (ns : List (Node F)) (es : List (Edge F))
      → Connects n ns es
      → sort_slice (sequence_of (n ∷ ns) es) ≡ of_node n ∷ weave ns es
  sort_slice-weave n [] [] c = unfold sort_slice in refl
  sort_slice-weave n [] (e ∷ es) c = absurd c
  sort_slice-weave n (m ∷ ns) [] c = absurd c
  sort_slice-weave n (m ∷ ns) (e ∷ es) (j, c) =
      let (low, high) = Joined-lt n e m j in
      let rest = sort_slice-weave m ns es c in
      let apart_of : (k : ℤ) → e.sequence_id <ℤ k → k ≢ e.sequence_id =
        λ k. lt_ne k e.sequence_id in
      let after_n = weave-above m ns es n.sequence_id (omega arith) c in
      let after_e = weave-above m ns es e.sequence_id (omega arith) c in
      let apart : Apart (map of_node (m ∷ ns)) (map of_edge (e ∷ [])) =
        All-to_map _ of_node (m ∷ ns) (
          (apart_of m.sequence_id high, tt),
          All-map ns (λ k lt. (apart_of k.sequence_id lt, tt)) after_e.1,
        ) in
      let below : AllBelow (sequence_of (n ∷ []) (e ∷ [])) (sort_slice (sequence_of (m ∷ ns) es)) =
        rw rest ((omega arith, after_n.0), ((high, after_e.0), tt)) in
      sort_slice-sequence_of (n ∷ []) (m ∷ ns) (e ∷ []) es apart below
      ∙ ap₂ ◌++◌ (sort_slice-pair n e low) rest

  -- Where all is base, such an order is a route.
  abbrev pub AllReleased : List (Node F) → List (Edge F) → Type 0
  AllReleased ns es = All (λ n. n.released ≡ true) ns × All (λ e. e.released ≡ true) es

  pub weave-RouteFrom :
      (n : Node F) (ns : List (Node F)) (es : List (Edge F))
      → Connects n ns es
      → AllReleased (n ∷ ns) es
      → RouteFrom n (weave ns es)
  weave-RouteFrom n [] [] c r = tt
  weave-RouteFrom n [] (e ∷ es) c r = absurd c
  weave-RouteFrom n (m ∷ ns) [] c r = absurd c
  weave-RouteFrom n (m ∷ ns) (e ∷ es) (j, c) ((rn, (rm, rns)), (re, res)) = (
    record {
      edge_next = j.edge_next;
      node_next = j.node_next;
      from_start = j.from_start;
      to_end = j.to_end;
      edge_released = re ∙ sym rm;
      base_first = λ _. rn;
    },
    weave-RouteFrom m ns es c ((rm, rns), res),
  )

  -- An order that lists its route in order, all of it base, passes `ValidateOrder`.
  base_valid :
      (o : Order F) (n : Node F) (ns : List (Node F)) (es : List (Edge F))
      → o.nodes ≡ n ∷ ns
      → o.edges ≡ es
      → IsEven n.sequence_id
      → Connects n ns es
      → AllReleased (n ∷ ns) es
      → validate_order o ≡ none
  base_valid o n ns es en ee even c r =
      (validate_order_iff o).1
        (rw (en, ee, sort_slice-weave n ns es c) (even, weave-RouteFrom n ns es c r))

  -- The last of a first node and those behind it.
  abbrev pub last_of : Node F → List (Node F) → Node F
  last_of n [] = n
  last_of n (m ∷ ns) = last_of m ns

  -- An order that lists a route in order, all of it base.
  pub record IsBase (o : Order F) : Type 0 where
    pub first : Node F
    pub rest : List (Node F)
    pub nodes_are : o.nodes ≡ first ∷ rest
    pub joined : Connects first rest o.edges
    pub even : IsEven first.sequence_id
    pub base : AllReleased (first ∷ rest) o.edges

  pub IsBase-valid : (o : Order F) → IsBase o → validate_order o ≡ none
  IsBase-valid o b = base_valid o b.first b.rest o.edges b.nodes_are refl b.even b.joined b.base
