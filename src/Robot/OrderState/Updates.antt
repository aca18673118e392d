-- ===== src/Robot/OrderState/Updates.antt =====
-- An order update stitched onto a sound order state leaves a sound order state.
use mathlib.Core.Path.{ap₂}
use vda.Prelude.{
  ◌≡◌, refl, List, ◌∷◌, ◌++◌, arith, keep, All, All-map, All-append_left, All-append_right,
  All-to_map, All-of_map, All-keep, All-of, All-keep_of, keep-append, keep-map, map, ap, ◌∙◌, sym,
}
use vda.Prelude.Int.{ℤ, negsuc, ◌<ℤ◌}
use vda.Prelude.Text.{String}
use vda.Models.Order.{Node, Edge, Order}
use vda.Validation.Sorting.{Sequence, of_node, of_edge, sequence_id, sort_slice}
use vda.Validation.Route.{RouteFrom}
use vda.Validation.Ordered.{AllBelow, sort_slice-keep}
use vda.Validation.Merging.{Apart, sort_slice-sequence_of}
use vda.Validation.Numbers.{sort_slice-All_of, HasParity, IsRoute-parity, RouteFrom-above}
use vda.Validation.{sequence_of}
use vda.Robot.OrderState.{
  OrderState, keeps_node, keeps_edge, decision_point, stitch, update_order, close_accept,
}
use vda.Robot.OrderState.Kept.{keeps}
use vda.Robot.OrderState.Sound.{IsSound, StartsIn, decide_skip, keeps-released, Kept, Kept-route}

module _ {F : Type 0} where
  -- What `stitch` keeps, as one filter on the elements of the state.
  keep-sequence_of :
      (last d : ℤ) (nodes : List (Node F)) (edges : List (Edge F))
      → sequence_of (keep (keeps_node last d) nodes) (keep (keeps_edge last) edges)
        ≡ keep (keeps last d) (sequence_of nodes edges)
  keep-sequence_of last d nodes edges = sym (
      keep-append (keeps last d) (map of_node nodes) (map of_edge edges)
      ∙ ap₂ ◌++◌ (keep-map (keeps last d) of_node nodes) (keep-map (keeps last d) of_edge edges))

  parity-Apart :
      (nodes : List (Node F)) (edges : List (Edge F))
      → All HasParity (map of_node nodes)
      → All HasParity (map of_edge edges)
      → Apart (map of_node nodes) (map of_edge edges)
  parity-Apart nodes edges even odd = All-to_map _ of_node nodes (
      All-map nodes
        (λ n even_n. All-to_map _ of_edge edges (
          All-map edges (λ e odd_e q. odd_e (rw q at even_n))
            (All-of_map HasParity of_edge edges odd)))
        (All-of_map HasParity of_node nodes even))

  below_route :
      (first : Node F) (tail : List (Sequence F)) (ss : List (Sequence F))
      → RouteFrom first tail
      → All (λ s. sequence_id s <ℤ first.sequence_id) ss
      → AllBelow ss (of_node first ∷ tail)
  below_route first tail ss r h =
      All-map ss
        (λ s lt. (
          lt,
          All-map tail (λ t le. omega arith)
              (RouteFrom-above first tail first.sequence_id (omega arith) r),
        ))
        h

  stitch_lem :
      (s : OrderState F) (o : Order F)
      → stitch s o ≡ (
        keep (keeps_node s.last_node_sequence_id s.decision_sequence_id) s.nodes ++ o.nodes,
        keep (keeps_edge s.last_node_sequence_id) s.edges ++ o.edges,
      )
  unfolding stitch
  stitch_lem s o = refl

  -- The state's decision point is the order's first node.
  pub record Continues (s : OrderState F) (first : Node F) : Type 0 where
    pub same_id : s.decision_node_id ≡ first.node_id
    pub same_number : s.decision_sequence_id ≡ first.sequence_id

  sound-Kept :
      (s : OrderState F) (o : Order F) (first : Node F) (tail : List (Sequence F))
      → IsSound s
      → StartsIn o first tail
      → Continues s first
      → Kept first tail s.last_node_sequence_id (sort_slice (sequence_of s.nodes s.edges))
  unfolding decision_point
  sound-Kept s o first tail sound st c =
      Kept-route o first tail s.last_node_sequence_id (sort_slice (sequence_of s.nodes s.edges)) st
        sound.on_node sound.route
        (sound.decided ∙ ap₂ (λ (a : String) (b : ℤ). (a, b)) c.same_id c.same_number)

  -- The sorted elements behind an update: what is kept of the old route, then the update's route.
  stitch_sorted :
      (s : OrderState F) (o : Order F) (first : Node F) (tail : List (Sequence F))
      → IsSound s
      → StartsIn o first tail
      → Continues s first
      → sort_slice (sequence_of (stitch s o).0 (stitch s o).1)
        ≡ keep
            (keeps s.last_node_sequence_id first.sequence_id)
            (sort_slice (sequence_of s.nodes s.edges))
          ++ (of_node first ∷ tail)
  stitch_sorted s o first tail sound st c =
      ap (λ p. sort_slice (sequence_of p.0 p.1)) (stitch_lem s o)
      ∙ sort_slice-sequence_of nodes o.nodes edges o.edges
          (parity-Apart o.nodes edges new_even old_odd)
          (rw (kept, st.sorted) (below_route first tail _ st.goes low))
      ∙ ap₂ ◌++◌ (ap sort_slice kept ∙ sort_slice-keep (keeps last first.sequence_id) old) st.sorted
    where
      last : ℤ
      last = s.last_node_sequence_id

      nodes : List (Node F)
      nodes = keep (keeps_node last s.decision_sequence_id) s.nodes

      edges : List (Edge F)
      edges = keep (keeps_edge last) s.edges

      old : List (Sequence F)
      old = sequence_of s.nodes s.edges

      kept : sequence_of nodes edges ≡ keep (keeps last first.sequence_id) old
      kept =
          keep-sequence_of last s.decision_sequence_id s.nodes s.edges
          ∙ ap (λ d. keep (keeps last d) old) c.same_number

      low : All (λ e. sequence_id e <ℤ first.sequence_id) (keep (keeps last first.sequence_id) old)
      low =
          All-keep_of _ (keeps last first.sequence_id) old
            (sort_slice-All_of _ old (sound-Kept s o first tail sound st c).1)

      old_parity : All HasParity (sequence_of nodes edges)
      old_parity = rw kept (
          All-keep HasParity (keeps last first.sequence_id) old
            (sort_slice-All_of HasParity old (IsRoute-parity _ sound.route)))

      old_odd : All HasParity (map of_edge edges)
      old_odd = All-append_right HasParity (map of_node nodes) (map of_edge edges) old_parity

      new_parity : All HasParity (sequence_of o.nodes o.edges)
      new_parity =
          sort_slice-All_of HasParity (sequence_of o.nodes o.edges)
            (rw st.sorted (IsRoute-parity (of_node first ∷ tail) (st.even, st.goes)))

      new_even : All HasParity (map of_node o.nodes)
      new_even = All-append_left HasParity (map of_node o.nodes) (map of_edge o.edges) new_parity

  decision_point-stitch :
      (s : OrderState F) (o : Order F) (first : Node F) (tail : List (Sequence F))
      → IsSound s
      → StartsIn o first tail
      → Continues s first
      → decision_point (stitch s o).0 (stitch s o).1 ≡ decision_point o.nodes o.edges
  unfolding decision_point
  decision_point-stitch s o first tail sound st c =
      let old = sort_slice (sequence_of s.nodes s.edges) in
      let test = keeps s.last_node_sequence_id first.sequence_id in
      rw (stitch_sorted s o first tail sound st c, st.sorted)
        (decide_skip "" "" (negsuc 0) (negsuc 0) (keep test old) first tail
          (All-keep_of _ test old
            (All-of (λ e. keeps-released s.last_node_sequence_id first.sequence_id e) old))
          st.base)

  -- A sound state that takes an update which starts in its decision node is sound again.
  pub update-IsSound :
      (s : OrderState F) (o : Order F) (first : Node F) (tail : List (Sequence F))
      → IsSound s
      → StartsIn o first tail
      → Continues s first
      → IsSound (close_accept o (update_order s o))
  update-IsSound s o first tail sound st c = record {
    route = rw (stitch_sorted s o first tail sound st c) (sound-Kept s o first tail sound st c).0;
    decided = decision_point-stitch s o first tail sound st c;
    on_node = sound.on_node;
  }
