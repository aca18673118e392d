-- ===== src/Robot/Main/Extension.antt =====
-- An update that reaches the robot while it waits in its decision node, and the drive that it extends.
use mathlib.Core.Option
use vda.Prelude.{
  ◌≡◌, refl, ◌≢◌, Bool, true, false, none, some, List, [], ◌∷◌, ◌++◌, arith, keep, All, All-map,
  All-append_right, All-both, All-of_map, Bool-cases, inl, inr, map, ap, ◌∙◌, sym, length, ◌≤◌,
}
use vda.Prelude.Int.{ℤ, negsuc, ◌≤ℤ◌, IsEven, eq_of_parts}
use vda.Prelude.Text.{String}
use vda.Geometry.{Float64}
use vda.Models.Order.{Node, Edge, Order}
use vda.Validation.{validate_order, sequence_of}
use vda.Validation.Sorting.{Sequence, of_node, of_edge, sequence_id, is_released, sort_slice}
use vda.Validation.Route.{IsRoute}
use vda.Validation.Numbers.{sort_slice-All_of, HasParity, IsRoute-parity}
use vda.Robot.OrderState.{OrderState, keeps_edge, decide_from, decision_point, stitch}
use vda.Robot.OrderState.Kept.{released-le-decision, RouteFrom-horizon}
use vda.Robot.OrderState.Sound.{IsSound, decide_base}
use vda.Robot.AcceptOrder.{Verdict, accept_order}
use vda.Robot.AcceptOrder.Decision.{FitsUpdate, FitsUpdate-accepted, FitsUpdate-state}
use vda.Sim
use vda.Sim.{Simulator, driving, can_drive}
use vda.Robot.Main.{Robot, on_order, position, after_verdict, drive_on}

module _ {F : Type 0} where
  -- The base of a route ends at its decision point.
  base_low :
      (ss : List (Sequence F)) (id : String) (d : ℤ)
      → IsRoute ss
      → decide_from "" (negsuc 0) ss ≡ (id, d)
      → All (λ s. is_released s ≡ true → sequence_id s ≤ℤ d) ss
  base_low [] id d r q = tt
  base_low (of_edge e ∷ rest) id d r q = absurd r
  base_low (of_node n ∷ rest) id d (even, r) q = elim (Bool-cases n.released) [
    | inl u ↦
        released-le-decision n rest d (ap (λ p. p.1) (sym (decide_base "" (negsuc 0) n rest u) ∙ q))
          u r
    | inr z ↦ (λ u. cc, All-map rest (λ s f u. cc) (RouteFrom-horizon n rest z r))
  ]

  drops_edge :
      (e : Edge F) (d : ℤ)
      → IsEven d
      → ¬ IsEven e.sequence_id
      → (e.released ≡ true → e.sequence_id ≤ℤ d)
      → keeps_edge d e ≡ false
  drops_edge e d even odd low = elim (Bool-cases e.released) [
    | inl u ↦
        let apart : e.sequence_id ≢ d = λ q. odd (rw q even) in
        let le = low u in ground (arith, eq_of_parts e.sequence_id d)
    | inr z ↦ rw z
  ]

  keep_none : (p : Edge F → Bool) (es : List (Edge F)) → All (λ e. p e ≡ false) es → keep p es ≡ []
  unfolding keep
  keep_none p [] h = refl
  keep_none p (e ∷ es) (h, hs) = rw h (keep_none p es hs)

  -- Of the edges that lead to the decision node `stitch` keeps none, once the robot is there.
  stitch_arrived :
      (s : OrderState F) (o : Order F)
      → IsSound s
      → s.last_node_sequence_id ≡ s.decision_sequence_id
      → (stitch s o).1 ≡ o.edges
  unfolding stitch decision_point
  stitch_arrived s o sound here = ap (λ es. es ++ o.edges) kept
    where
      both :
          All
            (λ t. HasParity t × (is_released t ≡ true → sequence_id t ≤ℤ s.decision_sequence_id))
            (sort_slice (sequence_of s.nodes s.edges))
      both =
          All-both HasParity _ _ (IsRoute-parity _ sound.route)
            (base_low _ s.decision_node_id s.decision_sequence_id sound.route sound.decided)

      dropped : All (λ e. keeps_edge s.decision_sequence_id e ≡ false) s.edges
      dropped =
          All-map s.edges
            (λ e (odd, low).
              drops_edge e s.decision_sequence_id (rw (sym here) sound.on_node) odd low)
            (All-of_map _ of_edge s.edges (
              All-append_right _ (map of_node s.nodes) (map of_edge s.edges)
                (sort_slice-All_of _ (sequence_of s.nodes s.edges) both)))

      kept : keep (keeps_edge s.last_node_sequence_id) s.edges ≡ []
      kept = rw here (keep_none (keeps_edge s.decision_sequence_id) s.edges dropped)

  driving_past : (m : Simulator F) → length m.edges ≤ m.edge_idx → driving m ≡ false
  unfolding driving can_drive
  driving_past m h = ground arith

module _ {F : Type 0} ⦃fl : Float64 F⦄ where
  pub takes_update :
      (r : Robot F) (m : Simulator F) (o : Order F) (v : Verdict F)
      → r.simulator ≡ some m
      → validate_order o ≡ none
      → accept_order r.state o (position r) ≡ some v
      → v.accepted ≡ true
      → on_order r o
        ≡ some (record r {
          state = v.state;
          dirty = true;
          simulator = some (Sim.extend m v.state.nodes v.state.edges);
        })
  unfolding on_order after_verdict drive_on
  takes_update r m o v running valid h a = cc

  -- A robot that waits in the decision node of a sound order takes a valid update that starts there.
  -- If it drove at least as many edges as the update has, it then has the update's edges before it,
  -- and does not drive: `Extend` keeps the count of the edges driven.
  pub update_stalls :
      (r : Robot F) (m : Simulator F) (o : Order F) (first : Node F) (rest : List (Node F))
      → r.simulator ≡ some m
      → IsSound r.state
      → r.state.last_node_sequence_id ≡ r.state.decision_sequence_id
      → validate_order o ≡ none
      → o.nodes ≡ first ∷ rest
      → FitsUpdate r.state o first
      → length o.edges ≤ m.edge_idx
      → (r' : Robot F) × (on_order r o ≡ some r')
        × (r'.state.order_update_id ≡ o.order_update_id)
        × (r'.state.edges ≡ o.edges)
        × (Option.map (λ s. driving s) r'.simulator ≡ some false)
  update_stalls r m o first rest running sound here valid e fits far =
      let (v, h, a) = FitsUpdate-accepted r.state o (position r) first rest e fits in
      let left = FitsUpdate-state r.state o (position r) v first rest e fits h in
      let edges : v.state.edges ≡ o.edges =
        ap (λ s. s.edges) left ∙ stitch_arrived r.state o sound here in
      (
        _,
        takes_update r m o v running valid h a,
        ap (λ s. s.order_update_id) left,
        edges,
        ap some (
            driving_past (Sim.extend m v.state.nodes v.state.edges)
              (unfold Sim.extend in rw edges far)),
      )
