-- ===== src/Robot/Loop/FirstLeg.antt =====
-- A cancelOrder on the way to the first node behind the start of an order.
use vda.Prelude.{
  ◌≡◌, ◌≢◌, refl, ap, false, true, none, some, List, ◌∷◌, arith, All, All-map, All-both,
  All-append_right, All-of_map, map, ℕ, head?,
}
use vda.Prelude.Int.{◌≤ℤ◌, ◌<ℤ◌, IsEven, eq_of_parts}
use vda.Geometry.{Float64}
use vda.Models.Action.{Action}
use vda.Models.Order.{Node, Order}
use vda.Validation.{validate_order, sequence_of}
use vda.Validation.Sorting.{Sequence, of_node, of_edge, sequence_id, sort_slice}
use vda.Validation.Route.{IsRoute}
use vda.Validation.Decides.{validate_order_iff}
use vda.Validation.Numbers.{sort_slice-All_of, HasParity, IsRoute-parity, RouteFrom-above}
use vda.Sim
use vda.Sim.{Simulator, place_of}
use vda.Robot.OrderState.{close_accept, replace_order}
use vda.Robot.AcceptOrder.{Verdict, accept_order}
use vda.Robot.AcceptOrder.Decision.{FitsNew, FitsNew-accepted, FitsNew-state}
use vda.Robot.Main.{Robot, on_order, position, after_verdict, drive_on}
use vda.Robot.InstantActions.{apply_instant_action}
use vda.Robot.Loop.{Pc, moves}
use vda.Robot.Loop.Crash.{InFlight, cancel_order_panics}

module _ {F : Type 0} where
  -- Behind a new order the drive has every edge before it, and all are numbered above the first node.
  edges_above :
      (o : Order F) (first : Node F) (tail : List (Sequence F))
      → sort_slice (sequence_of o.nodes o.edges) ≡ of_node first ∷ tail
      → IsRoute (sort_slice (sequence_of o.nodes o.edges))
      → All (λ e. first.sequence_id <ℤ e.sequence_id) o.edges
  edges_above o first tail sorted route =
      All-map o.edges
        (λ e (odd, low).
          let apart : e.sequence_id ≢ first.sequence_id = λ q. odd (rw q even) in
          ground (arith, eq_of_parts e.sequence_id first.sequence_id))
        (All-of_map (λ s. HasParity s × (first.sequence_id ≤ℤ sequence_id s)) of_edge o.edges
          (All-append_right (λ s. HasParity s × (first.sequence_id ≤ℤ sequence_id s))
            (map of_node o.nodes) (map of_edge o.edges)
            (sort_slice-All_of _ (sequence_of o.nodes o.edges) (rw sorted both))))
    where
      route' : IsRoute (of_node first ∷ tail)
      route' = rw sorted at route

      even : IsEven first.sequence_id
      even = route'.0

      both : All (λ s. HasParity s × (first.sequence_id ≤ℤ sequence_id s)) (of_node first ∷ tail)
      both =
          All-both HasParity (λ s. first.sequence_id ≤ℤ sequence_id s) (of_node first ∷ tail)
            (IsRoute-parity (of_node first ∷ tail) route')
            (omega arith, RouteFrom-above first tail first.sequence_id (omega arith) route'.1)

module _ {F : Type 0} ⦃fl : Float64 F⦄ where
  -- The robot that has just taken the order.
  abbrev pub begun_robot : Robot F → Order F → Node F → Robot F
  begun_robot r o first = record r {
    state = close_accept o (replace_order r.state o first);
    dirty = true;
    simulator = some (record {
      nodes = o.nodes;
      edges = o.edges;
      edge_idx = 0;
      position = place_of first.node_position;
      wake = false;
    });
  }

  takes_new :
      (r : Robot F) (o : Order F) (first : Node F) (rest : List (Node F)) (v : Verdict F)
      → r.simulator ≡ none
      → validate_order o ≡ none
      → o.nodes ≡ first ∷ rest
      → accept_order r.state o (position r) ≡ some v
      → v.accepted ≡ true
      → v.state ≡ close_accept o (replace_order r.state o first)
      → on_order r o ≡ some (begun_robot r o first)
  unfolding on_order after_verdict drive_on Sim.new_simulator
  takes_new r o first rest v rests valid e h a s =
      let starts : head? o.nodes ≡ some first = ap head? e in ground arith

  -- A robot that has not driven yet and is not paused takes a valid new order that lists its lowest node
  -- first. As long as the drive has not arrived at a node, a cancelOrder that comes while its loop is behind
  -- `canDrive` and before `step` makes the loop panic.
  pub first_leg_panics :
      (r : Robot F) (o : Order F) (first : Node F) (rest : List (Node F)) (tail : List (Sequence F))
      (pc : Pc) (now : ℕ) (a : Action)
      → r.simulator ≡ none
      → r.state.paused ≡ false
      → validate_order o ≡ none
      → o.nodes ≡ first ∷ rest
      → sort_slice (sequence_of o.nodes o.edges) ≡ of_node first ∷ tail
      → FitsNew r.state o (position r) first
      → InFlight pc
      → a.action_type ≡ "cancelOrder"
      → (r' : Robot F) × (on_order r o ≡ some r')
        × (moves 4 (record { robot = apply_instant_action now r' a; pc = pc }) ≡ none)
  first_leg_panics r o first rest tail pc now a rests unpaused valid e sorted fits f cancels =
      let (v, h, acc) = FitsNew-accepted r.state o (position r) first rest e fits in
      let left = FitsNew-state r.state o (position r) v first rest e fits h in
      (
        begun_robot r o first,
        takes_new r o first rest v rests valid e h acc left,
        cancel_order_panics (begun_robot r o first) _ pc now a refl f unpaused
            (edges_above o first tail sorted ((validate_order_iff o).0 valid)) cancels,
      )
