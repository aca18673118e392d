-- ===== src/Robot/Main/Skips.antt =====
-- An update that reaches the robot on its way: where the drive heads then.
use vda.Prelude.{
  ℕ, zero, suc, ◌*◌, ◌≡◌, refl, sym, ap, ◌∙◌, none, some, true, List, [], ◌∷◌, get_elem?, arith,
}
use vda.Prelude.Int.{pos, ◌+ℤ◌, +ℤ_parts, eq_of_parts}
use vda.Geometry.{Float64}
use vda.Models.Order.{Node, Edge, Order}
use vda.Validation.{validate_order}
use vda.Validation.Weave.{Connects}
use vda.Sim
use vda.Sim.{Simulator}
use vda.Robot.AcceptOrder.{Verdict, accept_order}
use vda.Robot.Main.{Robot, on_order, position}
use vda.Robot.Main.Extension.{takes_update}

module _ {F : Type 0} where
  -- Along a listed route the nodes are numbered by twos.
  Connects-number :
      (n : Node F) (ns : List (Node F)) (es : List (Edge F)) (j : ℕ) (m : Node F)
      → Connects n ns es
      → get_elem? (n ∷ ns) j ≡ some m
      → m.sequence_id ≡ n.sequence_id +ℤ pos (2 * j)
  Connects-number n ns es zero m c e =
      let same : n ≡ m = cc in
      rw (← same) (
        eq_of_parts n.sequence_id (n.sequence_id +ℤ pos 0)
          (omega (arith, +ℤ_parts n.sequence_id (pos 0))))
  Connects-number n [] es (suc j) m c e = absurd (cc)
  Connects-number n (k ∷ ns) [] (suc j) m c e = absurd c
  Connects-number n (k ∷ ns) (x ∷ es) (suc j) m (l, c) e =
      let later = Connects-number k ns es j m c e in
      ground (
        arith,
        later,
        l,
        +ℤ_parts n.sequence_id (pos 1),
        +ℤ_parts x.sequence_id (pos 1),
        +ℤ_parts k.sequence_id (pos (2 * j)),
        +ℤ_parts n.sequence_id (pos (2 * suc j)),
        eq_of_parts m.sequence_id (n.sequence_id +ℤ pos (2 * suc j)),
      )

module _ {F : Type 0} ⦃fl : Float64 F⦄ where
  -- A robot on its way takes an update, and its order lists a route again, from `first` on. Then the drive
  -- heads for the node as many places behind `first` as it has driven edges, and one more, numbered by
  -- twos: with one edge driven or more, not for the node behind `first`.
  pub update_skips :
      (r : Robot F) (m : Simulator F) (o : Order F) (v : Verdict F) (first target : Node F)
      (rest : List (Node F))
      → r.simulator ≡ some m
      → validate_order o ≡ none
      → accept_order r.state o (position r) ≡ some v
      → v.accepted ≡ true
      → v.state.nodes ≡ first ∷ rest
      → Connects first rest v.state.edges
      → get_elem? v.state.nodes (suc m.edge_idx) ≡ some target
      → (r' : Robot F) × (m' : Simulator F) × (on_order r o ≡ some r')
        × (r'.simulator ≡ some m')
        × (get_elem? m'.nodes (suc m'.edge_idx) ≡ some target)
        × (target.sequence_id ≡ first.sequence_id +ℤ pos (2 * suc m.edge_idx))
  update_skips r m o v first target rest running valid h a nodes joined there = (
    _,
    Sim.extend m v.state.nodes v.state.edges,
    takes_update r m o v running valid h a,
    refl,
    unfold Sim.extend in there,
    Connects-number first rest v.state.edges (suc m.edge_idx) target joined
        (ap (λ ns. get_elem? ns (suc m.edge_idx)) (sym nodes) ∙ there),
  )
