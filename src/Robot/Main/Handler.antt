-- ===== src/Robot/Main/Handler.antt =====
-- What `onOrder` does to the robot on each order message.
use vda.Prelude.{
  ◌≡◌, refl, ◌⊎◌, inl, inr, true, false, none, some, List, [], ◌∷◌, ◌++◌, arith, Bool-cases,
  Option-cases, ap, ◌∙◌, head?,
}
use vda.Errors.{VdaError}
use vda.Geometry.{Float64, Position}
use vda.Models.Order.{Node, Order}
use vda.Validation.{validate_order, sequence_of}
use vda.Validation.Sorting.{Sequence, of_node, sort_slice}
use vda.Robot.OrderState.{OrderState, stitch, accept}
use vda.Robot.OrderState.Sound.{IsSound}
use vda.Robot.AcceptOrder.{Verdict, accept_order}
use vda.Robot.AcceptOrder.Decision.{Accepts-iff, FitsNew-state, FitsUpdate-state}
use vda.Robot.AcceptOrder.Soundness.{accept_order-IsSound}
use vda.Robot.AcceptOrder.Faults.{accept_order_panics_iff}
use vda.Sim
use vda.Sim.{Simulator, place_of}
use vda.Robot.Main.{Robot, on_order, position, after_verdict, drive_on}

module _ {F : Type 0} ⦃fl : Float64 F⦄ where
  -- The order is invalid, or `AcceptOrder` refuses it.
  abbrev pub Refused : Robot F → Order F → Type 0
  Refused r o =
      ((x : VdaError) × (validate_order o ≡ some x))
      ⊎ ((v : Verdict F) × (accept_order r.state o (position r) ≡ some v) × (v.accepted ≡ false))

  rejected_state :
      (s : OrderState F) (o : Order F) (p : Position F) (v : Verdict F)
      → accept_order s o p ≡ some v
      → v.accepted ≡ false
      → v.state ≡ s
  unfolding accept_order accept
  rejected_state s o p v h a = ground arith

  -- An order that is invalid or refused leaves the whole robot as it was.
  pub on_order-Refused : (r : Robot F) (o : Order F) → Refused r o → on_order r o ≡ some r
  unfolding on_order after_verdict
  on_order-Refused r o (inl (x, e)) = cc
  on_order-Refused r o (inr (v, h, a)) = elim (Option-cases (validate_order o)) [
    | inl e ↦
        let same =
          ap (λ s. some (record r { state = s })) (rejected_state r.state o (position r) v h a) in
        cc
    | inr (x, e) ↦ cc
  ]

  head-append :
      (ns ms : List (Node F)) (first : Node F) (rest : List (Node F))
      → ms ≡ first ∷ rest
      → (n : Node F) × (head? (ns ++ ms) ≡ some n)
  head-append [] ms first rest e = (first, ap head? e)
  head-append (n ∷ ns) ms first rest e = (n, refl)

  stitched_first :
      (s : OrderState F) (o : Order F) (first : Node F) (rest : List (Node F))
      → o.nodes ≡ first ∷ rest
      → (n : Node F) × (head? (stitch s o).0 ≡ some n)
  unfolding stitch
  stitched_first s o first rest e = head-append _ o.nodes first rest e

  -- After an accepted order the state's list of nodes has a first one.
  pub nodes_after :
      (s : OrderState F) (o : Order F) (p : Position F) (v : Verdict F) (first : Node F)
      (rest : List (Node F))
      → o.nodes ≡ first ∷ rest
      → accept_order s o p ≡ some v
      → v.accepted ≡ true
      → (n : Node F) × (head? v.state.nodes ≡ some n)
  nodes_after s o p v first rest e h a = elim ((Accepts-iff s o p first rest e).0 (v, h, a)) [
    | inl new ↦
        (first, ap (λ t. head? t.nodes) (FitsNew-state s o p v first rest e new h) ∙ ap head? e)
    | inr upd ↦
        let (n, k) = stitched_first s o first rest e in
        (n, ap (λ t. head? t.nodes) (FitsUpdate-state s o p v first rest e upd h) ∙ k)
  ]

  starts_drive :
      (r : Robot F) (v : Verdict F) (n : Node F)
      → v.accepted ≡ true
      → head? v.state.nodes ≡ some n
      → (r' : Robot F) × (after_verdict r v ≡ some r') × (r'.state ≡ v.state)
  unfolding after_verdict drive_on Sim.new_simulator
  starts_drive r v n a k =
      let drives : Simulator F → Robot F =
        λ m. record r { state = v.state; dirty = true; simulator = some m } in
      elim (Option-cases r.simulator) [
        | inl e ↦ (
          drives (record {
            nodes = v.state.nodes;
            edges = v.state.edges;
            edge_idx = 0;
            position = place_of n.node_position;
            wake = false;
          }),
          rw (a, e, k),
          refl,
        )
        | inr (m, e) ↦ (drives (Sim.extend m v.state.nodes v.state.edges), rw (a, e), refl)
      ]

  pub goes_on :
      (r : Robot F) (o : Order F) (v : Verdict F)
      → validate_order o ≡ none
      → accept_order r.state o (position r) ≡ some v
      → on_order r o ≡ after_verdict r v
  unfolding on_order
  goes_on r o v e h = cc

  no_panic :
      (r : Robot F) (o : Order F) (first : Node F) (rest : List (Node F))
      → o.nodes ≡ first ∷ rest
      → ¬ (accept_order r.state o (position r) ≡ none)
  no_panic r o first rest e h = cc ((accept_order_panics_iff r.state o (position r)).0 h).0

  -- What the handler leaves: the robot as it was, for an order that is refused, or the order state
  -- that `AcceptOrder` leaves.
  abbrev pub Handled : Robot F → Order F → Robot F → Type 0
  Handled r o r' =
      (Refused r o × (r' ≡ r))
      ⊎ ((validate_order o ≡ none)
          × ((v : Verdict F) × (accept_order r.state o (position r) ≡ some v)
              × (v.accepted ≡ true)
              × (r'.state ≡ v.state)))

  -- `onOrder` returns on every order that lists a node: an order that is invalid or refused leaves the
  -- whole robot as it was, and any other the order state of its acceptance.
  pub on_order-Handled :
      (r : Robot F) (o : Order F) (first : Node F) (rest : List (Node F))
      → o.nodes ≡ first ∷ rest
      → (r' : Robot F) × (on_order r o ≡ some r') × Handled r o r'
  on_order-Handled r o first rest e = elim (Option-cases (validate_order o)) [
    | inr (x, bad) ↦ (r, on_order-Refused r o (inl (x, bad)), inl (inl (x, bad), refl))
    | inl valid ↦ elim (Option-cases (accept_order r.state o (position r))) [
      | inl h ↦ absurd (no_panic r o first rest e h)
      | inr (v, h) ↦ elim (Bool-cases v.accepted) [
        | inr a ↦ (r, on_order-Refused r o (inr (v, h, a)), inl (inr (v, h, a), refl))
        | inl a ↦
            let (n, k) = nodes_after r.state o (position r) v first rest e h a in
            let (r', t, q) = starts_drive r v n a k in
            (r', goes_on r o v valid h ∙ t, inr (valid, (v, h, a, q)))
      ]
    ]
  ]

  -- A robot in a sound order state is in a sound one after every order whose first listed node is
  -- released and has the lowest sequenceId, be it taken or not.
  pub on_order-IsSound :
      (r : Robot F) (o : Order F) (first : Node F) (rest : List (Node F)) (tail : List (Sequence F))
      → IsSound r.state
      → o.nodes ≡ first ∷ rest
      → sort_slice (sequence_of o.nodes o.edges) ≡ of_node first ∷ tail
      → first.released ≡ true
      → (r' : Robot F) × (on_order r o ≡ some r') × IsSound r'.state
  on_order-IsSound r o first rest tail sound e sorted base =
      let (r', t, outcome) = on_order-Handled r o first rest e in
      (
        r',
        t,
        elim outcome [
          | inl (why, same) ↦ rw same sound
          | inr (valid, (v, h, a, q)) ↦ rw q (
              accept_order-IsSound r.state o (position r) v first rest tail (λ _. sound) valid e
                sorted base h a)
        ],
      )
