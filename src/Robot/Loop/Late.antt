-- ===== src/Robot/Loop/Late.antt =====
-- A cancelOrder between `step` and `onTick`.
use vda.Prelude.{ℕ, ◌∙◌, ◌≡◌, ◌≢◌, refl, ap, some, List, [], ◌∷◌, arith, All, Bool-cases, inl, inr}
use vda.Prelude.Int.{ℤ, negsuc, leb_ℤ, ◌<ℤ◌}
use vda.Prelude.Text.{String, eq_iff}
use vda.Geometry.{Float64}
use vda.Models.Action.{Action}
use vda.Models.Order.{Node}
use vda.Sim.{Simulator}
use vda.Robot.Main.{Robot, on_tick, sequence_id_for, sequence_id_in}
use vda.Robot.InstantActions.{apply_instant_action, cancel_order, keep_nodes_up_to}
use vda.Robot.Loop.Crash.{cancelled_chain}
use vda.Robot.Loop.{Machine, go_on, loop_step, arrived, checking}

module _ {F : Type 0} where
  -- The node of the id, wherever the order has it, is numbered above the last one.
  abbrev pub LiesAhead : String → Robot F → Type 0
  LiesAhead id r =
      All (λ n. n.node_id ≡ id → r.state.last_node_sequence_id <ℤ n.sequence_id) r.state.nodes

  unfound :
      (id : String) (last : ℤ) (ns : List (Node F))
      → All (λ n. n.node_id ≡ id → last <ℤ n.sequence_id) ns
      → sequence_id_in id (keep_nodes_up_to ns last) ≡ negsuc 0
  unfolding keep_nodes_up_to sequence_id_for
  unfound id last [] h = refl
  unfound id last (n ∷ ns) (h, hs) = elim (Bool-cases (leb_ℤ n.sequence_id last)) [
    | inr e ↦ rw e (unfound id last ns hs)
    | inl e ↦ rw e (ground (arith, e, h, eq_iff n.node_id id, unfound id last ns hs))
  ]

  cancelled_robot :
      (now : ℕ) (r : Robot F) (a : Action)
      → a.action_type ≡ "cancelOrder"
      → ((apply_instant_action now r a).state ≡ (cancel_order r).state)
        × ((apply_instant_action now r a).simulator ≡ (cancel_order r).simulator)
  unfolding apply_instant_action
  cancelled_robot now r a e =
      let chosen = (eq_iff a.action_type "cancelOrder").1 e in rw chosen (refl, refl)

  on_tick-number :
      (r : Robot F) (id : String)
      → id ≢ ""
      → (on_tick r id).state.last_node_sequence_id ≡ sequence_id_in id r.state.nodes
  unfolding on_tick sequence_id_for
  on_tick-number r id named = ground (arith, eq_iff id "")

  cancelled-number :
      (r : Robot F) (id : String)
      → LiesAhead id r
      → sequence_id_in id (cancel_order r).state.nodes ≡ negsuc 0
  unfolding cancel_order
  cancelled-number r id ahead = unfound id r.state.last_node_sequence_id r.state.nodes ahead

  on_tick-node : (r : Robot F) (id : String) → id ≢ "" → (on_tick r id).state.last_node_id ≡ id
  unfolding on_tick
  on_tick-node r id named = ground (arith, eq_iff id "")

module _ {F : Type 0} ⦃fl : Float64 F⦄ where
  reports :
      (r : Robot F) (m : Simulator F) (id : String)
      → r.simulator ≡ some m
      → go_on (record { robot = r; pc = arrived id })
        ≡ some (record { robot = on_tick r id; pc = checking })
  unfolding go_on loop_step
  reports r m id e = ground arith

  -- The drive has stepped onto a node, and before it reports the arrival a cancelOrder comes, which drops
  -- that node. Then the robot takes itself to be at that node, with the sequenceId -1.
  pub late_arrival :
      (r : Robot F) (m : Simulator F) (id : String) (now : ℕ) (a : Action)
      → r.simulator ≡ some m
      → id ≢ ""
      → LiesAhead id r
      → a.action_type ≡ "cancelOrder"
      → (z : Machine F) × (go_on (record { robot = apply_instant_action now r a; pc = arrived id })
          ≡ some z)
        × (z.robot.state.last_node_id ≡ id)
        × (z.robot.state.last_node_sequence_id ≡ negsuc 0)
  late_arrival r m id now a e named ahead cancels =
      let r' = apply_instant_action now r a in
      let (state, drive) = cancelled_robot now r a cancels in
      let number = ap (λ s. sequence_id_in id s.nodes) state ∙ cancelled-number r id ahead in
      (
        record { robot = on_tick r' id; pc = checking },
        reports r' _ id (drive ∙ cancelled_chain r m e),
        on_tick-node r' id named,
        on_tick-number r' id named ∙ number,
      )
