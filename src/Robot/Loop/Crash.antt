-- ===== src/Robot/Loop/Crash.antt =====
-- What comes of a drive whose chain is replaced between `canDrive` and `step`.
use vda.Prelude.{
  ℕ, zero, suc, ◌≤◌, ◌≡◌, refl, true, false, none, some, List, [], ◌∷◌, arith, All, keep, drop,
  length, get_elem?,
}
use vda.Prelude.Int.{ℤ, leb_ℤ, ◌<ℤ◌}
use vda.Prelude.Text.{str_eq, eq_iff}
use vda.Geometry.{Float64}
use vda.Models.Action.{Action}
use vda.Models.Order.{Edge}
use vda.Sim
use vda.Sim.{Simulator, can_drive}
use vda.Robot.ActionEngine.Progress.{cancel_all_frees}
use vda.Robot.Main.{Robot}
use vda.Robot.InstantActions.{apply_instant_action, cancel_order, keep_edges_up_to}
use vda.Robot.Loop.{
  Pc, checking, blocked, ticking, gating, looked, stepping, arrived, loop_step, go_on, moves,
}
use vda.Robot.Loop.Resumes.{IsOpen}

-- Behind `canDrive`, and on the way to `step`.
abbrev pub InFlight : Pc → Type 0
InFlight ticking = Unit {0}
InFlight gating = Unit {0}
InFlight (looked paused) = paused ≡ false
InFlight stepping = Unit {0}
InFlight _ = ⊥

get_elem?-none : {A : Type 0} (xs : List A) (i : ℕ) → length xs ≤ i → get_elem? xs i ≡ none
get_elem?-none [] i h = refl
get_elem?-none (x ∷ xs) zero h = absurd (omega arith)
get_elem?-none (x ∷ xs) (suc i) h = get_elem?-none xs i (omega arith)

module _ {F : Type 0} ⦃fl : Float64 F⦄ where
  step_outside : (m : Simulator F) → length m.edges ≤ m.edge_idx → Sim.step m ≡ none
  unfolding Sim.step
  step_outside m h = let out = get_elem?-none m.edges m.edge_idx h in rw out refl

  short_chain_panics :
      (r : Robot F) (m : Simulator F) (pc : Pc)
      → r.simulator ≡ some m
      → IsOpen r
      → InFlight pc
      → length m.edges ≤ m.edge_idx
      → moves 4 (record { robot = r; pc = pc }) ≡ none
  unfolding moves go_on loop_step
  short_chain_panics r m checking e o f h = absurd f
  short_chain_panics r m blocked e o f h = absurd f
  short_chain_panics r m ticking e o f h = let out = step_outside m h in ground arith
  short_chain_panics r m gating e o f h = let out = step_outside m h in ground arith
  short_chain_panics r m (looked paused) e o f h = let out = step_outside m h in ground arith
  short_chain_panics r m stepping e o f h = let out = step_outside m h in ground arith
  short_chain_panics r m (arrived id) e o f h = absurd f

module _ {F : Type 0} where
  -- No edge that the drive still has before it, by its count of edges driven, is numbered up to the last
  -- node.
  abbrev pub IsAhead : Robot F → Simulator F → Type 0
  IsAhead r m =
      All (λ e. r.state.last_node_sequence_id <ℤ e.sequence_id) (drop m.edge_idx r.state.edges)

  keep_none_ahead :
      (last : ℤ) (es : List (Edge F))
      → All (λ e. last <ℤ e.sequence_id) es
      → length (keep (λ e. leb_ℤ e.sequence_id last) es) ≤ 0
  unfolding keep
  keep_none_ahead last [] h = omega arith
  keep_none_ahead last (e ∷ es) (h, hs) = ground (arith, keep_none_ahead last es hs)

  keep-le :
      (last : ℤ) (i : ℕ) (es : List (Edge F))
      → All (λ e. last <ℤ e.sequence_id) (drop i es)
      → length (keep (λ e. leb_ℤ e.sequence_id last) es) ≤ i
  unfolding keep
  keep-le last zero es h = keep_none_ahead last es h
  keep-le last (suc i) [] h = omega arith
  keep-le last (suc i) (e ∷ es) h = ground (arith, keep-le last i es h)

  pub cancelled_chain :
      (r : Robot F) (m : Simulator F)
      → r.simulator ≡ some m
      → (cancel_order r).simulator
        ≡ some (Sim.extend m (cancel_order r).state.nodes (cancel_order r).state.edges)
  unfolding cancel_order
  cancelled_chain r m e = rw e refl

  cancelled_edges :
      (r : Robot F) (m : Simulator F)
      → IsAhead r m
      → length (cancel_order r).state.edges ≤ m.edge_idx
  unfolding cancel_order keep_edges_up_to
  cancelled_edges r m ahead = keep-le r.state.last_node_sequence_id m.edge_idx r.state.edges ahead

module _ {F : Type 0} ⦃fl : Float64 F⦄ where
  cancel-IsOpen : (r : Robot F) → r.state.paused ≡ false → IsOpen (cancel_order r)
  unfolding cancel_order
  cancel-IsOpen r p = record {
    allowed = (cancel_all_frees (λ i. record { now = 0; unlucky = false }) r.actions).0;
    unpaused = p;
  }

  -- A cancelOrder that comes while the drive's loop is behind `canDrive` and before `step` makes the loop
  -- panic, if the robot is not paused: `Extend` leaves no edge at the index that `step` reads. The edges
  -- that the drive has before it are numbered above the last node.
  pub cancel_order_panics :
      (r : Robot F) (m : Simulator F) (pc : Pc) (now : ℕ) (a : Action)
      → r.simulator ≡ some m
      → InFlight pc
      → r.state.paused ≡ false
      → IsAhead r m
      → a.action_type ≡ "cancelOrder"
      → moves 4 (record { robot = apply_instant_action now r a; pc = pc }) ≡ none
  unfolding apply_instant_action
  cancel_order_panics r m pc now a e f p ahead cancels =
      let chosen : str_eq a.action_type "cancelOrder" ≡ true =
        (eq_iff a.action_type "cancelOrder").1 cancels in
      let o = cancel-IsOpen r p in
      let s = (cancel_order r).state in
      rw chosen (
        short_chain_panics _ (Sim.extend m s.nodes s.edges) pc (cancelled_chain r m e)
          (record { allowed = o.allowed; unpaused = o.unpaused }) f
          (unfold Sim.extend in cancelled_edges r m ahead))
