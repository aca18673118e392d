-- ===== src/Robot/Drive/Held.antt =====
-- When the robot moves.
use vda.Prelude.{
  true, false, not, ◌&&◌, some, ◌≡◌, ◌≢◌, refl, inl, inr, arith, Bool-cases, Option-cases, ℕ, suc,
  ltb, length, get_elem?, ◌<◌, List, [], ◌∷◌, zero,
}
use vda.Prelude.Text.{String}
use vda.Geometry.{Float64}
use vda.Sim
use vda.Sim.{Simulator, can_drive}
use vda.Robot.ActionEngine.{driving_allowed}
use vda.Robot.Main.{Robot}
use vda.Robot.Drive.{drive_round, drive_gate}

get_elem?-some :
    {A : Type 0} (xs : List A) (i : ℕ) → i < length xs → (x : A) × (get_elem? xs i ≡ some x)
get_elem?-some [] i h = absurd (omega arith)
get_elem?-some (x ∷ xs) zero h = (x, refl)
get_elem?-some (x ∷ xs) (suc i) h = get_elem?-some xs i (omega arith)

module _ {F : Type 0} ⦃fl : Float64 F⦄ where
  -- A round changes the robot only if a released edge lies ahead, driving is allowed, and the robot is
  -- not paused.
  pub drive_round_moves :
      (r r' : Robot F) (m : Simulator F)
      → drive_round r m ≡ some r'
      → r' ≢ r
      → (can_drive m ≡ true) × (driving_allowed r.actions ≡ true) × (r.state.paused ≡ false)
  unfolding drive_round drive_gate
  drive_round_moves r r' m e moved = elim (Bool-cases (can_drive m)) [
    | inr c ↦ absurd (moved (ground arith))
    | inl c ↦ elim (Bool-cases (driving_allowed r.actions && not r.state.paused)) [
      | inr g ↦ absurd (moved (ground arith))
      | inl g ↦ ground arith
    ]
  ]

  pub step_returns :
      (m : Simulator F)
      → m.edge_idx < length m.edges
      → length m.edges < length m.nodes
      → (q : Simulator F × String) × (Sim.step m ≡ some q)
  unfolding Sim.step
  step_returns m h k =
      let (edge, e) = get_elem?-some m.edges m.edge_idx h in
      let (target, t) = get_elem?-some m.nodes (suc m.edge_idx) (omega arith) in
      elim (Option-cases (Sim.step m)) [
        | inl none' ↦ absurd (ground arith)
        | inr (q, some') ↦ (q, some')
      ]

  -- A round returns, if the simulator has a node behind each of its edges.
  pub drive_round_returns :
      (r : Robot F) (m : Simulator F)
      → length m.edges < length m.nodes
      → (r' : Robot F) × (drive_round r m ≡ some r')
  unfolding drive_round can_drive
  drive_round_returns r m h = elim (Bool-cases (ltb m.edge_idx (length m.edges))) [
    | inr c ↦ (r, rw c refl)
    | inl c ↦
        let (q, e) = step_returns m (ground arith) h in
        elim (Option-cases (drive_round r m)) [
          | inl none' ↦ absurd (ground arith)
          | inr (r', some') ↦ (r', some')
        ]
  ]
