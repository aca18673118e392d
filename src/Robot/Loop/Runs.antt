-- ===== src/Robot/Loop/Runs.antt =====
-- A drive whose chain stays long enough.
use mathlib.Core.Option
use vda.Prelude.{
  ◌<◌, ◌≡◌, ◌⊎◌, refl, sym, ap, ◌∙◌, true, false, some, arith, length, Bool-cases, Option-cases,
  inl, inr,
}
use vda.Prelude.Text.{String}
use vda.Geometry.{Float64}
use vda.Sim
use vda.Sim.{Simulator, can_drive}
use vda.Robot.Main.{Robot, on_tick}
use vda.Robot.Drive.Held.{step_returns}
use vda.Robot.Loop.{
  Pc, checking, blocked, ticking, gating, looked, stepping, arrived, Machine, loop_step, go_on,
  Handles, IsFresh,
}
use vda.Robot.Loop.Wake.{on_tick-simulator}

-- Behind `canDrive`, up to `step`.
abbrev pub OnTheWay : Pc → Type 0
OnTheWay checking = ⊥
OnTheWay blocked = ⊥
OnTheWay (arrived node_id) = ⊥
OnTheWay _ = Unit {0}

module _ {F : Type 0} where
  -- The chain has a node behind each edge, and on the way to `step` an edge at the index.
  abbrev pub HasRoom : Robot F → Pc → Type 0
  HasRoom r pc =
      (m : Simulator F)
      → r.simulator ≡ some m
      → (length m.edges < length m.nodes) × (OnTheWay pc → m.edge_idx < length m.edges)

module _ {F : Type 0} ⦃fl : Float64 F⦄ where
  -- Runs in which each handler leaves the drive as it is, or leaves it a chain with room.
  pub data Roomy (y : Machine F) : Machine F → Type 0 where
    begin : Roomy y y
    move : {z w : Machine F} → Roomy y z → go_on z ≡ some w → Roomy y w
    handled :
        {z : Machine F} {r : Robot F}
        → Roomy y z
        → Handles z.robot r
        → ((r.simulator ≡ z.robot.simulator) ⊎ HasRoom r z.pc)
        → Roomy y (record z { robot = r })

  pub step_keeps :
      (m m' : Simulator F) (id : String)
      → Sim.step m ≡ some (m', id)
      → (m'.edges ≡ m.edges) × (m'.nodes ≡ m.nodes)
  unfolding Sim.step
  step_keeps m m' id e = ground arith

  HasRoom-eq : (y z : Machine F) → some y ≡ some z → HasRoom y.robot y.pc → HasRoom z.robot z.pc
  HasRoom-eq y z e h = let same : y ≡ z = cc in rw (← same) h

  pub can_drive-lt : (m : Simulator F) → can_drive m ≡ true → m.edge_idx < length m.edges
  unfolding can_drive
  can_drive-lt m c = ground arith

  -- The chain of the one simulator.
  HasRoom-of :
      (r : Robot F) (m : Simulator F) (pc : Pc)
      → r.simulator ≡ some m
      → length m.edges < length m.nodes
      → (OnTheWay pc → m.edge_idx < length m.edges)
      → HasRoom r pc
  HasRoom-of r m pc e nodes edge m' e' = let same : m ≡ m' = cc in rw (← same) (nodes, edge)

  loop-HasRoom :
      (r : Robot F) (m : Simulator F) (pc : Pc) (z : Machine F)
      → r.simulator ≡ some m
      → HasRoom r pc
      → loop_step r m pc ≡ some z
      → HasRoom z.robot z.pc
  unfolding loop_step
  loop-HasRoom r m checking z e h s = elim (Bool-cases (can_drive m)) [
    | inl c ↦
        HasRoom-eq (record { robot = r; pc = ticking }) z (ground arith)
          (HasRoom-of r m ticking e (h m e).0 (λ f. can_drive-lt m c))
    | inr c ↦
        HasRoom-eq (record { robot = r; pc = blocked }) z (ground arith)
          (HasRoom-of r m blocked e (h m e).0 (λ f. absurd f))
  ]
  loop-HasRoom r m blocked z e h s = elim (Bool-cases m.wake) [
    | inl w ↦
        let m' = record m { wake = false } in
        let r' = record r { simulator = some m' } in
        HasRoom-eq (record { robot = r'; pc = checking }) z (ground arith)
          (HasRoom-of r' m' checking refl (h m e).0 (λ f. absurd f))
    | inr w ↦ HasRoom-eq (record { robot = r; pc = blocked }) z (ground arith) h
  ]
  loop-HasRoom r m ticking z e h s = HasRoom-eq (record { robot = r; pc = gating }) z s h
  loop-HasRoom r m gating z e h s =
      HasRoom-eq (record { robot = r; pc = looked r.state.paused }) z s h
  loop-HasRoom r m (looked paused) z e h s =
      HasRoom-eq _ z s (HasRoom-of r m _ e (h m e).0 (λ f. (h m e).1 tt))
  loop-HasRoom r m stepping z e h s = elim (Option-cases (Sim.step m)) [
    | inl q ↦ absurd (ground arith)
    | inr ((m', id), q) ↦
        let r' = record r { simulator = some m' } in
        let (edges, nodes) = step_keeps m m' id q in
        let (more, _) = h m e in
        HasRoom-eq (record { robot = r'; pc = arrived id }) z (ground arith)
          (HasRoom-of r' m' (arrived id) refl (rw (edges, nodes) more) (λ f. absurd f))
  ]
  loop-HasRoom r m (arrived id) z e h s =
      HasRoom-eq (record { robot = on_tick r id; pc = checking }) z s
        (λ m' e'. (h m' (sym (on_tick-simulator r id) ∙ e')))

  Roomy-HasRoom : (y z : Machine F) → IsFresh y → Roomy y z → HasRoom z.robot z.pc
  unfolding go_on
  Roomy-HasRoom y _ (rests, pc) begin = λ m e. absurd (cc)
  Roomy-HasRoom y w f (move {z = z} run s) =
      let room = Roomy-HasRoom y z f run in
      elim (Option-cases z.robot.simulator) [
        | inl e ↦ HasRoom-eq z w (ground arith) room
        | inr (m, e) ↦ loop-HasRoom z.robot m z.pc w e room (ground arith)
      ]
  Roomy-HasRoom y _ f (handled {z = z} run t (inr room)) = room
  Roomy-HasRoom y _ f (handled {z = z} run t (inl same)) =
      λ m e. Roomy-HasRoom y z f run m (sym same ∙ e)

  pub loop_step_returns :
      (r : Robot F) (m : Simulator F) (pc : Pc)
      → r.simulator ≡ some m
      → HasRoom r pc
      → (w : Machine F) × (loop_step r m pc ≡ some w)
  unfolding loop_step
  loop_step_returns r m checking e h = (_, refl)
  loop_step_returns r m blocked e h = elim (Option-cases (loop_step r m blocked)) [
    | inl panics ↦ absurd (ground arith)
    | inr returns ↦ returns
  ]
  loop_step_returns r m ticking e h = (_, refl)
  loop_step_returns r m gating e h = (_, refl)
  loop_step_returns r m (looked paused) e h = (_, refl)
  loop_step_returns r m stepping e h =
      let (nodes, edge) = h m e in
      let (q, s) = step_returns m (edge tt) nodes in (_, ap (Option.map _) s)
  loop_step_returns r m (arrived id) e h = (_, refl)

  -- From a robot at rest, whatever the drive's loop and the handlers do in whatever order: if each handler
  -- leaves the drive as it is or leaves it a chain with room, the loop never panics.
  pub runs_on : (y z : Machine F) → IsFresh y → Roomy y z → (w : Machine F) × (go_on z ≡ some w)
  unfolding go_on
  runs_on y z f run = elim (Option-cases (go_on z)) [
    | inr returns ↦ returns
    | inl panics ↦ elim (Option-cases z.robot.simulator) [
      | inl e ↦ absurd (ground arith)
      | inr (m, e) ↦
          let (w, s) = loop_step_returns z.robot m z.pc e (Roomy-HasRoom y z f run) in
          absurd (ground arith)
    ]
  ]
