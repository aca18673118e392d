-- ===== src/Robot/Loop/Course/Rounds.antt =====
-- A round of the drive's loop keeps the robot on course, and does not panic.
use vda.Prelude.{
  not, ◌&&◌, ◌<◌, ◌≡◌, refl, ◌∙◌, inl, inr, false, some, arith, length, Bool-cases, Option-cases,
}
use vda.Geometry.{Float64}
use vda.Sim
use vda.Sim.{Simulator, can_drive}
use vda.Robot.ActionEngine.{driving_allowed}
use vda.Robot.Main.{Robot, on_tick}
use vda.Robot.Loop.{
  Pc, checking, blocked, ticking, gating, looked, stepping, arrived, Machine, loop_step, go_on,
}
use vda.Robot.Loop.Runs.{OnTheWay, step_keeps, can_drive-lt, loop_step_returns, HasRoom}
use vda.Robot.Loop.Course.{Follows, OnCourse}
use vda.Robot.Loop.Course.Serves.{Serves, Steady, step-Serves, on_tick-OnCourse}

module _ {F : Type 0} ⦃fl : Float64 F⦄ where
  Steady-eq : (y z : Machine F) → some y ≡ some z → Steady y.robot y.pc → Steady z.robot z.pc
  Steady-eq y z e h = let same : y ≡ z = cc in rw (← same) h

  the_drive :
      (r : Robot F) (m : Simulator F) → r.simulator ≡ some m → OnCourse r → Follows m r.state
  the_drive r m e (inl (rests, i)) = absurd (cc)
  the_drive r m e (inr (m', e', f)) = let same : m' ≡ m = cc in rw (← same) f

  on_way :
      (r : Robot F) (pc : Pc) (m : Simulator F)
      → r.simulator ≡ some m
      → Serves r pc
      → OnTheWay pc
      → m.edge_idx < length m.edges
  on_way r checking m e h way = absurd way
  on_way r blocked m e h way = absurd way
  on_way r ticking m e h way = h m e
  on_way r gating m e h way = h m e
  on_way r (looked paused) m e h way = h m e
  on_way r stepping m e h way = h m e
  on_way r (arrived id) m e h way = absurd way

  HasRoom-course : (r : Robot F) (pc : Pc) → Steady r pc → HasRoom r pc
  HasRoom-course r pc h m e =
      let f = the_drive r m e h.course in
      (rw (f.same_nodes, f.same_edges) f.longer, on_way r pc m e h.serves)

  loop-Steady :
      (r : Robot F) (m : Simulator F) (pc : Pc) (z : Machine F)
      → r.simulator ≡ some m
      → Steady r pc
      → loop_step r m pc ≡ some z
      → Steady z.robot z.pc
  unfolding loop_step
  loop-Steady r m checking z e h s = elim (Bool-cases (can_drive m)) [
    | inl c ↦
        Steady-eq (record { robot = r; pc = ticking }) z (ground arith)
          (record {
            course = h.course;
            serves = λ m' e'. let same : m ≡ m' = cc in rw (← same) (can_drive-lt m c);
          })
    | inr c ↦
        Steady-eq (record { robot = r; pc = blocked }) z (ground arith)
          (record { course = h.course; serves = tt })
  ]
  loop-Steady r m blocked z e h s = elim (Bool-cases m.wake) [
    | inl w ↦
        let m' = record m { wake = false } in
        let f = the_drive r m e h.course in
        Steady-eq (record { robot = record r { simulator = some m' }; pc = checking }) z
          (ground arith)
          (record {
            course = inr (
              m',
              refl,
              record {
                same_nodes = f.same_nodes;
                same_edges = f.same_edges;
                longer = f.longer;
                sound = f.sound;
              },
            );
            serves = tt;
          })
    | inr w ↦ Steady-eq (record { robot = r; pc = blocked }) z (ground arith) h
  ]
  loop-Steady r m ticking z e h s =
      Steady-eq (record { robot = r; pc = gating }) z s
        (record { course = h.course; serves = h.serves })
  loop-Steady r m gating z e h s =
      Steady-eq (record { robot = r; pc = looked r.state.paused }) z s
        (record { course = h.course; serves = h.serves })
  loop-Steady r m (looked paused) z e h s =
      elim (Bool-cases (driving_allowed r.actions && not paused)) [
        | inl open' ↦
            Steady-eq (record { robot = r; pc = stepping }) z (ground arith)
              (record { course = h.course; serves = h.serves })
        | inr shut ↦
            Steady-eq (record { robot = r; pc = checking }) z (ground arith)
              (record { course = h.course; serves = tt })
      ]
  loop-Steady r m stepping z e h s = elim (Option-cases (Sim.step m)) [
    | inl q ↦ absurd (ground arith)
    | inr ((m', id), q) ↦
        let f = the_drive r m e h.course in
        let (edges, nodes) = step_keeps m m' id q in
        Steady-eq (record { robot = record r { simulator = some m' }; pc = arrived id }) z
          (ground arith)
          (record {
            course = inr (
              m',
              refl,
              record {
                same_nodes = nodes ∙ f.same_nodes;
                same_edges = edges ∙ f.same_edges;
                longer = f.longer;
                sound = f.sound;
              },
            );
            serves = step-Serves r m m' id f q;
          })
  ]
  loop-Steady r m (arrived id) z e h s =
      Steady-eq (record { robot = on_tick r id; pc = checking }) z s
        (record { course = on_tick-OnCourse r id h.course h.serves; serves = tt })

  pub go_on-Steady :
      (z w : Machine F) → Steady z.robot z.pc → go_on z ≡ some w → Steady w.robot w.pc
  unfolding go_on
  go_on-Steady z w h s = elim (Option-cases z.robot.simulator) [
    | inl e ↦ Steady-eq z w (ground arith) h
    | inr (m, e) ↦ loop-Steady z.robot m z.pc w e h (ground arith)
  ]

  pub go_on_returns : (z : Machine F) → Steady z.robot z.pc → (w : Machine F) × (go_on z ≡ some w)
  unfolding go_on
  go_on_returns z h = elim (Option-cases (go_on z)) [
    | inr returns ↦ returns
    | inl panics ↦ elim (Option-cases z.robot.simulator) [
      | inl e ↦ absurd (ground arith)
      | inr (m, e) ↦
          let (w, s) = loop_step_returns z.robot m z.pc e (HasRoom-course z.robot z.pc h) in
          absurd (ground arith)
    ]
  ]
