-- ===== src/Robot/Loop/Wake.antt =====
-- No wake-up is lost.
use vda.Prelude.{
  ◌≡◌, ◌≢◌, refl, sym, ◌∙◌, inl, inr, true, false, not, none, some, arith, Bool-cases, Option-cases,
  if◌then◌else◌,
}
use vda.Prelude.Text.{String}
use vda.Geometry.{Float64}
use vda.Sim
use vda.Sim.{Simulator, can_drive}
use vda.Robot.Main.{Robot, on_tick}
use vda.Robot.Loop.{
  Pc, checking, blocked, ticking, gating, looked, stepping, arrived, Machine, loop_step, go_on,
  Step, loop, handle, IsFresh, Reach, here, later,
}
use vda.Robot.Loop.Roused.{Rouses, Handles-Rouses}

module _ {F : Type 0} where
  -- A drive that waits to be woken, with a released edge ahead, finds its channel full.
  abbrev IsRoused : Robot F → Pc → Type 0
  IsRoused r pc =
      pc ≡ blocked → (m : Simulator F) → r.simulator ≡ some m → can_drive m ≡ true → m.wake ≡ true

  record IsAwake (y : Machine F) : Type 0 where
    at_rest : y.robot.simulator ≡ none → y.pc ≡ checking
    roused : IsRoused y.robot y.pc

  handle-IsAwake :
      (y : Machine F) (r : Robot F)
      → IsAwake y
      → Rouses y.robot r
      → IsAwake (record y { robot = r })
  handle-IsAwake y r h (inl same) = record {
    at_rest = λ e. h.at_rest (sym same ∙ e);
    roused = λ b m e. h.roused b m (sym same ∙ e);
  }
  handle-IsAwake y r h (inr (inl rest)) = record {
    at_rest = λ e. h.at_rest rest;
    roused = λ b. absurd (cc (b, h.at_rest rest));
  }
  handle-IsAwake y r h (inr (inr (m, e, full))) = record {
    at_rest = λ q. absurd (cc);
    roused = λ b m' e' c. let same : m ≡ m' = cc in rw (← same) full;
  }

  IsAwake-eq : (y z : Machine F) → some y ≡ some z → IsAwake y → IsAwake z
  IsAwake-eq y z e h = let same : y ≡ z = cc in rw (← same) h

  -- A drive that does not wait has nothing to miss.
  busy :
      (r : Robot F) (m : Simulator F) (pc : Pc)
      → r.simulator ≡ some m
      → pc ≢ blocked
      → IsAwake (record { robot = r; pc = pc })
  busy r m pc e apart = record { at_rest = λ q. absurd (cc); roused = λ b. absurd (apart b) }

  pub on_tick-simulator : (r : Robot F) (id : String) → (on_tick r id).simulator ≡ r.simulator
  unfolding on_tick
  on_tick-simulator r id = ground arith

module _ {F : Type 0} ⦃fl : Float64 F⦄ where
  checked :
      (r : Robot F) (m : Simulator F)
      → r.simulator ≡ some m
      → IsAwake (record { robot = r; pc = if not (can_drive m) then blocked else ticking })
  checked r m e = elim (Bool-cases (can_drive m)) [
    | inl c ↦ rw c (busy r m ticking e (λ q. cc))
    | inr c ↦ rw c (record { at_rest = λ q. absurd (cc); roused = λ b m' e' c'. absurd (cc) })
  ]

  loop-IsAwake :
      (r : Robot F) (m : Simulator F) (pc : Pc) (z : Machine F)
      → r.simulator ≡ some m
      → IsRoused r pc
      → loop_step r m pc ≡ some z
      → IsAwake z
  unfolding loop_step
  loop-IsAwake r m checking z e h s = IsAwake-eq _ z s (checked r m e)
  loop-IsAwake r m blocked z e h s = elim (Bool-cases m.wake) [
    | inl w ↦
        let m' = record m { wake = false } in
        let r' = record r { simulator = some m' } in
        IsAwake-eq (record { robot = r'; pc = checking }) z (ground arith)
          (busy r' m' checking refl (λ q. cc))
    | inr w ↦
        IsAwake-eq (record { robot = r; pc = blocked }) z (ground arith)
          (record { at_rest = λ q. absurd (cc); roused = h })
  ]
  loop-IsAwake r m ticking z e h s = IsAwake-eq _ z s (busy r m gating e (λ q. cc))
  loop-IsAwake r m gating z e h s = IsAwake-eq _ z s (busy r m (looked r.state.paused) e (λ q. cc))
  loop-IsAwake r m (looked paused) z e h s = IsAwake-eq _ z s (busy r m _ e (λ q. ground arith))
  loop-IsAwake r m stepping z e h s = elim (Option-cases (Sim.step m)) [
    | inl q ↦ absurd (ground arith)
    | inr ((m', id), q) ↦
        let r' = record r { simulator = some m' } in
        IsAwake-eq (record { robot = r'; pc = arrived id }) z (ground arith)
          (busy r' m' (arrived id) refl (λ b. cc))
  ]
  loop-IsAwake r m (arrived id) z e h s =
      IsAwake-eq _ z s (busy (on_tick r id) m checking (on_tick-simulator r id ∙ e) (λ q. cc))

  Step-IsAwake : (y z : Machine F) → IsAwake y → Step y z → IsAwake z
  unfolding go_on
  Step-IsAwake y z h (loop s) = elim (Option-cases y.robot.simulator) [
    | inl e ↦ IsAwake-eq y z (ground arith) h
    | inr (m, e) ↦ loop-IsAwake y.robot m y.pc z e h.roused (ground arith)
  ]
  Step-IsAwake y _ h (handle {r = r} t) = handle-IsAwake y r h (Handles-Rouses y.robot r t)

  Reach-IsAwake : (y z : Machine F) → IsFresh y → Reach y z → IsAwake z
  Reach-IsAwake y _ (rest, pc) here = record { at_rest = λ e. pc; roused = λ b. absurd (cc) }
  Reach-IsAwake y _ f (later reach s) = Step-IsAwake _ _ (Reach-IsAwake y _ f reach) s

  -- From a robot at rest, whatever the drive's loop and the handlers do in whatever order: a loop that
  -- waits to be woken while a released edge lies ahead finds the wake channel full.
  pub blocked_finds_wake :
      (y z : Machine F) (m : Simulator F)
      → IsFresh y
      → Reach y z
      → z.pc ≡ blocked
      → z.robot.simulator ≡ some m
      → can_drive m ≡ true
      → m.wake ≡ true
  blocked_finds_wake y z m f reach b e c = (Reach-IsAwake y z f reach).roused b m e c
