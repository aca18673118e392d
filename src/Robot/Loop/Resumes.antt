-- ===== src/Robot/Loop/Resumes.antt =====
-- A drive that can go on does.
use vda.Prelude.{
  ℕ, suc, ◌≤◌, ◌≡◌, ◌≢◌, refl, sym, ◌∙◌, Bool, true, false, not, Option, some, arith, if◌then◌else◌,
}
use vda.Prelude.Text.{String}
use vda.Geometry.{Float64}
use vda.Sim.{Simulator, can_drive}
use vda.Robot.ActionEngine.{driving_allowed}
use vda.Robot.Main.{Robot}
use vda.Robot.Loop.{
  Pc, checking, blocked, ticking, gating, looked, stepping, arrived, Machine, loop_step, go_on,
  moves, IsFresh, Reach,
}
use vda.Robot.Loop.Wake.{blocked_finds_wake}

module _ {F : Type 0} ⦃fl : Float64 F⦄ where
  -- Five accesses or fewer, with nothing in between, bring the loop to `step`, in the robot's state as it
  -- is.
  abbrev pub Drives : Machine F → Type 0
  Drives z =
      (n : ℕ) × (w : Machine F) × (n ≤ 5)
      × (moves n z ≡ some w)
      × (w.pc ≡ stepping)
      × (w.robot.state ≡ z.robot.state)

  -- No action and no pause holds the drive.
  pub record IsOpen (r : Robot F) : Type 0 where
    pub allowed : driving_allowed r.actions ≡ true
    pub unpaused : r.state.paused ≡ false

  from_gating :
      (r : Robot F) (m : Simulator F)
      → r.simulator ≡ some m
      → IsOpen r
      → moves 2 (record { robot = r; pc = gating }) ≡ some (record { robot = r; pc = stepping })
  unfolding moves go_on loop_step
  from_gating r m e o = ground arith

  from_ticking :
      (r : Robot F) (m : Simulator F)
      → r.simulator ≡ some m
      → IsOpen r
      → moves 3 (record { robot = r; pc = ticking }) ≡ some (record { robot = r; pc = stepping })
  unfolding moves go_on loop_step
  from_ticking r m e o = ground arith

  from_checking :
      (r : Robot F) (m : Simulator F)
      → r.simulator ≡ some m
      → can_drive m ≡ true
      → IsOpen r
      → moves 4 (record { robot = r; pc = checking }) ≡ some (record { robot = r; pc = stepping })
  unfolding moves go_on loop_step
  from_checking r m e c o = ground arith

  moves-suc :
      (n : ℕ) (y z : Machine F) (o : Option (Machine F))
      → go_on y ≡ some z
      → moves n z ≡ o
      → moves (suc n) y ≡ o
  unfolding moves
  moves-suc n y z o e h = rw e h

  wakes :
      (r : Robot F) (m : Simulator F)
      → r.simulator ≡ some m
      → m.wake ≡ true
      → go_on (record { robot = r; pc = blocked })
        ≡ some (record {
          robot = record r { simulator = some (record m { wake = false }) };
          pc = checking;
        })
  unfolding go_on loop_step
  wakes r m e w = ground arith

  passes :
      (r : Robot F) (m : Simulator F) (paused : Bool)
      → r.simulator ≡ some m
      → driving_allowed r.actions ≡ true
      → go_on (record { robot = r; pc = looked paused })
        ≡ some (record { robot = r; pc = if not paused then stepping else checking })
  unfolding go_on loop_step
  passes r m paused e a = ground arith

  from_looked :
      (r : Robot F) (m : Simulator F) (paused : Bool)
      → r.simulator ≡ some m
      → can_drive m ≡ true
      → IsOpen r
      → Drives (record { robot = r; pc = looked paused })
  from_looked r m false e c o =
      let on = passes r m false e o.allowed in
      let w : Machine F = record { robot = r; pc = stepping } in
      (1, w, omega arith, moves-suc 0 _ w (some w) on (unfold moves in refl), refl, refl)
  from_looked r m true e c o =
      let back = passes r m true e o.allowed in
      (5, _, omega arith, moves-suc 4 _ _ _ back (from_checking r m e c o), refl, refl)

  can_drive-woken : (m : Simulator F) → can_drive m ≡ can_drive (record m { wake = false })
  unfolding can_drive
  can_drive-woken m = refl

  -- From each point of the loop but that behind `step`.
  from_anywhere :
      (r : Robot F) (m : Simulator F) (pc : Pc)
      → r.simulator ≡ some m
      → can_drive m ≡ true
      → IsOpen r
      → (pc ≡ blocked → m.wake ≡ true)
      → ((id : String) → pc ≢ arrived id)
      → Drives (record { robot = r; pc = pc })
  from_anywhere r m checking e c o w a = (4, _, omega arith, from_checking r m e c o, refl, refl)
  from_anywhere r m blocked e c o w a =
      let m' = record m { wake = false } in
      let r' = record r { simulator = some m' } in
      let on =
        from_checking r' m' refl (sym (can_drive-woken m) ∙ c)
          (record { allowed = o.allowed; unpaused = o.unpaused }) in
      (5, _, omega arith, moves-suc 4 _ _ _ (wakes r m e (w refl)) on, refl, refl)
  from_anywhere r m ticking e c o w a = (3, _, omega arith, from_ticking r m e o, refl, refl)
  from_anywhere r m gating e c o w a = (2, _, omega arith, from_gating r m e o, refl, refl)
  from_anywhere r m (looked paused) e c o w a = from_looked r m paused e c o
  from_anywhere r m stepping e c o w a =
      (0, record { robot = r; pc = stepping }, omega arith, unfold moves in refl, refl, refl)
  from_anywhere r m (arrived id) e c o w a = absurd (a id refl)

  -- From a robot at rest, whatever the drive's loop and the handlers did: where a released edge lies ahead
  -- and neither an action nor a pause holds the drive, five accesses of the loop or fewer bring it to
  -- `step`, unless it still has to report an arrival.
  pub drive_resumes :
      (y z : Machine F) (m : Simulator F)
      → IsFresh y
      → Reach y z
      → z.robot.simulator ≡ some m
      → can_drive m ≡ true
      → IsOpen z.robot
      → ((id : String) → z.pc ≢ arrived id)
      → Drives z
  drive_resumes y z m f reach e c o a =
      from_anywhere z.robot m z.pc e c o (λ b. blocked_finds_wake y z m f reach b e c) a
