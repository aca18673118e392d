-- ===== src/Robot/ActionEngine/Progress.antt =====
-- What a pass of the engine does to each action, and that it never stands still.
use vda.Prelude.{
  ℕ, suc, ◌≡◌, refl, ◌⊎◌, ◌↔◌, Bool, true, false, [], ◌∷◌, any, All, All-map, arith, inl, inr,
}
use vda.Models.State.{ActionStatus, waiting, running, retriable, finished, failed}
use vda.Robot.ActionEngine.{
  Moment, QueuedAction, Queue, is_active, is_terminal, stops_driving, visit, complete_if_due, start,
  walk, drop_terminal, advance, cancel_all, driving_allowed,
}

-- The changes of status that a pass makes.
abbrev pub Moves : ActionStatus → ActionStatus → Type 0
Moves s t =
    (t ≡ s)
    ⊎ ((s ≡ waiting) × (t ≡ running))
    ⊎ ((s ≡ running) × ((t ≡ finished) ⊎ (t ≡ failed) ⊎ (t ≡ retriable)))

-- The same actions in the same order, each with its status kept or moved.
abbrev pub Advanced : Queue → Queue → Type 0
Advanced [] [] = Unit {0}
Advanced (x ∷ xs) (y ∷ ys) = (y.action ≡ x.action) × Moves x.status y.status × Advanced xs ys
Advanced _ _ = ⊥

Advanced-refl : (q : Queue) → Advanced q q
Advanced-refl [] = tt
Advanced-refl (x ∷ xs) = (refl, inl refl, Advanced-refl xs)

-- After a pass an action is active, or all are terminal.
abbrev pub IsMoving : Queue → Type 0
IsMoving q = (any (λ qa. is_active qa.status) q ≡ true) ⊎ All (λ qa. is_terminal qa.status ≡ true) q

walk-IsMoving : (at : ℕ → Moment) (i : ℕ) (q : Queue) → IsMoving (walk at i false q)
unfolding walk start any complete_if_due
walk-IsMoving at i [] = inr tt
walk-IsMoving at i (qa ∷ rest) = ground (arith, walk-IsMoving at (suc i) rest)

-- A pass never leaves the queue waiting: after it an action is active, or every action has ended.
pub advance-IsMoving : (at : ℕ → Moment) (q : Queue) → IsMoving (advance at q)
unfolding advance
advance-IsMoving at q = walk-IsMoving at 0 (drop_terminal q)

visit-Moves :
    (m : Moment) (qa : QueuedAction)
    → ((visit m qa).action ≡ qa.action) × Moves qa.status (visit m qa).status
unfolding complete_if_due
visit-Moves m qa = ground arith

walk-Advanced : (at : ℕ → Moment) (i : ℕ) (b : Bool) (q : Queue) → Advanced q (walk at i b q)
unfolding walk start
walk-Advanced at i b [] = tt
walk-Advanced at i b (qa ∷ rest) =
    let v = visit-Moves (at i) qa in
    ground (
      arith,
      v,
      walk-Advanced at (suc i) true rest,
      walk-Advanced at (suc i) b rest,
      Advanced-refl rest,
    )

-- A pass drops the actions that have ended, keeps the others in their order, and moves the status of
-- each at most from WAITING to RUNNING or from RUNNING to FINISHED, FAILED or RETRIABLE.
pub advance-Advanced : (at : ℕ → Moment) (q : Queue) → Advanced (drop_terminal q) (advance at q)
unfolding advance
advance-Advanced at q = walk-Advanced at 0 false (drop_terminal q)

-- Driving is allowed exactly when no SOFT or HARD action of the whole queue is still to end.
pub driving_allowed_iff :
    (q : Queue)
    → (driving_allowed q ≡ true)
      ↔ All
          (λ qa. (is_terminal qa.status ≡ true) ⊎ (stops_driving qa.action.blocking_type ≡ false))
          q
unfolding driving_allowed
driving_allowed_iff [] = (λ h. tt, λ h. refl)
driving_allowed_iff (qa ∷ rest) = ground (arith, driving_allowed_iff rest)

cancel_all_ended : (q : Queue) → All (λ qa. is_terminal qa.status ≡ true) (cancel_all q)
unfolding cancel_all
cancel_all_ended [] = tt
cancel_all_ended (qa ∷ rest) = ground (arith, cancel_all_ended rest)

drop_terminal-All : (q : Queue) → All (λ qa. is_terminal qa.status ≡ true) q → drop_terminal q ≡ []
unfolding drop_terminal
drop_terminal-All [] h = refl
drop_terminal-All (qa ∷ rest) (h, hs) = rw h (drop_terminal-All rest hs)

-- After `CancelAll` driving is allowed, and the next pass empties the queue.
pub cancel_all_frees :
    (at : ℕ → Moment) (q : Queue)
    → (driving_allowed (cancel_all q) ≡ true) × (advance at (cancel_all q) ≡ [])
unfolding advance walk
cancel_all_frees at q = (
  (driving_allowed_iff (cancel_all q)).1
      (All-map (cancel_all q) (λ qa e. inl e) (cancel_all_ended q)),
  rw (drop_terminal-All (cancel_all q) (cancel_all_ended q)),
)
