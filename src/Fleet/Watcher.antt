-- ===== src/Fleet/Watcher.antt =====
-- fleet/state.go: the watcher of newBaseRequest in the state messages of all robots.
pub mod Pending
use vda.Prelude.{
  ◌≡◌, refl, ◌↔◌, Bool, true, false, not, ◌&&◌, List, [], ◌∷◌, arith, if◌then◌else◌, Bool-cases,
  inl, inr,
}
use vda.Prelude.Text.{String, ◌<>◌, str_eq}
use vda.Models.State.{State}

-- The map has `false` for a robot that it does not hold.
pub record BaseRequestWatcher : Type 0 where
  pub pending : String → Bool

abbrev pub new_base_request_watcher : BaseRequestWatcher
new_base_request_watcher = record { pending = λ robot. false }

module _ {F : Type 0} where
  abbrev pub robot_id : State F → String
  robot_id s = s.header.manufacturer <> ("/" <> s.header.serial_number)

  -- `OnState`, for a message that unmarshals to `s`; the second component says whether `OnRequest` is
  -- called.
  unfoldable pub on_state : BaseRequestWatcher → State F → BaseRequestWatcher × Bool
  on_state w s =
      let was_pending = w.pending (robot_id s) in
      (
        record { pending = λ r. if str_eq r (robot_id s) then s.new_base_request else w.pending r },
        s.new_base_request && not was_pending,
      )

  -- The watcher after these messages, the latest first.
  unfoldable pub watched : List (State F) → BaseRequestWatcher
  unfolding on_state
  watched [] = new_base_request_watcher
  watched (s ∷ earlier) = (on_state (watched earlier) s).0

  -- Whether the latest message of the robot, if any, asked for a new base.
  unfoldable pub asked : String → List (State F) → Bool
  asked robot [] = false
  asked robot (s ∷ earlier) =
      let before = asked robot earlier in
      if str_eq robot (robot_id s) then s.new_base_request else before

  watched-pending :
      (ss : List (State F)) (robot : String) → (watched ss).pending robot ≡ asked robot ss
  unfolding watched on_state asked
  watched-pending [] robot = refl
  watched-pending (s ∷ ss) robot = elim (Bool-cases (str_eq robot (robot_id s))) [
    | inl e ↦ rw e
    | inr e ↦ rw e (watched-pending ss robot)
  ]

  -- A message calls `OnRequest` exactly when it asks for a new base and the message before it from the
  -- same robot did not, whatever other robots sent in between.
  pub on_state_iff :
      (ss : List (State F)) (s : State F)
      → ((on_state (watched ss) s).1 ≡ true)
        ↔ ((s.new_base_request ≡ true) × (asked (robot_id s) ss ≡ false))
  unfolding on_state
  on_state_iff ss s = ground (arith, watched-pending ss (robot_id s))
