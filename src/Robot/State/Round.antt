-- ===== src/Robot/State/Round.antt =====
-- One round of `Run` of robot/state.go: the state message goes out whenever it is due.
use vda.Prelude.{ℕ, Bool, false, not, List, [], ◌∷◌, inl, inr, if◌then◌else◌, ◌≡◌, refl, arith}
use vda.Prelude.Text.{String, codes}
use vda.Geometry.{Float64}
use vda.Headers.{HeaderGenerator, generate}
use vda.Models.State.{State}
use vda.Topics.{
  topic_for, qos, validate_segment, validate_serial, validate_topic_name, first_invalid, contains,
}
use vda.Mqtt.{Request, publish}
use vda.Robot.Main.{Robot}
use vda.Robot.Session.{robot_manufacturer, robot_serial_number}
use vda.Robot.State.{StatePublisher, due, build_state}

-- What a round leaves, and the calls that it makes of the client.
pub record Rounded (F : Type 0) : Type 0 where
  pub publisher : StatePublisher
  pub generator : HeaderGenerator
  pub calls : List (Request (State F))

module _ {F : Type 0} ⦃fl : Float64 F⦄ where
  -- `now` is the time in nanoseconds and `stamp` its text; `encodes` says whether `json.Marshal` takes the
  -- message.
  unfoldable pub publish_round :
      (State F → Bool) → ℕ → String → StatePublisher → HeaderGenerator → Robot F → Rounded F
  publish_round encodes now stamp p generator r =
      let (p', is_due) = due now p in
      if not is_due
      then record { publisher = p'; generator = generator; calls = [] }
      else (let (generator', header) =
            generate generator stamp "state" robot_manufacturer robot_serial_number in
          let state = build_state header r in
          let quiet : Rounded F = record { publisher = p'; generator = generator'; calls = [] } in
          if not (encodes state)
          then quiet
          else elim (topic_for robot_manufacturer robot_serial_number "state") [
            | inl e ↦ quiet
            | inr topic ↦ record quiet { calls = publish topic (qos "state") false state ∷ [] }
          ])

state_topic : topic_for "KIT" "0001" "state" ≡ inr "vda5050/v3/KIT/0001/state"
unfolding topic_for validate_segment validate_serial first_invalid contains validate_topic_name
    codes
state_topic = refl

module _ {F : Type 0} ⦃fl : Float64 F⦄ where
  -- The state of the robot with the next header.
  abbrev pub reported : String → HeaderGenerator → Robot F → State F
  reported stamp g r =
      build_state (generate g stamp "state" robot_manufacturer robot_serial_number).1 r

  -- A round publishes the state of the robot with the next header exactly when it is due and the message
  -- can be encoded.
  pub publish_round-calls :
      (encodes : State F → Bool) (now : ℕ) (stamp : String) (p : StatePublisher)
      (g : HeaderGenerator) (r : Robot F)
      → (publish_round encodes now stamp p g r).calls ≡ (
          if (due now p).1
          then (if encodes (reported stamp g r)
              then publish "vda5050/v3/KIT/0001/state" 0 false (reported stamp g r) ∷ []
              else [])
          else [])
  unfolding publish_round qos
  publish_round-calls encodes now stamp p g r = let topic = state_topic in ground arith
