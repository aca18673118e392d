-- ===== src/Robot/Session.antt =====
-- robot/main.go: the robot's connection to the broker, from the will that `main` sets to `shutdown`. Each
-- function returns the header generator and the calls that it makes of the client. `encodes` says whether
-- `json.Marshal` takes a message, `fails` whether the token of a call has an error, `now` is the time.
pub mod Announced
use vda.Prelude.{
  ℕ, Bool, true, false, not, Option, none, some, List, [], ◌∷◌, ◌++◌, inl, inr, any, if◌then◌else◌,
}
use vda.Prelude.Text.{String, str_eq}
use vda.Headers.{HeaderGenerator, generate}
use vda.Models.Connection.{Connection, ConnectionState, online, offline, connection_broken}
use vda.Topics.{topic_for, qos, retained}
use vda.Mqtt.{Request, subscribe, publish, disconnect, on_order, on_instant_actions}

abbrev pub robot_manufacturer : String
robot_manufacturer = "KIT"

abbrev pub robot_serial_number : String
robot_serial_number = "0001"

-- `slices.Contains(common.RETAINED, topic)`.
unfoldable pub is_retained : String → Bool
unfolding any
is_retained topic = any (λ t. str_eq t topic) retained

-- The calls made so far, and the generator.
abbrev pub Calls : Type 0
Calls = HeaderGenerator × List (Request Connection)

-- The connection message with the state, and the call that publishes it: `none` where it does not come to
-- the call.
unfoldable pub connection_message :
    (Connection → Bool)
    → String
    → ConnectionState
    → HeaderGenerator
    → HeaderGenerator × Option (Request Connection)
connection_message encodes now state generator =
    let (generator', header) =
      generate generator now "connection" robot_manufacturer robot_serial_number in
    let message : Connection = record { header = header; connection_state = state } in
    if not (encodes message)
    then (generator', none)
    else elim (topic_for robot_manufacturer robot_serial_number "connection") [
      | inl e ↦ (generator', none)
      | inr topic ↦
          (generator', some (publish topic (qos "connection") (is_retained "connection") message))
    ]

-- The end of `onConnect`, behind the two subscriptions.
abbrev go_online :
    (Connection → Bool) → String → List (Request Connection) → HeaderGenerator → Calls
go_online encodes now before generator =
    let (generator', call) = connection_message encodes now online generator in
    elim call [ none ↦ (generator', before) | some c ↦ (generator', before ++ c ∷ []) ]

-- The second subscription, and what comes behind it.
abbrev subscribe_instant_actions :
    (Request Connection → Bool)
    → (Connection → Bool)
    → String
    → Request Connection
    → HeaderGenerator
    → Calls
subscribe_instant_actions fails encodes now first generator =
    elim (topic_for robot_manufacturer robot_serial_number "instantActions") [
      | inl e ↦ (generator, first ∷ [])
      | inr topic ↦
          let second = subscribe topic (qos "instantActions") on_instant_actions in
          if fails second
          then (generator, first ∷ second ∷ [])
          else go_online encodes now (first ∷ second ∷ []) generator
    ]

unfoldable pub on_connect :
    (Request Connection → Bool) → (Connection → Bool) → String → HeaderGenerator → Calls
on_connect fails encodes now generator =
    elim (topic_for robot_manufacturer robot_serial_number "order") [
      | inl e ↦ (generator, [])
      | inr topic ↦
          let first = subscribe topic (qos "order") on_order in
          if fails first
          then (generator, first ∷ [])
          else subscribe_instant_actions fails encodes now first generator
    ]

-- An error of the last token is only logged.
unfoldable pub shutdown : (Connection → Bool) → String → HeaderGenerator → Calls
shutdown encodes now generator =
    let (generator', call) = connection_message encodes now offline generator in
    elim call [ none ↦ (generator', []) | some c ↦ (generator', c ∷ disconnect 250 ∷ []) ]

-- The message that `main` leaves with the broker as its will, which the broker publishes once the
-- connection breaks.
unfoldable pub will :
    (Connection → Bool) → String → HeaderGenerator → HeaderGenerator × Option (Request Connection)
will encodes now generator = connection_message encodes now connection_broken generator
