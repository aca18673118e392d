-- ===== src/Viewer.antt =====
-- viewer/main.go: the handlers of the control panel's requests, the drop gate, and the subscriptions. The
-- Content-Type header, logging and `main` are left out.
pub mod Drops
pub mod Tabs
pub mod Subscribed
use vda.Prelude.{
  ℕ, Bool, true, false, not, Option, none, some, List, [], ◌∷◌, ◌++◌, map, ◌⊎◌, inl, inr,
  if◌then◌else◌,
}
use vda.Prelude.Text.{String, str_eq}
use vda.Topics.{TopicFault, topic_for, wildcard_for, qos, join_slash, interface_name, major_version}
use vda.Mqtt.{Request, publish, subscribe, on_message}

pub record DropGate : Type 0 where
  pub armed : Bool

unfoldable pub toggle : DropGate → DropGate × Bool
toggle g = (record { armed = not g.armed }, not g.armed)

unfoldable pub consume : DropGate → DropGate × Bool
consume g = if not g.armed then (g, false) else (record { armed = false }, true)

-- What the handlers read of an `http.Request`; the body is what `io.ReadAll` returns, an error or bytes.
pub record HttpRequest (B : Type 0) : Type 0 where
  pub method : String
  pub manufacturer : String
  pub serial_number : String
  pub body : String ⊎ B

-- What the handlers write: a text, the text of a topic's error, a JSON object with one flag, or nothing.
pub data Content : Type 0 where
  text : String → Content
  fault : TopicFault → Content
  flag : String → Bool → Content
  empty : Content

pub record Response : Type 0 where
  pub status : ℕ
  pub content : Content

abbrev answer : ℕ → Content → Response
answer status content = record { status = status; content = content }

-- The end of a handler: `token` is the error of the token of `Publish`.
abbrev answer_token : Option String → Content → Response
answer_token none content = answer 202 content
answer_token (some e) content = answer 500 (text e)

abbrev pub viewed : List String
viewed = "connection" ∷ "visualization" ∷ "state" ∷ "order" ∷ []

abbrev debug_topic : String
debug_topic =
    join_slash interface_name
      (join_slash major_version (join_slash "+" (join_slash "+" "debug/rejection")))

module _ {B : Type 0} where
  -- What the order handler returns: the gate, the call of the client, and the response.
  unfoldable pub order_handler :
      Option String → DropGate → HttpRequest B → DropGate × (Option (Request B) × Response)
  order_handler token gate r =
      if not (str_eq r.method "POST")
      then (gate, (none, answer 405 (text "method not allowed")))
      else elim (topic_for r.manufacturer r.serial_number "order") [
        | inl e ↦ (gate, (none, answer 400 (fault e)))
        | inr topic ↦ elim r.body [
          | inl e ↦ (gate, (none, answer 400 (text e)))
          | inr body ↦
              let (gate', dropped) = consume gate in
              if dropped then (gate', (none, answer 202 (flag "dropped" true))) else (
                gate',
                (
                  some (publish topic (qos "order") false body),
                  answer_token token (flag "dropped" false),
                ),
              )
        ]
      ]

  unfoldable pub instant_action_handler :
      Option String → HttpRequest B → Option (Request B) × Response
  instant_action_handler token r =
      if not (str_eq r.method "POST")
      then (none, answer 405 (text "method not allowed"))
      else elim (topic_for r.manufacturer r.serial_number "instantActions") [
        | inl e ↦ (none, answer 400 (fault e))
        | inr topic ↦ elim r.body [
          | inl e ↦ (none, answer 400 (text e))
          | inr body ↦
              (some (publish topic (qos "instantActions") false body), answer_token token empty)
        ]
      ]

  unfoldable pub drop_toggle_handler : DropGate → HttpRequest B → DropGate × Response
  drop_toggle_handler gate r =
      if not (str_eq r.method "POST")
      then (gate, answer 405 (text "method not allowed"))
      else (let (gate', armed) = toggle gate in (gate', answer 200 (flag "armed" armed)))

  -- The loop of `onConnect`, and whether it comes to its end: an unknown name ends the program, an error
  -- of the token the handler. `fails` says which calls' tokens have an error.
  unfoldable pub subscribe_each : (Request B → Bool) → List String → List (Request B) × Bool
  subscribe_each fails [] = ([], true)
  subscribe_each fails (t ∷ rest) =
      let later = subscribe_each fails rest in
      elim (wildcard_for t) [
        | inl e ↦ ([], false)
        | inr topic ↦
            let call = subscribe topic (qos t) on_message in
            if fails call then (call ∷ [], false) else (call ∷ later.0, later.1)
      ]

  unfoldable pub on_connect : (Request B → Bool) → List (Request B)
  on_connect fails =
      let (calls, on) = subscribe_each fails viewed in
      if on then calls ++ subscribe debug_topic 0 on_message ∷ [] else calls
