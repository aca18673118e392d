-- ===== src/Robot/Session/Announced.antt =====
-- What the robot says of its connection.
use vda.Prelude.{Bool, true, none, some, [], ◌∷◌, ◌≡◌, refl, inr, arith, if◌then◌else◌}
use vda.Prelude.Text.{String, codes}
use vda.Headers.{HeaderGenerator, generate}
use vda.Models.Connection.{Connection, ConnectionState, online}
use vda.Topics.{
  topic_for, qos, validate_segment, validate_serial, validate_topic_name, first_invalid, contains,
}
use vda.Mqtt.{Request, subscribe, publish, on_order, on_instant_actions}
use vda.Robot.Session.{
  robot_manufacturer, robot_serial_number, connection_message, on_connect, is_retained,
}

topic_on :
    (topic_for "KIT" "0001" "order" ≡ inr "vda5050/v3/KIT/0001/order")
    × (topic_for "KIT" "0001" "instantActions" ≡ inr "vda5050/v3/KIT/0001/instantActions")
    × (topic_for "KIT" "0001" "connection" ≡ inr "vda5050/v3/KIT/0001/connection")
unfolding topic_for validate_segment validate_serial first_invalid contains validate_topic_name
    codes
topic_on = (refl, refl, refl)

-- The message with the next header of the topic.
abbrev pub next_message : String → ConnectionState → HeaderGenerator → Connection
next_message now state generator = record {
  header = (generate generator now "connection" robot_manufacturer robot_serial_number).1;
  connection_state = state;
}

abbrev pub announce : Connection → Request Connection
announce message = publish "vda5050/v3/KIT/0001/connection" 1 true message

connection_message_lem :
    (encodes : Connection → Bool) (now : String) (state : ConnectionState) (g : HeaderGenerator)
    → (connection_message encodes now state g).1 ≡ (
        if encodes (next_message now state g)
        then some (announce (next_message now state g))
        else none)
unfolding connection_message qos is_retained
connection_message_lem encodes now state g = let topic = topic_on.2 in ground arith

abbrev pub hears_orders : Request Connection
hears_orders = subscribe "vda5050/v3/KIT/0001/order" 0 on_order

abbrev pub hears_actions : Request Connection
hears_actions = subscribe "vda5050/v3/KIT/0001/instantActions" 0 on_instant_actions

-- The robot says that it is online, retained and with QoS 1, exactly if both its subscriptions have
-- worked and the message can be encoded; it stops at the first subscription that fails.
pub on_connect_calls :
    (fails : Request Connection → Bool) (encodes : Connection → Bool) (now : String)
    (g : HeaderGenerator)
    → (on_connect fails encodes now g).1 ≡ (
        if fails hears_orders
        then hears_orders ∷ []
        else (if fails hears_actions
            then hears_orders ∷ hears_actions ∷ []
            else (if encodes (next_message now online g)
                then hears_orders ∷ hears_actions ∷ announce (next_message now online g) ∷ []
                else hears_orders ∷ hears_actions ∷ [])))
unfolding on_connect qos
on_connect_calls fails encodes now g =
    let message = connection_message_lem encodes now online g in
    let (first, second, _) = topic_on in ground arith
