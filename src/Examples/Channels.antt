-- ===== src/Examples/Channels.antt =====
-- The topics of the demonstrator's robot.
use vda.Prelude.{◌≡◌, refl, ◌↔◌, inl, inr, [], ◌∷◌, map}
use vda.Prelude.Text.{String, codes}
use vda.Topics.{
  TopicFault, topic_for, wildcard_for, validate_segment, validate_serial, validate_topic_name,
  first_invalid, contains,
}
use vda.Topics.Levels.{levels}
use vda.Topics.RoundTrip.{IsNamed, topic_for_iff, topic_for-levels}
use vda.Topics.Subscriptions.{Covers, wildcard_for-Covers_iff}

order_topic : topic_for "KIT" "0001" "order" ≡ inr "vda5050/v3/KIT/0001/order"
unfolding topic_for validate_segment validate_serial first_invalid contains validate_topic_name
    codes
order_topic = refl

order_wildcard : wildcard_for "order" ≡ inr "vda5050/v3/+/+/order"
unfolding wildcard_for validate_topic_name
order_wildcard = refl

spaced :
    topic_for "KIT" "00 1" "order"
    ≡ inl (TopicFault.field_error "serial" "contains invalid character ' '")
unfolding topic_for validate_segment validate_serial first_invalid contains codes
spaced = refl

topic_for_iff_example :
    ((r : String) × (topic_for "KIT" "0001" "order" ≡ inr r)) ↔ IsNamed "KIT" "0001" "order"
topic_for_iff_example = topic_for_iff "KIT" "0001" "order"

topic_for-levels_example :
    levels (codes "vda5050/v3/KIT/0001/order")
    ≡ map codes ("vda5050" ∷ "v3" ∷ "KIT" ∷ "0001" ∷ "order" ∷ [])
topic_for-levels_example =
    topic_for-levels "KIT" "0001" "order" "vda5050/v3/KIT/0001/order" order_topic

wildcard_for-Covers_iff_example :
    Covers (levels (codes "vda5050/v3/+/+/order")) (levels (codes "vda5050/v3/KIT/0001/order"))
    ↔ ◌≡◌ {A = String} "order" "order"
wildcard_for-Covers_iff_example =
    wildcard_for-Covers_iff "order" "vda5050/v3/+/+/order" "KIT" "0001" "order"
      "vda5050/v3/KIT/0001/order" order_wildcard order_topic
