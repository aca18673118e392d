-- ===== src/Fleet/Publishing/Sent.antt =====
-- Which orders go out.
use vda.Prelude.{
  false, none, some, [], ◌∷◌, ◌≡◌, refl, ◌⊎◌, inl, inr, arith, if◌then◌else◌, Option-cases,
}
use vda.Prelude.Text.{String, codes}
use vda.Headers.{HeaderGenerator, generate}
use vda.Models.Order.{Order}
use vda.Topics.{
  topic_for, qos, validate_segment, validate_serial, validate_topic_name, first_invalid, contains,
}
use vda.Mqtt.{publish}
use vda.Fleet.Dispatcher.{Dispatcher, extend_if_needed}
use vda.Fleet.Publishing.{
  Outside, Outcome, publish_to, publish_order, extend_published, demo_manufacturer,
  demo_serial_number,
}

module _ {F : Type 0} where
  -- Where nothing is published there is no error, and an order that is published moves the dispatcher,
  -- whatever becomes of it.
  pub extend_published_lem :
      (out : Outside F) (now : String) (g : HeaderGenerator) (d d' : Dispatcher F) (id : String)
      (outcome : Outcome F)
      → extend_published out now g d id ≡ some (d', outcome)
      → ((extend_if_needed d id ≡ some (d', none)) × (outcome.error ≡ none))
        ⊎ ((o : Order F) × (extend_if_needed d id ≡ some (d', some o)))
  unfolding extend_published
  extend_published_lem out now g d d' id outcome e = elim (Option-cases (extend_if_needed d id)) [
    | inl h ↦ absurd (cc (e, h))
    | inr ((d1, sent), h) ↦ elim (Option-cases sent) [
      | inl quiet ↦ ground arith
      | inr (o, sends) ↦ let here : d1 ≡ d' = ground arith in inr (o, cc (h, sends, here))
    ]
  ]

demo_topic : topic_for "KIT" "0001" "order" ≡ inr "vda5050/v3/KIT/0001/order"
unfolding topic_for validate_segment validate_serial first_invalid contains validate_topic_name
    codes
demo_topic = refl

module _ {F : Type 0} where
  -- The order with the next header of the topic.
  abbrev pub headed : String → HeaderGenerator → Order F → Order F
  headed now g o = record o {
    header = (generate g now "order" demo_manufacturer demo_serial_number).1;
  }

  -- What `publishOrder` asks of the client: one call, on the topic that the robot of the demonstrator
  -- subscribes to, if the order can be encoded, and none otherwise.
  pub publish_order-calls :
      (out : Outside F) (now : String) (g : HeaderGenerator) (o : Order F)
      → (publish_order out now g o).calls ≡ (
          if out.encodes (headed now g o)
          then publish "vda5050/v3/KIT/0001/order" 0 false (headed now g o) ∷ []
          else [])
  unfolding publish_order publish_to qos
  publish_order-calls out now g o = let topic = demo_topic in ground arith
