-- ===== src/Fleet/Publishing.antt =====
-- How the fleet publishes orders: `publishOrder` and the experiments of fleet/publish.go, the `publish` of
-- fleet/dispatcher.go, and `onConnect` of fleet/main.go. A function returns the header generator and the
-- calls that it makes of the client. `encodes` says whether `json.Marshal` takes an order, `fails` whether
-- the token of a call has an error, `now` is the time. Sleeping and logging are left out.
pub mod Sent
use vda.Prelude.{
  ℕ, Bool, true, false, not, Option, none, some, List, [], ◌∷◌, ◌++◌, ◌⊎◌, inl, inr, if◌then◌else◌,
  ◌>>=◌,
}
use vda.Prelude.Text.{String, str_eq}
use vda.Geometry.{Float64}
use vda.Headers.{HeaderGenerator, generate}
use vda.Models.Order.{Order}
use vda.Topics.{TopicFault, topic_for, wildcard_for, qos}
use vda.Mqtt.{Request, subscribe, publish, on_state, on_message}
use vda.Fleet.Experiments.{base_order, good_update, bad_update}
use vda.Fleet.Dispatcher.{Dispatcher, new_dispatcher, demo_route, start, extend_if_needed}

abbrev pub demo_manufacturer : String
demo_manufacturer = "KIT"

abbrev pub demo_serial_number : String
demo_serial_number = "0001"

-- The errors that `publishOrder` returns: of the topic, of `json.Marshal`, of the token.
pub data PublishError : Type 0 where
  bad_topic : TopicFault → PublishError
  not_encoded : PublishError
  not_sent : PublishError

pub record Outcome (F : Type 0) : Type 0 where
  pub generator : HeaderGenerator
  pub calls : List (Request (Order F))
  pub error : Option PublishError

-- What is outside of the program.
pub record Outside (F : Type 0) : Type 0 where
  pub encodes : Order F → Bool
  pub fails : Request (Order F) → Bool

module _ {F : Type 0} where
  -- `publish` of a dispatcher, and `publishOrder` for the robot of the experiments.
  unfoldable pub publish_to :
      Outside F → String → String → String → HeaderGenerator → Order F → Outcome F
  publish_to out manufacturer serial_number now generator order =
      elim (topic_for manufacturer serial_number "order") [
        | inl e ↦ record { generator = generator; calls = []; error = some (bad_topic e) }
        | inr topic ↦
            let (generator', header) = generate generator now "order" manufacturer serial_number in
            let order' : Order F = record order { header = header } in
            let call : Request (Order F) = publish topic (qos "order") false order' in
            if not (out.encodes order')
            then record { generator = generator'; calls = []; error = some not_encoded }
            else record {
              generator = generator';
              calls = call ∷ [];
              error = if out.fails call then some not_sent else none;
            }
      ]

  unfoldable pub publish_order : Outside F → String → HeaderGenerator → Order F → Outcome F
  publish_order out now generator order =
      publish_to out demo_manufacturer demo_serial_number now generator order

  -- `Start`, with its `publish`.
  unfoldable pub start_published :
      Outside F → String → HeaderGenerator → Dispatcher F → Option (Dispatcher F × Outcome F)
  start_published out now generator d = start d >>= λ (d', order).
      some (d', publish_to out d.manufacturer d.serial_number now generator order)

  abbrev nothing_sent : HeaderGenerator → Outcome F
  nothing_sent generator = record { generator = generator; calls = []; error = none }

  -- `ExtendIfNeeded`, with its `publish`.
  unfoldable pub extend_published :
      Outside F
      → String
      → HeaderGenerator
      → Dispatcher F
      → String
      → Option (Dispatcher F × Outcome F)
  extend_published out now generator d order_id = extend_if_needed d order_id >>= λ (d', sent).
      elim sent [
        | none ↦ some (d', nothing_sent generator)
        | some order ↦ some (d', publish_to out d.manufacturer d.serial_number now generator order)
      ]

  -- Two orders, of which the second goes out if the first has and `goes` says so.
  abbrev two_orders :
      Outside F → String → String → Bool → Order F → Order F → HeaderGenerator → Outcome F
  two_orders out now later goes first second generator =
      let one = publish_order out now generator first in
      elim one.error [
        | some e ↦ one
        | none ↦
            if goes
            then (let two = publish_order out later one.generator second in
                record two { calls = one.calls ++ two.calls })
            else one
      ]

  -- The two subscriptions of `onConnect`, and whether it comes to the experiment.
  unfoldable pub fleet_subscriptions : Outside F → List (Request (Order F)) × Bool
  fleet_subscriptions out = elim (wildcard_for "state") [
    | inl e ↦ ([], false)
    | inr topic ↦
        let first = subscribe topic (qos "state") on_state in
        if out.fails first then (first ∷ [], false) else elim (wildcard_for "connection") [
          | inl e ↦ (first ∷ [], false)
          | inr topic' ↦
              let second = subscribe topic' (qos "connection") on_message in
              (first ∷ second ∷ [], not (out.fails second))
        ]
  ]

module _ {F : Type 0} ⦃fl : Float64 F⦄ where
  -- `dropped` is whether the random draw is below the drop rate.
  unfoldable pub run_drop_experiment :
      Outside F → String → String → Bool → HeaderGenerator → Outcome F
  run_drop_experiment out now later dropped generator =
      two_orders out now later (not dropped) base_order good_update generator

  unfoldable pub run_failure_experiment : Outside F → String → String → HeaderGenerator → Outcome F
  run_failure_experiment out now later generator =
      two_orders out now later true base_order bad_update generator

  -- `case "dispatch"` of `onConnect`.
  unfoldable pub dispatch : Outside F → String → HeaderGenerator → Option (Dispatcher F × Outcome F)
  dispatch out now generator = demo_route 10 >>= λ (nodes, edges).
      start_published out now generator
        (new_dispatcher demo_manufacturer demo_serial_number "demo-route-1" nodes edges)
