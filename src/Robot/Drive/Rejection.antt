-- ===== src/Robot/Drive/Rejection.antt =====
-- What the robot publishes of an order that it does not take.
use vda.Prelude.{Bool, none, some, List, [], ◌∷◌, if◌then◌else◌}
use vda.Errors.{VdaError}
use vda.Geometry.{Float64}
use vda.Models.Order.{Order}
use vda.Validation.{validate_order}
use vda.Mqtt.{Request}
use vda.Robot.AcceptOrder.{accept_order}
use vda.Robot.Main.{Robot, position}
use vda.Robot.Drive.{publish_rejection}

module _ {F : Type 0} ⦃fl : Float64 F⦄ where
  -- The calls that `onOrder` itself makes of the client, before it hands `onTick` to the drive. `encodes`
  -- says whether `json.Marshal` takes the error.
  unfoldable pub order_calls : (VdaError → Bool) → Robot F → Order F → List (Request VdaError)
  order_calls encodes r order = elim (validate_order order) [
    | some e ↦ []
    | none ↦ elim (accept_order r.state order (position r)) [
      | none ↦ []
      | some v ↦ if v.accepted then [] else elim v.error [
        | none ↦ []
        | some e ↦ if encodes e then publish_rejection e ∷ [] else []
      ]
    ]
  ]
