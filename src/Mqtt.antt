-- ===== src/Mqtt.antt =====
-- What the programs ask of their MQTT client. The client itself, the paho library, is not modelled: a
-- program's calls are returned as a list, and whether the token of a call has an error is an argument.
use vda.Prelude.{ℕ, Bool}
use vda.Prelude.Text.{String}

-- The functions that are handed to `Subscribe`.
pub data Handler : Type 0 where
  on_message on_state on_order on_instant_actions : Handler

pub data Request (P : Type 0) : Type 0 where
  subscribe : (topic : String) → (qos : ℕ) → (handler : Handler) → Request P
  publish : (topic : String) → (qos : ℕ) → (retained : Bool) → (payload : P) → Request P
  disconnect : (milliseconds : ℕ) → Request P
