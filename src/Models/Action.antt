-- ===== src/Models/Action.antt =====
-- common/models/action.go and the header of header.go.
use vda.Prelude.{ℕ, Bool, List}
use vda.Prelude.Text.{String}

-- `headerId` is a uint32.
pub record Header : Type 0 where
  pub header_id : ℕ
  pub timestamp : String
  pub version : String
  pub manufacturer : String
  pub serial_number : String

-- A string in the source: `other` is any text that is not one of the four constants.
pub data BlockingType : Type 0 where
  blocking_none single soft hard : BlockingType
  other : String → BlockingType

-- A JSON value behind `interface{}`; the program only tests whether it is a string.
pub data Value : Type 0 where
  text : String → Value
  boolean : Bool → Value
  number null compound : Value

pub record ActionParameter : Type 0 where
  pub key : String
  pub value : Value

pub record Action : Type 0 where
  pub action_type : String
  pub action_id : String
  pub action_descriptor : String
  pub blocking_type : BlockingType
  pub action_parameters : List ActionParameter
  pub retriable : Bool

pub record InstantActions : Type 0 where
  pub header : Header
  pub actions : List Action
