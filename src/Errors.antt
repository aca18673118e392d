-- ===== src/Errors.antt =====
-- common/errors/error.go: the errors that the robot reports, and their constructor. A `*VDAError` is
-- an `Option VdaError`, with `none` for nil.
use vda.Prelude.{List, []}
use vda.Prelude.Text.{String, ◌<>◌}

pub data ErrorLevel : Type 0 where
  warning urgent critical fatal : ErrorLevel

pub data ErrorType : Type 0 where
  validation_failure invalid_order other_order_active start_node_out_of_range : ErrorType
  outdated_order_update order_update_following_cancel same_order_update_id : ErrorType
  invalid_instant_action : ErrorType

-- The map `ErrorTypeLevel`, which has an entry for every type.
unfoldable pub error_type_level : ErrorType → ErrorLevel
error_type_level validation_failure = warning
error_type_level invalid_order = warning
error_type_level other_order_active = warning
error_type_level start_node_out_of_range = warning
error_type_level outdated_order_update = warning
error_type_level order_update_following_cancel = warning
error_type_level same_order_update_id = warning
error_type_level invalid_instant_action = warning

-- The text of the type, as the wire has it.
unfoldable pub error_type_text : ErrorType → String
error_type_text validation_failure = "VALIDATION_FAILURE"
error_type_text invalid_order = "INVALID_ORDER"
error_type_text other_order_active = "OTHER_ORDER_ACTIVE"
error_type_text start_node_out_of_range = "START_NODE_OUT_OF_RANGE"
error_type_text outdated_order_update = "OUTDATED_ORDER_UPDATE"
error_type_text order_update_following_cancel = "ORDER_UPDATE_FOLLOWING_CANCEL"
error_type_text same_order_update_id = "SAME_ORDER_UPDATE_ID"
error_type_text invalid_instant_action = "INVALID_INSTANT_ACTION"

pub record ErrorReference : Type 0 where
  pub reference_key : String
  pub reference_value : String

pub record ErrorDescriptionTranslation : Type 0 where
  pub translation_key : String
  pub translation_value : String

pub record VdaError : Type 0 where
  pub error_type : ErrorType
  pub error_level : ErrorLevel
  pub error_references : List ErrorReference
  pub error_description : String
  pub error_hint : String
  pub error_description_translations : List ErrorDescriptionTranslation

-- `(*VDAError).Error`.
unfoldable pub error_message : VdaError → String
unfolding error_type_text
error_message e = error_type_text e.error_type <> (": " <> e.error_description)

-- `vdaerrors.New`.
unfoldable pub new : ErrorType → String → List ErrorReference → VdaError
unfolding error_type_level
new err_type description ref = record {
  error_type = err_type;
  error_level = error_type_level err_type;
  error_references = ref;
  error_description = description;
  error_hint = "";
  error_description_translations = [];
}

abbrev pub reference : String → String → ErrorReference
reference key value = record { reference_key = key; reference_value = value }
