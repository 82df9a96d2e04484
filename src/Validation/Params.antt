-- ===== src/Validation/Params.antt =====
-- The declaration of a command's parameters (synapse/validation.py: _spec and the rows of
-- COMMAND_SPECS), and the validator that a row names.
use synapse_messenger.Prelude.{ℕ, Bool, true, false, List, String, if◌then◌else◌}
use synapse_messenger.Errors.{Result, ok, err, ◌>>=◌, unknown_command, internal_error}
use synapse_messenger.Validation.{
  Json, null, boolean, natural, negative, text, array, dict, Unicode, points, is_in, as_items,
}
use synapse_messenger.Validation.Names.{
  normalize_username, normalize_organization_name, normalize_department_name, validate_bool,
  validate_password,
}
use synapse_messenger.Validation.Texts.{
  optional, normalize_content, normalize_description, normalize_business_reference,
  normalize_task_title, normalize_task_description, normalize_task_result, normalize_reason,
  normalize_card_text, normalize_group_name,
}
use synapse_messenger.Validation.Identifiers.{
  validate_client_message_id, validate_optional_client_id, normalize_uuid, validate_depends_on,
  validate_due_at,
}
use synapse_messenger.Validation.Numbers.{
  validate_budget, validate_retention_days, validate_positive_seconds, validate_limit,
}
use synapse_messenger.Validation.Words.{
  validate_task_state, validate_task_priority, validate_priority_filter, validate_event_types,
  validate_org_role, validate_principal_type, validate_status,
}
use synapse_messenger.Validation.Cards.{
  normalize_capabilities, normalize_tools, validate_capability_filter, validate_card_text_filter,
}
use synapse_messenger.Validation.Keys.{validate_deadline}

-- str, bool, int, list and dict
pub data ParamType : Type 0 where
  of_str of_bool_type of_int of_list of_dict : ParamType

-- type(raw) is type_
abbrev pub has_type : ParamType → Json → Bool
has_type of_str (text t) = true
has_type of_bool_type (boolean b) = true
has_type of_int (natural n) = true
has_type of_int (negative n) = true
has_type of_list (array xs) = true
has_type of_dict (dict fs) = true
has_type type raw = false

-- The validator of a row, `unchecked` for None.
pub data Validator : Type 0 where
  unchecked of_username of_password of_description of_bool of_principal_type : Validator
  of_organization_name of_limit of_content of_client_message_id of_business_reference : Validator
  of_status of_sender_filter of_uuid_filter of_command_name of_capabilities of_tools : Validator
  of_capability_filter of_card_text_filter of_task_title of_task_description : Validator
  of_task_priority of_due_at of_deadline of_depends_on of_optional_client_id of_task_state :
      Validator
  of_priority_filter of_task_result of_reason of_event_types of_positive_seconds of_budget :
      Validator
  of_retention_days of_department_name of_org_role of_group_name of_uuid : Validator
  of_card_text : ℕ → Validator

-- A row: (name, type, required, validator)
pub record Param : Type 0 where
  pub name : List ℕ
  pub type_of : ParamType
  pub is_required : Bool
  pub validator : Validator

pub record Spec : Type 0 where
  pub name : List ℕ
  pub params : List Param
  pub org : Bool

abbrev pub required : Bool
required = true

abbrev pub optional_param : Bool
optional_param = false

abbrev pub param : String → ParamType → Bool → Validator → Param
param name type_of is_required validator = record {
  name = points name;
  type_of = type_of;
  is_required = is_required;
  validator = validator;
}

-- _spec
abbrev pub spec : String → List Param → Bool → Spec
spec name params org = record { name = points name; params = params; org = org }

-- _validate_command_name: a list or a dict has no hash.
unfoldable pub validate_command_name : List (List ℕ) → Json → Result Json
validate_command_name commands null = ok null
validate_command_name commands (text t) =
    if is_in t commands then ok (text t) else err unknown_command
validate_command_name commands (array xs) = err internal_error
validate_command_name commands (dict fs) = err internal_error
validate_command_name commands other = err unknown_command

-- validator(raw), where `commands` are the names of COMMAND_SPECS
unfoldable pub run : Unicode → List (List ℕ) → Validator → Json → Result Json
run u commands unchecked raw = ok raw
run u commands of_username raw = normalize_username raw
run u commands of_password raw = validate_password u raw
run u commands of_description raw = normalize_description u raw
run u commands of_bool raw = validate_bool raw
run u commands of_principal_type raw = validate_principal_type raw
run u commands of_organization_name raw = normalize_organization_name raw
run u commands of_limit raw = validate_limit raw
run u commands of_content raw = normalize_content u raw
run u commands of_client_message_id raw = validate_client_message_id raw
run u commands of_business_reference raw = normalize_business_reference u raw
run u commands of_status raw = validate_status raw
run u commands of_sender_filter raw = optional normalize_username raw
run u commands of_uuid_filter raw = optional normalize_uuid raw
run u commands of_command_name raw = validate_command_name commands raw
run u commands of_capabilities raw = normalize_capabilities u raw
run u commands of_tools raw = normalize_tools u raw
run u commands of_capability_filter raw = validate_capability_filter u raw
run u commands of_card_text_filter raw = validate_card_text_filter u raw
run u commands of_task_title raw = normalize_task_title u raw
run u commands of_task_description raw = normalize_task_description u raw
run u commands of_task_priority raw = validate_task_priority raw
run u commands of_due_at raw = validate_due_at u raw
run u commands of_deadline raw = validate_deadline u raw
run u commands of_depends_on raw = validate_depends_on raw >>= λ ids. ok (array (as_items ids))
run u commands of_optional_client_id raw = validate_optional_client_id raw
run u commands of_task_state raw = validate_task_state raw
run u commands of_priority_filter raw = validate_priority_filter raw
run u commands of_task_result raw = normalize_task_result u raw
run u commands of_reason raw = normalize_reason u raw
run u commands of_event_types raw = validate_event_types raw
run u commands of_positive_seconds raw = validate_positive_seconds raw
run u commands of_budget raw = validate_budget raw
run u commands of_retention_days raw = validate_retention_days raw
run u commands of_department_name raw = normalize_department_name raw
run u commands of_org_role raw = validate_org_role raw
run u commands of_group_name raw = normalize_group_name u raw
run u commands of_uuid raw = normalize_uuid raw
run u commands (of_card_text max_len) raw = normalize_card_text u max_len raw
