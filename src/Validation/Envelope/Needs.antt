-- ===== src/Validation/Envelope/Needs.antt =====
-- What each validator of a row needs of a value to raise documented errors only
-- (synapse/validation.py).
use mathlib.Core.Bool.{true≢false}
use synapse_messenger.Prelude.{
  ℕ, ◌≡◌, refl, sym, Bool, true, false, not, ◌⊎◌, inl, inr, List, if◌then◌else◌,
}
use synapse_messenger.Errors.{
  ErrorCode, Result, ok, err, Raises, Raises-bind, Raises-weaken, invalid_argument, unknown_command,
}
use synapse_messenger.Validation.{
  Json, null, float, boolean, natural, negative, text, array, dict, Unicode, is_in,
}
use synapse_messenger.Validation.Words.{
  validate_task_state, validate_task_priority, validate_priority_filter, is_task_state, is_priority,
}
use synapse_messenger.Validation.Texts
use synapse_messenger.Validation.Cards
use synapse_messenger.Validation.Identifiers.{
  validate_optional_client_id, validate_client_message_id,
}
use synapse_messenger.Validation.Names.{normalize_department_name, normalize_username}
use synapse_messenger.Validation.Params.{Validator, run, validate_command_name}
use synapse_messenger.Validation.Invalid
use synapse_messenger.Validation.Invalid.{Invalid}
use synapse_messenger.Validation.InvalidWords
use synapse_messenger.Validation.InvalidWords.{is_hashable}
use synapse_messenger.Validation.InvalidKeys.{validate_deadline-Invalid}
use synapse_messenger.Validation.Commands.{command_names}

-- INVALID_ARGUMENT or UNKNOWN_COMMAND
abbrev pub Documented : ErrorCode → Type 0
Documented e = (e ≡ invalid_argument) ⊎ (e ≡ unknown_command)

pub documented : {A : Type 0} (r : Result A) → Raises Invalid r → Raises Documented r
documented r h = Raises-weaken r (λ e q. inl q) h

-- What a validator must be spared to raise documented errors only.
pub data Need : Type 0 where
  nothing a_value hashable texts : Need

abbrev pub need_of : Validator → Need
need_of Validator.of_capabilities = texts
need_of Validator.of_tools = texts
need_of Validator.of_group_name = a_value
need_of Validator.of_command_name = hashable
need_of Validator.of_task_state = hashable
need_of Validator.of_task_priority = hashable
need_of Validator.of_priority_filter = hashable
need_of other = nothing

abbrev pub is_null : Json → Bool
is_null null = true
is_null other = false

-- The value has what is needed; the elements of the lists of a card are not looked at.
abbrev pub meets : Need → Json → Bool
meets nothing raw = true
meets a_value raw = not (is_null raw)
meets hashable raw = is_hashable raw
meets texts raw = false

command_name-Documented :
    (commands : List (List ℕ)) (raw : Json)
    → is_hashable raw ≡ true
    → Raises Documented (validate_command_name commands raw)
unfolding validate_command_name
command_name-Documented commands (text t) h = at (is_in t commands)
  where
    at : (b : Bool) → Raises Documented (if b then ok (text t) else err unknown_command)
    at true = tt
    at false = inr refl
command_name-Documented commands null h = tt
command_name-Documented commands float h = inr refl
command_name-Documented commands (boolean b) h = inr refl
command_name-Documented commands (natural n) h = inr refl
command_name-Documented commands (negative n) h = inr refl
command_name-Documented commands (array xs) h = absurd (true≢false (sym h))
command_name-Documented commands (dict fs) h = absurd (true≢false (sym h))

group_name-Invalid :
    (u : Unicode) (raw : Json)
    → not (is_null raw) ≡ true
    → Raises Invalid (Texts.normalize_group_name u raw)
unfolding Texts.normalize_group_name Texts.normalize_card_text Texts.cleaned
group_name-Invalid u null h = absurd (true≢false (sym h))
group_name-Invalid u (text t) h = Invalid.optional_text-Invalid u 1 64 (text t)
group_name-Invalid u float h = refl
group_name-Invalid u (boolean b) h = refl
group_name-Invalid u (natural n) h = refl
group_name-Invalid u (negative n) h = refl
group_name-Invalid u (array xs) h = refl
group_name-Invalid u (dict fs) h = refl

module _ (u : Unicode) where
  hashable_words :
      (raw : Json)
      → is_hashable raw ≡ true
      → Raises Invalid (validate_task_state raw)
        × Raises Invalid (validate_task_priority raw)
        × Raises Invalid (validate_priority_filter raw)
  unfolding validate_task_state validate_task_priority validate_priority_filter
  hashable_words null h = (tt, tt, tt)
  hashable_words (text t) h = (
    InvalidWords.in_set-Invalid is_task_state (text t) refl,
    InvalidWords.in_set-Invalid is_priority (text t) refl,
    InvalidWords.in_set-Invalid is_priority (text t) refl,
  )
  hashable_words float h = (refl, refl, refl)
  hashable_words (boolean b) h = (refl, refl, refl)
  hashable_words (natural n) h = (refl, refl, refl)
  hashable_words (negative n) h = (refl, refl, refl)
  hashable_words (array xs) h = absurd (true≢false (sym h))
  hashable_words (dict fs) h = absurd (true≢false (sym h))

  pub run-Documented :
      (v : Validator) (raw : Json)
      → meets (need_of v) raw ≡ true
      → Raises Documented (run u command_names v raw)
  unfolding run Texts.normalize_content Texts.normalize_description
      Texts.normalize_business_reference Texts.normalize_task_text Texts.normalize_task_title
      Texts.normalize_task_description Texts.normalize_task_result Texts.normalize_reason
      Texts.normalize_card_text Cards.validate_capability_filter Cards.validate_card_text_filter
      validate_optional_client_id normalize_department_name
  run-Documented Validator.unchecked raw h = tt
  run-Documented Validator.of_username raw h = documented _ (Invalid.normalize_username-Invalid raw)
  run-Documented Validator.of_password raw h =
      documented _ (Invalid.validate_password-Invalid u raw)
  run-Documented Validator.of_description raw h = documented _ (Invalid.cleaned-Invalid u 1 500 raw)
  run-Documented Validator.of_bool raw h = documented _ (Invalid.validate_bool-Invalid raw)
  run-Documented Validator.of_principal_type raw h =
      documented _ (InvalidWords.validate_principal_type-Invalid raw)
  run-Documented Validator.of_organization_name raw h =
      documented _ (Invalid.normalize_organization_name-Invalid raw)
  run-Documented Validator.of_limit raw h = documented _ (InvalidWords.validate_limit-Invalid raw)
  run-Documented Validator.of_content raw h = documented _ (Invalid.cleaned-Invalid u 1 10000 raw)
  run-Documented Validator.of_client_message_id raw h =
      documented _ (InvalidWords.validate_client_message_id-Invalid raw)
  run-Documented Validator.of_business_reference raw h =
      documented _ (Invalid.optional_text-Invalid u 1 128 raw)
  run-Documented Validator.of_status raw h = documented _ (InvalidWords.validate_status-Invalid raw)
  run-Documented Validator.of_sender_filter raw h =
      documented _
        (Invalid.optional-Invalid normalize_username raw Invalid.normalize_username-Invalid)
  run-Documented Validator.of_uuid_filter raw h =
      documented _ (Invalid.optional-Invalid _ raw InvalidWords.normalize_uuid-Invalid)
  run-Documented Validator.of_command_name raw h = command_name-Documented command_names raw h
  run-Documented Validator.of_capabilities raw h = absurd (true≢false (sym h))
  run-Documented Validator.of_tools raw h = absurd (true≢false (sym h))
  run-Documented Validator.of_capability_filter raw h =
      documented _ (Invalid.optional_text-Invalid u 1 64 raw)
  run-Documented Validator.of_card_text_filter raw h =
      documented _ (Invalid.optional_text-Invalid u 1 128 raw)
  run-Documented Validator.of_task_title raw h = documented _ (Invalid.cleaned-Invalid u 1 200 raw)
  run-Documented Validator.of_task_description raw h =
      documented _ (Invalid.optional_text-Invalid u 1 5000 raw)
  run-Documented Validator.of_task_priority raw h = documented _ (hashable_words raw h).1
  run-Documented Validator.of_due_at raw h =
      documented _ (InvalidWords.validate_due_at-Invalid u raw)
  run-Documented Validator.of_deadline raw h = documented _ (validate_deadline-Invalid u raw)
  run-Documented Validator.of_depends_on raw h =
      documented _
        (Raises-bind Invalid _ _ (InvalidWords.validate_depends_on-Invalid raw) λ ids. tt)
  run-Documented Validator.of_optional_client_id raw h = documented _ (
      Invalid.optional-Invalid validate_client_message_id raw
        InvalidWords.validate_client_message_id-Invalid)
  run-Documented Validator.of_task_state raw h = documented _ (hashable_words raw h).0
  run-Documented Validator.of_priority_filter raw h = documented _ (hashable_words raw h).2
  run-Documented Validator.of_task_result raw h =
      documented _ (Invalid.optional_text-Invalid u 1 10000 raw)
  run-Documented Validator.of_reason raw h =
      documented _ (Invalid.optional_text-Invalid u 1 500 raw)
  run-Documented Validator.of_event_types raw h =
      documented _ (InvalidWords.validate_event_types-Invalid raw)
  run-Documented Validator.of_positive_seconds raw h =
      documented _ (InvalidWords.validate_positive_seconds-Invalid raw)
  run-Documented Validator.of_budget raw h = documented _ (InvalidWords.validate_budget-Invalid raw)
  run-Documented Validator.of_retention_days raw h =
      documented _ (InvalidWords.validate_retention_days-Invalid raw)
  run-Documented Validator.of_department_name raw h =
      documented _ (Invalid.normalize_organization_name-Invalid raw)
  run-Documented Validator.of_org_role raw h =
      documented _ (InvalidWords.validate_org_role-Invalid raw)
  run-Documented Validator.of_group_name raw h = documented _ (group_name-Invalid u raw h)
  run-Documented Validator.of_uuid raw h = documented _ (InvalidWords.normalize_uuid-Invalid raw)
  run-Documented (Validator.of_card_text max_len) raw h =
      documented _ (Invalid.optional_text-Invalid u 1 max_len raw)
