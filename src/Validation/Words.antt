-- ===== src/Validation/Words.antt =====
-- Fixed words and timestamps of the clock (synapse/validation.py: validate_task_state to
-- validate_hlc, validate_org_role, validate_principal_type and _validate_status).
use synapse_messenger.Prelude.{ℕ, Bool, true, false, not, List, [], ◌∷◌, all, length, if◌then◌else◌}
use synapse_messenger.Errors.{Result, ok, err, ◌>>◌, raise_if, invalid_argument, internal_error}
use synapse_messenger.Hlc.{is_valid}
use synapse_messenger.Validation.{
  Json, null, text, array, dict, Unicode, points, between, one_of, elements, invalid,
}
use synapse_messenger.Validation.Names.{on_text}

-- raw not in a frozenset: a list or a dict has no hash, and the TypeError ends as INTERNAL_ERROR.
abbrev pub in_set : (List ℕ → Bool) → Json → Result Json
in_set known (text t) = if known t then ok (text t) else invalid
in_set known (array xs) = err internal_error
in_set known (dict fs) = err internal_error
in_set known other = invalid

abbrev pub is_task_state : List ℕ → Bool
is_task_state t =
    one_of t
      ("submitted" ∷ "in_progress" ∷ "completed" ∷ "failed" ∷ "canceled" ∷ "pending_approval" ∷ [])

-- validate_task_state
unfoldable pub validate_task_state : Json → Result Json
validate_task_state null = ok null
validate_task_state raw = in_set is_task_state raw

abbrev pub is_priority : List ℕ → Bool
is_priority t = one_of t ("low" ∷ "normal" ∷ "high" ∷ [])

-- validate_task_priority
unfoldable pub validate_task_priority : Json → Result Json
validate_task_priority null = ok (text (points "normal"))
validate_task_priority raw = in_set is_priority raw

-- _validate_priority_filter
unfoldable pub validate_priority_filter : Json → Result Json
validate_priority_filter null = ok null
validate_priority_filter raw = validate_task_priority raw

abbrev pub is_event_type : List ℕ → Bool
is_event_type t = one_of t (
    "task.created" ∷ "task.state_changed" ∷ "task.transferred" ∷ "task.approval_requested"
    ∷ "task.approved" ∷ "task.rejected" ∷ "task.escalated" ∷ [])

abbrev pub is_known_type : Json → Bool
is_known_type (text t) = is_event_type t
is_known_type other = false

abbrev pub is_string : Json → Bool
is_string (text t) = true
is_string other = false

-- validate_event_types
unfoldable pub validate_event_types : Json → Result Json
validate_event_types null = ok null
validate_event_types (array xs) = do
  raise_if (not (all is_string (elements xs))) invalid_argument
  raise_if (not (between 1 20 (length (elements xs)))) invalid_argument
  raise_if (not (all is_known_type (elements xs))) invalid_argument
  ok (array xs)
validate_event_types other = invalid

-- validate_hlc
unfoldable pub validate_hlc : Unicode → Json → Result Json
validate_hlc u raw =
    on_text (λ t. raise_if (not (is_valid u.digits t)) invalid_argument >> ok (text t)) raw

-- validate_org_role
unfoldable pub validate_org_role : Json → Result Json
validate_org_role raw =
    on_text (λ t. if one_of t ("manager" ∷ "employee" ∷ "rh" ∷ []) then ok (text t) else invalid)
      raw

-- validate_principal_type
unfoldable pub validate_principal_type : Json → Result Json
validate_principal_type null = ok (text (points "agent"))
validate_principal_type raw =
    on_text (λ t. if one_of t ("agent" ∷ "human" ∷ []) then ok (text t) else invalid) raw

-- _validate_status, which compares without hashing
unfoldable pub validate_status : Json → Result Json
validate_status null = ok null
validate_status (text t) = if one_of t ("read" ∷ "unread" ∷ []) then ok (text t) else invalid
validate_status other = invalid
