-- ===== src/Validation/InvalidWords.antt =====
-- The validators of identifiers, words, numbers and objects raise INVALID_ARGUMENT only, where Python
-- can hash the value (synapse/validation.py).
use synapse_messenger.Prelude.{ℕ, ◌≡◌, refl, Bool, true, false, not, ltb, List, [], ◌∷◌}
use synapse_messenger.Errors.{
  Result, ok, err, raise_if, ◌>>◌, Raises, Raises-bind, invalid_argument,
}
use synapse_messenger.Validation.{
  Json, null, float, boolean, natural, negative, text, array, dict, Unicode, elements, between,
  one_of,
}
use synapse_messenger.Hlc.{is_valid}
use synapse_messenger.Validation.Identifiers.{
  validate_client_message_id, normalize_uuid_text, uuid_of, normalize_uuid, collect_uuids,
  validate_depends_on, validate_due_at, add_new, is_date_text,
}
use synapse_messenger.Validation.Numbers.{
  validate_budget, validate_retention_days, validate_positive_seconds, validate_limit, at_most_3650,
  of_budget,
}
use synapse_messenger.Validation.Words.{
  in_set, validate_event_types, validate_hlc, validate_org_role, validate_principal_type,
  validate_status,
}
use synapse_messenger.Validation.Invalid.{
  Invalid, then_ok, valid_if, refused_if, on_text-Invalid, optional-Invalid,
}

pub validate_client_message_id-Invalid :
    (raw : Json) → Raises Invalid (validate_client_message_id raw)
unfolding validate_client_message_id
validate_client_message_id-Invalid raw =
    on_text-Invalid _ raw λ t. then_ok _ _ λ _. then_ok _ _ λ _. tt

uuid_of-Invalid : (raw : Json) → Raises Invalid (uuid_of raw)
unfolding normalize_uuid_text
uuid_of-Invalid (text t) = then_ok _ _ λ _. then_ok _ _ λ _. tt
uuid_of-Invalid null = refl
uuid_of-Invalid float = refl
uuid_of-Invalid (boolean b) = refl
uuid_of-Invalid (natural n) = refl
uuid_of-Invalid (negative n) = refl
uuid_of-Invalid (array xs) = refl
uuid_of-Invalid (dict fs) = refl

pub normalize_uuid-Invalid : (raw : Json) → Raises Invalid (normalize_uuid raw)
unfolding normalize_uuid
normalize_uuid-Invalid raw = Raises-bind Invalid _ _ (uuid_of-Invalid raw) λ t. tt

collect_uuids-Invalid :
    (xs : List Json) (out : List (List ℕ)) → Raises Invalid (collect_uuids xs out)
unfolding collect_uuids
collect_uuids-Invalid [] out = tt
collect_uuids-Invalid (x ∷ xs) out =
    Raises-bind Invalid _ _ (uuid_of-Invalid x) λ t. collect_uuids-Invalid xs (add_new out t)

pub validate_depends_on-Invalid : (raw : Json) → Raises Invalid (validate_depends_on raw)
unfolding validate_depends_on
validate_depends_on-Invalid null = tt
validate_depends_on-Invalid (array xs) = then_ok _ _ λ _. collect_uuids-Invalid (elements xs) []
validate_depends_on-Invalid float = refl
validate_depends_on-Invalid (boolean b) = refl
validate_depends_on-Invalid (natural n) = refl
validate_depends_on-Invalid (negative n) = refl
validate_depends_on-Invalid (text t) = refl
validate_depends_on-Invalid (dict fs) = refl

pub validate_due_at-Invalid : (u : Unicode) (raw : Json) → Raises Invalid (validate_due_at u raw)
unfolding validate_due_at
validate_due_at-Invalid u raw = optional-Invalid _ raw λ x.
    on_text-Invalid (λ t. raise_if (not (is_date_text u.digits t)) invalid_argument >> ok (text t))
      x λ t. then_ok (not (is_date_text u.digits t)) (λ _. ok (text t)) λ _. tt

pub validate_budget-Invalid : (raw : Json) → Raises Invalid (validate_budget raw)
unfolding validate_budget
validate_budget-Invalid null = tt
validate_budget-Invalid (natural n) = refused_if (ltb n 1) (natural n)
validate_budget-Invalid float = refl
validate_budget-Invalid (boolean b) = refl
validate_budget-Invalid (negative n) = refl
validate_budget-Invalid (text t) = refl
validate_budget-Invalid (array xs) = refl
validate_budget-Invalid (dict fs) = refl

at_most_3650-Invalid : (raw : Json) → Raises Invalid (at_most_3650 raw)
at_most_3650-Invalid (natural n) = refused_if (ltb 3650 n) (natural n)
at_most_3650-Invalid null = refl
at_most_3650-Invalid float = refl
at_most_3650-Invalid (boolean b) = refl
at_most_3650-Invalid (negative n) = refl
at_most_3650-Invalid (text t) = refl
at_most_3650-Invalid (array xs) = refl
at_most_3650-Invalid (dict fs) = refl

pub validate_retention_days-Invalid : (raw : Json) → Raises Invalid (validate_retention_days raw)
unfolding validate_retention_days
validate_retention_days-Invalid raw = at (validate_budget raw) (validate_budget-Invalid raw)
  where
    at : (r : Result Json) → Raises Invalid r → Raises Invalid (of_budget r)
    at (ok value) h = at_most_3650-Invalid value
    at (err e) h = h

pub validate_positive_seconds-Invalid :
    (raw : Json) → Raises Invalid (validate_positive_seconds raw)
unfolding validate_positive_seconds
validate_positive_seconds-Invalid (natural n) = refused_if (ltb n 1) (natural n)
validate_positive_seconds-Invalid null = refl
validate_positive_seconds-Invalid float = refl
validate_positive_seconds-Invalid (boolean b) = refl
validate_positive_seconds-Invalid (negative n) = refl
validate_positive_seconds-Invalid (text t) = refl
validate_positive_seconds-Invalid (array xs) = refl
validate_positive_seconds-Invalid (dict fs) = refl

pub validate_limit-Invalid : (raw : Json) → Raises Invalid (validate_limit raw)
unfolding validate_limit
validate_limit-Invalid null = tt
validate_limit-Invalid (natural n) = valid_if (between 1 100 n) (natural n)
validate_limit-Invalid float = refl
validate_limit-Invalid (boolean b) = refl
validate_limit-Invalid (negative n) = refl
validate_limit-Invalid (text t) = refl
validate_limit-Invalid (array xs) = refl
validate_limit-Invalid (dict fs) = refl

-- A list or a dict cannot be looked up in a set.
abbrev pub is_hashable : Json → Bool
is_hashable (array xs) = false
is_hashable (dict fs) = false
is_hashable other = true

pub in_set-Invalid :
    (known : List ℕ → Bool) (raw : Json)
    → is_hashable raw ≡ true
    → Raises Invalid (in_set known raw)
in_set-Invalid known (text t) h = valid_if (known t) (text t)
in_set-Invalid known null h = refl
in_set-Invalid known float h = refl
in_set-Invalid known (boolean b) h = refl
in_set-Invalid known (natural n) h = refl
in_set-Invalid known (negative n) h = refl
in_set-Invalid known (array xs) h = cc
in_set-Invalid known (dict fs) h = cc

pub validate_event_types-Invalid : (raw : Json) → Raises Invalid (validate_event_types raw)
unfolding validate_event_types
validate_event_types-Invalid null = tt
validate_event_types-Invalid (array xs) = then_ok _ _ λ _. then_ok _ _ λ _. then_ok _ _ λ _. tt
validate_event_types-Invalid float = refl
validate_event_types-Invalid (boolean b) = refl
validate_event_types-Invalid (natural n) = refl
validate_event_types-Invalid (negative n) = refl
validate_event_types-Invalid (text t) = refl
validate_event_types-Invalid (dict fs) = refl

pub validate_hlc-Invalid : (u : Unicode) (raw : Json) → Raises Invalid (validate_hlc u raw)
unfolding validate_hlc
validate_hlc-Invalid u raw =
    on_text-Invalid _ raw λ t. then_ok (not (is_valid u.digits t)) (λ _. ok (text t)) λ _. tt

pub validate_org_role-Invalid : (raw : Json) → Raises Invalid (validate_org_role raw)
unfolding validate_org_role
validate_org_role-Invalid raw =
    on_text-Invalid _ raw λ t. valid_if (one_of t ("manager" ∷ "employee" ∷ "rh" ∷ [])) (text t)

pub validate_principal_type-Invalid : (raw : Json) → Raises Invalid (validate_principal_type raw)
unfolding validate_principal_type
validate_principal_type-Invalid null = tt
validate_principal_type-Invalid (text t) = valid_if (one_of t ("agent" ∷ "human" ∷ [])) (text t)
validate_principal_type-Invalid float = refl
validate_principal_type-Invalid (boolean b) = refl
validate_principal_type-Invalid (natural n) = refl
validate_principal_type-Invalid (negative n) = refl
validate_principal_type-Invalid (array xs) = refl
validate_principal_type-Invalid (dict fs) = refl

pub validate_status-Invalid : (raw : Json) → Raises Invalid (validate_status raw)
unfolding validate_status
validate_status-Invalid null = tt
validate_status-Invalid (text t) = valid_if (one_of t ("read" ∷ "unread" ∷ [])) (text t)
validate_status-Invalid float = refl
validate_status-Invalid (boolean b) = refl
validate_status-Invalid (natural n) = refl
validate_status-Invalid (negative n) = refl
validate_status-Invalid (array xs) = refl
validate_status-Invalid (dict fs) = refl
