-- ===== src/Service/Targets.antt =====
-- The parameters of a command as its dispatch reads them (synapse/service.py: _TARGET_FIELD,
-- Service._audit_action, Service._dispatch).
use synapse_messenger.Prelude.{ℕ, Option, none, some, List, [], ◌∷◌, map, String, if◌then◌else◌}
use synapse_messenger.Errors.{Result, ok, err, internal_error}
use synapse_messenger.Validation.{Json, text, points, lower, same_text}
use synapse_messenger.Validation.Keys.{lookup}

-- params: the validated parameters of a command
abbrev pub Params : Type 0
Params = List (List ℕ × Json)

-- _TARGET_FIELD, without the commands whose field is None
abbrev pub target_fields : List (List ℕ × List ℕ)
target_fields =
    map (λ (p : String × String). (points p.0, points p.1))
      (("create_agent", "username")
        ∷ ("deactivate_agent", "username")
        ∷ ("reactivate_agent", "username")
        ∷ ("change_agent_password", "username")
        ∷ ("set_agent_visibility", "username")
        ∷ ("get_agent_description", "username")
        ∷ ("send_message", "recipient_username")
        ∷ ("get_messages", "conversation_id")
        ∷ ("get_conversation", "other_username")
        ∷ ("read_message", "message_id")
        ∷ ("mark_conversation_no_reply", "conversation_id")
        ∷ ("get_agent_card", "username")
        ∷ ("approve_agent_card", "username")
        ∷ ("create_task", "task_id")
        ∷ ("get_task", "task_id")
        ∷ ("update_task_state", "task_id")
        ∷ ("transfer_task", "task_id")
        ∷ ("request_approval", "task_id")
        ∷ ("approve_task", "task_id")
        ∷ ("reject_task", "task_id")
        ∷ ("set_agent_budget", "username")
        ∷ ("create_department", "department_name")
        ∷ ("set_agent_department", "username")
        ∷ ("change_agent_description", "username")
        ∷ ("create_org", "organization_name")
        ∷ ("disable_org", "organization_name")
        ∷ ("get_org_conversation", "conversation_id")
        ∷ ("list_department_tasks", "department_name")
        ∷ ("add_group_member", "username")
        ∷ ("remove_group_member", "username")
        ∷ ("send_group_message", "group_id")
        ∷ ("get_group_messages", "group_id")
        ∷ ("get_group_members", "group_id")
        ∷ ("get_agent_reputation", "username")
        ∷ ("create_delegation", "task_id")
        ∷ ("revoke_delegation", "task_id")
        ∷ ("create_observer_account", "observer_name")
        ∷ ("revoke_observer_account", "observer_name")
        ∷ [])

abbrev pub field_of : List ℕ → List (List ℕ × List ℕ) → Option (List ℕ)
field_of command [] = none
field_of command ((name, field) ∷ rest) =
    let found = field_of command rest in if same_text command name then some field else found

abbrev pub lowered : Option Json → Option (List ℕ)
lowered (some (text t)) = some (lower t)
lowered other = none

-- params.get(_TARGET_FIELD[command]), in lower case; the targets of audited commands are texts or null
abbrev pub target_of : List ℕ → Params → Option (List ℕ)
target_of command params = elim (field_of command target_fields) [
  | none ↦ none
  | some field ↦ lowered (lookup field params)
]

-- the text of params[key]; a missing key, and what has no `lower`, end as INTERNAL_ERROR
abbrev pub text_of : Option Json → Result (List ℕ)
text_of (some (text t)) = ok t
text_of other = err internal_error
