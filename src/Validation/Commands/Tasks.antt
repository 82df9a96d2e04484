-- ===== src/Validation/Commands/Tasks.antt =====
-- The commands create_task to set_event_retention_days of COMMAND_SPECS (synapse/validation.py).
use synapse_messenger.Prelude.{List, [], ◌∷◌, true, false}
use synapse_messenger.Validation.Params.{
  Spec, spec, param, of_bool_type, of_dict, of_int, of_list, of_str, optional_param, required,
  of_bool, of_budget, of_business_reference, of_deadline, of_depends_on, of_due_at, of_event_types,
  of_limit, of_optional_client_id, of_organization_name, of_positive_seconds, of_priority_filter,
  of_reason, of_retention_days, of_sender_filter, of_task_description, of_task_priority,
  of_task_result, of_task_state, of_task_title, of_username, of_uuid, unchecked,
}

abbrev pub task_commands : List Spec
task_commands =
    spec "create_task"
      (param "title" of_str required of_task_title
        ∷ param "description" of_str optional_param of_task_description
        ∷ param "assignee_username" of_str required of_username
        ∷ param "priority" of_str optional_param of_task_priority
        ∷ param "due_at" of_str optional_param of_due_at
        ∷ param "deadline" of_dict optional_param of_deadline
        ∷ param "depends_on" of_list optional_param of_depends_on
        ∷ param "business_reference" of_str optional_param of_business_reference
        ∷ param "client_task_id" of_str optional_param of_optional_client_id
        ∷ param "my_name_auth" of_str required unchecked
        ∷ param "my_password_auth" of_str required unchecked
        ∷ [])
      false
    ∷ spec "get_task"
        (param "task_id" of_str required of_uuid
          ∷ param "my_name_auth" of_str required unchecked
          ∷ param "my_password_auth" of_str required unchecked
          ∷ [])
        false
    ∷ spec "list_tasks"
        (param "assignee_username" of_str optional_param of_sender_filter
          ∷ param "state" of_str optional_param of_task_state
          ∷ param "priority" of_str optional_param of_priority_filter
          ∷ param "due_before" of_str optional_param of_due_at
          ∷ param "limit" of_int optional_param of_limit
          ∷ param "cursor" of_str optional_param unchecked
          ∷ param "my_name_auth" of_str required unchecked
          ∷ param "my_password_auth" of_str required unchecked
          ∷ [])
        false
    ∷ spec "update_task_state"
        (param "task_id" of_str required of_uuid
          ∷ param "new_state" of_str required of_task_state
          ∷ param "result" of_str optional_param of_task_result
          ∷ param "my_name_auth" of_str required unchecked
          ∷ param "my_password_auth" of_str required unchecked
          ∷ [])
        false
    ∷ spec "transfer_task"
        (param "task_id" of_str required of_uuid
          ∷ param "assignee_username" of_str required of_username
          ∷ param "note" of_str optional_param of_reason
          ∷ param "my_name_auth" of_str required unchecked
          ∷ param "my_password_auth" of_str required unchecked
          ∷ [])
        false
    ∷ spec "request_approval"
        (param "task_id" of_str required of_uuid
          ∷ param "approver_username" of_str required of_username
          ∷ param "my_name_auth" of_str required unchecked
          ∷ param "my_password_auth" of_str required unchecked
          ∷ [])
        false
    ∷ spec "approve_task"
        (param "task_id" of_str required of_uuid
          ∷ param "my_name_auth" of_str required unchecked
          ∷ param "my_password_auth" of_str required unchecked
          ∷ [])
        false
    ∷ spec "reject_task"
        (param "task_id" of_str required of_uuid
          ∷ param "reason" of_str optional_param of_reason
          ∷ param "my_name_auth" of_str required unchecked
          ∷ param "my_password_auth" of_str required unchecked
          ∷ [])
        false
    ∷ spec "get_my_work"
        (param "limit" of_int optional_param of_limit
          ∷ param "cursor" of_str optional_param unchecked
          ∷ param "my_name_auth" of_str required unchecked
          ∷ param "my_password_auth" of_str required unchecked
          ∷ [])
        false
    ∷ spec "get_events"
        (param "types" of_list optional_param of_event_types
          ∷ param "limit" of_int optional_param of_limit
          ∷ param "cursor" of_str optional_param unchecked
          ∷ param "my_name_auth" of_str required unchecked
          ∷ param "my_password_auth" of_str required unchecked
          ∷ [])
        false
    ∷ spec "set_escalation_policy"
        (param "enabled" of_bool_type required of_bool
          ∷ param "due_after_seconds" of_int required of_positive_seconds
          ∷ param "failed_after_seconds" of_int required of_positive_seconds
          ∷ param "escalate_to_username" of_str required of_username
          ∷ param "organization_name_auth" of_str required of_organization_name
          ∷ param "organization_password_auth" of_str required unchecked
          ∷ [])
        true
    ∷ spec "get_escalation_policy"
        (param "organization_name_auth" of_str required of_organization_name
          ∷ param "organization_password_auth" of_str required unchecked
          ∷ [])
        true
    ∷ spec "set_agent_budget"
        (param "username" of_str required of_username
          ∷ param "max_active_tasks" of_int optional_param of_budget
          ∷ param "max_messages_per_hour" of_int optional_param of_budget
          ∷ param "organization_name_auth" of_str required of_organization_name
          ∷ param "organization_password_auth" of_str required unchecked
          ∷ [])
        true
    ∷ spec "set_event_retention_days"
        (param "days" of_int required of_retention_days
          ∷ param "organization_name_auth" of_str required of_organization_name
          ∷ param "organization_password_auth" of_str required unchecked
          ∷ [])
        true
    ∷ []
