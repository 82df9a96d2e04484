-- ===== src/Validation/Commands/Structure.antt =====
-- The commands create_department to get_server_status of COMMAND_SPECS (synapse/validation.py).
use synapse_messenger.Prelude.{List, [], ◌∷◌, true, false}
use synapse_messenger.Validation.Params.{
  Spec, spec, param, of_int, of_str, optional_param, required, of_department_name, of_due_at,
  of_limit, of_org_role, of_organization_name, of_sender_filter, of_username, unchecked,
}

abbrev pub structure_commands : List Spec
structure_commands =
    spec "create_department"
      (param "department_name" of_str required of_department_name
        ∷ param "organization_name_auth" of_str required of_organization_name
        ∷ param "organization_password_auth" of_str required unchecked
        ∷ [])
      true
    ∷ spec "set_agent_department"
        (param "username" of_str required of_username
          ∷ param "department_name" of_str required of_department_name
          ∷ param "role" of_str required of_org_role
          ∷ param "organization_name_auth" of_str required of_organization_name
          ∷ param "organization_password_auth" of_str required unchecked
          ∷ [])
        true
    ∷ spec "get_org_structure"
        (param "organization_name_auth" of_str required of_organization_name
          ∷ param "organization_password_auth" of_str required unchecked
          ∷ [])
        true
    ∷ spec "list_department_tasks"
        (param "department_name" of_str required of_department_name
          ∷ param "limit" of_int optional_param of_limit
          ∷ param "cursor" of_str optional_param unchecked
          ∷ param "my_name_auth" of_str required unchecked
          ∷ param "my_password_auth" of_str required unchecked
          ∷ [])
        false
    ∷ spec "get_org_audit"
        (param "since" of_str optional_param of_due_at
          ∷ param "actor_username" of_str optional_param of_sender_filter
          ∷ param "command" of_str optional_param unchecked
          ∷ param "limit" of_int optional_param of_limit
          ∷ param "cursor" of_str optional_param unchecked
          ∷ param "organization_name_auth" of_str required of_organization_name
          ∷ param "organization_password_auth" of_str required unchecked
          ∷ [])
        true
    ∷ spec "get_org_metrics"
        (param "organization_name_auth" of_str required of_organization_name
          ∷ param "organization_password_auth" of_str required unchecked
          ∷ [])
        true
    ∷ spec "get_server_status"
        (param "organization_name_auth" of_str required of_organization_name
          ∷ param "organization_password_auth" of_str required unchecked
          ∷ [])
        true
    ∷ []
