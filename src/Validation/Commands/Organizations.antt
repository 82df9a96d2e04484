-- ===== src/Validation/Commands/Organizations.antt =====
-- The commands create_agent to change_organization_password of COMMAND_SPECS (synapse/validation.py).
use synapse_messenger.Prelude.{List, [], ◌∷◌, true}
use synapse_messenger.Validation.Params.{
  Spec, spec, param, of_bool_type, of_int, of_str, optional_param, required, of_bool,
  of_description, of_limit, of_organization_name, of_password, of_principal_type, of_username,
  unchecked,
}

abbrev pub organization_commands : List Spec
organization_commands =
    spec "create_agent"
      (param "username" of_str required of_username
        ∷ param "password" of_str required of_password
        ∷ param "description" of_str required of_description
        ∷ param "can_see_org_agents" of_bool_type optional_param of_bool
        ∷ param "principal_type" of_str optional_param of_principal_type
        ∷ param "organization_name_auth" of_str required of_organization_name
        ∷ param "organization_password_auth" of_str required unchecked
        ∷ [])
      true
    ∷ spec "deactivate_agent"
        (param "username" of_str required of_username
          ∷ param "organization_name_auth" of_str required of_organization_name
          ∷ param "organization_password_auth" of_str required unchecked
          ∷ [])
        true
    ∷ spec "reactivate_agent"
        (param "username" of_str required of_username
          ∷ param "organization_name_auth" of_str required of_organization_name
          ∷ param "organization_password_auth" of_str required unchecked
          ∷ [])
        true
    ∷ spec "change_agent_password"
        (param "username" of_str required of_username
          ∷ param "new_password" of_str required of_password
          ∷ param "organization_name_auth" of_str required of_organization_name
          ∷ param "organization_password_auth" of_str required unchecked
          ∷ [])
        true
    ∷ spec "set_agent_visibility"
        (param "username" of_str required of_username
          ∷ param "can_see_org_agents" of_bool_type required of_bool
          ∷ param "organization_name_auth" of_str required of_organization_name
          ∷ param "organization_password_auth" of_str required unchecked
          ∷ [])
        true
    ∷ spec "get_org_agents"
        (param "organization_name_auth" of_str required of_organization_name
          ∷ param "organization_password_auth" of_str required unchecked
          ∷ param "limit" of_int optional_param of_limit
          ∷ param "cursor" of_str optional_param unchecked
          ∷ [])
        true
    ∷ spec "set_organization_policy"
        (param "allow_incoming_external" of_bool_type required of_bool
          ∷ param "allow_outgoing_external" of_bool_type required of_bool
          ∷ param "organization_name_auth" of_str required of_organization_name
          ∷ param "organization_password_auth" of_str required unchecked
          ∷ [])
        true
    ∷ spec "get_organization_policy"
        (param "organization_name_auth" of_str required of_organization_name
          ∷ param "organization_password_auth" of_str required unchecked
          ∷ [])
        true
    ∷ spec "change_organization_password"
        (param "new_password" of_str required of_password
          ∷ param "organization_name_auth" of_str required of_organization_name
          ∷ param "organization_password_auth" of_str required unchecked
          ∷ [])
        true
    ∷ []
