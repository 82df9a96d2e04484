-- ===== src/Validation/Commands/Humans.antt =====
-- The commands create_observer_account to list_orgs of COMMAND_SPECS (synapse/validation.py).
use synapse_messenger.Prelude.{List, [], ◌∷◌, true, false}
use synapse_messenger.Validation.Params.{
  Spec, spec, param, of_bool_type, of_int, of_str, optional_param, required, of_bool,
  of_description, of_limit, of_organization_name, of_password, of_username, of_uuid_filter,
  unchecked,
}

abbrev pub human_commands : List Spec
human_commands =
    spec "create_observer_account"
      (param "observer_name" of_str required of_username
        ∷ param "password" of_str required of_password
        ∷ param "description" of_str required of_description
        ∷ param "organization_name_auth" of_str required of_organization_name
        ∷ param "organization_password_auth" of_str required unchecked
        ∷ [])
      true
    ∷ spec "revoke_observer_account"
        (param "observer_name" of_str required of_username
          ∷ param "organization_name_auth" of_str required of_organization_name
          ∷ param "organization_password_auth" of_str required unchecked
          ∷ [])
        true
    ∷ spec "list_observers"
        (param "organization_name_auth" of_str required of_organization_name
          ∷ param "organization_password_auth" of_str required unchecked
          ∷ [])
        true
    ∷ spec "get_org_snapshot"
        (param "my_name_auth" of_str required unchecked
          ∷ param "my_password_auth" of_str required unchecked
          ∷ [])
        false
    ∷ spec "create_org"
        (param "organization_name" of_str required of_organization_name
          ∷ param "organization_password" of_str required of_password
          ∷ param "my_name_auth" of_str required unchecked
          ∷ param "my_password_auth" of_str required unchecked
          ∷ [])
        false
    ∷ spec "disable_org"
        (param "organization_name" of_str required of_organization_name
          ∷ param "my_name_auth" of_str required unchecked
          ∷ param "my_password_auth" of_str required unchecked
          ∷ [])
        false
    ∷ spec "list_org_conversations"
        (param "my_name_auth" of_str required unchecked
          ∷ param "my_password_auth" of_str required unchecked
          ∷ param "limit" of_int optional_param of_limit
          ∷ param "cursor" of_str optional_param unchecked
          ∷ [])
        false
    ∷ spec "get_org_conversation"
        (param "conversation_id" of_str required of_uuid_filter
          ∷ param "my_name_auth" of_str required unchecked
          ∷ param "my_password_auth" of_str required unchecked
          ∷ param "limit" of_int optional_param of_limit
          ∷ param "cursor" of_str optional_param unchecked
          ∷ [])
        false
    ∷ spec "change_agent_description"
        (param "username" of_str required of_username
          ∷ param "description" of_str required of_description
          ∷ param "organization_name_auth" of_str required of_organization_name
          ∷ param "organization_password_auth" of_str required unchecked
          ∷ [])
        true
    ∷ spec "list_orgs"
        (param "my_name_auth" of_str required unchecked
          ∷ param "my_password_auth" of_str required unchecked
          ∷ param "include_disabled" of_bool_type optional_param of_bool
          ∷ [])
        false
    ∷ []
