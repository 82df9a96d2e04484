-- ===== src/Validation/Commands/Groups.antt =====
-- The commands create_group to get_my_delegations of COMMAND_SPECS (synapse/validation.py).
use synapse_messenger.Prelude.{List, [], ◌∷◌, false}
use synapse_messenger.Validation.Params.{
  Spec, spec, param, of_int, of_str, optional_param, required, of_content, of_due_at, of_group_name,
  of_limit, of_optional_client_id, of_username, of_uuid, unchecked,
}

abbrev pub group_commands : List Spec
group_commands =
    spec "create_group"
      (param "name" of_str required of_group_name
        ∷ param "my_name_auth" of_str required unchecked
        ∷ param "my_password_auth" of_str required unchecked
        ∷ [])
      false
    ∷ spec "add_group_member"
        (param "group_id" of_str required of_uuid
          ∷ param "username" of_str required of_username
          ∷ param "my_name_auth" of_str required unchecked
          ∷ param "my_password_auth" of_str required unchecked
          ∷ [])
        false
    ∷ spec "remove_group_member"
        (param "group_id" of_str required of_uuid
          ∷ param "username" of_str required of_username
          ∷ param "my_name_auth" of_str required unchecked
          ∷ param "my_password_auth" of_str required unchecked
          ∷ [])
        false
    ∷ spec "send_group_message"
        (param "group_id" of_str required of_uuid
          ∷ param "message" of_str required of_content
          ∷ param "client_message_id" of_str optional_param of_optional_client_id
          ∷ param "my_name_auth" of_str required unchecked
          ∷ param "my_password_auth" of_str required unchecked
          ∷ [])
        false
    ∷ spec "get_group_messages"
        (param "group_id" of_str required of_uuid
          ∷ param "limit" of_int optional_param of_limit
          ∷ param "cursor" of_str optional_param unchecked
          ∷ param "my_name_auth" of_str required unchecked
          ∷ param "my_password_auth" of_str required unchecked
          ∷ [])
        false
    ∷ spec "get_group_members"
        (param "group_id" of_str required of_uuid
          ∷ param "limit" of_int optional_param of_limit
          ∷ param "cursor" of_str optional_param unchecked
          ∷ param "my_name_auth" of_str required unchecked
          ∷ param "my_password_auth" of_str required unchecked
          ∷ [])
        false
    ∷ spec "list_my_groups"
        (param "limit" of_int optional_param of_limit
          ∷ param "cursor" of_str optional_param unchecked
          ∷ param "my_name_auth" of_str required unchecked
          ∷ param "my_password_auth" of_str required unchecked
          ∷ [])
        false
    ∷ spec "get_agent_reputation"
        (param "username" of_str required of_username
          ∷ param "my_name_auth" of_str required unchecked
          ∷ param "my_password_auth" of_str required unchecked
          ∷ [])
        false
    ∷ spec "create_delegation"
        (param "task_id" of_str required of_uuid
          ∷ param "delegatee_username" of_str required of_username
          ∷ param "expires_at" of_str required of_due_at
          ∷ param "my_name_auth" of_str required unchecked
          ∷ param "my_password_auth" of_str required unchecked
          ∷ [])
        false
    ∷ spec "revoke_delegation"
        (param "task_id" of_str required of_uuid
          ∷ param "delegatee_username" of_str required of_username
          ∷ param "my_name_auth" of_str required unchecked
          ∷ param "my_password_auth" of_str required unchecked
          ∷ [])
        false
    ∷ spec "get_my_delegations"
        (param "limit" of_int optional_param of_limit
          ∷ param "cursor" of_str optional_param unchecked
          ∷ param "my_name_auth" of_str required unchecked
          ∷ param "my_password_auth" of_str required unchecked
          ∷ [])
        false
    ∷ []
