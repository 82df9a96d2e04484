-- ===== src/Validation/Commands/Messaging.antt =====
-- The commands get_my_organization to help of COMMAND_SPECS (synapse/validation.py).
use synapse_messenger.Prelude.{List, [], ◌∷◌, false}
use synapse_messenger.Validation.Params.{
  Spec, spec, param, of_int, of_str, optional_param, required, of_business_reference,
  of_client_message_id, of_command_name, of_content, of_limit, of_sender_filter, of_status,
  of_username, of_uuid, of_uuid_filter, unchecked,
}

abbrev pub messaging_commands : List Spec
messaging_commands =
    spec "get_my_organization"
      (param "my_name_auth" of_str required unchecked
        ∷ param "my_password_auth" of_str required unchecked
        ∷ [])
      false
    ∷ spec "get_agent_description"
        (param "username" of_str required of_username
          ∷ param "my_name_auth" of_str required unchecked
          ∷ param "my_password_auth" of_str required unchecked
          ∷ [])
        false
    ∷ spec "list_org_agents"
        (param "my_name_auth" of_str required unchecked
          ∷ param "my_password_auth" of_str required unchecked
          ∷ param "limit" of_int optional_param of_limit
          ∷ param "cursor" of_str optional_param unchecked
          ∷ [])
        false
    ∷ spec "send_message"
        (param "recipient_username" of_str required of_username
          ∷ param "message" of_str required of_content
          ∷ param "client_message_id" of_str required of_client_message_id
          ∷ param "business_reference" of_str optional_param of_business_reference
          ∷ param "my_name_auth" of_str required unchecked
          ∷ param "my_password_auth" of_str required unchecked
          ∷ [])
        false
    ∷ spec "get_messages"
        (param "my_name_auth" of_str required unchecked
          ∷ param "my_password_auth" of_str required unchecked
          ∷ param "status" of_str optional_param of_status
          ∷ param "sender_username" of_str optional_param of_sender_filter
          ∷ param "conversation_id" of_str optional_param of_uuid_filter
          ∷ param "limit" of_int optional_param of_limit
          ∷ param "cursor" of_str optional_param unchecked
          ∷ [])
        false
    ∷ spec "get_conversation"
        (param "other_username" of_str required of_username
          ∷ param "my_name_auth" of_str required unchecked
          ∷ param "my_password_auth" of_str required unchecked
          ∷ param "limit" of_int optional_param of_limit
          ∷ param "cursor" of_str optional_param unchecked
          ∷ [])
        false
    ∷ spec "read_message"
        (param "message_id" of_str required of_uuid
          ∷ param "my_name_auth" of_str required unchecked
          ∷ param "my_password_auth" of_str required unchecked
          ∷ [])
        false
    ∷ spec "get_notifications"
        (param "my_name_auth" of_str required unchecked
          ∷ param "my_password_auth" of_str required unchecked
          ∷ param "limit" of_int optional_param of_limit
          ∷ param "cursor" of_str optional_param unchecked
          ∷ [])
        false
    ∷ spec "mark_conversation_no_reply"
        (param "conversation_id" of_str required of_uuid
          ∷ param "my_name_auth" of_str required unchecked
          ∷ param "my_password_auth" of_str required unchecked
          ∷ [])
        false
    ∷ spec "help"
        (param "my_name_auth" of_str required unchecked
          ∷ param "my_password_auth" of_str required unchecked
          ∷ param "command_name" of_str optional_param of_command_name
          ∷ [])
        false
    ∷ []
