-- ===== src/Validation/Commands/Cards.antt =====
-- The commands set_agent_card to find_agents of COMMAND_SPECS (synapse/validation.py).
use synapse_messenger.Prelude.{List, [], ◌∷◌, true, false}
use synapse_messenger.Validation.Params.{
  Spec, spec, param, of_int, of_list, of_str, optional_param, required, of_capabilities,
  of_capability_filter, of_card_text, of_card_text_filter, of_limit, of_organization_name, of_tools,
  of_username, unchecked,
}

abbrev pub card_commands : List Spec
card_commands =
    spec "set_agent_card"
      (param "capabilities" of_list required of_capabilities
        ∷ param "domain" of_str optional_param (of_card_text 128)
        ∷ param "model" of_str optional_param (of_card_text 128)
        ∷ param "tools" of_list optional_param of_tools
        ∷ param "sla" of_str optional_param (of_card_text 128)
        ∷ param "limits" of_str optional_param (of_card_text 256)
        ∷ param "estimated_cost" of_str optional_param (of_card_text 128)
        ∷ param "my_name_auth" of_str required unchecked
        ∷ param "my_password_auth" of_str required unchecked
        ∷ [])
      false
    ∷ spec "get_agent_card"
        (param "username" of_str required of_username
          ∷ param "my_name_auth" of_str required unchecked
          ∷ param "my_password_auth" of_str required unchecked
          ∷ [])
        false
    ∷ spec "approve_agent_card"
        (param "username" of_str required of_username
          ∷ param "organization_name_auth" of_str required of_organization_name
          ∷ param "organization_password_auth" of_str required unchecked
          ∷ [])
        true
    ∷ spec "find_agents"
        (param "capability" of_str optional_param of_capability_filter
          ∷ param "domain" of_str optional_param of_card_text_filter
          ∷ param "name_contains" of_str optional_param of_card_text_filter
          ∷ param "limit" of_int optional_param of_limit
          ∷ param "cursor" of_str optional_param unchecked
          ∷ param "my_name_auth" of_str required unchecked
          ∷ param "my_password_auth" of_str required unchecked
          ∷ [])
        false
    ∷ []
