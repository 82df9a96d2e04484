-- ===== src/Service/Dispatch.antt =====
-- The dispatch of a validated command (synapse/service.py: Service._dispatch, Service._audit_action and
-- the tables that they read). The handlers are modelled on their own: what a call decides here is the
-- table that it takes the handler from, or the refusal.
pub mod Access
use synapse_messenger.Prelude.{
  ℕ, Bool, true, false, not, ◌&&◌, ◌||◌, Option, none, some, List, [], ◌∷◌, map, String,
  if◌then◌else◌,
}
use synapse_messenger.Errors.{Result, ok, err, access_denied, internal_error}
use synapse_messenger.Db.{Account, PrincipalType, agent, human}
use synapse_messenger.Validation.{points, is_in, same_text}

-- _ORG_HANDLERS, by the commands
abbrev pub org_handlers : List (List ℕ)
org_handlers = map points (
    "create_agent" ∷ "deactivate_agent" ∷ "reactivate_agent" ∷ "change_agent_password"
    ∷ "set_agent_visibility" ∷ "get_org_agents" ∷ "set_organization_policy"
    ∷ "get_organization_policy" ∷ "change_organization_password" ∷ "change_agent_description"
    ∷ "approve_agent_card" ∷ "set_escalation_policy" ∷ "get_escalation_policy" ∷ "set_agent_budget"
    ∷ "create_department" ∷ "set_agent_department" ∷ "get_org_structure" ∷ "get_org_audit"
    ∷ "get_org_metrics" ∷ "get_server_status" ∷ "create_observer_account"
    ∷ "revoke_observer_account" ∷ "list_observers" ∷ "set_event_retention_days" ∷ [])

-- _HUMAN_HANDLERS, by the commands
abbrev pub human_handlers : List (List ℕ)
human_handlers =
    map points
      ("create_org" ∷ "disable_org" ∷ "list_org_conversations" ∷ "get_org_conversation" ∷ [])

-- _AGENT_HANDLERS, by the commands
abbrev pub agent_handlers : List (List ℕ)
agent_handlers = map points (
    "get_my_organization" ∷ "get_agent_description" ∷ "list_org_agents" ∷ "help" ∷ "send_message"
    ∷ "get_messages" ∷ "get_conversation" ∷ "read_message" ∷ "get_notifications"
    ∷ "mark_conversation_no_reply" ∷ "set_agent_card" ∷ "get_agent_card" ∷ "find_agents"
    ∷ "create_task" ∷ "get_task" ∷ "list_tasks" ∷ "update_task_state" ∷ "transfer_task"
    ∷ "request_approval" ∷ "approve_task" ∷ "reject_task" ∷ "get_my_work" ∷ "get_events"
    ∷ "list_department_tasks" ∷ "create_group" ∷ "add_group_member" ∷ "remove_group_member"
    ∷ "send_group_message" ∷ "get_group_messages" ∷ "get_group_members" ∷ "list_my_groups"
    ∷ "get_agent_reputation" ∷ "create_delegation" ∷ "revoke_delegation" ∷ "get_my_delegations"
    ∷ "get_org_snapshot" ∷ [])

-- _AUDITED_COMMANDS
abbrev pub audited_commands : List (List ℕ)
audited_commands = map points (
    "create_agent" ∷ "deactivate_agent" ∷ "reactivate_agent" ∷ "change_agent_password"
    ∷ "set_agent_visibility" ∷ "set_organization_policy" ∷ "change_organization_password"
    ∷ "change_agent_description" ∷ "send_message" ∷ "read_message" ∷ "mark_conversation_no_reply"
    ∷ "set_agent_card" ∷ "approve_agent_card" ∷ "create_department" ∷ "set_agent_department"
    ∷ "create_org" ∷ "disable_org" ∷ "get_org_conversation" ∷ [])

-- _OBSERVER_READ_COMMANDS
abbrev pub observer_read_commands : List (List ℕ)
observer_read_commands = map points (
    "get_my_organization" ∷ "get_agent_description" ∷ "list_org_agents" ∷ "get_messages"
    ∷ "get_conversation" ∷ "get_notifications" ∷ "help" ∷ "get_agent_card" ∷ "find_agents"
    ∷ "get_task" ∷ "list_tasks" ∷ "get_my_work" ∷ "get_events" ∷ "get_group_messages"
    ∷ "get_group_members" ∷ "list_my_groups" ∷ "get_agent_reputation" ∷ "get_my_delegations"
    ∷ "get_org_snapshot" ∷ [])

abbrev pub is_command : String → List ℕ → Bool
is_command name command = same_text command (points name)

abbrev pub is_observer : Option Account → Bool
is_observer none = false
is_observer (some row) = row.is_observer

abbrev pub is_human_type : PrincipalType → Bool
is_human_type human = true
is_human_type agent = false

-- row is not None and row["principal_type"] == "human"
abbrev pub is_human : Option Account → Bool
is_human none = false
is_human (some row) = is_human_type row.principal_type

-- Where the handler is taken from
pub data Route : Type 0 where
  org_handler human_handler agent_handler : Route
  -- _human_list_orgs, with web_local
  list_orgs : Bool → Route
  -- _human_create_org for the local web identity
  create_org : Route

-- _dispatch after the authentication of a principal, who is the local web identity or not
unfoldable pub route_principal : List ℕ → Bool → Option Account → Result Route
route_principal command web_local row =
    if is_observer row && not (is_in command observer_read_commands)
    then err access_denied
    else if is_command "list_orgs" command
    then (if not web_local && not (is_human row)
        then err access_denied
        else ok (list_orgs web_local))
    else if web_local
    then (if is_command "create_org" command then ok create_org else err access_denied)
    else if is_in command human_handlers
    then (if not (is_human row) then err access_denied else ok human_handler)
    else if is_in command agent_handlers
    then ok agent_handler
    else err internal_error

-- _dispatch, where `org` is the mark of the command's declaration; a missing handler is a KeyError.
unfoldable pub route : Bool → List ℕ → Bool → Option Account → Result Route
route true command web_local row =
    if is_in command org_handlers then ok org_handler else err internal_error
route false command web_local row = route_principal command web_local row

-- _audit_action writes a line; the routes of the local web identity return before it.
unfoldable pub is_audited : Route → List ℕ → Bool
is_audited org_handler command = is_in command audited_commands
is_audited human_handler command = is_in command audited_commands
is_audited agent_handler command = is_in command audited_commands
is_audited (list_orgs web_local) command = false
is_audited create_org command = false
