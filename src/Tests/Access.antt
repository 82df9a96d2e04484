-- ===== src/Tests/Access.antt =====
-- Authentication, organizations and groups on the small server.
use synapse_messenger.Prelude.{
  Option, Bool, false, ℕ, ◌≡◌, refl, none, some, true, List, [], ◌∷◌, arith,
}
use synapse_messenger.Errors.{ok, ◌>>=◌, raise_if, or_raise}
use synapse_messenger.Db.{Db, Account, of_user, Group, GroupMessage}
use synapse_messenger.Store.Accounts
use synapse_messenger.Store.Audit
use synapse_messenger.Store.AuthFailures
use synapse_messenger.Service.Auth.{AuthState, cached_password_ok}
use synapse_messenger.Service.Attempts.{Guess}
use synapse_messenger.Service.PasswordCache.{IsSound, cache_agrees}
use synapse_messenger.Service.Guards
use synapse_messenger.Service.Organizations
use synapse_messenger.Service.Settings
use synapse_messenger.Store.Cards.{get_card}
use synapse_messenger.Service.Structure
use synapse_messenger.Service.Settings.{NewBudget}
use synapse_messenger.Service.Untouched.{retention_row}
use synapse_messenger.Service.Budgets.{IsMerged, agent_budget-IsMerged}
use synapse_messenger.Db.{AgentBudget}
use synapse_messenger.Service.Tenancy.{deactivate_agent, run_org_request, org_commands_stay_inside}
use synapse_messenger.Service.Groups
use synapse_messenger.Service.Groups.{
  NewGroupMessage, is_member, get_group, group_require_member, agent_send_group_message,
}
use synapse_messenger.Service.Membership.{
  remove_group_member, run_group_request, membership_is_kept,
}
use synapse_messenger.Service.GroupPolicies.{GroupSent, group_send_respects_policies}
use synapse_messenger.Service.GroupRetries.{key_hides_message}
use synapse_messenger.Store.Tasks
use synapse_messenger.Service.Organizations.{agent_create_delegation, agent_revoke_delegation}
use synapse_messenger.Service.Delegations.{Granted, delegation_grants}
use synapse_messenger.Tests.Data.{db, env, later, noon, team, account, secrets, attempt, result_of}

abbrev guess : ℕ → Guess
guess password = record { at = attempt; password = password }

abbrev guesses : List Guess
guesses = guess 1 ∷ guess 2 ∷ guess 3 ∷ guess 4 ∷ guess 7 ∷ []

-- The cache holds one entry, made at a login of account 1.
abbrev entry_state : AuthState
entry_state = record {
  failures = [];
  cache = record { key = of_user 1; password_hash = 500; digest = 7; expires = 50 } ∷ [];
}

entry_state-IsSound : IsSound secrets entry_state.cache
entry_state-IsSound = ((7, refl, refl), tt)

cache_agrees_example :
    ((cached_password_ok secrets attempt (of_user 1) 500 7 entry_state.cache).0 ≡ true)
    × IsSound secrets (cached_password_ok secrets attempt (of_user 1) 500 7 entry_state.cache).1
cache_agrees_example =
    cache_agrees secrets attempt (of_user 1) 500 7 entry_state.cache (λ a b e. e)
      entry_state-IsSound

abbrev deactivated : ℕ × Db
deactivated = (2, Accounts.set_status 2 synapse_messenger.Db.disabled db)

org_commands_stay_inside_example :
    (Accounts.get deactivated.1 3 ≡ some (account 3 11))
    × (Accounts.get_organization deactivated.1 11 ≡ Accounts.get_organization db 11)
    × (Guards.budget_of deactivated.1 3 ≡ Guards.budget_of db 3)
    × (Settings.org_get_escalation_policy deactivated.1 11
        ≡ Settings.org_get_escalation_policy db 11)
    × (retention_row deactivated.1 11 ≡ retention_row db 11)
    × (Structure.membership_of deactivated.1 3 ≡ Structure.membership_of db 3)
    × (get_card deactivated.1 3 ≡ get_card db 3)
    × ((name : ℕ)
        → Structure.has_department deactivated.1 11 name ≡ Structure.has_department db 11 name)
unfolding run_org_request Organizations.org_deactivate_agent Organizations.org_require_member
    Accounts.get ◌>>=◌ raise_if
org_commands_stay_inside_example =
    org_commands_stay_inside env 10 3 11 (deactivate_agent 2) db (account 3 11) (omega arith) refl
      (omega arith) refl

-- Agent 2 gets one limit, and later the other one.
abbrev first_limit : NewBudget
first_limit = record { username = 2; max_active_tasks = some 3; max_messages_per_hour = none }

abbrev second_limit : NewBudget
second_limit = record { username = 2; max_active_tasks = none; max_messages_per_hour = some 5 }

abbrev limited : Option AgentBudget × Db
limited = result_of (none, db) (Settings.org_set_agent_budget env first_limit 10 noon db)

abbrev raised : Option AgentBudget × Db
raised = result_of (none, db) (Settings.org_set_agent_budget env second_limit 10 noon limited.1)

agent_budget-IsMerged_example :
    (raised.0 ≡ Guards.budget_of raised.1 2)
    × IsMerged second_limit (Guards.budget_of limited.1 2) raised.0
unfolding Settings.org_set_agent_budget Organizations.org_require_member Settings.put_budget
    Settings.delete_budget Guards.budget_of Accounts.get Audit.append ◌>>=◌ raise_if
agent_budget-IsMerged_example =
    agent_budget-IsMerged env second_limit 10 noon limited.1 {a = raised} refl

-- Account 3 leaves the group.
abbrev left : Db
left = result_of db (run_group_request env 3 (remove_group_member 70 3) noon db)

membership_is_kept_example : is_member left 70 2 ≡ true
unfolding run_group_request Groups.agent_remove_group_member Groups.group_require_member is_member
    get_group Groups.delete_member Guards.org_of Accounts.get ◌>>=◌ raise_if or_raise Audit.append
membership_is_kept_example =
    membership_is_kept env 3 (remove_group_member 70 3) noon db 70 2 team refl refl (omega arith)
      (omega arith) refl

abbrev hello : NewGroupMessage
hello = record { group_id = 70; content = "hello"; client_message_id = some 5 }

abbrev goodbye : NewGroupMessage
goodbye = record { group_id = 70; content = "goodbye"; client_message_id = some 5 }

abbrev no_message : GroupMessage
no_message = record {
  message_id = 0;
  group_id = 0;
  client_message_id = none;
  sender_username = 0;
  content = "";
  created_at = 0;
}

abbrev greeted : GroupMessage × Db
greeted = result_of (no_message, db) (agent_send_group_message env hello 1 noon db)

key_hides_message_example : agent_send_group_message later goodbye 1 noon greeted.1 ≡ ok greeted
unfolding agent_send_group_message Groups.group_send_new Groups.group_require_member is_member
    get_group Groups.find_group_message Groups.get_group_message Groups.members
    Guards.check_message_budget Guards.budget_of Guards.external_comm_allowed Guards.org_of
    Accounts.get Accounts.get_organization ◌>>=◌ raise_if or_raise Audit.append
key_hides_message_example =
    key_hides_message env later hello goodbye 1 5 noon noon db team refl refl refl refl

group_send_respects_policies_example : GroupSent hello 1 db greeted
unfolding agent_send_group_message Groups.group_send_new Groups.group_require_member is_member
    get_group Groups.find_group_message Groups.get_group_message Groups.members
    Guards.check_message_budget Guards.budget_of Guards.external_comm_allowed Guards.org_of
    Accounts.get Accounts.get_organization ◌>>=◌ raise_if or_raise Audit.append
group_send_respects_policies_example = group_send_respects_policies env hello 1 noon db refl refl

-- Account 1 delegates task 50 to account 3, and account 3 sees it before the delegation expires.
abbrev delegated : ℕ × Db
delegated = result_of (0, db) (agent_create_delegation env 50 3 9000 1 noon db)

delegation_grants_example : Granted env 50 3 9000 1 8000 db delegated.1
unfolding agent_create_delegation Tasks.get Guards.task_visible_or_404 Guards.require_active_account
    Guards.external_comm_allowed Guards.org_of Accounts.get Accounts.get_organization ◌>>=◌ raise_if
    or_raise Audit.append
delegation_grants_example = delegation_grants env 50 3 9000 1 8000 noon db (omega arith) refl

abbrev revoked : Bool × Db
revoked = result_of (false, db) (agent_revoke_delegation env 50 3 1 noon delegated.1)
