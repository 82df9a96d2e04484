-- ===== src/Service/Settings.antt =====
-- The settings of an organization: retention, escalation policy and budgets, and the organizations
-- that human accounts create and disable (synapse/service.py; organizations.insert of the store).
use synapse_messenger.Prelude.{
  ℕ, Option, none, some, Bool, true, false, not, ◌∷◌, find, select, update, is_some, ◌==◌,
  if◌then◌else◌, String,
}
use synapse_messenger.Hlc.{Clock}
use synapse_messenger.Errors.{
  Result, ok, ◌>>=◌, ◌>>◌, raise_if, or_raise, invalid_argument, access_denied,
}
use synapse_messenger.Db.{Db, AgentBudget, EscalationPolicy, word, active, human}
use synapse_messenger.Store.Accounts
use synapse_messenger.Store.Keys.{insert_or_update}
use synapse_messenger.Service.Common.{Env}
use synapse_messenger.Service.Guards.{org_of, budget_of}
use synapse_messenger.Service.Tasks.{task_entry as audit}
use synapse_messenger.Service.Organizations.{org_require_member, insert_account}

-- INSERT INTO org_settings
unfoldable pub put_retention : ℕ → ℕ → Db → Db
put_retention org_name days d = record d {
  org_settings =
      insert_or_update (λ s. s.organization_name == org_name)
        (λ s. record s { event_retention_days = days })
        (record { organization_name = org_name; event_retention_days = days }) d.org_settings;
}

-- _org_set_event_retention_days
unfoldable pub org_set_event_retention_days : Env → ℕ → ℕ → Clock → Db → Result (ℕ × Db)
org_set_event_retention_days env days org_name hlc d = ok (
  days,
  audit org_name env.at org_name "set_event_retention_days" org_name (word "ok") hlc
      (put_retention org_name days d),
)

-- INSERT INTO org_escalation_policy: every column but the key is replaced, so the row is.
unfoldable pub put_policy : EscalationPolicy → Db → Db
put_policy p d = record d {
  org_escalation_policy =
      insert_or_update (λ r. r.organization_name == p.organization_name)
        (λ r. record r {
          enabled = p.enabled;
          due_after_seconds = p.due_after_seconds;
          failed_after_seconds = p.failed_after_seconds;
          escalate_to_username = p.escalate_to_username;
        })
        p d.org_escalation_policy;
}

-- The parameters of set_escalation_policy
pub record NewPolicy : Type 0 where
  pub enabled : Bool
  pub due_after_seconds : ℕ
  pub failed_after_seconds : ℕ
  pub escalate_to_username : ℕ

-- _org_set_escalation_policy: the answer repeats the parameters
unfoldable pub org_set_escalation_policy :
    Env → NewPolicy → ℕ → Clock → Db → Result (NewPolicy × Db)
org_set_escalation_policy env p org_name hlc d = do
  row ← org_require_member d p.escalate_to_username org_name
  let policy : EscalationPolicy = record {
    organization_name = org_name;
    enabled = p.enabled;
    due_after_seconds = p.due_after_seconds;
    failed_after_seconds = p.failed_after_seconds;
    escalate_to_username = p.escalate_to_username;
  }
  ok (
    p,
    audit org_name env.at org_name "set_escalation_policy" org_name (word "ok") hlc
        (put_policy policy d),
  )

-- _org_get_escalation_policy: the default state, which `none` is, has all its fields null
unfoldable pub org_get_escalation_policy : Db → ℕ → Option EscalationPolicy
org_get_escalation_policy d org_name =
    find (λ r. r.organization_name == org_name) d.org_escalation_policy

abbrev pub coalesce : Option ℕ → Option ℕ → Option ℕ
coalesce none old = old
coalesce (some n) old = some n

-- The parameters of set_agent_budget
pub record NewBudget : Type 0 where
  pub username : ℕ
  pub max_active_tasks : Option ℕ
  pub max_messages_per_hour : Option ℕ

-- DELETE FROM agent_budgets WHERE username = ?
unfoldable pub delete_budget : ℕ → Db → Db
delete_budget username d = record d {
  agent_budgets = select (λ b. not (b.username == username)) d.agent_budgets;
}

-- INSERT INTO agent_budgets ... COALESCE(excluded, agent_budgets)
unfoldable pub put_budget : NewBudget → Db → Db
put_budget p d = record d {
  agent_budgets =
      insert_or_update (λ b. b.username == p.username)
        (λ b. record b {
          max_active_tasks = coalesce p.max_active_tasks b.max_active_tasks;
          max_messages_per_hour = coalesce p.max_messages_per_hour b.max_messages_per_hour;
        })
        (record {
          username = p.username;
          max_active_tasks = p.max_active_tasks;
          max_messages_per_hour = p.max_messages_per_hour;
        })
        d.agent_budgets;
}

abbrev pub write_budget : NewBudget → Db → Db
write_budget p d =
    if is_some p.max_active_tasks
    then put_budget p d
    else if is_some p.max_messages_per_hour
    then put_budget p d
    else delete_budget p.username d

-- _org_set_agent_budget: the answer is the row as it is stored, read after the transaction
unfoldable pub org_set_agent_budget :
    Env → NewBudget → ℕ → Clock → Db → Result (Option AgentBudget × Db)
org_set_agent_budget env p org_name hlc d = do
  row ← org_require_member d p.username org_name
  let d1 =
      audit org_name env.at org_name "set_agent_budget" p.username (word "ok") hlc
        (write_budget p d)
  ok (budget_of d1 p.username, d1)

-- organizations.insert with both policies left at their default
unfoldable pub insert_organization : ℕ → ℕ → Db → Db
insert_organization organization_name password_hash d = record d {
  organizations =
      record {
        organization_name = organization_name;
        password_hash = password_hash;
        allow_incoming_external = false;
        allow_outgoing_external = false;
        enabled = true;
      }
      ∷ d.organizations;
}

-- What _human_create_org computes before its transaction: the name and the hash of the human account
-- (human_username_for, human_password_sentinel), its description, and the organization's hash.
pub record NewOrganization : Type 0 where
  pub organization_name : ℕ
  pub organization_password_hash : ℕ
  pub human_name : ℕ
  pub human_hash : ℕ
  pub description : String

-- _human_create_org
unfoldable pub human_create_org : Env → NewOrganization → Db → Result ((ℕ × ℕ) × Db)
human_create_org env p d = do
  raise_if (is_some (Accounts.get_organization d p.organization_name)) invalid_argument
  raise_if (is_some (Accounts.get d p.human_name)) invalid_argument
  ok (
    (p.organization_name, p.human_name),
    insert_account
        (record {
          username = p.human_name;
          password_hash = p.human_hash;
          status = active;
          description = p.description;
          organization_name = p.organization_name;
          can_see_org_agents = true;
          created_at = env.now;
          principal_type = human;
          is_observer = false;
        })
        (insert_organization p.organization_name p.organization_password_hash d),
  )

-- UPDATE organizations SET enabled = 0
unfoldable pub disable_organization : ℕ → Db → Db
disable_organization name d = record d {
  organizations =
      update (λ o. o.organization_name == name) (λ o. record o { enabled = false }) d.organizations;
}

-- _human_disable_org: `seen` is the database before the transaction, `d` the transaction's
unfoldable pub human_disable_org : ℕ → ℕ → Db → Db → Result (ℕ × Db)
human_disable_org target me seen d = do
  me_org ← org_of seen me
  raise_if (not (target == me_org)) access_denied
  row ← or_raise (Accounts.get_organization d target) invalid_argument
  raise_if (not row.enabled) invalid_argument
  ok (target, disable_organization target d)
