-- ===== src/Service/Guards.antt =====
-- The checks and the shared steps of the task handlers (synapse/service.py).
use synapse_messenger.Prelude.{
  ℕ, zero, suc, ◌+◌, Option, none, some, Bool, true, false, not, ◌&&◌, ◌||◌, List, [], ◌∷◌, ◌++◌,
  find, select, any, map, ◌==◌, ltb, leb, if◌then◌else◌,
}
use synapse_messenger.Hlc.{Clock}
use synapse_messenger.Errors.{
  Result, ok, err, ◌>>=◌, raise_if, or_raise, task_not_found, user_not_found, recipient_not_found,
  quota_exceeded, internal_error,
}
use synapse_messenger.Validation.{points}
use synapse_messenger.Db.{
  Db, Task, Account, AgentBudget, OrgSettings, EscalationPolicy, TaskDependency, escalated,
  task_escalated, automatic_escalation, word,
}
use synapse_messenger.Store.Accounts
use synapse_messenger.Store.Accounts.{is_active}
use synapse_messenger.Store.Audit
use synapse_messenger.Store.Events
use synapse_messenger.Store.Events.{now_utc_offset}
use synapse_messenger.Store.Tasks
use synapse_messenger.Service.Common.{Env}

-- _org_of
unfoldable pub org_of : Db → ℕ → Result ℕ
org_of d username = do
  row ← or_raise (Accounts.get d username) internal_error
  ok row.organization_name

-- the SELECT of a delegation that has not expired
unfoldable pub has_delegation : Db → ℕ → ℕ → ℕ → Bool
has_delegation d now me task_id =
    any (λ r. r.delegatee_username == me && r.task_id == task_id && ltb now r.expires_at)
      d.delegations

abbrev is_party : ℕ → Task → Bool
is_party me t = t.creator_username == me || t.assignee_username == me

abbrev pub visible_row : Db → ℕ → ℕ → Bool → Option Task → Result (Task × Bool)
visible_row d now me allow_delegation none = err task_not_found
visible_row d now me allow_delegation (some row) =
    if is_party me row
    then ok (row, false)
    else if allow_delegation && has_delegation d now me row.task_id
    then ok (row, true)
    else err task_not_found

-- _task_visible_or_404: the row, and whether access goes through a delegation
unfoldable pub task_visible_or_404 : Db → ℕ → ℕ → ℕ → Bool → Result (Task × Bool)
task_visible_or_404 d now task_id me allow_delegation =
    visible_row d now me allow_delegation (Tasks.get d task_id)

-- _require_active_account
unfoldable pub require_active_account : Db → ℕ → Result (Unit {0})
require_active_account d username = do
  row ← or_raise (Accounts.get d username) user_not_found
  raise_if (not (is_active row.status)) recipient_not_found

abbrev pub max_active_tasks : Option AgentBudget → Option ℕ
max_active_tasks none = none
max_active_tasks (some b) = b.max_active_tasks

abbrev pub max_messages : Option AgentBudget → Option ℕ
max_messages none = none
max_messages (some b) = b.max_messages_per_hour

-- SELECT ... FROM agent_budgets WHERE username = ?
unfoldable pub budget_of : Db → ℕ → Option AgentBudget
budget_of d username = find (λ b. b.username == username) d.agent_budgets

-- a limit is set and `n` has reached it
abbrev pub reached : Option ℕ → ℕ → Bool
reached none n = false
reached (some limit) n = leb limit n

-- _check_task_budget
unfoldable pub check_task_budget : Db → ℕ → Result (Unit {0})
check_task_budget d assignee =
    raise_if (reached (max_active_tasks (budget_of d assignee)) (Tasks.active_count d assignee))
      quota_exceeded

-- _check_message_budget
unfoldable pub check_message_budget : Db → ℕ → ℕ → Result (Unit {0})
check_message_budget d now sender =
    raise_if
      (reached (max_messages (budget_of d sender))
        (Tasks.messages_in_hour d sender (now_utc_offset now 3600)))
      quota_exceeded

abbrev retention : Option OrgSettings → ℕ → ℕ
retention none default = default
retention (some s) default = s.event_retention_days

-- _event_retention_days
unfoldable pub event_retention_days : Db → ℕ → ℕ → ℕ
event_retention_days d org_name default =
    retention (find (λ s. s.organization_name == org_name) d.org_settings) default

-- One turn of the loop of _check_escalations.
unfoldable pub escalate_task : Env → ℕ → ℕ → Clock → Task → Db → Db
escalate_task env org_name escalate_to hlc row d =
    if reached (max_active_tasks (budget_of d escalate_to)) (Tasks.active_count d escalate_to)
    then d
    else let d1 = Tasks.set_assignee row.task_id escalate_to env.at d in
      let d2 =
        Tasks.add_event row.task_id escalated escalate_to automatic_escalation env.at hlc d1 in
      let d3 =
        Events.append_for_task env.now (event_retention_days d2 org_name env.event_retention_days)
          (record row { assignee_username = escalate_to }) task_escalated escalate_to env.at hlc
          d2 in
      Audit.append
        (record {
          organization_name = org_name;
          at = env.at;
          actor_username = escalate_to;
          command = points "escalate_task";
          target_username = some row.task_id;
          outcome = word "escalated";
          hlc = hlc;
        })
        d3

unfoldable pub escalate_all : Env → ℕ → ℕ → Clock → List Task → Db → Db
escalate_all env org_name escalate_to hlc [] d = d
escalate_all env org_name escalate_to hlc (row ∷ rows) d =
    escalate_all env org_name escalate_to hlc rows
      (escalate_task env org_name escalate_to hlc row d)

abbrev pub is_available : Option Account → Bool
is_available none = false
is_available (some a) = is_active a.status

abbrev pub run_policy : Env → ℕ → Clock → Db → Option EscalationPolicy → Db
run_policy env org_name hlc d none = d
run_policy env org_name hlc d (some policy) =
    if not policy.enabled
    then d
    else if not (is_available (Accounts.get d policy.escalate_to_username))
    then d
    else escalate_all env org_name policy.escalate_to_username hlc
        (Tasks.due_tasks_to_escalate d org_name policy.escalate_to_username
          (now_utc_offset env.now policy.due_after_seconds)
          (now_utc_offset env.now policy.failed_after_seconds))
        d

-- _check_escalations
unfoldable pub check_escalations : Env → ℕ → Clock → Db → Db
check_escalations env org_name hlc d =
    run_policy env org_name hlc d
      (find (λ p. p.organization_name == org_name) d.org_escalation_policy)

-- MAX_DEPENDENCY_DEPTH
abbrev pub max_dependency_depth : ℕ
max_dependency_depth = 8

abbrev pub contains : List ℕ → ℕ → Bool
contains xs x = any (λ y. y == x) xs

-- The next frontier: what the frontier depends on, less what was seen.
unfoldable pub next_frontier : List TaskDependency → List ℕ → List ℕ → List ℕ
next_frontier rows seen frontier =
    select (λ t. not (contains seen t))
      (map (λ r. r.depends_on_task_id) (select (λ r. contains frontier r.task_id) rows))

-- The loop of _dependency_depth; `rounds` is max_depth + 1 - depth, so its test is depth <= max_depth.
unfoldable pub depth_loop : List TaskDependency → ℕ → List ℕ → List ℕ → ℕ → ℕ
depth_loop rows zero seen frontier depth = depth
depth_loop rows (suc rounds) seen [] depth = depth
depth_loop rows (suc rounds) seen (t ∷ ts) depth =
    let next = next_frontier rows seen (t ∷ ts) in
    depth_loop rows rounds (next ++ seen) next (depth + 1)

-- _dependency_depth
unfoldable pub dependency_depth : Db → List ℕ → ℕ → ℕ
unfolding depth_loop
dependency_depth d task_ids max_depth =
    depth_loop d.task_dependencies (suc max_depth) task_ids task_ids 0

abbrev pub allowed_between : Db → Option Account → Option Account → Bool
allowed_between d none other = false
allowed_between d (some me) none = false
allowed_between d (some me) (some other) =
    if me.organization_name == other.organization_name
    then true
    else elim (Accounts.get_organization d me.organization_name) [
      | none ↦ false
      | some me_org ↦ elim (Accounts.get_organization d other.organization_name) [
        | none ↦ false
        | some other_org ↦ me_org.allow_outgoing_external && other_org.allow_incoming_external
      ]
    ]

-- _external_comm_allowed
unfoldable pub external_comm_allowed : Db → ℕ → ℕ → Bool
external_comm_allowed d me other = allowed_between d (Accounts.get d me) (Accounts.get d other)
