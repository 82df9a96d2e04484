-- ===== src/Service/Tasks.antt =====
-- The task commands (synapse/service.py): create, update, transfer, request approval, approve, reject.
use synapse_messenger.Prelude.{
  ℕ, Option, none, some, true, false, not, ◌&&◌, ◌||◌, List, [], ◌∷◌, all, is_some, ◌==◌, ltb,
  if◌then◌else◌, String,
}
use text.Mathlib.Text.{◌==◌ as same_text}
use synapse_messenger.Hlc.{Clock}
use synapse_messenger.Errors.{
  Result, ok, err, ◌>>=◌, ◌>>◌, raise_if, or_raise, task_not_found, task_state_invalid,
  task_dependency_not_met, invalid_argument, policy_denied, quota_exceeded, internal_error,
}
use synapse_messenger.Validation.{points}
use synapse_messenger.Db.{
  Db, Task, TaskState, in_progress, completed, failed, pending_approval, Priority, EventType,
  task_created, task_state_changed, task_transferred, task_approval_requested, task_approved,
  task_rejected, TaskChange, created, transferred, approval_requested, approved, rejected,
  state_changed, Note, no_note, written, approver, Outcome, word, name, new_state,
}
use synapse_messenger.Store.Audit
use synapse_messenger.Store.Events
use synapse_messenger.Store.Tasks
use synapse_messenger.Store.Tasks.{TaskView, same_state, is_terminal}
use synapse_messenger.Service.Common.{Env}
use synapse_messenger.Service.Guards.{
  org_of, task_visible_or_404, require_active_account, check_task_budget, event_retention_days,
  check_escalations, max_dependency_depth, dependency_depth, external_comm_allowed,
}

-- The parameters of create_task, as `validate_envelope` hands them over.
pub record NewTask : Type 0 where
  pub client_task_id : Option ℕ
  pub title : String
  pub description : Option String
  pub assignee_username : ℕ
  pub priority : Priority
  pub due_at : Option ℕ
  pub business_reference : Option String
  pub depends_on : List ℕ

-- The entry of the audit journal for a command on a task.
abbrev pub task_entry : ℕ → ℕ → ℕ → String → ℕ → Outcome → Clock → Db → Db
task_entry org at me command task_id outcome hlc = Audit.append (record {
  organization_name = org;
  at = at;
  actor_username = me;
  command = points command;
  target_username = some task_id;
  outcome = outcome;
  hlc = hlc;
})

-- The end that the task commands share: the task's own event, the row as it now stands, the events
-- of its principals, the audit entry.
unfoldable pub record_change :
    Env
    → ℕ
    → ℕ
    → Clock
    → ℕ
    → TaskChange
    → Note
    → EventType
    → String
    → Outcome
    → Db
    → Result (TaskView × Db)
record_change env me org hlc task_id change note event_type command outcome d = do
  let d1 = Tasks.add_event task_id change me note env.at hlc d
  updated ← or_raise (Tasks.get d1 task_id) internal_error
  let d2 =
      Events.append_for_task env.now (event_retention_days d1 org env.event_retention_days) updated
        event_type me env.at hlc d1
  ok (Tasks.row_to_task d1 updated, task_entry org env.at me command task_id outcome hlc d2)

abbrev pub text_or_none : Option String → Note
text_or_none none = no_note
text_or_none (some s) = written s

-- The idempotency key, if there is one
abbrev pub existing_task : Db → ℕ → Option ℕ → Option Task
existing_task d me none = none
existing_task d me (some client_task_id) = Tasks.get_by_client_key d me client_task_id

-- if p["depends_on"]: tasks.replace_dependencies(...)
abbrev pub with_dependencies : ℕ → List ℕ → Db → Db
with_dependencies task_id [] d = d
with_dependencies task_id (dep ∷ deps) d = Tasks.replace_dependencies task_id (dep ∷ deps) d

-- The part of _agent_create_task for a key that is new.
unfoldable pub create_new : Env → NewTask → ℕ → ℕ → Clock → Db → Result (TaskView × Db)
create_new env p me org hlc d = do
  require_active_account d p.assignee_username
  raise_if (not (external_comm_allowed d me p.assignee_username)) policy_denied
  check_task_budget d p.assignee_username
  raise_if (not (all (λ dep. is_some (Tasks.get d dep)) p.depends_on)) invalid_argument
  raise_if (ltb max_dependency_depth (dependency_depth d p.depends_on max_dependency_depth))
      quota_exceeded
  raise_if (is_some (Tasks.get d env.uuid)) internal_error
  let d1 =
      Tasks.insert env.uuid p.client_task_id p.title p.description me p.assignee_username p.priority
        p.due_at p.business_reference env.at d
  let d2 = with_dependencies env.uuid p.depends_on d1
  (task, d3) ←
      record_change env me org hlc env.uuid created no_note task_created "create_task" (word "ok")
        d2
  assignee_org ← org_of d3 p.assignee_username
  ok (task, check_escalations env assignee_org hlc d3)

-- The part of _agent_create_task for a key that a task of this creator has.
unfoldable pub create_again : Env → NewTask → ℕ → ℕ → Clock → Task → Db → Result (TaskView × Db)
create_again env p me org hlc existing d = do
  raise_if
      (not (existing.assignee_username == p.assignee_username && same_text existing.title p.title))
      invalid_argument
  let d1 = task_entry org env.at me "create_task" existing.task_id (word "idempotent") hlc d
  ok (Tasks.row_to_task d1 existing, d1)

abbrev pub create_by_key : Env → NewTask → ℕ → ℕ → Clock → Db → Option Task → Result (TaskView × Db)
create_by_key env p me org hlc d none = create_new env p me org hlc d
create_by_key env p me org hlc d (some existing) = create_again env p me org hlc existing d

-- _agent_create_task
unfoldable pub agent_create_task : Env → NewTask → ℕ → Clock → Db → Result (TaskView × Db)
agent_create_task env p me hlc d = do
  org ← org_of d me
  create_by_key env p me org hlc d (existing_task d me p.client_task_id)

-- _agent_update_task_state
unfoldable pub agent_update_task_state :
    Env → ℕ → TaskState → Option String → ℕ → Clock → Db → Result (TaskView × Db)
agent_update_task_state env task_id to_state result me hlc d = do
  (row, delegated) ← task_visible_or_404 d env.now task_id me true
  org ← org_of d me
  Tasks.ensure_transition row.state to_state
  raise_if (same_state to_state in_progress && not (Tasks.dependencies_met d task_id))
      task_dependency_not_met
  let kept : Option String =
      if same_state to_state completed || same_state to_state failed then result else none
  let d1 = Tasks.set_state task_id to_state kept env.at d
  (task, d2) ←
      record_change env me org hlc task_id (state_changed row.state to_state) no_note
        task_state_changed "update_task_state" (new_state to_state delegated) d1
  ok (task, check_escalations env org hlc d2)

-- _agent_transfer_task
unfoldable pub agent_transfer_task :
    Env → ℕ → ℕ → Option String → ℕ → Clock → Db → Result (TaskView × Db)
agent_transfer_task env task_id assignee note me hlc d = do
  (row, delegated) ← task_visible_or_404 d env.now task_id me false
  org ← org_of d me
  require_active_account d assignee
  raise_if (not (external_comm_allowed d me assignee)) policy_denied
  check_task_budget d assignee
  raise_if (is_terminal row.state) task_state_invalid
  let d1 = Tasks.set_assignee task_id assignee env.at d
  (task, d2) ←
      record_change env me org hlc task_id transferred (text_or_none note) task_transferred
        "transfer_task" (name assignee) d1
  assignee_org ← org_of d2 assignee
  ok (task, check_escalations env assignee_org hlc d2)

-- _agent_request_approval
unfoldable pub agent_request_approval : Env → ℕ → ℕ → ℕ → Clock → Db → Result (TaskView × Db)
agent_request_approval env task_id by me hlc d = do
  (row, delegated) ← task_visible_or_404 d env.now task_id me false
  org ← org_of d me
  raise_if (is_terminal row.state || same_state row.state pending_approval) task_state_invalid
  require_active_account d by
  raise_if (by == me) invalid_argument
  let d1 = Tasks.set_approver task_id by env.at d
  let d2 = Tasks.set_state task_id pending_approval none env.at d1
  record_change env me org hlc task_id approval_requested (approver by) task_approval_requested
      "request_approval" (name by) d2

abbrev pub asked : ℕ → Option Task → Result Task
asked me none = err task_not_found
asked me (some row) = if Tasks.same_id row.approver_username me then ok row else err task_not_found

-- _agent_approve_task
unfoldable pub agent_approve_task : Env → ℕ → ℕ → Clock → Db → Result (TaskView × Db)
agent_approve_task env task_id me hlc d = do
  row ← asked me (Tasks.get d task_id)
  org ← org_of d me
  raise_if (not (same_state row.state pending_approval)) task_state_invalid
  let d1 = Tasks.set_state task_id completed row.result env.at d
  record_change env me org hlc task_id approved no_note task_approved "approve_task" (word "ok") d1

-- _agent_reject_task
unfoldable pub agent_reject_task : Env → ℕ → Option String → ℕ → Clock → Db → Result (TaskView × Db)
agent_reject_task env task_id reason me hlc d = do
  row ← asked me (Tasks.get d task_id)
  org ← org_of d me
  raise_if (not (same_state row.state pending_approval)) task_state_invalid
  let d1 = Tasks.set_state task_id in_progress none env.at d
  record_change env me org hlc task_id rejected (text_or_none reason) task_rejected "reject_task"
      (word "rejected") d1
