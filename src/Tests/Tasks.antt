-- ===== src/Tests/Tasks.antt =====
-- The task commands on the small server.
use synapse_messenger.Prelude.{◌≡◌, suc, refl, none, some, List, [], ◌∷◌}
use synapse_messenger.Errors.{Result, ◌>>=◌, raise_if, or_raise}
use synapse_messenger.Db.{Db, Task, submitted, in_progress, completed}
use synapse_messenger.Store.Accounts
use synapse_messenger.Store.Audit
use synapse_messenger.Store.Events
use synapse_messenger.Store.Tasks
use synapse_messenger.Store.Tasks.{TaskView, same_state}
use synapse_messenger.Store.Causal.{IsCausal}
use synapse_messenger.Store.Keyed.{Keyed}
use synapse_messenger.Service.Guards
use synapse_messenger.Service.Guards.{dependency_depth}
use synapse_messenger.Service.Tasks.{
  record_change, agent_update_task_state, agent_request_approval, agent_approve_task,
  agent_reject_task,
}
use synapse_messenger.Service.Requests.{update_task_state, reject_task, Call, handle, serve}
use synapse_messenger.Service.Causal.{serve-IsCausal}
use synapse_messenger.Service.Steps.{Follows}
use synapse_messenger.Service.Lifecycle.{handle-Follows, serve_terminal}
use synapse_messenger.Service.Depth.{dependency_depth-closed}
use synapse_messenger.Service.Approval.{
  DependenciesCompleted, Decided, approve_decides, start_requires_dependencies,
}
use synapse_messenger.Tests.Data.{db, env, later, noon, start, task, result_of}

-- Task 50 starts, task 51 is rejected, and somebody tries to move the completed task 52.
abbrev calls : List Call
calls =
    record { env = env; me = 2; request = update_task_state 50 in_progress none }
    ∷ record { env = env; me = 3; request = reject_task 51 none }
    ∷ record { env = later; me = 2; request = update_task_state 52 in_progress none }
    ∷ []

start-IsCausal : IsCausal start.clock start.db
start-IsCausal = record { events = tt; task_events = tt; audit_log = tt }

start-Keyed : Keyed start.db.tasks
start-Keyed = (refl, (refl, (refl, tt)))

serve-IsCausal_example : IsCausal (serve calls start).clock (serve calls start).db
serve-IsCausal_example = serve-IsCausal calls start start-IsCausal

abbrev first_call : Call
first_call = record { env = env; me = 2; request = update_task_state 50 in_progress none }

handle-Follows_example :
    Keyed (handle first_call start).1.db.tasks
    × ((t' : Task) × (Tasks.get (handle first_call start).1.db 50 ≡ some t')
        × Follows (task 50 submitted none) t')
unfolding Tasks.get
handle-Follows_example =
    handle-Follows first_call start 50 (task 50 submitted none) start-Keyed refl

serve_terminal_example : Tasks.get (serve calls start).db 52 ≡ some (task 52 completed none)
unfolding Tasks.get
serve_terminal_example =
    serve_terminal calls start 52 (task 52 completed none) start-Keyed refl refl

dependency_depth-closed_example : dependency_depth db (50 ∷ 52 ∷ []) (suc 7) ≡ 1
dependency_depth-closed_example = dependency_depth-closed db 50 (52 ∷ []) 7 (refl, tt)

abbrev nothing : TaskView
nothing = Tasks.row_to_task db (task 0 submitted none)

abbrev approving : Result (TaskView × Db)
approving = agent_approve_task env 51 3 noon db

abbrev approved : TaskView × Db
approved = result_of (nothing, db) approving

approve_decides_example :
    Decided 3 51 db (λ row. record row { state = completed; updated_at = 2000 }) approved.1
unfolding agent_approve_task agent_reject_task agent_request_approval agent_update_task_state
    record_change Tasks.get Tasks.set_state Tasks.add_event Tasks.get_dependencies Tasks.get_history
    Tasks.dependencies_met Tasks.unmet Tasks.ensure_transition Tasks.row_to_task Tasks.set_approver
    Tasks.due_tasks_to_escalate Tasks.must_escalate Events.append_for_task Events.append
    Events.last_seq Events.purge_old Audit.append Guards.org_of Guards.task_visible_or_404
    Guards.require_active_account Guards.event_retention_days Guards.check_escalations
    Guards.external_comm_allowed Guards.has_delegation Accounts.get Accounts.get_organization ◌>>=◌
    raise_if or_raise
approve_decides_example = approve_decides env 51 3 noon db approved.0 approved.1 refl

abbrev requested : TaskView × Db
requested = result_of (nothing, db) (agent_request_approval env 50 3 2 noon db)

abbrev started : TaskView × Db
started = result_of (nothing, db) (agent_update_task_state env 50 in_progress none 2 noon db)

start_requires_dependencies_example :
    (row : Task) × (Tasks.get db 50 ≡ some row)
    × (row.state ≡ submitted)
    × DependenciesCompleted db 50
unfolding agent_approve_task agent_reject_task agent_request_approval agent_update_task_state
    record_change Tasks.get Tasks.set_state Tasks.add_event Tasks.get_dependencies Tasks.get_history
    Tasks.dependencies_met Tasks.unmet Tasks.ensure_transition Tasks.row_to_task Tasks.set_approver
    Tasks.due_tasks_to_escalate Tasks.must_escalate Events.append_for_task Events.append
    Events.last_seq Events.purge_old Audit.append Guards.org_of Guards.task_visible_or_404
    Guards.require_active_account Guards.event_retention_days Guards.check_escalations
    Guards.external_comm_allowed Guards.has_delegation Accounts.get Accounts.get_organization ◌>>=◌
    raise_if or_raise
start_requires_dependencies_example =
    start_requires_dependencies env 50 2 noon db none started.0 started.1 refl
