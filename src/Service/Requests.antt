-- ===== src/Service/Requests.antt =====
-- The task commands as requests, each a write transaction, and the service over a sequence of them
-- (synapse/service.py: _AGENT_HANDLERS, Service._dispatch after authentication).
use synapse_messenger.Prelude.{ℕ, Option, List, [], ◌∷◌, String}
use synapse_messenger.Hlc.{Clock}
use synapse_messenger.Errors.{Result}
use synapse_messenger.Db.{Db, TaskState}
use synapse_messenger.Store.Tasks.{TaskView}
use synapse_messenger.Service.Common.{Env}
use synapse_messenger.Service.Transaction.{State, write}
use synapse_messenger.Service.Tasks.{
  NewTask, agent_create_task, agent_update_task_state, agent_transfer_task, agent_request_approval,
  agent_approve_task, agent_reject_task,
}

pub data Request : Type 0 where
  create_task : NewTask → Request
  update_task_state : ℕ → TaskState → Option String → Request
  transfer_task : ℕ → ℕ → Option String → Request
  request_approval : ℕ → ℕ → Request
  approve_task : ℕ → Request
  reject_task : ℕ → Option String → Request

unfoldable pub run_request : Env → ℕ → Request → Clock → Db → Result (TaskView × Db)
run_request env me (create_task p) = agent_create_task env p me
run_request env me (update_task_state id to result) = agent_update_task_state env id to result me
run_request env me (transfer_task id assignee memo) = agent_transfer_task env id assignee memo me
run_request env me (request_approval id by) = agent_request_approval env id by me
run_request env me (approve_task id) = agent_approve_task env id me
run_request env me (reject_task id reason) = agent_reject_task env id reason me

-- An authenticated call: the environment that it meets, the agent and the request.
pub record Call : Type 0 where
  pub env : Env
  pub me : ℕ
  pub request : Request

unfoldable pub handle : Call → State → Result TaskView × State
handle call = write call.env (run_request call.env call.me call.request)

-- The write lock serialises the transactions, so the calls run one after the other.
unfoldable pub serve : List Call → State → State
serve [] s = s
serve (call ∷ calls) s = serve calls (handle call s).1
