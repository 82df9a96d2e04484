-- ===== src/Service/CausalCommands.antt =====
-- Timestamps in each task command (synapse/service.py): the rows that it writes are in causal order.
use synapse_messenger.Prelude.{
  ℕ, refl, Option, none, some, Bool, true, false, List, [], ◌∷◌, if◌then◌else◌, String,
}
use synapse_messenger.Hlc.{Clock}
use synapse_messenger.Errors.{Result, Ensures, Ensures-ok, Ensures-bind, Ensures-then}
use synapse_messenger.Db.{
  Db, Task, TaskState, TaskChange, Note, EventType, Outcome, pending_approval, in_progress,
  completed,
}
use synapse_messenger.Store.Causal.{
  IsCausal, audit-IsCausal, add_event-IsCausal, set_state-IsCausal, set_assignee-IsCausal,
  set_approver-IsCausal, replace_dependencies-IsCausal, insert-IsCausal, append_for_task-IsCausal,
}
use synapse_messenger.Service.Common.{Env}
use synapse_messenger.Service.Requests.{
  Request, create_task, update_task_state, transfer_task, request_approval, approve_task,
  reject_task, run_request,
}
use synapse_messenger.Service.Escalation.{check_escalations-elim}
use synapse_messenger.Service.Guards.{escalate_task, escalate_all, check_escalations}
use synapse_messenger.Service.Tasks.{
  NewTask, record_change, create_new, create_again, create_by_key, with_dependencies, existing_task,
  agent_create_task, agent_update_task_state, agent_transfer_task, agent_request_approval,
  agent_approve_task, agent_reject_task,
}

abbrev pub Returns : Clock → {A : Type 0} → Result (A × Db) → Type 0
Returns h r = Ensures (λ a. IsCausal h a.1) r

pub if-IsCausal :
    {h : Clock} (b : Bool) (x y : Db)
    → IsCausal h x
    → IsCausal h y
    → IsCausal h (if b then x else y)
if-IsCausal true x y cx cy = cx
if-IsCausal false x y cx cy = cy

module _ (env : Env) (h : Clock) where
  pub escalate_task-IsCausal :
      (org to : ℕ) (row : Task) (d : Db)
      → IsCausal h d
      → IsCausal h (escalate_task env org to h row d)
  unfolding escalate_task
  escalate_task-IsCausal org to row d c = if-IsCausal _ _ _ c (
      audit-IsCausal h _
        (append_for_task-IsCausal h _
          (add_event-IsCausal h _ (set_assignee-IsCausal h d c row.task_id to env.at) row.task_id _
            _ _ _)
          _ _ _ _ _ _)
        _ refl)

  pub escalate_all-IsCausal :
      (org to : ℕ) (rows : List Task) (d : Db)
      → IsCausal h d
      → IsCausal h (escalate_all env org to h rows d)
  unfolding escalate_all
  escalate_all-IsCausal org to [] d c = c
  escalate_all-IsCausal org to (row ∷ rows) d c =
      escalate_all-IsCausal org to rows (escalate_task env org to h row d)
        (escalate_task-IsCausal org to row d c)

  pub check_escalations-IsCausal :
      (org : ℕ) (d : Db) → IsCausal h d → IsCausal h (check_escalations env org h d)
  check_escalations-IsCausal org d c =
      check_escalations-elim (IsCausal h) env org h d c
        (λ to due failed. escalate_all-IsCausal org to _ d c)

  pub record_change-IsCausal :
      (me org id : ℕ) (change : TaskChange) (note : Note) (type : EventType) (command : String)
      (outcome : Outcome) (d : Db)
      → IsCausal h d
      → Returns h (record_change env me org h id change note type command outcome d)
  unfolding record_change
  record_change-IsCausal me org id change note type command outcome d c =
      Ensures-bind _ _ λ updated _. Ensures-ok _ (
        audit-IsCausal h _
          (append_for_task-IsCausal h _ (add_event-IsCausal h d c id change me note env.at) _ _ _ _
            _ _)
          _ refl)

  pub with_dependencies-IsCausal :
      (id : ℕ) (deps : List ℕ) (d : Db) → IsCausal h d → IsCausal h (with_dependencies id deps d)
  with_dependencies-IsCausal id [] d c = c
  with_dependencies-IsCausal id (t ∷ ts) d c = replace_dependencies-IsCausal h d c id (t ∷ ts)

  pub create_new-IsCausal :
      (p : NewTask) (me org : ℕ) (d : Db) → IsCausal h d → Returns h (create_new env p me org h d)
  unfolding create_new
  create_new-IsCausal p me org d c = Ensures-bind _ _ λ _ _. Ensures-bind _ _ λ _ _.
      Ensures-bind _ _ λ _ _. Ensures-bind _ _ λ _ _. Ensures-bind _ _ λ _ _.
        Ensures-bind _ _ λ _ _.
          Ensures-then _ _
            (record_change-IsCausal _ _ _ _ _ _ _ _ _ (
              with_dependencies-IsCausal env.uuid p.depends_on _
                (insert-IsCausal h d c _ _ _ _ _ _ _ _ _ _)))
            λ a ca.
              Ensures-bind _ _ λ target _. Ensures-ok _ (check_escalations-IsCausal target a.1 ca)

  pub create_again-IsCausal :
      (p : NewTask) (me org : ℕ) (t : Task) (d : Db)
      → IsCausal h d
      → Returns h (create_again env p me org h t d)
  unfolding create_again
  create_again-IsCausal p me org t d c =
      Ensures-bind _ _ λ _ _. Ensures-ok _ (audit-IsCausal h d c _ refl)

  pub create_by_key-IsCausal :
      (p : NewTask) (me org : ℕ) (o : Option Task) (d : Db)
      → IsCausal h d
      → Returns h (create_by_key env p me org h d o)
  create_by_key-IsCausal p me org none d c = create_new-IsCausal p me org d c
  create_by_key-IsCausal p me org (some t) d c = create_again-IsCausal p me org t d c

  pub create-IsCausal :
      (p : NewTask) (me : ℕ) (d : Db) → IsCausal h d → Returns h (agent_create_task env p me h d)
  unfolding agent_create_task
  create-IsCausal p me d c =
      Ensures-bind _ _
        λ org _. create_by_key-IsCausal p me org (existing_task d me p.client_task_id) d c

  pub update-IsCausal :
      (id : ℕ) (to : TaskState) (result : Option String) (me : ℕ) (d : Db)
      → IsCausal h d
      → Returns h (agent_update_task_state env id to result me h d)
  unfolding agent_update_task_state
  update-IsCausal id to result me d c = Ensures-bind _ _ λ row _. Ensures-bind _ _ λ org _.
      Ensures-bind _ _ λ _ _. Ensures-bind _ _ λ _ _.
        Ensures-then _ _
          (record_change-IsCausal _ _ _ _ _ _ _ _ _ (set_state-IsCausal h d c id to _ env.at))
          λ a ca. Ensures-ok _ (check_escalations-IsCausal org a.1 ca)

  pub transfer-IsCausal :
      (id assignee : ℕ) (note : Option String) (me : ℕ) (d : Db)
      → IsCausal h d
      → Returns h (agent_transfer_task env id assignee note me h d)
  unfolding agent_transfer_task
  transfer-IsCausal id assignee memo me d c = Ensures-bind _ _ λ row _. Ensures-bind _ _ λ org _.
      Ensures-bind _ _ λ _ _. Ensures-bind _ _ λ _ _. Ensures-bind _ _ λ _ _.
        Ensures-bind _ _ λ _ _.
          Ensures-then _ _
            (record_change-IsCausal _ _ _ _ _ _ _ _ _
              (set_assignee-IsCausal h d c id assignee env.at))
            λ a ca.
              Ensures-bind _ _ λ target _. Ensures-ok _ (check_escalations-IsCausal target a.1 ca)

  pub request-IsCausal :
      (id by me : ℕ) (d : Db) → IsCausal h d → Returns h (agent_request_approval env id by me h d)
  unfolding agent_request_approval
  request-IsCausal id by me d c = Ensures-bind _ _ λ row _. Ensures-bind _ _ λ org _.
      Ensures-bind _ _ λ _ _. Ensures-bind _ _ λ _ _. Ensures-bind _ _ λ _ _.
        record_change-IsCausal _ _ _ _ _ _ _ _ _ (
          set_state-IsCausal h _ (set_approver-IsCausal h d c id by env.at) id pending_approval none
            env.at)

  pub approve-IsCausal :
      (id me : ℕ) (d : Db) → IsCausal h d → Returns h (agent_approve_task env id me h d)
  unfolding agent_approve_task
  approve-IsCausal id me d c = Ensures-bind _ _ λ row _. Ensures-bind _ _ λ org _.
      Ensures-bind _ _ λ _ _.
        record_change-IsCausal _ _ _ _ _ _ _ _ _
          (set_state-IsCausal h d c id completed row.result env.at)

  pub reject-IsCausal :
      (id : ℕ) (reason : Option String) (me : ℕ) (d : Db)
      → IsCausal h d
      → Returns h (agent_reject_task env id reason me h d)
  unfolding agent_reject_task
  reject-IsCausal id reason me d c = Ensures-bind _ _ λ row _. Ensures-bind _ _ λ org _.
      Ensures-bind _ _ λ _ _.
        record_change-IsCausal _ _ _ _ _ _ _ _ _
          (set_state-IsCausal h d c id in_progress none env.at)

  -- Every task command, on every path, keeps the journals in causal order.
  pub request-keeps :
      (me : ℕ) (r : Request) (d : Db) → IsCausal h d → Returns h (run_request env me r h d)
  unfolding run_request
  request-keeps me (create_task p) d c = create-IsCausal p me d c
  request-keeps me (update_task_state id to result) d c = update-IsCausal id to result me d c
  request-keeps me (transfer_task id assignee memo) d c = transfer-IsCausal id assignee memo me d c
  request-keeps me (request_approval id by) d c = request-IsCausal id by me d c
  request-keeps me (approve_task id) d c = approve-IsCausal id me d c
  request-keeps me (reject_task id reason) d c = reject-IsCausal id reason me d c
