-- ===== src/Service/Lifecycle.antt =====
-- The life of a task under every task command (synapse/service.py, synapse/store/tasks.py).
use synapse_messenger.Prelude.{
  ℕ, ◌≡◌, refl, ap, ◌∙◌, true, false, Option, none, some, List, [], ◌∷◌, inl, inr, String,
}
use synapse_messenger.Hlc.{Clock, Checked, tick, encode}
use synapse_messenger.Errors.{
  Result, ok, err, Ensures, Ensures-ok, Ensures-bind, Ensures-then, raise_if_passed,
}
use synapse_messenger.Db.{Db, Task, TaskState, in_progress, completed}
use synapse_messenger.Store.Audit
use synapse_messenger.Store.Tasks
use synapse_messenger.Store.Tasks.{TaskView, is_terminal, same_state}
use synapse_messenger.Store.Keyed.{Keyed}
use synapse_messenger.Service.Common.{Env}
use synapse_messenger.Service.Steps.{Follows}
use synapse_messenger.Service.Tasks.{
  NewTask, create_new, create_again, create_by_key, with_dependencies, existing_task,
  agent_create_task, agent_update_task_state, agent_transfer_task, agent_request_approval,
  agent_approve_task, agent_reject_task,
}
use synapse_messenger.Service.Transaction.{State, settle, stamped, write}
use synapse_messenger.Service.Requests.{
  Request, create_task, update_task_state, transfer_task, request_approval, approve_task,
  reject_task, run_request, Call, handle, serve,
}
use synapse_messenger.Service.Tracked.{
  visible_found, asked_found, transition_allowed, from_pending, is_none, with_dependencies-tasks,
  Tracked, Tracked-same, set_state-Tracked, set_assignee-Tracked, request-Tracked, insert-Tracked,
  record_change-Tracked, escalations-Tracked,
}

-- A result whose database has the task `t` of `id`, or what follows it.
abbrev Tracks : ℕ → Task → {A : Type 0} → Result (A × Db) → Type 0
Tracks id t r = Ensures (λ a. Tracked id t a.1) r

module _ (env : Env) (h : Clock) (id : ℕ) (t : Task) (d : Db) (key : Keyed d.tasks)
    (g : Tasks.get d id ≡ some t) where
  update-Tracks :
      (k : ℕ) (to : TaskState) (result : Option String) (me : ℕ)
      → Tracks id t (agent_update_task_state env k to result me h d)
  unfolding agent_update_task_state
  update-Tracks k to result me = Ensures-bind _ _ λ row seen. Ensures-bind _ _ λ org _.
      Ensures-bind _ _ λ _ moved. Ensures-bind _ _ λ _ _.
        let (o, a) = transition_allowed row.0.state to moved in
        Ensures-then _ _
          (record_change-Tracked id t env _ _ h _ _ _ _ _ _ _ (
            set_state-Tracked id t k to _ env.at d row.0
              (visible_found d env.now k me true row seen) o a key g))
          λ a v. Ensures-ok _ (escalations-Tracked id t env org h a.1 v)

  transfer-Tracks :
      (k assignee : ℕ) (memo : Option String) (me : ℕ)
      → Tracks id t (agent_transfer_task env k assignee memo me h d)
  unfolding agent_transfer_task
  transfer-Tracks k assignee memo me = Ensures-bind _ _ λ row seen. Ensures-bind _ _ λ org _.
      Ensures-bind _ _ λ _ _. Ensures-bind _ _ λ _ _. Ensures-bind _ _ λ _ _.
        Ensures-bind _ _ λ _ open_row.
          Ensures-then _ _
            (record_change-Tracked id t env _ _ h _ _ _ _ _ _ _ (
              set_assignee-Tracked id t k assignee env.at d row.0
                (visible_found d env.now k me false row seen) (raise_if_passed _ _ open_row) key g))
            λ a v.
              Ensures-bind _ _
                λ target _. Ensures-ok _ (escalations-Tracked id t env target h a.1 v)

  approve-Tracks : (k me : ℕ) → Tracks id t (agent_approve_task env k me h d)
  unfolding agent_approve_task
  approve-Tracks k me = Ensures-bind _ _ λ row seen. Ensures-bind _ _ λ org _.
      Ensures-bind _ _ λ _ pending.
        let (o, c, _) = from_pending row.state (raise_if_passed _ _ pending) in
        record_change-Tracked id t env _ _ h _ _ _ _ _ _ _
          (set_state-Tracked id t k completed _ env.at d row (asked_found me _ row seen) o c key g)

  reject-Tracks :
      (k : ℕ) (reason : Option String) (me : ℕ)
      → Tracks id t (agent_reject_task env k reason me h d)
  unfolding agent_reject_task
  reject-Tracks k reason me = Ensures-bind _ _ λ row seen. Ensures-bind _ _ λ org _.
      Ensures-bind _ _ λ _ pending.
        let (o, _, p) = from_pending row.state (raise_if_passed _ _ pending) in
        record_change-Tracked id t env _ _ h _ _ _ _ _ _ _ (
          set_state-Tracked id t k in_progress _ env.at d row (asked_found me _ row seen) o p key g)

  request-Tracks : (k by me : ℕ) → Tracks id t (agent_request_approval env k by me h d)
  unfolding agent_request_approval
  request-Tracks k by me = Ensures-bind _ _ λ row seen. Ensures-bind _ _ λ org _.
      Ensures-bind _ _ λ _ fresh. Ensures-bind _ _ λ _ _. Ensures-bind _ _ λ _ _.
        record_change-Tracked id t env _ _ h _ _ _ _ _ _ _ (
          request-Tracked id t k by env.at d row.0 (visible_found d env.now k me false row seen)
            (raise_if_passed _ _ fresh) key g)

  created-Tracked :
      (p : NewTask) (me : ℕ)
      → Tasks.get d env.uuid ≡ none
      → Tracked id t (
          with_dependencies env.uuid p.depends_on (
            Tasks.insert env.uuid p.client_task_id p.title p.description me p.assignee_username
              p.priority p.due_at p.business_reference env.at d))
  unfolding Tasks.insert
  created-Tracked p me fresh =
      let d1 =
        Tasks.insert env.uuid p.client_task_id p.title p.description me p.assignee_username
          p.priority p.due_at p.business_reference env.at d in
      insert-Tracked id t _ d (with_dependencies env.uuid p.depends_on d1)
        (with_dependencies-tasks env.uuid p.depends_on d1) fresh key g

  create_new-Tracks : (p : NewTask) (me org : ℕ) → Tracks id t (create_new env p me org h d)
  unfolding create_new
  create_new-Tracks p me org = Ensures-bind _ _ λ _ _. Ensures-bind _ _ λ _ _.
      Ensures-bind _ _ λ _ _. Ensures-bind _ _ λ _ _. Ensures-bind _ _ λ _ _.
        Ensures-bind _ _ λ _ fresh.
          Ensures-then _ _
            (record_change-Tracked id t env _ _ h _ _ _ _ _ _ _
              (created-Tracked p me (is_none _ (raise_if_passed _ _ fresh))))
            λ a v.
              Ensures-bind _ _
                λ target _. Ensures-ok _ (escalations-Tracked id t env target h a.1 v)

  create_again-Tracks :
      (p : NewTask) (me org : ℕ) (old : Task) → Tracks id t (create_again env p me org h old d)
  unfolding create_again Audit.append
  create_again-Tracks p me org old =
      Ensures-bind _ _ λ _ _. Ensures-ok _ (Tracked-same id t d _ refl (key, (t, g, inl refl)))

  create_by_key-Tracks :
      (p : NewTask) (me org : ℕ) (o : Option Task) → Tracks id t (create_by_key env p me org h d o)
  create_by_key-Tracks p me org none = create_new-Tracks p me org
  create_by_key-Tracks p me org (some old) = create_again-Tracks p me org old

  create-Tracks : (p : NewTask) (me : ℕ) → Tracks id t (agent_create_task env p me h d)
  unfolding agent_create_task
  create-Tracks p me =
      Ensures-bind _ _ λ org _. create_by_key-Tracks p me org (existing_task d me p.client_task_id)

  request-keeps : (me : ℕ) (r : Request) → Tracks id t (run_request env me r h d)
  unfolding run_request
  request-keeps me (create_task p) = create-Tracks p me
  request-keeps me (update_task_state k to result) = update-Tracks k to result me
  request-keeps me (transfer_task k assignee memo) = transfer-Tracks k assignee memo me
  request-keeps me (request_approval k by) = request-Tracks k by me
  request-keeps me (approve_task k) = approve-Tracks k me
  request-keeps me (reject_task k reason) = reject-Tracks k reason me

-- The two ways in which a transaction ends.
settle-Tracks :
    {A : Type 0} (id : ℕ) (t : Task) (k : Clock) (d : Db) (r : Result (A × Db))
    → Tracked id t d
    → Tracks id t r
    → Tracked id t (settle k d r).1.db
settle-Tracks id t k d (ok (a, d')) v e = e.returns (a, d') refl
settle-Tracks id t k d (err x) v e = v

stamped-Tracks :
    {A : Type 0} (id : ℕ) (t : Task) (k : Clock) (d : Db) (body : Clock → Db → Result (A × Db))
    (r : Checked (List ℕ))
    → Tracked id t d
    → Tracks id t (body k d)
    → Tracked id t (stamped k d body r).1.db
stamped-Tracks id t k d body (Checked.ok text) v e = settle-Tracks id t k d (body k d) v e
stamped-Tracks id t k d body Checked.value_error v e = v

handle-Tracked :
    (call : Call) (s : State) (id : ℕ) (t : Task)
    → Keyed s.db.tasks
    → Tasks.get s.db id ≡ some t
    → Tracked id t (handle call s).1.db
unfolding handle write
handle-Tracked call s id t key g =
    let k = tick call.env.physical s.clock in
    stamped-Tracks id t k s.db (run_request call.env call.me call.request) (encode k.l k.c)
      (key, (t, g, inl refl)) (request-keeps call.env k id t s.db key g call.me call.request)

-- Whatever a task command does, also when it fails: every task that was there is there still, and
-- its row is either untouched or, if its state was not terminal, in a state that the machine allows
-- next, with its creator, title and date of creation. Primary keys stay unique.
pub handle-Follows :
    (call : Call) (s : State) (id : ℕ) (t : Task)
    → Keyed s.db.tasks
    → Tasks.get s.db id ≡ some t
    → Keyed (handle call s).1.db.tasks
      × ((t' : Task) × (Tasks.get (handle call s).1.db id ≡ some t') × Follows t t')
handle-Follows call s id t key g = handle-Tracked call s id t key g

terminal_same : (t t' : Task) → is_terminal t.state ≡ true → Follows t t' → t' ≡ t
terminal_same t t' e (inl same) = same
terminal_same t t' e (inr moved) = cc (moved.0)

-- A completed, failed or canceled task is never touched again: after any sequence of task commands,
-- by anyone, its row is the same, field by field.
pub serve_terminal :
    (calls : List Call) (s : State) (id : ℕ) (t : Task)
    → Keyed s.db.tasks
    → Tasks.get s.db id ≡ some t
    → is_terminal t.state ≡ true
    → Tasks.get (serve calls s).db id ≡ some t
unfolding serve
serve_terminal [] s id t key g e = g
serve_terminal (call ∷ calls) s id t key g e =
    let (key', (t', g', f)) = handle-Tracked call s id t key g in
    serve_terminal calls (handle call s).1 id t key' (g' ∙ ap some (terminal_same t t' e f)) e
