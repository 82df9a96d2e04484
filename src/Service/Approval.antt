-- ===== src/Service/Approval.antt =====
-- Who may start, complete or decide a task, and what becomes of it (synapse/service.py).
use synapse_messenger.Prelude.{
  ℕ, ◌≡◌, ◌≢◌, refl, ◌∙◌, Bool, true, false, not, ◌&&◌, ◌||◌, Option, none, some, arith, ◌==◌,
  ==_iff, String, List, [], ◌∷◌, All, All-map, select, any, count, if◌then◌else◌,
}
use synapse_messenger.Hlc.{Clock}
use synapse_messenger.Errors.{ok, Ensures, Ensures-bind, Ensures-map, raise_if_passed}
use synapse_messenger.Db.{
  Db, Task, TaskState, submitted, in_progress, completed, pending_approval, TaskChange, Note,
  EventType, Outcome,
}
use synapse_messenger.Store.Tasks
use synapse_messenger.Store.Tasks.{TaskView, is_terminal, same_state, same_id}
use synapse_messenger.Store.Keyed.{by_id-update}
use synapse_messenger.Service.Common.{Env}
use synapse_messenger.Service.Guards.{task_visible_or_404, visible_row}
use synapse_messenger.Service.Steps.{record_change-tasks, get-same_tasks}
use synapse_messenger.Service.Tracked.{asked_found, visible_found}
use synapse_messenger.Service.Tasks.{
  record_change, asked, agent_update_task_state, agent_request_approval, agent_approve_task,
  agent_reject_task,
}

get-set_state :
    (k : ℕ) (to : TaskState) (result : Option String) (at : ℕ) (d : Db) (row : Task)
    → Tasks.get d k ≡ some row
    → Tasks.get (Tasks.set_state k to result at d) k
      ≡ some (record row { state = to; result = result; updated_at = at })
unfolding Tasks.get Tasks.set_state
get-set_state k to result at d row g =
    by_id-update k k (λ t. record t { state = to; result = result; updated_at = at }) d.tasks
      (λ t. refl)
    ∙ rw ((==_iff k k).1 refl, g) refl

-- The task under `k` after a change has been recorded is the one before.
recorded :
    (env : Env) (me org : ℕ) (h : Clock) (k : ℕ) (change : TaskChange) (note : Note)
    (type : EventType) (command : String) (outcome : Outcome) (d : Db) {row : Task}
    → Tasks.get d k ≡ some row
    → Ensures
        (λ a. Tasks.get a.1 k ≡ some row)
        (record_change env me org h k change note type command outcome d)
recorded env me org h k change note type command outcome d g = record {
  returns = λ a e.
      get-same_tasks d a.1 k
        ((record_change-tasks env me org h k change note type command outcome d).returns a e)
      ∙ g;
}

-- What a decision that was accepted says of the task, and the row that it leaves.
abbrev pub Decided : ℕ → ℕ → Db → (Task → Task) → Db → Type 0
Decided me k d decide d' =
    (row : Task) × (Tasks.get d k ≡ some row)
    × (row.approver_username ≡ some me)
    × (row.state ≡ pending_approval)
    × (Tasks.get d' k ≡ some (decide row))

asked_approver :
    (me : ℕ) (o : Option Task) (row : Task) → asked me o ≡ ok row → row.approver_username ≡ some me
asked_approver me o row h = ground arith

is_pending : (s : TaskState) → not (same_state s pending_approval) ≡ false → s ≡ pending_approval
is_pending s h = ground arith

third_party : (by me : ℕ) → (by == me) ≡ false → by ≢ me
third_party by me h e = ground arith

undecided :
    (s : TaskState)
    → (is_terminal s || same_state s pending_approval) ≡ false
    → (same_state s submitted || same_state s in_progress) ≡ true
undecided s h = ground arith

starts_submitted : (s : TaskState) → Tasks.ensure_transition s in_progress ≡ ok tt → s ≡ submitted
unfolding Tasks.ensure_transition
starts_submitted s h = ground arith

-- Every task that a dependency row of `k` names is completed.
abbrev pub DependenciesCompleted : Db → ℕ → Type 0
DependenciesCompleted d k =
    All
      (λ r.
        All (λ t. t.state ≡ completed) (select (λ t. t.task_id == r.depends_on_task_id) d.tasks))
      (select (λ r. r.task_id == k) d.task_dependencies)

module _ {A : Type 0} where
  count-none : (p : A → Bool) (xs : List A) → count p xs ≡ 0 → All (λ x. p x ≡ false) xs
  count-none p [] h = tt
  count-none p (x ∷ xs) h = (ground (arith, h), count-none p xs (ground (arith, h)))

  any-none : (p : A → Bool) (xs : List A) → any p xs ≡ false → All (λ x. p x ≡ false) xs
  any-none p [] h = tt
  any-none p (x ∷ xs) h = (ground (arith, h), any-none p xs (ground (arith, h)))

  -- What no element satisfies together with `p`, no selected element satisfies.
  All-select :
      (p q : A → Bool) (xs : List A)
      → All (λ x. (p x && q x) ≡ false) xs
      → All (λ x. q x ≡ false) (select p xs)
  All-select p q [] h = tt
  All-select p q (x ∷ xs) (h, hs) = kept (p x) (select p xs) h (All-select p q xs hs)
    where
      kept :
          (b : Bool) (rest : List A)
          → (b && q x) ≡ false
          → All (λ x. q x ≡ false) rest
          → All (λ x. q x ≡ false) (if b then x ∷ rest else rest)
      kept true rest h hs = (h, hs)
      kept false rest h hs = hs

is_completed : (s : TaskState) → not (same_state s completed) ≡ false → s ≡ completed
is_completed s h = ground arith

unmet-completed : (d : Db) (k : ℕ) → Tasks.unmet d k ≡ 0 → DependenciesCompleted d k
unfolding Tasks.unmet
unmet-completed d k h =
    All-map _
      (λ r e.
        All-map _ (λ t. is_completed t.state)
          (All-select (λ t. t.task_id == r.depends_on_task_id)
            (λ t. not (same_state t.state completed)) d.tasks (any-none _ d.tasks e)))
      (All-select (λ r. r.task_id == k) _ d.task_dependencies (count-none _ d.task_dependencies h))

all_met : (n : ℕ) → (same_state in_progress in_progress && not (n == 0)) ≡ false → n ≡ 0
all_met n h = ground arith

-- Without a delegation only the creator and the assignee see a task.
pub visible_party :
    (d : Db) (now k me : ℕ) (row : Task × Bool)
    → task_visible_or_404 d now k me false ≡ ok row
    → (row.0.creator_username == me || row.0.assignee_username == me) ≡ true
unfolding task_visible_or_404
visible_party d now k me row h = party (Tasks.get d k) h
  where
    party :
        (o : Option Task)
        → visible_row d now me false o ≡ ok row
        → (row.0.creator_username == me || row.0.assignee_username == me) ≡ true
    party none e = cc
    party (some t) e = ground arith

module _ (env : Env) (k me : ℕ) (h : Clock) (d : Db) where
  approve_Ensures :
      Ensures
        (λ a. Decided me k d (λ row. record row { state = completed; updated_at = env.at }) a.1)
        (agent_approve_task env k me h d)
  unfolding agent_approve_task
  approve_Ensures = Ensures-bind _ _ λ row seen. Ensures-bind _ _ λ org _.
      Ensures-bind _ _ λ _ pending.
        let g = asked_found me _ row seen in
        Ensures-map _
          (recorded env me org h k _ _ _ _ _ _
            (get-set_state k completed row.result env.at d row g))
          λ a e. (
            row,
            g,
            asked_approver me _ row seen,
            is_pending row.state (raise_if_passed _ _ pending),
            e,
          )

  reject_Ensures :
      (reason : Option String)
      → Ensures
          (λ a.
            Decided me k d
              (λ row. record row { state = in_progress; result = none; updated_at = env.at })
              a.1)
          (agent_reject_task env k reason me h d)
  unfolding agent_reject_task
  reject_Ensures reason = Ensures-bind _ _ λ row seen. Ensures-bind _ _ λ org _.
      Ensures-bind _ _ λ _ pending.
        let g = asked_found me _ row seen in
        Ensures-map _
          (recorded env me org h k _ _ _ _ _ _ (get-set_state k in_progress none env.at d row g))
          λ a e. (
            row,
            g,
            asked_approver me _ row seen,
            is_pending row.state (raise_if_passed _ _ pending),
            e,
          )

  -- An approval that is accepted comes from the task's approver, finds it pending approval, and
  -- leaves it completed, with its result and all else kept.
  pub approve_decides :
      (v : TaskView) (d' : Db)
      → agent_approve_task env k me h d ≡ ok (v, d')
      → Decided me k d (λ row. record row { state = completed; updated_at = env.at }) d'
  approve_decides v d' e = approve_Ensures.returns (v, d') e

  -- A rejection that is accepted comes from the task's approver, finds it pending approval, and
  -- leaves it in progress without a result.
  pub reject_decides :
      (reason : Option String) (v : TaskView) (d' : Db)
      → agent_reject_task env k reason me h d ≡ ok (v, d')
      → Decided me k d
          (λ row. record row { state = in_progress; result = none; updated_at = env.at })
          d'
  reject_decides reason v d' e = (reject_Ensures reason).returns (v, d') e

  request_Ensures :
      (by : ℕ)
      → Ensures
          (λ a.
            (row : Task) × (Tasks.get d k ≡ some row)
            × (by ≢ me)
            × ((row.creator_username == me || row.assignee_username == me) ≡ true)
            × ((same_state row.state submitted || same_state row.state in_progress) ≡ true))
          (agent_request_approval env k by me h d)
  unfolding agent_request_approval
  request_Ensures by = Ensures-bind _ _ λ row seen. Ensures-bind _ _ λ org _.
      Ensures-bind _ _ λ _ fresh. Ensures-bind _ _ λ _ _. Ensures-bind _ _ λ _ third. record {
        returns = λ a e. (
          row.0,
          visible_found d env.now k me false row seen,
          third_party by me (raise_if_passed _ _ third),
          visible_party d env.now k me row seen,
          undecided row.0.state (raise_if_passed _ _ fresh),
        );
      }

  -- Approval is asked for only by the creator or the assignee of the task, from another agent, and
  -- only while the task is submitted or in progress.
  pub request_guarded :
      (by : ℕ) (v : TaskView) (d' : Db)
      → agent_request_approval env k by me h d ≡ ok (v, d')
      → (row : Task) × (Tasks.get d k ≡ some row)
        × (by ≢ me)
        × ((row.creator_username == me || row.assignee_username == me) ≡ true)
        × ((same_state row.state submitted || same_state row.state in_progress) ≡ true)
  request_guarded by v d' e = (request_Ensures by).returns (v, d') e

  start_Ensures :
      (result : Option String)
      → Ensures
          (λ a.
            (row : Task) × (Tasks.get d k ≡ some row)
            × (row.state ≡ submitted)
            × DependenciesCompleted d k)
          (agent_update_task_state env k in_progress result me h d)
  unfolding agent_update_task_state Tasks.dependencies_met
  start_Ensures result = Ensures-bind _ _ λ row seen. Ensures-bind _ _ λ org _.
      Ensures-bind _ _ λ _ moved. Ensures-bind _ _ λ _ met. record {
        returns = λ a e. (
          row.0,
          visible_found d env.now k me true row seen,
          starts_submitted row.0.state moved,
          unmet-completed d k (all_met (Tasks.unmet d k) (raise_if_passed _ _ met)),
        );
      }

  -- update_task_state moves a task to in_progress only from submitted, and only when every task that
  -- a dependency row of the task names is completed.
  pub start_requires_dependencies :
      (result : Option String) (v : TaskView) (d' : Db)
      → agent_update_task_state env k in_progress result me h d ≡ ok (v, d')
      → (row : Task) × (Tasks.get d k ≡ some row)
        × (row.state ≡ submitted)
        × DependenciesCompleted d k
  start_requires_dependencies result v d' e = (start_Ensures result).returns (v, d') e
