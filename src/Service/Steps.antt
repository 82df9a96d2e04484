-- ===== src/Service/Steps.antt =====
-- The steps of a task: what one more command may make of a row (synapse/store/tasks.py: _TRANSITIONS).
use mathlib.Core.Path.{subst}
use synapse_messenger.Prelude.{
  ℕ, ◌≡◌, refl, ap, ◌⊎◌, Bool, true, false, not, ◌&&◌, ◌||◌, some, List, [], ◌∷◌, any, arith, ◌==◌,
  inl, inr, String, ltb,
}
use synapse_messenger.Hlc.{Clock}
use synapse_messenger.Errors.{Ensures, Ensures-ok, Ensures-bind}
use synapse_messenger.Db.{
  Db, Task, TaskState, submitted, in_progress, completed, failed, canceled, pending_approval,
  TaskChange, Note, EventType, Outcome,
}
use synapse_messenger.Store.Audit
use synapse_messenger.Store.Events
use synapse_messenger.Store.Tasks
use synapse_messenger.Store.Tasks.{is_terminal, same_state}
use synapse_messenger.Store.Keyed.{by_id}
use synapse_messenger.Service.Common.{Env}
use synapse_messenger.Service.Tasks.{record_change}

-- The states that a task may be found in after one more command.
abbrev pub next_states : TaskState → List TaskState
next_states submitted = submitted ∷ in_progress ∷ canceled ∷ pending_approval ∷ []
next_states in_progress = in_progress ∷ completed ∷ failed ∷ canceled ∷ pending_approval ∷ []
next_states pending_approval = pending_approval ∷ completed ∷ in_progress ∷ []
next_states completed = completed ∷ []
next_states failed = failed ∷ []
next_states canceled = canceled ∷ []

-- The row is the same; or it was not terminal, its state is one of those above, and its identity is
-- unchanged.
abbrev pub Follows : Task → Task → Type 0
Follows t t' =
    (t' ≡ t)
    ⊎ ((is_terminal t.state ≡ false)
        × (any (same_state t'.state) (next_states t.state) ≡ true)
        × (t'.creator_username ≡ t.creator_username)
        × (t'.title ≡ t.title)
        × (t'.created_at ≡ t.created_at))

abbrev pub Evolved : ℕ → Task → Db → Type 0
Evolved id t d = (t' : Task) × (Tasks.get d id ≡ some t') × Follows t t'

pub append_for_task-tasks :
    (now days : ℕ) (task : Task) (type : EventType) (by at : ℕ) (h : Clock) (d : Db)
    → (Events.append_for_task now days task type by at h d).tasks ≡ d.tasks
unfolding Events.append_for_task Events.append Events.purge_old
append_for_task-tasks now days task type by at h d = ground arith

pub record_change-tasks :
    (env : Env) (me org : ℕ) (h : Clock) (id : ℕ) (change : TaskChange) (note : Note)
    (type : EventType) (command : String) (outcome : Outcome) (d : Db)
    → Ensures
        (λ a. a.1.tasks ≡ d.tasks)
        (record_change env me org h id change note type command outcome d)
unfolding record_change Tasks.add_event Audit.append
record_change-tasks env me org h id change note type command outcome d =
    Ensures-bind _ _ λ updated _. Ensures-ok _ (append_for_task-tasks _ _ _ _ _ _ _ _)

pub get-same_tasks : (d d' : Db) (id : ℕ) → d'.tasks ≡ d.tasks → Tasks.get d' id ≡ Tasks.get d id
unfolding Tasks.get
get-same_tasks d d' id e = ap (by_id id) e

pub same_row :
    (t r : Task) → some t ≡ some r → is_terminal r.state ≡ false → is_terminal t.state ≡ false
same_row t r e o = ground arith

pub self_next : (s : TaskState) → any (same_state s) (next_states s) ≡ true
self_next submitted = refl
self_next in_progress = refl
self_next completed = refl
self_next failed = refl
self_next canceled = refl
self_next pending_approval = refl

pub Follows-reassign :
    (t t' : Task) (to at : ℕ)
    → Follows t t'
    → is_terminal t'.state ≡ false
    → Follows t (record t' { assignee_username = to; updated_at = at })
Follows-reassign t t' to at (inl same) o =
    subst (λ u. Follows u (record t' { assignee_username = to; updated_at = at })) same
      (inr (o, self_next t'.state, refl, refl, refl))
Follows-reassign t t' to at (inr changed) o = inr changed

pub due_open :
    (s : TaskState) (a b c : Bool)
    → (a && b && (same_state s submitted || same_state s in_progress) && c) ≡ true
    → is_terminal s ≡ false
due_open s a b c h = ground arith

pub must_escalate-open :
    (d : Db) (org to due_before failed_before : ℕ) (t : Task)
    → Tasks.must_escalate d org to due_before failed_before t ≡ true
    → is_terminal t.state ≡ false
unfolding Tasks.must_escalate
must_escalate-open d org to due_before failed_before t h =
    due_open t.state (Tasks.assigned_in d.accounts t.assignee_username org)
      (not (t.assignee_username == to))
      (Tasks.before t.due_at due_before
        || (same_state t.state in_progress && ltb t.updated_at failed_before))
      h
