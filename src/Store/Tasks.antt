-- ===== src/Store/Tasks.antt =====
-- Tasks (synapse/store/tasks.py): the state machine and the access to the task tables.
use synapse_messenger.Prelude.{
  ℕ, ◌+◌, Option, none, some, Bool, false, not, ◌&&◌, ◌||◌, List, [], ◌∷◌, select, find, count,
  update, any, map, order_by, ◌==◌, ltb, if◌then◌else◌, String,
}
use mathlib.Core.List.{reverse}
use synapse_messenger.Hlc.{Clock}
use synapse_messenger.Errors.{Result, ok, err, task_state_invalid}
use synapse_messenger.Db.{
  Db, Task, TaskState, submitted, in_progress, completed, failed, canceled, pending_approval,
  Priority, TaskDependency, TaskEvent, TaskChange, Note, Account,
}

abbrev pub state_index : TaskState → ℕ
state_index submitted = 0
state_index in_progress = 1
state_index completed = 2
state_index failed = 3
state_index canceled = 4
state_index pending_approval = 5

abbrev pub same_state : TaskState → TaskState → Bool
same_state a b = state_index a == state_index b

-- s in TERMINAL_STATES
abbrev pub is_terminal : TaskState → Bool
is_terminal s = same_state s completed || same_state s failed || same_state s canceled

-- s in ACTIVE_STATES
abbrev pub is_active : TaskState → Bool
is_active s = same_state s submitted || same_state s in_progress || same_state s pending_approval

-- _TRANSITIONS
abbrev pub transitions : TaskState → Option (List TaskState)
transitions submitted = some (in_progress ∷ canceled ∷ [])
transitions in_progress = some (completed ∷ failed ∷ canceled ∷ [])
transitions _ = none

unfoldable pub ensure_transition : TaskState → TaskState → Result (Unit {0})
ensure_transition from_state to_state = elim (transitions from_state) [
  | none ↦ err task_state_invalid
  | some allowed ↦ if any (same_state to_state) allowed then ok tt else err task_state_invalid
]

unfoldable pub get : Db → ℕ → Option Task
get d task_id = find (λ t. t.task_id == task_id) d.tasks

abbrev pub same_id : Option ℕ → ℕ → Bool
same_id none b = false
same_id (some a) b = a == b

unfoldable pub get_by_client_key : Db → ℕ → ℕ → Option Task
get_by_client_key d creator_username client_task_id =
    find (λ t. t.creator_username == creator_username && same_id t.client_task_id client_task_id)
      d.tasks

-- The parameters of `insert`; a UUID that is taken violates the primary key.
unfoldable pub insert :
    ℕ
    → Option ℕ
    → String
    → Option String
    → ℕ
    → ℕ
    → Priority
    → Option ℕ
    → Option String
    → ℕ
    → Db
    → Db
insert task_id client_task_id title description creator assignee priority due_at business_reference
      created_at d =
    record d {
      tasks =
          record {
            task_id = task_id;
            client_task_id = client_task_id;
            title = title;
            description = description;
            creator_username = creator;
            assignee_username = assignee;
            state = submitted;
            priority = priority;
            due_at = due_at;
            business_reference = business_reference;
            result = none;
            approver_username = none;
            created_at = created_at;
            updated_at = created_at;
          }
          ∷ d.tasks;
    }

unfoldable pub set_state : ℕ → TaskState → Option String → ℕ → Db → Db
set_state task_id state result at d = record d {
  tasks =
      update (λ t. t.task_id == task_id)
        (λ t. record t { state = state; result = result; updated_at = at }) d.tasks;
}

unfoldable pub set_assignee : ℕ → ℕ → ℕ → Db → Db
set_assignee task_id assignee at d = record d {
  tasks =
      update (λ t. t.task_id == task_id)
        (λ t. record t { assignee_username = assignee; updated_at = at }) d.tasks;
}

unfoldable pub set_approver : ℕ → ℕ → ℕ → Db → Db
set_approver task_id approver at d = record d {
  tasks =
      update (λ t. t.task_id == task_id)
        (λ t. record t { approver_username = some approver; updated_at = at }) d.tasks;
}

-- The loop of INSERTs of replace_dependencies.
pub insert_dependencies : ℕ → List ℕ → List TaskDependency → List TaskDependency
insert_dependencies task_id [] rows = rows
insert_dependencies task_id (dep ∷ deps) rows =
    insert_dependencies task_id deps (record { task_id = task_id; depends_on_task_id = dep } ∷ rows)

unfoldable pub replace_dependencies : ℕ → List ℕ → Db → Db
unfolding insert_dependencies
replace_dependencies task_id depends_on d = record d {
  task_dependencies =
      insert_dependencies task_id depends_on
        (select (λ r. not (r.task_id == task_id)) d.task_dependencies);
}

unfoldable pub get_dependencies : Db → ℕ → List ℕ
get_dependencies d task_id =
    order_by ltb
      (map (λ r. r.depends_on_task_id) (select (λ r. r.task_id == task_id) d.task_dependencies))

-- COUNT(*) over the join of the dependency rows with the tasks that are not completed
unfoldable pub unmet : Db → ℕ → ℕ
unmet d task_id =
    count
      (λ r.
        r.task_id == task_id
        && any (λ t. t.task_id == r.depends_on_task_id && not (same_state t.state completed))
            d.tasks)
      d.task_dependencies

unfoldable pub dependencies_met : Db → ℕ → Bool
dependencies_met d task_id = unmet d task_id == 0

unfoldable pub add_event : ℕ → TaskChange → ℕ → Note → ℕ → Clock → Db → Db
add_event task_id event by_username note at hlc d = record d {
  task_events =
      record {
        task_id = task_id;
        event = event;
        by_username = by_username;
        note = note;
        at = at;
        hlc = hlc;
      }
      ∷ d.task_events;
}

-- ORDER BY id: the oldest first
unfoldable pub get_history : Db → ℕ → List TaskEvent
get_history d task_id = reverse (select (λ e. e.task_id == task_id) d.task_events)

unfoldable pub active_count : Db → ℕ → ℕ
active_count d username = count (λ t. t.assignee_username == username && is_active t.state) d.tasks

unfoldable pub messages_in_hour : Db → ℕ → ℕ → ℕ
messages_in_hour d username since =
    count (λ m. m.sender_username == username && ltb since m.created_at) d.messages
    + count (λ m. m.sender_username == username && ltb since m.created_at) d.group_messages

abbrev pub before : Option ℕ → ℕ → Bool
before none limit = false
before (some due) limit = ltb due limit

abbrev pub assigned_in : List Account → ℕ → ℕ → Bool
assigned_in accounts username organization =
    any (λ a. a.username == username && a.organization_name == organization) accounts

-- The WHERE clause of due_tasks_to_escalate.
unfoldable pub must_escalate : Db → ℕ → ℕ → ℕ → ℕ → Task → Bool
must_escalate d organization exclude due_before failed_before t =
    assigned_in d.accounts t.assignee_username organization
    && not (t.assignee_username == exclude)
    && (same_state t.state submitted || same_state t.state in_progress)
    && (before t.due_at due_before
        || (same_state t.state in_progress && ltb t.updated_at failed_before))

unfoldable pub due_tasks_to_escalate : Db → ℕ → ℕ → ℕ → ℕ → List Task
due_tasks_to_escalate d organization exclude due_before failed_before =
    select (must_escalate d organization exclude due_before failed_before) d.tasks

-- What row_to_task adds to the row
pub record TaskView : Type 0 where
  pub row : Task
  pub depends_on : List ℕ
  pub history : List TaskEvent

unfoldable pub row_to_task : Db → Task → TaskView
row_to_task d row = record {
  row = row;
  depends_on = get_dependencies d row.task_id;
  history = get_history d row.task_id;
}
