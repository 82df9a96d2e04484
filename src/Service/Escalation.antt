-- ===== src/Service/Escalation.antt =====
-- What the automatic escalation does to the task table (synapse/service.py: _check_escalations): it
-- changes only the assignee, and only of tasks that are submitted or in progress.
use synapse_messenger.Prelude.{
  ℕ, ◌≡◌, refl, sym, ap, ◌∙◌, Bool, true, false, not, Option, none, some, List, [], ◌∷◌, All,
  All-map, arith, ◌==◌, ==_iff, if◌then◌else◌, Bool-cases, inl, inr,
}
use synapse_messenger.Hlc.{Clock}
use synapse_messenger.Db.{Db, Task, EscalationPolicy}
use synapse_messenger.Store.Accounts
use synapse_messenger.Store.Audit
use synapse_messenger.Store.Events
use synapse_messenger.Store.Tasks
use synapse_messenger.Store.Tasks.{is_terminal, same_state}
use synapse_messenger.Store.Keyed.{Keyed, by_id, map_some, by_id-update, Keyed-update, select-found}
use synapse_messenger.Service.Common.{Env}
use synapse_messenger.Service.Guards.{
  escalate_task, escalate_all, check_escalations, run_policy, is_available, reached,
  max_active_tasks, budget_of,
}
use synapse_messenger.Service.Steps.{
  Evolved, append_for_task-tasks, same_row, Follows-reassign, must_escalate-open,
}

if-Keyed : (b : Bool) (x y : List Task) → Keyed x → Keyed y → Keyed (if b then x else y)
if-Keyed true x y kx ky = kx
if-Keyed false x y kx ky = ky

-- A policy either changes nothing or runs the loop over the due tasks.
run_policy-elim :
    (P : Db → Type 0) (env : Env) (org : ℕ) (h : Clock) (d : Db) (p : Option EscalationPolicy)
    → P d
    → ((to due failed : ℕ)
        → P (escalate_all env org to h (Tasks.due_tasks_to_escalate d org to due failed) d))
    → P (run_policy env org h d p)
run_policy-elim P env org h d none same loop = same
run_policy-elim P env org h d (some p) same loop =
    choose (not p.enabled) (not (is_available (Accounts.get d p.escalate_to_username)))
  where
    target : Db
    target =
        escalate_all env org p.escalate_to_username h
          (Tasks.due_tasks_to_escalate d org p.escalate_to_username
            (Events.now_utc_offset env.now p.due_after_seconds)
            (Events.now_utc_offset env.now p.failed_after_seconds))
          d

    choose : (a b : Bool) → P (if a then d else (if b then d else target))
    choose true b = same
    choose false true = same
    choose false false = loop p.escalate_to_username _ _

pub check_escalations-elim :
    (P : Db → Type 0) (env : Env) (org : ℕ) (h : Clock) (d : Db)
    → P d
    → ((to due failed : ℕ)
        → P (escalate_all env org to h (Tasks.due_tasks_to_escalate d org to due failed) d))
    → P (check_escalations env org h d)
unfolding check_escalations
check_escalations-elim P env org h d same loop = run_policy-elim P env org h d _ same loop

module _ (env : Env) (org to : ℕ) (h : Clock) where
  escalate_task-tasks :
      (row : Task) (d : Db)
      → (escalate_task env org to h row d).tasks ≡ (
          if reached (max_active_tasks (budget_of d to)) (Tasks.active_count d to)
          then d.tasks
          else (Tasks.set_assignee row.task_id to env.at d).tasks)
  unfolding escalate_task Tasks.add_event Audit.append Tasks.set_assignee
  escalate_task-tasks row d =
      elim (Bool-cases (reached (max_active_tasks (budget_of d to)) (Tasks.active_count d to))) [
        | inl full ↦ rw full refl
        | inr room ↦ rw room (append_for_task-tasks _ _ _ _ _ _ _ _)
      ]

  -- The task under `id` as it stands after one turn of the loop.
  reassigned : ℕ → Task → Db → Option Task → Option Task
  reassigned id row d o =
      if reached (max_active_tasks (budget_of d to)) (Tasks.active_count d to)
      then o
      else if row.task_id == id
      then map_some (λ t. record t { assignee_username = to; updated_at = env.at }) o
      else o

  get-escalate_task :
      (id : ℕ) (row : Task) (d : Db)
      → Tasks.get (escalate_task env org to h row d) id ≡ reassigned id row d (Tasks.get d id)
  unfolding Tasks.get reassigned Tasks.set_assignee
  get-escalate_task id row d =
      ap (by_id id) (escalate_task-tasks row d)
      ∙ ground (
        arith,
        by_id-update row.task_id id (λ t. record t { assignee_username = to; updated_at = env.at })
            d.tasks (λ t. refl),
      )

  -- The task that `row` names is neither missing nor terminal.
  abbrev IsOpen : Db → Task → Type 0
  IsOpen d row = (r : Task) × (Tasks.get d row.task_id ≡ some r) × (is_terminal r.state ≡ false)

  escalate_task-IsOpen :
      (row other : Task) (d : Db) → IsOpen d other → IsOpen (escalate_task env org to h row d) other
  unfolding reassigned
  escalate_task-IsOpen row other d (r, e, o) =
      elim (Bool-cases (reached (max_active_tasks (budget_of d to)) (Tasks.active_count d to))) [
        | inl full ↦ (r, get-escalate_task other.task_id row d ∙ rw (full, e) refl, o)
        | inr room ↦ elim (Bool-cases (row.task_id == other.task_id)) [
          | inl same ↦ (
            record r { assignee_username = to; updated_at = env.at },
            get-escalate_task other.task_id row d ∙ rw (room, same, e) refl,
            o,
          )
          | inr apart ↦ (r, get-escalate_task other.task_id row d ∙ rw (room, apart, e) refl, o)
        ]
      ]

  escalate_task-Evolved :
      (id : ℕ) (t row : Task) (d : Db)
      → IsOpen d row
      → Evolved id t d
      → Evolved id t (escalate_task env org to h row d)
  unfolding reassigned
  escalate_task-Evolved id t row d (r, er, o) (t', e, f) =
      elim (Bool-cases (reached (max_active_tasks (budget_of d to)) (Tasks.active_count d to))) [
        | inl full ↦ (t', get-escalate_task id row d ∙ rw (full, e) refl, f)
        | inr room ↦ elim (Bool-cases (row.task_id == id)) [
          | inl same ↦ (
            record t' { assignee_username = to; updated_at = env.at },
            get-escalate_task id row d ∙ rw (room, same, e) refl,
            Follows-reassign t t' to env.at f
                (same_row t' r (sym e ∙ ap (Tasks.get d) (sym ((==_iff _ _).0 same)) ∙ er) o),
          )
          | inr apart ↦ (t', get-escalate_task id row d ∙ rw (room, apart, e) refl, f)
        ]
      ]

  escalate_all-Evolved :
      (id : ℕ) (t : Task) (rows : List Task) (d : Db)
      → All (IsOpen d) rows
      → Evolved id t d
      → Evolved id t (escalate_all env org to h rows d)
  unfolding escalate_all
  escalate_all-Evolved id t [] d o v = v
  escalate_all-Evolved id t (row ∷ rows) d (o, os) v =
      escalate_all-Evolved id t rows (escalate_task env org to h row d)
        (All-map rows (λ other p. escalate_task-IsOpen row other d p) os)
        (escalate_task-Evolved id t row d o v)

  due-IsOpen :
      (d : Db) (due_before failed_before : ℕ)
      → Keyed d.tasks
      → All (IsOpen d) (Tasks.due_tasks_to_escalate d org to due_before failed_before)
  unfolding Tasks.due_tasks_to_escalate Tasks.get
  due-IsOpen d due_before failed_before key =
      All-map _ (λ r e. (r, e.0, must_escalate-open d org to due_before failed_before r e.1))
        (select-found _ d.tasks key)

module _ (env : Env) (h : Clock) where
  escalate_all-Keyed :
      (org to : ℕ) (rows : List Task) (d : Db)
      → Keyed d.tasks
      → Keyed (escalate_all env org to h rows d).tasks
  unfolding escalate_all
  escalate_all-Keyed org to [] d key = key
  escalate_all-Keyed org to (row ∷ rows) d key =
      escalate_all-Keyed org to rows (escalate_task env org to h row d) (
        rw (escalate_task-tasks env org to h row d)
          (if-Keyed _ _ _ key (reassigned-Keyed to row d key)))
    where
      reassigned-Keyed :
          (to : ℕ) (row : Task) (d : Db)
          → Keyed d.tasks
          → Keyed (Tasks.set_assignee row.task_id to env.at d).tasks
      reassigned-Keyed to row d key =
          unfold Tasks.set_assignee in Keyed-update row.task_id _ d.tasks (λ u. refl) key

  pub check_escalations-Keyed :
      (org : ℕ) (d : Db) → Keyed d.tasks → Keyed (check_escalations env org h d).tasks
  check_escalations-Keyed org d key =
      check_escalations-elim (λ e. Keyed e.tasks) env org h d key
        (λ to due failed. escalate_all-Keyed org to _ d key)

  -- An escalation leaves a task as it was, or gives a task that is not terminal a new assignee.
  pub check_escalations-Evolved :
      (id : ℕ) (t : Task) (org : ℕ) (d : Db)
      → Keyed d.tasks
      → Evolved id t d
      → Evolved id t (check_escalations env org h d)
  check_escalations-Evolved id t org d key v =
      check_escalations-elim (Evolved id t) env org h d v (λ to due failed.
        escalate_all-Evolved env org to h id t _ d (due-IsOpen env org to h d due failed key) v)
