-- ===== src/Service/Tracked.antt =====
-- One task through the changes of the tables that a command is made of (synapse/service.py).
use mathlib.Core.Path.{subst}
use synapse_messenger.Prelude.{
  ℕ, ◌≡◌, refl, sym, ap, ◌∙◌, Bool, true, false, not, ◌||◌, is_some, update, Option, none, some,
  List, [], ◌∷◌, any, arith, ◌==◌, ==_iff, Bool-cases, inl, inr, String,
}
use synapse_messenger.Hlc.{Clock}
use synapse_messenger.Errors.{ok, Ensures}
use synapse_messenger.Db.{
  Db, Task, TaskState, in_progress, completed, pending_approval, TaskChange, Note, EventType,
  Outcome,
}
use synapse_messenger.Store.Tasks
use synapse_messenger.Store.Tasks.{TaskView, is_terminal, same_state}
use synapse_messenger.Store.Keyed.{Keyed, by_id, by_id-update, Keyed-update, update_twice}
use synapse_messenger.Service.Common.{Env}
use synapse_messenger.Service.Guards.{task_visible_or_404, visible_row, check_escalations}
use synapse_messenger.Service.Escalation.{check_escalations-Evolved, check_escalations-Keyed}
use synapse_messenger.Service.Steps.{
  next_states, self_next, Follows, Evolved, record_change-tasks, get-same_tasks,
}
use synapse_messenger.Service.Tasks.{record_change, with_dependencies, asked}

-- What the guards say once they have passed.
pub visible_found :
    (d : Db) (now k me : ℕ) (allow : Bool) (row : Task × Bool)
    → task_visible_or_404 d now k me allow ≡ ok row
    → Tasks.get d k ≡ some row.0
unfolding task_visible_or_404
visible_found d now k me allow row h = found (Tasks.get d k) h
  where
    found : (o : Option Task) → visible_row d now me allow o ≡ ok row → o ≡ some row.0
    found none e = cc
    found (some t) e = ground arith

pub asked_found : (me : ℕ) (o : Option Task) (row : Task) → asked me o ≡ ok row → o ≡ some row
asked_found me o row h = ground arith

pub transition_allowed :
    (a b : TaskState)
    → Tasks.ensure_transition a b ≡ ok tt
    → (is_terminal a ≡ false) × (any (same_state b) (next_states a) ≡ true)
unfolding Tasks.ensure_transition
transition_allowed a b h = ground arith

pub from_pending :
    (s : TaskState)
    → not (same_state s pending_approval) ≡ false
    → (is_terminal s ≡ false)
      × (any (same_state completed) (next_states s) ≡ true)
      × (any (same_state in_progress) (next_states s) ≡ true)
from_pending s h = ground arith

pub to_pending :
    (s : TaskState)
    → (is_terminal s || same_state s pending_approval) ≡ false
    → (is_terminal s ≡ false) × (any (same_state pending_approval) (next_states s) ≡ true)
to_pending s h = ground arith

pub is_none : (o : Option Task) → is_some o ≡ false → o ≡ none
is_none o h = ground arith

pub with_dependencies-tasks :
    (id : ℕ) (deps : List ℕ) (d : Db) → (with_dependencies id deps d).tasks ≡ d.tasks
unfolding Tasks.replace_dependencies
with_dependencies-tasks id [] d = refl
with_dependencies-tasks id (x ∷ xs) d = refl

abbrev pub Tracked : ℕ → Task → Db → Type 0
Tracked id t d = Keyed d.tasks × Evolved id t d

pub some_inj : (a b : Task) → some a ≡ some b → a ≡ b
some_inj a b e = cc

module _ (id : ℕ) (t : Task) where
  pub Tracked-same : (d d' : Db) → d'.tasks ≡ d.tasks → Tracked id t d → Tracked id t d'
  Tracked-same d d' e (key, (t', g, f)) = (rw e key, (t', get-same_tasks d d' id e ∙ g, f))

  -- One UPDATE of a row that is not terminal, to a row that follows it.
  pub update-Tracked :
      (k : ℕ) (f : Task → Task) (d : Db) (row : Task)
      → ((u : Task) → (f u).task_id ≡ u.task_id)
      → Tasks.get d k ≡ some row
      → Follows row (f row)
      → Keyed d.tasks
      → Tasks.get d id ≡ some t
      → Keyed (update (λ u. u.task_id == k) f d.tasks)
        × ((t' : Task) × (by_id id (update (λ u. u.task_id == k) f d.tasks) ≡ some t')
            × Follows t t')
  unfolding Tasks.get
  update-Tracked k f d row keep found step key g = (
    Keyed-update k f d.tasks keep key,
    elim (Bool-cases (k == id)) [
      | inl same ↦ (
        f t,
        by_id-update k id f d.tasks keep ∙ rw (same, g) refl,
        subst (λ u. Follows u (f u))
            (some_inj row t (sym found ∙ ap (λ i. by_id i d.tasks) ((==_iff k id).0 same) ∙ g))
            step,
      )
      | inr other ↦ (t, by_id-update k id f d.tasks keep ∙ rw (other, g) refl, inl refl)
    ],
  )

  pub set_state-Tracked :
      (k : ℕ) (to : TaskState) (result : Option String) (at : ℕ) (d : Db) (row : Task)
      → Tasks.get d k ≡ some row
      → is_terminal row.state ≡ false
      → any (same_state to) (next_states row.state) ≡ true
      → Keyed d.tasks
      → Tasks.get d id ≡ some t
      → Tracked id t (Tasks.set_state k to result at d)
  unfolding Tasks.set_state Tasks.get
  set_state-Tracked k to result at d row found open_row allowed key g =
      update-Tracked k (λ u. record u { state = to; result = result; updated_at = at }) d row
        (λ u. refl) found (inr (open_row, allowed, refl, refl, refl)) key g

  pub set_assignee-Tracked :
      (k assignee at : ℕ) (d : Db) (row : Task)
      → Tasks.get d k ≡ some row
      → is_terminal row.state ≡ false
      → Keyed d.tasks
      → Tasks.get d id ≡ some t
      → Tracked id t (Tasks.set_assignee k assignee at d)
  unfolding Tasks.set_assignee Tasks.get
  set_assignee-Tracked k assignee at d row found open_row key g =
      update-Tracked k (λ u. record u { assignee_username = assignee; updated_at = at }) d row
        (λ u. refl) found (inr (open_row, self_next row.state, refl, refl, refl)) key g

  pub request-Tracked :
      (k by at : ℕ) (d : Db) (row : Task)
      → Tasks.get d k ≡ some row
      → (is_terminal row.state || same_state row.state pending_approval) ≡ false
      → Keyed d.tasks
      → Tasks.get d id ≡ some t
      → Tracked id t (Tasks.set_state k pending_approval none at (Tasks.set_approver k by at d))
  unfolding Tasks.set_state Tasks.set_approver Tasks.get
  request-Tracked k by at d row found fresh key g =
      let (o, a) = to_pending row.state fresh in
      rw
        (update_twice k (λ u. record u { state = pending_approval; result = none; updated_at = at })
          (λ u. record u { approver_username = some by; updated_at = at }) d.tasks (λ u. refl))
        (update-Tracked k
          (λ u. record u {
            state = pending_approval;
            result = none;
            approver_username = some by;
            updated_at = at;
          })
          d row (λ u. refl) found (inr (o, a, refl, refl, refl)) key g)

  -- A new row under another key.
  pub insert-Tracked :
      (new : Task) (d d' : Db)
      → d'.tasks ≡ new ∷ d.tasks
      → Tasks.get d new.task_id ≡ none
      → Keyed d.tasks
      → Tasks.get d id ≡ some t
      → Tracked id t d'
  unfolding Tasks.get
  insert-Tracked new d d' e fresh key g = (
    rw e (fresh, key),
    (
      t,
      ap (by_id id) e ∙ elim (Bool-cases (new.task_id == id)) [
        | inl same ↦ absurd (clash ((==_iff _ _).0 same))
        | inr other ↦ rw other g
      ],
      inl refl,
    ),
  )
    where
      clash : new.task_id ≡ id → ⊥
      clash q = cc (fresh, g)

  pub record_change-Tracked :
      (env : Env) (me org : ℕ) (h : Clock) (k : ℕ) (change : TaskChange) (note : Note)
      (type : EventType) (command : String) (outcome : Outcome) (d : Db)
      → Tracked id t d
      → Ensures
          (λ a. Tracked id t a.1)
          (record_change env me org h k change note type command outcome d)
  record_change-Tracked env me org h k change note type command outcome d v = record {
    returns = λ a e.
        Tracked-same d a.1
          ((record_change-tasks env me org h k change note type command outcome d).returns a e) v;
  }

  pub escalations-Tracked :
      (env : Env) (org : ℕ) (h : Clock) (d : Db)
      → Tracked id t d
      → Tracked id t (check_escalations env org h d)
  escalations-Tracked env org h d (key, v) =
      (check_escalations-Keyed env h org d key, check_escalations-Evolved env h id t org d key v)
