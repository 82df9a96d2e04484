-- ===== src/Store/Causal.antt =====
-- The three journals that carry a timestamp (events, task_events, audit_log) stay in causal order:
-- the newest row has the greatest timestamp, and none is beyond the clock.
use synapse_messenger.Prelude.{
  ℕ, ◌<◌, ◌≤◌, ◌≡◌, ◌⊎◌, Bool, Bool-cases, inl, inr, Option, String, ◌==◌, ◌*◌, List, [], ◌∷◌,
  select, arith, not, ltb,
}
use synapse_messenger.Hlc.{Clock}
use synapse_messenger.Hlc.Rules.{◌≺◌}
use synapse_messenger.Db.{
  Db, Event, TaskEvent, AuditEntry, Task, TaskState, TaskChange, Note, EventType, Priority,
}
use synapse_messenger.Store.Audit
use synapse_messenger.Store.Events
use synapse_messenger.Store.Tasks

infix 50 ◌≼◌
abbrev pub ◌≼◌ : Clock → Clock → Type 0
a ≼ b = (a.l < b.l) ⊎ ((a.l ≡ b.l) × (a.c ≤ b.c))

pub ≼_refl : (a : Clock) → a ≼ a
≼_refl a = ground arith

pub ≼_of_≺ : (a b c : Clock) → a ≼ b → b ≺ c → a ≼ c
≼_of_≺ a b c h k = ground arith

≼_trans : (a b c : Clock) → a ≼ b → b ≼ c → a ≼ c
≼_trans a b c h k = ground arith

-- The rows, the newest first, have stamps that do not increase, from at most `h` on.
abbrev pub Ordered : {A : Type 0} → (A → Clock) → Clock → List A → Type 0
Ordered stamp h [] = Unit
Ordered stamp h (r ∷ rs) = (stamp r ≼ h) × Ordered stamp (stamp r) rs

module _ {A : Type 0} (stamp : A → Clock) where
  pub Ordered-mono :
      (h k : Clock) (rows : List A) → h ≼ k → Ordered stamp h rows → Ordered stamp k rows
  Ordered-mono h k [] le o = tt
  Ordered-mono h k (r ∷ rs) le (b, o) = (≼_trans (stamp r) h k b le, o)

  pub Ordered-cons :
      (r : A) (h : Clock) (rows : List A)
      → stamp r ≡ h
      → Ordered stamp h rows
      → Ordered stamp h (r ∷ rows)
  Ordered-cons r h rows e o = rw e (≼_refl h, o)

  pub Ordered-select :
      (p : A → Bool) (h : Clock) (rows : List A)
      → Ordered stamp h rows
      → Ordered stamp h (select p rows)
  Ordered-select p h [] o = tt
  Ordered-select p h (r ∷ rs) (b, o) = elim (Bool-cases (p r)) [
    | inl keep ↦ rw keep (b, Ordered-select p (stamp r) rs o)
    | inr drop ↦
        rw drop (Ordered-mono (stamp r) h (select p rs) b (Ordered-select p (stamp r) rs o))
  ]

pub record IsCausal (h : Clock) (d : Db) : Type 0 where
  pub audit_log : Ordered (λ (r : AuditEntry). r.hlc) h d.audit_log
  pub task_events : Ordered (λ (r : TaskEvent). r.hlc) h d.task_events
  pub events : Ordered (λ (r : Event). r.hlc) h d.events

pub IsCausal-mono : (h k : Clock) (d : Db) → h ≼ k → IsCausal h d → IsCausal k d
IsCausal-mono h k d le c = record {
  audit_log = Ordered-mono (λ r. r.hlc) h k d.audit_log le c.audit_log;
  task_events = Ordered-mono (λ r. r.hlc) h k d.task_events le c.task_events;
  events = Ordered-mono (λ r. r.hlc) h k d.events le c.events;
}

module _ (h : Clock) (d : Db) (c : IsCausal h d) where
  pub audit-IsCausal : (e : AuditEntry) → e.hlc ≡ h → IsCausal h (Audit.append e d)
  unfolding Audit.append
  audit-IsCausal e q = record {
    audit_log = Ordered-cons (λ r. r.hlc) e h d.audit_log q c.audit_log;
    task_events = c.task_events;
    events = c.events;
  }

  pub add_event-IsCausal :
      (task_id : ℕ) (change : TaskChange) (by : ℕ) (note : Note) (at : ℕ)
      → IsCausal h (Tasks.add_event task_id change by note at h d)
  unfolding Tasks.add_event
  add_event-IsCausal task_id change by note at = record {
    audit_log = c.audit_log;
    task_events = (≼_refl h, c.task_events);
    events = c.events;
  }

  pub event-IsCausal :
      (now days principal : ℕ) (type : EventType) (ref by at : ℕ)
      → IsCausal h (Events.append now days principal type ref by at h d)
  unfolding Events.append Events.purge_old
  event-IsCausal now days principal type ref by at = record {
    audit_log = c.audit_log;
    task_events = c.task_events;
    events = (
      ≼_refl h,
      Ordered-select (λ r. r.hlc) (λ e. not (ltb e.at (Events.now_utc_offset now (86400 * days)))) h
          d.events c.events,
    );
  }

  pub set_state-IsCausal :
      (task_id : ℕ) (state : TaskState) (result : Option String) (at : ℕ)
      → IsCausal h (Tasks.set_state task_id state result at d)
  unfolding Tasks.set_state
  set_state-IsCausal task_id state result at = record {
    audit_log = c.audit_log;
    task_events = c.task_events;
    events = c.events;
  }

  pub set_assignee-IsCausal :
      (task_id assignee at : ℕ) → IsCausal h (Tasks.set_assignee task_id assignee at d)
  unfolding Tasks.set_assignee
  set_assignee-IsCausal task_id assignee at = record {
    audit_log = c.audit_log;
    task_events = c.task_events;
    events = c.events;
  }

  pub set_approver-IsCausal : (task_id by at : ℕ) → IsCausal h (Tasks.set_approver task_id by at d)
  unfolding Tasks.set_approver
  set_approver-IsCausal task_id by at = record {
    audit_log = c.audit_log;
    task_events = c.task_events;
    events = c.events;
  }

  pub replace_dependencies-IsCausal :
      (task_id : ℕ) (deps : List ℕ) → IsCausal h (Tasks.replace_dependencies task_id deps d)
  unfolding Tasks.replace_dependencies
  replace_dependencies-IsCausal task_id deps = record {
    audit_log = c.audit_log;
    task_events = c.task_events;
    events = c.events;
  }

  pub insert-IsCausal :
      (id : ℕ) (key : Option ℕ) (title : String) (description : Option String)
      (creator assignee : ℕ) (priority : Priority) (due : Option ℕ) (reference : Option String)
      (at : ℕ)
      → IsCausal h
          (Tasks.insert id key title description creator assignee priority due reference at d)
  unfolding Tasks.insert
  insert-IsCausal id key title description creator assignee priority due reference at = record {
    audit_log = c.audit_log;
    task_events = c.task_events;
    events = c.events;
  }

pub append_for_task-IsCausal :
    (h : Clock) (d : Db)
    → IsCausal h d
    → (now days : ℕ) (task : Task) (type : EventType) (by at : ℕ)
    → IsCausal h (Events.append_for_task now days task type by at h d)
unfolding Events.append_for_task
append_for_task-IsCausal h d c now days task type by at =
    let c' = event-IsCausal h d c now days task.creator_username type task.task_id by at in
    let d' = Events.append now days task.creator_username type task.task_id by at h d in
    elim (Bool-cases (task.creator_username == task.assignee_username)) [
      | inl same ↦ rw same c'
      | inr other ↦
          rw other (event-IsCausal h d' c' now days task.assignee_username type task.task_id by at)
    ]
