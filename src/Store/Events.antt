-- ===== src/Store/Events.antt =====
-- The journal of events of each principal (synapse/store/events.py).
use synapse_messenger.Prelude.{
  ℕ, ◌+◌, ◌-◌, ◌*◌, Option, none, some, not, List, [], ◌∷◌, select, ◌==◌, ltb, if◌then◌else◌,
}
use synapse_messenger.Hlc.{Clock}
use synapse_messenger.Db.{Db, Event, EventType, Task}

-- now_utc_offset(seconds), from the reading `now` of the clock
abbrev pub now_utc_offset : ℕ → ℕ → ℕ
now_utc_offset now seconds = now - seconds * 1000

-- events.purge_old
unfoldable pub purge_old : ℕ → ℕ → Db → Db
purge_old now retention_days d = record d {
  events = select (λ e. not (ltb e.at (now_utc_offset now (86400 * retention_days)))) d.events;
}

-- SELECT MAX(seq) WHERE principal: the newest row of the principal has it
unfoldable pub last_seq : ℕ → List Event → Option ℕ
last_seq principal [] = none
last_seq principal (e ∷ es) =
    let rest = last_seq principal es in if e.principal == principal then some e.seq else rest

-- events.append
unfoldable pub append : ℕ → ℕ → ℕ → EventType → ℕ → ℕ → ℕ → Clock → Db → Db
append now retention_days principal event_type ref_id by_username at hlc d =
    let d' = purge_old now retention_days d in
    record d' {
      events =
          record {
            seq = d'.events_seq + 1;
            principal = principal;
            event_type = event_type;
            ref_id = ref_id;
            by_username = by_username;
            at = at;
            hlc = hlc;
            prev_event = last_seq principal d'.events;
          }
          ∷ d'.events;
      events_seq = d'.events_seq + 1;
    }

-- events.append_for_task: the set {creator, assignee}, once if they are the same
unfoldable pub append_for_task : ℕ → ℕ → Task → EventType → ℕ → ℕ → Clock → Db → Db
append_for_task now retention_days task event_type by_username at hlc d =
    let d' =
      append now retention_days task.creator_username event_type task.task_id by_username at hlc
        d in
    if task.creator_username == task.assignee_username
    then d'
    else append now retention_days task.assignee_username event_type task.task_id by_username at hlc
        d'
