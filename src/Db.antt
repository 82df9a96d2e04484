-- ===== src/Db.antt =====
-- The tables of the database (synapse/db.py: SCHEMA and EXTRA_SCHEMA) but auth_failures, the journal of
-- failed logins, which only the logins read and write and which stands in Service.Auth's AuthState. A
-- table is the list of its rows, the newest first. Usernames, organization names, UUIDs and client identifiers are only
-- compared, so they are numbers; a timestamp is its number of milliseconds, which the fixed-width
-- text of `now_utc` orders alike; the hlc column is the pair that its text encodes (Hlc.Order).
use synapse_messenger.Prelude.{ℕ, Bool, Option, List, String}
use synapse_messenger.Hlc.{Clock}

pub data AccountStatus : Type 0 where
  active disabled : AccountStatus

pub data PrincipalType : Type 0 where
  agent human : PrincipalType

pub record Organization : Type 0 where
  pub organization_name : ℕ
  pub password_hash : ℕ
  pub allow_incoming_external : Bool
  pub allow_outgoing_external : Bool
  pub enabled : Bool

pub record Account : Type 0 where
  pub username : ℕ
  pub password_hash : ℕ
  pub status : AccountStatus
  pub description : String
  pub organization_name : ℕ
  pub can_see_org_agents : Bool
  pub created_at : ℕ
  pub principal_type : PrincipalType
  pub is_observer : Bool

-- STATE_SUBMITTED and the other states of synapse/store/tasks.py
pub data TaskState : Type 0 where
  submitted in_progress completed failed canceled pending_approval : TaskState

pub data Priority : Type 0 where
  low normal high : Priority

pub record Task : Type 0 where
  pub task_id : ℕ
  pub client_task_id : Option ℕ
  pub title : String
  pub description : Option String
  pub creator_username : ℕ
  pub assignee_username : ℕ
  pub state : TaskState
  pub priority : Priority
  pub due_at : Option ℕ
  pub business_reference : Option String
  pub result : Option String
  pub approver_username : Option ℕ
  pub created_at : ℕ
  pub updated_at : ℕ

pub record TaskDependency : Type 0 where
  pub task_id : ℕ
  pub depends_on_task_id : ℕ

-- The texts of the event column: "created", "state_changed:a->b", ...
pub data TaskChange : Type 0 where
  created transferred approval_requested approved rejected escalated : TaskChange
  state_changed : TaskState → TaskState → TaskChange

-- The free text of an event: the caller's, the approver's name, or the escalation's.
pub data Note : Type 0 where
  no_note automatic_escalation : Note
  written : String → Note
  approver : ℕ → Note

pub record TaskEvent : Type 0 where
  pub task_id : ℕ
  pub event : TaskChange
  pub by_username : ℕ
  pub note : Note
  pub at : ℕ
  pub hlc : Clock

-- EVENT_TYPES of synapse/store/events.py
pub data EventType : Type 0 where
  task_created task_state_changed task_transferred task_approval_requested : EventType
  task_approved task_rejected task_escalated : EventType

pub record Event : Type 0 where
  pub seq : ℕ
  pub principal : ℕ
  pub event_type : EventType
  pub ref_id : ℕ
  pub by_username : ℕ
  pub at : ℕ
  pub hlc : Clock
  pub prev_event : Option ℕ

-- The outcome column: a fixed word, a name, or the new state of a task (delegated or not).
pub data Outcome : Type 0 where
  word : String → Outcome
  name : ℕ → Outcome
  new_state : TaskState → Bool → Outcome

pub record AuditEntry : Type 0 where
  pub organization_name : ℕ
  pub at : ℕ
  pub actor_username : ℕ
  pub command : List ℕ
  pub target_username : Option ℕ
  pub outcome : Outcome
  pub hlc : Clock

pub record AgentBudget : Type 0 where
  pub username : ℕ
  pub max_active_tasks : Option ℕ
  pub max_messages_per_hour : Option ℕ

pub record OrgSettings : Type 0 where
  pub organization_name : ℕ
  pub event_retention_days : ℕ

pub record EscalationPolicy : Type 0 where
  pub organization_name : ℕ
  pub enabled : Bool
  pub due_after_seconds : ℕ
  pub failed_after_seconds : ℕ
  pub escalate_to_username : ℕ

pub record Department : Type 0 where
  pub organization_name : ℕ
  pub department_name : ℕ
  pub created_at : ℕ

pub data OrgRole : Type 0 where
  manager employee rh : OrgRole

pub record Membership : Type 0 where
  pub username : ℕ
  pub organization_name : ℕ
  pub department_name : ℕ
  pub role : OrgRole
  pub created_at : ℕ

pub record Delegation : Type 0 where
  pub delegator_username : ℕ
  pub delegatee_username : ℕ
  pub task_id : ℕ
  pub expires_at : ℕ
  pub created_at : ℕ

pub record Conversation : Type 0 where
  pub conversation_id : ℕ
  pub low : ℕ
  pub high : ℕ
  pub created_at : ℕ

pub record Message : Type 0 where
  pub message_id : ℕ
  pub conversation_id : ℕ
  pub client_message_id : ℕ
  pub sender_username : ℕ
  pub recipient_username : ℕ
  pub content : String
  pub business_reference : Option String
  pub created_at : ℕ
  pub read_at : Option ℕ

pub record ReplyState : Type 0 where
  pub conversation_id : ℕ
  pub username : ℕ
  pub no_reply_for_message_id : Option ℕ
  pub no_reply_marked_at : Option ℕ

pub record Group : Type 0 where
  pub group_id : ℕ
  pub name : String
  pub created_by : ℕ
  pub created_at : ℕ

pub record GroupMember : Type 0 where
  pub group_id : ℕ
  pub username : ℕ
  pub added_by : ℕ
  pub added_at : ℕ

pub record GroupMessage : Type 0 where
  pub message_id : ℕ
  pub group_id : ℕ
  pub client_message_id : Option ℕ
  pub sender_username : ℕ
  pub content : String
  pub created_at : ℕ

-- The CHECK of validation_state
pub data ValidationState : Type 0 where
  pending validated : ValidationState

pub record AgentCard : Type 0 where
  pub username : ℕ
  pub capabilities : List String
  pub domain : Option String
  pub model : Option String
  pub tools : List String
  pub sla : Option String
  pub limits : Option String
  pub estimated_cost : Option String
  pub validation_state : ValidationState
  pub approved_by : Option ℕ
  pub approved_at : Option ℕ
  pub updated_at : ℕ

-- The username column of auth_failures: a username, or `org:` and the name of an organization.
pub data AuthKey : Type 0 where
  of_user of_org : ℕ → AuthKey

pub record AuthFailure : Type 0 where
  pub username : AuthKey
  pub attempted_at : ℕ

pub record Db : Type 0 where
  pub organizations : List Organization
  pub accounts : List Account
  pub tasks : List Task
  pub task_dependencies : List TaskDependency
  pub task_events : List TaskEvent
  pub events : List Event
  -- sqlite_sequence of events: the greatest seq that was ever given out
  pub events_seq : ℕ
  pub audit_log : List AuditEntry
  pub agent_budgets : List AgentBudget
  pub org_settings : List OrgSettings
  pub org_escalation_policy : List EscalationPolicy
  pub delegations : List Delegation
  pub conversations : List Conversation
  pub messages : List Message
  pub reply_state : List ReplyState
  pub groups : List Group
  pub group_members : List GroupMember
  pub group_messages : List GroupMessage
  pub agent_cards : List AgentCard
  pub departments : List Department
  pub memberships : List Membership
