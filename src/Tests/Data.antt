-- ===== src/Tests/Data.antt =====
-- A small server: two organizations, four accounts, three tasks, one group and one unread message.
use synapse_messenger.Prelude.{
  ℕ, ◌+◌, ◌-◌, ◌<◌, ◌≡◌, refl, Option, none, some, true, false, [], ◌∷◌, ◌&&◌, leb, if◌then◌else◌,
  arith,
}
use synapse_messenger.Hlc.{Digits, Clock}
use synapse_messenger.Errors.{Result, ok, err}
use synapse_messenger.Db.{
  Db, Organization, Account, Task, TaskState, submitted, completed, pending_approval, normal,
  active, agent, Group, GroupMember, Message,
}
use synapse_messenger.Service.Common.{Env}
use synapse_messenger.Service.Auth.{Secrets, Attempt, AuthState}
use synapse_messenger.Service.Transaction.{State}

-- The ASCII digits and the Arabic-Indic ones, of Python's table.
abbrev pub digit_value : ℕ → Option ℕ
digit_value c =
    if leb 48 c && leb c 57
    then some (c - 48)
    else if leb 1632 c && leb c 1641
    then some (c - 1632)
    else none

pub digit_value-ascii : (d : ℕ) → d < 10 → digit_value (d + 48) ≡ some d
digit_value-ascii d h = ground arith

abbrev pub digits : Digits
digits = record { value = digit_value; ascii = digit_value-ascii; dot = refl }

abbrev pub noon : Clock
noon = record { l = 1000; c = 0 }

abbrev pub env : Env
env = record {
  at = 2000;
  now = 2000;
  physical = 2000;
  uuid = 901;
  conversation_uuid = 902;
  event_retention_days = 30;
}

abbrev pub later : Env
later = record {
  at = 3000;
  now = 3000;
  physical = 3000;
  uuid = 903;
  conversation_uuid = 904;
  event_retention_days = 30;
}

abbrev pub home : Organization
home = record {
  organization_name = 10;
  password_hash = 100;
  allow_incoming_external = true;
  allow_outgoing_external = true;
  enabled = true;
}

abbrev pub closed : Organization
closed = record {
  organization_name = 11;
  password_hash = 101;
  allow_incoming_external = true;
  allow_outgoing_external = false;
  enabled = true;
}

abbrev pub account : ℕ → ℕ → Account
account username org = record {
  username = username;
  password_hash = 500;
  status = active;
  description = "";
  organization_name = org;
  can_see_org_agents = true;
  created_at = 1;
  principal_type = agent;
  is_observer = false;
}

abbrev pub task : ℕ → TaskState → Option ℕ → Task
task id state approver = record {
  task_id = id;
  client_task_id = none;
  title = "report";
  description = none;
  creator_username = 1;
  assignee_username = 2;
  state = state;
  priority = normal;
  due_at = none;
  business_reference = none;
  result = none;
  approver_username = approver;
  created_at = 100;
  updated_at = 100;
}

abbrev pub unread : Message
unread = record {
  message_id = 80;
  conversation_id = 60;
  client_message_id = 8;
  sender_username = 1;
  recipient_username = 2;
  content = "hello";
  business_reference = none;
  created_at = 500;
  read_at = none;
}

abbrev pub team : Group
team = record { group_id = 70; name = "team"; created_by = 1; created_at = 5 }

abbrev pub in_team : ℕ → GroupMember
in_team username = record { group_id = 70; username = username; added_by = 1; added_at = 5 }

abbrev pub db : Db
db = record {
  organizations = home ∷ closed ∷ [];
  accounts = account 1 10 ∷ account 2 10 ∷ account 3 11 ∷ [];
  tasks = task 50 submitted none ∷ task 51 pending_approval (some 3) ∷ task 52 completed none ∷ [];
  task_dependencies = record { task_id = 50; depends_on_task_id = 52 } ∷ [];
  task_events = [];
  events = [];
  events_seq = 0;
  audit_log = [];
  agent_budgets = [];
  org_settings = [];
  org_escalation_policy = [];
  delegations = [];
  conversations = [];
  messages = unread ∷ [];
  reply_state = [];
  groups = team ∷ [];
  group_members = in_team 1 ∷ in_team 2 ∷ in_team 3 ∷ [];
  group_messages = [];
  agent_cards = [];
  departments = [];
  memberships = [];
}

abbrev pub start : State
start = record { db = db; clock = noon }

-- A password is its own hash, but for 500, which nothing but 7 verifies; the token is 9.
abbrev pub secrets : Secrets
secrets = record {
  verify_password =
      λ hash password. leb hash 500 && leb 500 hash && leb password 7 && leb 7 password;
  digest = λ password. password;
  web_token_matches = λ password. leb 9 password && leb password 9;
}

abbrev pub attempt : Attempt
attempt = record {
  cutoff = 1000;
  now = 2000;
  auth_max_failures = 3;
  monotonic = 10;
  auth_cache_ttl = 60;
  web_local = 999;
}

abbrev pub no_failures : AuthState
no_failures = record { failures = []; cache = [] }

-- What a run returns, and `otherwise` where it raises.
abbrev pub result_of : {A : Type 0} → A → Result A → A
result_of otherwise (ok a) = a
result_of otherwise (err e) = otherwise
