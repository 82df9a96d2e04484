-- ===== src/Service/Groups.antt =====
-- The group commands (synapse/service.py, F15): create, add and remove a member, send.
use synapse_messenger.Prelude.{
  ℕ, Option, none, some, Bool, false, not, ◌&&◌, ◌||◌, List, ◌∷◌, select, all, map, find, any,
  is_some, ◌==◌, if◌then◌else◌, String,
}
use synapse_messenger.Hlc.{Clock}
use synapse_messenger.Errors.{
  Result, ok, err, ◌>>=◌, ◌>>◌, raise_if, or_raise, group_not_found, access_denied, policy_denied,
  internal_error,
}
use synapse_messenger.Db.{Db, Group, GroupMember, GroupMessage, word, name}
use synapse_messenger.Service.Common.{Env}
use synapse_messenger.Service.Guards.{
  org_of, require_active_account, check_message_budget, external_comm_allowed,
}
use synapse_messenger.Service.Tasks.{task_entry as audit}

unfoldable pub get_group : Db → ℕ → Option Group
get_group d group_id = find (λ g. g.group_id == group_id) d.groups

abbrev pub is_membership : ℕ → ℕ → GroupMember → Bool
is_membership group_id username r = r.group_id == group_id && r.username == username

unfoldable pub is_member : Db → ℕ → ℕ → Bool
is_member d group_id username = any (is_membership group_id username) d.group_members

abbrev pub member_only : Bool → Option Group → Result Group
member_only member none = err group_not_found
member_only member (some g) = if member then ok g else err group_not_found

-- _group_require_member
unfoldable pub group_require_member : Db → ℕ → ℕ → Result Group
group_require_member d group_id me = member_only (is_member d group_id me) (get_group d group_id)

-- INSERT INTO group_members
unfoldable pub insert_member : GroupMember → Db → Db
insert_member r d = record d { group_members = r ∷ d.group_members }

-- _agent_create_group
unfoldable pub agent_create_group : Env → String → ℕ → Clock → Db → Result (ℕ × Db)
agent_create_group env group_name me hlc d = do
  raise_if (is_some (get_group d env.uuid)) internal_error
  let group : Group = record {
    group_id = env.uuid;
    name = group_name;
    created_by = me;
    created_at = env.at;
  }
  let d1 = record d { groups = group ∷ d.groups }
  raise_if (is_member d1 env.uuid me) internal_error
  let d2 =
      insert_member
        (record { group_id = env.uuid; username = me; added_by = me; added_at = env.at }) d1
  org ← org_of d2 me
  ok (env.uuid, audit org env.at me "create_group" env.uuid (word group_name) hlc d2)

-- _agent_add_group_member, with INSERT OR IGNORE
unfoldable pub agent_add_group_member : Env → ℕ → ℕ → ℕ → Clock → Db → Result (ℕ × Db)
agent_add_group_member env group_id username me hlc d = do
  group ← group_require_member d group_id me
  require_active_account d username
  raise_if (not (external_comm_allowed d me username)) policy_denied
  let row : GroupMember = record {
    group_id = group_id;
    username = username;
    added_by = me;
    added_at = env.at;
  }
  let d1 = (if is_member d group_id username then d else insert_member row d)
  org ← org_of d1 me
  ok (group_id, audit org env.at me "add_group_member" group_id (name username) hlc d1)

-- DELETE FROM group_members
unfoldable pub delete_member : ℕ → ℕ → Db → Db
delete_member group_id username d = record d {
  group_members = select (λ r. not (is_membership group_id username r)) d.group_members;
}

-- _agent_remove_group_member
unfoldable pub agent_remove_group_member : Env → ℕ → ℕ → ℕ → Clock → Db → Result (ℕ × Db)
agent_remove_group_member env group_id username me hlc d = do
  group ← group_require_member d group_id me
  raise_if (not (me == group.created_by) && not (me == username)) access_denied
  let d1 = delete_member group_id username d
  org ← org_of d1 me
  ok (group_id, audit org env.at me "remove_group_member" group_id (name username) hlc d1)

-- The parameters of send_group_message, as `validate_envelope` hands them over.
pub record NewGroupMessage : Type 0 where
  pub group_id : ℕ
  pub content : String
  pub client_message_id : Option ℕ

-- SELECT message_id FROM group_messages WHERE sender_username = ? AND client_message_id = ?
abbrev pub has_client_id : Option ℕ → ℕ → Bool
has_client_id none k = false
has_client_id (some c) k = c == k

unfoldable pub find_group_message : Db → ℕ → Option ℕ → Option GroupMessage
find_group_message d me none = none
find_group_message d me (some client_message_id) =
    find (λ m. m.sender_username == me && has_client_id m.client_message_id client_message_id)
      d.group_messages

-- SELECT * FROM group_messages WHERE message_id = ?
unfoldable pub get_group_message : Db → ℕ → Option GroupMessage
get_group_message d message_id = find (λ m. m.message_id == message_id) d.group_messages

-- SELECT username FROM group_members WHERE group_id = ?
unfoldable pub members : Db → ℕ → List ℕ
members d group_id = map (λ r. r.username) (select (λ r. r.group_id == group_id) d.group_members)

-- A member that a message may reach: the sender, or one that the policies let it reach.
abbrev pub may_send_to : Db → ℕ → ℕ → Bool
may_send_to d me username = username == me || external_comm_allowed d me username

-- The answer for an idempotency key that is taken: the stored message.
abbrev pub group_sent_before : Db → GroupMessage → Result (GroupMessage × Db)
group_sent_before d existing = do
  row ← or_raise (get_group_message d existing.message_id) internal_error
  ok (row, d)

unfoldable pub group_send_new : Env → NewGroupMessage → ℕ → Clock → Db → Result (GroupMessage × Db)
group_send_new env p me hlc d = do
  check_message_budget d env.now me
  raise_if (not (all (may_send_to d me) (members d p.group_id))) policy_denied
  raise_if (is_some (get_group_message d env.uuid)) internal_error
  let row : GroupMessage = record {
    message_id = env.uuid;
    group_id = p.group_id;
    client_message_id = p.client_message_id;
    sender_username = me;
    content = p.content;
    created_at = env.at;
  }
  let d1 = record d { group_messages = row ∷ d.group_messages }
  org ← org_of d1 me
  ok (row, audit org env.at me "send_group_message" p.group_id (name env.uuid) hlc d1)

abbrev pub group_send_by_key :
    Env → NewGroupMessage → ℕ → Clock → Db → Option GroupMessage → Result (GroupMessage × Db)
group_send_by_key env p me hlc d none = group_send_new env p me hlc d
group_send_by_key env p me hlc d (some existing) = group_sent_before d existing

-- _agent_send_group_message
unfoldable pub agent_send_group_message :
    Env → NewGroupMessage → ℕ → Clock → Db → Result (GroupMessage × Db)
agent_send_group_message env p me hlc d = do
  group ← group_require_member d p.group_id me
  group_send_by_key env p me hlc d (find_group_message d me p.client_message_id)
