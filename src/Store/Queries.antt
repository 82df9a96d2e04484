-- ===== src/Store/Queries.antt =====
-- Read queries (synapse/store/queries.py): pages frozen at a boundary, reply states, notifications.
pub mod Notifications
use synapse_messenger.Prelude.{
  ℕ, zero, suc, ◌+◌, Bool, true, false, not, ◌&&◌, ◌||◌, Option, none, some, List, [], ◌∷◌, ◌++◌,
  ltb, leb, ◌==◌, is_some, find, first, select, count, any, order_by, if◌then◌else◌, length, take,
  map,
}
use synapse_messenger.Db.{Db, Message, ReplyState, Conversation, Account}
use synapse_messenger.Store.Accounts
use synapse_messenger.Store.Messages.{
  is_newer, get_no_reply, get_conversation_by_id, read_by, organization_of,
}
use synapse_messenger.Store.Paging.{ascending, descending, fetch}

-- The status filter of get_messages
pub data ReadFilter : Type 0 where
  any_status only_unread only_read : ReadFilter

-- The words "needs_reply" and "no_reply_needed"
pub data ReplyNeed : Type 0 where
  needs_reply no_reply_needed : ReplyNeed

-- read_at IS NOT NULL AND read_at <= boundary
abbrev pub was_read : ℕ → Message → Bool
was_read boundary m = is_some (read_by m.read_at boundary)

-- Sent in the conversation by `username`, after `row`, up to the boundary.
abbrev pub answers : ℕ → ℕ → Message → Message → Bool
answers username boundary row x =
    x.conversation_id == row.conversation_id
    && (x.sender_username == username && (leb x.created_at boundary && is_newer x row))

-- Received in the conversation by `username` up to the boundary.
abbrev pub is_received : ℕ → ℕ → ℕ → Message → Bool
is_received conversation_id username boundary m =
    m.conversation_id == conversation_id
    && (m.recipient_username == username && leb m.created_at boundary)

-- The marking covers this precise message.
abbrev pub covers : Option ReplyState → Message → Bool
covers none row = false
covers (some r) row = elim r.no_reply_for_message_id [
  | none ↦ false
  | some id ↦ id == row.message_id
]

-- rules 2 to 5 of reply_status, in its order
abbrev pub need_for : Db → ℕ → ℕ → ℕ → Option Message → ReplyNeed × Option ℕ
need_for d conversation_id username boundary none = (no_reply_needed, none)
need_for d conversation_id username boundary (some row) =
    if row.sender_username == username
    then (no_reply_needed, some row.message_id)
    else if not (was_read boundary row)
    then (no_reply_needed, some row.message_id)
    else if any (answers username boundary row) d.messages
    then (no_reply_needed, some row.message_id)
    else if covers (get_no_reply d conversation_id username) row
    then (no_reply_needed, some row.message_id)
    else (needs_reply, some row.message_id)

-- reply_status
unfoldable pub reply_status : Db → ℕ → ℕ → ℕ → ReplyNeed × Option ℕ
reply_status d conversation_id username boundary =
    need_for d conversation_id username boundary (
      first (order_by is_newer (select (is_received conversation_id username boundary) d.messages)))

abbrev pub has_status : ReadFilter → ℕ → Message → Bool
has_status any_status boundary m = true
has_status only_unread boundary m = not (was_read boundary m)
has_status only_read boundary m = was_read boundary m

-- column = ? where the filter is given
abbrev pub is_given : Option ℕ → ℕ → Bool
is_given none value = true
is_given (some wanted) value = value == wanted

-- (created_at, message_id)
abbrev pub message_key : Message → ℕ × ℕ
message_key m = (m.created_at, m.message_id)

abbrev pub in_message_page : ℕ → ℕ → ReadFilter → Option ℕ → Option ℕ → Message → Bool
in_message_page username boundary status sender conversation_id m =
    m.recipient_username == username
    && (leb m.created_at boundary
        && (has_status status boundary m
            && (is_given sender m.sender_username && is_given conversation_id m.conversation_id)))

-- message_page
unfoldable pub message_page :
    Db → ℕ → ℕ → ReadFilter → Option ℕ → Option ℕ → Option (ℕ × ℕ) → ℕ → List Message
message_page d username boundary status sender conversation_id last limit =
    fetch descending message_key
      (select (in_message_page username boundary status sender conversation_id) d.messages) last
      limit

-- conversation_page
unfoldable pub conversation_page : Db → ℕ → ℕ → Option (ℕ × ℕ) → ℕ → List Message
conversation_page d conversation_id boundary last limit =
    fetch ascending message_key
      (select (λ m. m.conversation_id == conversation_id && leb m.created_at boundary) d.messages)
      last limit

abbrev pub is_unread_from : ℕ → ℕ → ℕ → Message → Bool
is_unread_from username boundary sender m =
    m.sender_username == sender
    && (m.recipient_username == username
        && (leb m.created_at boundary && not (was_read boundary m)))

-- unread_by_sender: the dict as a function from senders, with no entry where no message is counted
unfoldable pub unread_by_sender : Db → ℕ → ℕ → ℕ → Option ℕ
unread_by_sender d username boundary sender =
    if any (is_unread_from username boundary sender) d.messages
    then some (count (is_unread_from username boundary sender) d.messages)
    else none

-- ROW_NUMBER() = 1 in lastrec: no row of the conversation's partition stands before this one.
abbrev pub is_last_received : Db → ℕ → ℕ → Message → Bool
is_last_received d username boundary l =
    l.recipient_username == username
    && (leb l.created_at boundary
        && not (
            any (λ m. is_received l.conversation_id username boundary m && is_newer m l)
              d.messages))

-- The joined row of a conversation, as get_notifications returns it.
pub record Notification : Type 0 where
  pub conversation_id : ℕ
  pub other_username : ℕ
  pub other_organization_name : Option ℕ
  pub unread_count : ℕ
  pub last_received_at : ℕ

-- _other_participant
abbrev pub other_participant : Conversation → ℕ → ℕ
other_participant c username = if c.low == username then c.high else c.low

abbrev pub notification : Db → ℕ → ℕ → Message → Conversation → Notification
notification d username boundary l c = record {
  conversation_id = l.conversation_id;
  other_username = other_participant c username;
  other_organization_name = organization_of (Accounts.get d l.sender_username);
  unread_count =
      count (λ m. is_received l.conversation_id username boundary m && not (was_read boundary m))
        d.messages;
  last_received_at = l.created_at;
}

-- The WHERE clause without the position
abbrev pub is_notified : Db → ℕ → ℕ → Message → Bool
is_notified d username boundary l =
    is_last_received d username boundary l
    && (was_read boundary l
        && (not (any (answers username boundary l) d.messages)
            && not (covers (get_no_reply d l.conversation_id username) l)))

-- JOIN conversations
abbrev pub joined : Db → ℕ → ℕ → List Message → List Notification
joined d username boundary [] = []
joined d username boundary (l ∷ rows) =
    let rest = joined d username boundary rows in
    elim (get_conversation_by_id d l.conversation_id) [
      | none ↦ rest
      | some c ↦ notification d username boundary l c ∷ rest
    ]

-- (last_received_at, conversation_id)
abbrev pub notification_key : Notification → ℕ × ℕ
notification_key n = (n.last_received_at, n.conversation_id)

-- notification_page, before ORDER BY and LIMIT
unfoldable pub notified : Db → ℕ → ℕ → List Notification
notified d username boundary =
    joined d username boundary (select (is_notified d username boundary) d.messages)

-- notification_page
unfoldable pub notification_page : Db → ℕ → ℕ → Option (ℕ × ℕ) → ℕ → List Notification
notification_page d username boundary last limit =
    fetch descending notification_key (notified d username boundary) last limit
