-- ===== src/Store/Messages.antt =====
-- Messages, conversations and reply states (synapse/store/messages.py, and `last_received_message`
-- of synapse/store/queries.py).
use synapse_messenger.Prelude.{
  ℕ, Option, none, some, Bool, ◌&&◌, ◌||◌, List, ◌∷◌, find, select, update, any, is_some, ◌==◌, ltb,
  leb, if◌then◌else◌, order_by, first,
}
use synapse_messenger.Db.{Db, Message, Conversation, ReplyState, Account}
use synapse_messenger.Store.Accounts

-- conversation_key: the pair in order
abbrev pub conversation_low : ℕ → ℕ → ℕ
conversation_low a b = if leb a b then a else b

abbrev pub conversation_high : ℕ → ℕ → ℕ
conversation_high a b = if leb a b then b else a

-- get_conversation_by_key
unfoldable pub get_conversation_by_key : Db → ℕ → ℕ → Option Conversation
get_conversation_by_key d low high = find (λ c. c.low == low && c.high == high) d.conversations

-- get_conversation_by_id
unfoldable pub get_conversation_by_id : Db → ℕ → Option Conversation
get_conversation_by_id d id = find (λ c. c.conversation_id == id) d.conversations

-- fetch_or_create_conversation: the identifier and the table that it leaves; `none` where the
-- constraint violation is raised again.
unfoldable pub fetch_or_create_conversation : Db → ℕ → ℕ → ℕ → ℕ → Option (ℕ × List Conversation)
fetch_or_create_conversation d low high new_uuid created_at =
    elim (get_conversation_by_key d low high) [
      | some c ↦ some (c.conversation_id, d.conversations)
      | none ↦
          if is_some (get_conversation_by_id d new_uuid)
          then none
          else some (
            new_uuid,
            record { conversation_id = new_uuid; low = low; high = high; created_at = created_at }
                ∷ d.conversations,
          )
    ]

-- find_message_by_client_id
unfoldable pub find_message_by_client_id : Db → ℕ → ℕ → Option Message
find_message_by_client_id d sender client_id =
    find (λ m. m.sender_username == sender && m.client_message_id == client_id) d.messages

-- get_message_by_id
unfoldable pub get_message_by_id : Db → ℕ → Option Message
get_message_by_id d id = find (λ m. m.message_id == id) d.messages

-- insert_message; `none` is the IntegrityError of the primary key or of the idempotency key.
unfoldable pub insert_message : Message → Db → Option Db
insert_message m d =
    if is_some (get_message_by_id d m.message_id)
      || is_some (find_message_by_client_id d m.sender_username m.client_message_id)
    then none
    else some (record d { messages = m ∷ d.messages })

abbrev pub mark : ℕ → Message → Message
mark read_at m = if is_some m.read_at then m else record m { read_at = some read_at }

-- mark_read_conditional
unfoldable pub mark_read_conditional : ℕ → ℕ → Db → Db
mark_read_conditional id read_at d = record d {
  messages = update (λ m. m.message_id == id) (mark read_at) d.messages;
}

abbrev pub is_state_of : ℕ → ℕ → ReplyState → Bool
is_state_of conversation_id username r =
    r.conversation_id == conversation_id && r.username == username

-- INSERT ... ON CONFLICT(conversation_id, username) DO UPDATE
abbrev pub upsert : ℕ → ℕ → Option ℕ → Option ℕ → List ReplyState → List ReplyState
upsert conversation_id username for_message marked_at rows =
    if any (is_state_of conversation_id username) rows
    then update (is_state_of conversation_id username)
        (λ r. record r { no_reply_for_message_id = for_message; no_reply_marked_at = marked_at })
        rows
    else record {
      conversation_id = conversation_id;
      username = username;
      no_reply_for_message_id = for_message;
      no_reply_marked_at = marked_at;
    }
      ∷ rows

-- set_no_reply
unfoldable pub set_no_reply : ℕ → ℕ → Option ℕ → Option ℕ → Db → Db
set_no_reply conversation_id username for_message marked_at d = record d {
  reply_state = upsert conversation_id username for_message marked_at d.reply_state;
}

-- get_no_reply
unfoldable pub get_no_reply : Db → ℕ → ℕ → Option ReplyState
get_no_reply d conversation_id username = find (is_state_of conversation_id username) d.reply_state

-- ORDER BY created_at DESC, message_id DESC
abbrev pub is_newer : Message → Message → Bool
is_newer m n =
    ltb n.created_at m.created_at || n.created_at == m.created_at && ltb n.message_id m.message_id

-- queries.last_received_message
unfoldable pub last_received_message : Db → ℕ → ℕ → Option Message
last_received_message d conversation_id username = first (
    order_by is_newer (
      select (λ m. m.conversation_id == conversation_id && m.recipient_username == username)
        d.messages))

abbrev pub organization_of : Option Account → Option ℕ
organization_of none = none
organization_of (some a) = some a.organization_name

-- The JSON object of a message: the row, its sender's organization and whether it is read.
pub record MessageView : Type 0 where
  pub row : Message
  pub sender_organization_name : Option ℕ
  pub is_read : Bool

-- row_to_message
unfoldable pub row_to_message : Db → Message → MessageView
row_to_message d m = record {
  row = m;
  sender_organization_name = organization_of (Accounts.get d m.sender_username);
  is_read = is_some m.read_at;
}

abbrev pub read_by : Option ℕ → ℕ → Option ℕ
read_by none boundary = none
read_by (some t) boundary = if leb t boundary then some t else none

-- row_to_message_as_of: the status frozen at `boundary`
unfoldable pub row_to_message_as_of : Db → Message → ℕ → MessageView
row_to_message_as_of d m boundary =
    let view = row_to_message d m in
    record view {
      row = record m { read_at = read_by m.read_at boundary };
      is_read = is_some (read_by m.read_at boundary);
    }
