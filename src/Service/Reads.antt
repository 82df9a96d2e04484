-- ===== src/Service/Reads.antt =====
-- The paginated reads of messages (synapse/service.py: _get_messages, _get_conversation and
-- _get_notifications). A read changes nothing, so it returns its answer alone.
use synapse_messenger.Prelude.{ℕ, Option, none, some, List, [], ◌∷◌, ◌==◌, map}
use synapse_messenger.Errors.{
  Result, ok, err, ◌>>=◌, ◌>>◌, raise_if, or_raise, invalid_argument, internal_error,
  conversation_not_found,
}
use synapse_messenger.Db.{Db, Message}
use synapse_messenger.Validation.{points}
use synapse_messenger.Cursor.{Codec, Request, pagination, next_cursor}
use synapse_messenger.Store.Messages.{
  MessageView, row_to_message_as_of, get_conversation_by_key, conversation_low, conversation_high,
}
use synapse_messenger.Store.Paging.{ascending, descending, cut}
use synapse_messenger.Store.Queries.{
  ReadFilter, any_status, only_unread, only_read, ReplyNeed, Notification, message_page,
  conversation_page, message_key, reply_status, unread_by_sender, notification_page,
  notification_key,
}

-- last_created, last_id = last; the ValueError of the unpacking ends as INTERNAL_ERROR
abbrev pub pair_of : Option (List ℕ) → Result (Option (ℕ × ℕ))
pair_of none = ok none
pair_of (some []) = err internal_error
pair_of (some (a ∷ [])) = err internal_error
pair_of (some (a ∷ b ∷ [])) = ok (some (a, b))
pair_of (some (a ∷ b ∷ c ∷ rest)) = err internal_error

-- The cursor of the next page, for the position of the last row where there are more.
abbrev pub cursor_at : Codec → Request → ℕ → Option (ℕ × ℕ) → Option (List ℕ)
cursor_at u r boundary none = none
cursor_at u r boundary (some (a, b)) = some (next_cursor u r boundary (a ∷ b ∷ []))

-- The texts "unread" and "read", by number
abbrev pub status_text : ReadFilter → Option ℕ
status_text any_status = none
status_text only_unread = some 0
status_text only_read = some 1

pub record GetMessages : Type 0 where
  pub limit : ℕ
  pub status : ReadFilter
  pub sender_username : Option ℕ
  pub conversation_id : Option ℕ
  pub cursor : Option (List ℕ)

pub record MessagesPage : Type 0 where
  pub messages : List MessageView
  pub next_cursor : Option (List ℕ)

abbrev pub get_messages_request : GetMessages → ℕ → Request
get_messages_request p me = record {
  username = me;
  command = points "get_messages";
  sort = points "desc";
  filters =
      (points "conversation_id", p.conversation_id)
      ∷ (points "sender", p.sender_username)
      ∷ (points "status", status_text p.status)
      ∷ [];
}

-- rows[:limit], as they were at the boundary, and the next cursor
abbrev pub messages_page : Codec → Db → Request → ℕ → List Message × Option (ℕ × ℕ) → MessagesPage
messages_page u d r boundary (rows, next) = record {
  messages = map (λ m. row_to_message_as_of d m boundary) rows;
  next_cursor = cursor_at u r boundary next;
}

module _ (u : Codec) where
  -- _get_messages
  unfoldable pub get_messages : ℕ → GetMessages → ℕ → Db → Result MessagesPage
  get_messages now p me d = do
    (last, boundary) ← pagination u now (get_messages_request p me) p.cursor
    position ← pair_of last
    ok (
        messages_page u d (get_messages_request p me) boundary (
          cut descending message_key p.limit (
            message_page d me boundary p.status p.sender_username p.conversation_id position
              p.limit)))

pub record GetConversation : Type 0 where
  pub other_username : ℕ
  pub limit : ℕ
  pub cursor : Option (List ℕ)

pub record ConversationPage : Type 0 where
  pub conversation_id : ℕ
  pub reply_status : ReplyNeed
  pub page : MessagesPage

abbrev pub get_conversation_request : GetConversation → ℕ → Request
get_conversation_request p me = record {
  username = me;
  command = points "get_conversation";
  sort = points "asc";
  filters = (points "other_username", some p.other_username) ∷ [];
}

module _ (u : Codec) where
  -- _get_conversation
  unfoldable pub get_conversation : ℕ → GetConversation → ℕ → Db → Result ConversationPage
  get_conversation now p me d = do
    raise_if (p.other_username == me) invalid_argument
    (last, boundary) ← pagination u now (get_conversation_request p me) p.cursor
    conv ←
        or_raise
          (get_conversation_by_key d (conversation_low me p.other_username)
            (conversation_high me p.other_username))
          conversation_not_found
    position ← pair_of last
    ok record {
      conversation_id = conv.conversation_id;
      reply_status = (reply_status d conv.conversation_id me boundary).0;
      page = messages_page u d (get_conversation_request p me) boundary (
          cut ascending message_key p.limit
            (conversation_page d conv.conversation_id boundary position p.limit));
    }

pub record NotificationsPage : Type 0 where
  pub unread_by_sender : ℕ → Option ℕ
  pub needs_reply : List Notification
  pub next_cursor : Option (List ℕ)

abbrev pub get_notifications_request : ℕ → Request
get_notifications_request me = record {
  username = me;
  command = points "get_notifications";
  sort = points "desc";
  filters = [];
}

abbrev pub notifications_page :
    Codec → Db → ℕ → ℕ → List Notification × Option (ℕ × ℕ) → NotificationsPage
notifications_page u d me boundary (items, next) = record {
  unread_by_sender = unread_by_sender d me boundary;
  needs_reply = items;
  next_cursor = cursor_at u (get_notifications_request me) boundary next;
}

module _ (u : Codec) where
  -- _get_notifications
  unfoldable pub get_notifications : ℕ → ℕ → Option (List ℕ) → ℕ → Db → Result NotificationsPage
  get_notifications now limit cursor me d = do
    (last, boundary) ← pagination u now (get_notifications_request me) cursor
    position ← pair_of last
    ok (
        notifications_page u d me boundary
          (cut descending notification_key limit (notification_page d me boundary position limit)))
