-- ===== src/Tests/Cursors.antt =====
-- A mailbox that is read by pages, and the cursors of its pages.
use synapse_messenger.Prelude.{
  ◌+◌, ◌<◌, zero, suc, ℕ, ◌≡◌, refl, ◌&&◌, none, some, [], ◌∷◌, map, any, order_by, ◌==◌, is_some,
  inl, arith, if◌then◌else◌,
}
use synapse_messenger.Errors.{ok, err, Raises, Is, invalid_argument, internal_error}
use synapse_messenger.Db.{Db, Message}
use synapse_messenger.Cursor.{Request, pagination, next_cursor, truthy, decode_cursor}
use synapse_messenger.Cursor.Roundtrip.{is_same, pagination-next_cursor}
use synapse_messenger.Cursor.Binding.{
  decode_cursor-Raises, forged_cursor_is_refused, has_ascii_body,
}
use synapse_messenger.Store.Messages.{
  row_to_message_as_of, is_newer, insert_message, get_message_by_id, find_message_by_client_id,
  mark_read_conditional, get_conversation_by_id,
}
use synapse_messenger.Store.Paging.{descending, walk, lt}
use synapse_messenger.Store.Paging.Order.{Distinct}
use synapse_messenger.Validation.{points}
use synapse_messenger.Store.Paging.Walk.{walk_covers}
use synapse_messenger.Store.Queries.{any_status, message_key, notified, reply_status}
use synapse_messenger.Store.Queries.Notifications.{is_needed, notified-reply_status}
use synapse_messenger.Service.Reads.{GetMessages}
use synapse_messenger.Service.Mailbox.{read_mailbox, mailbox}
use synapse_messenger.Service.Snapshot.{read_mailbox_complete}
use synapse_messenger.Service.Frozen.{
  LaterSteps, sent, marked, done, step, next_page, next_page-frozen,
}
use synapse_messenger.Tests.Data.{db, unread}
use synapse_messenger.Tests.Codec.{codec, forged}

abbrev second : Message
second = record unread { message_id = 81; client_message_id = 9; created_at = 600 }

abbrev third : Message
third = record unread { message_id = 82; client_message_id = 10; created_at = 2600 }

abbrev two : Db
two = record db { messages = second ∷ unread ∷ [] }

abbrev three : Db
three = record db { messages = third ∷ second ∷ unread ∷ [] }

abbrev one_by_one : GetMessages
one_by_one = record {
  limit = 1;
  status = any_status;
  sender_username = none;
  conversation_id = none;
  cursor = none;
}

abbrev answerable : Db
answerable = record db {
  messages = record unread { read_at = some 700 } ∷ [];
  conversations = record { conversation_id = 60; low = 1; high = 2; created_at = 500 } ∷ [];
}

two-Distinct : Distinct descending message_key two.messages
unfolding descending
two-Distinct = ((inl refl, tt), (tt, tt))

third_sent : insert_message third two ≡ some three
unfolding insert_message get_message_by_id find_message_by_client_id
third_sent = refl

abbrev clock : ℕ → ℕ
clock n = 2000 + n

walk_covers_example :
    walk descending message_key 2 two.messages 1 none
    ≡ some (order_by (lt descending message_key) two.messages)
walk_covers_example =
    walk_covers descending message_key two.messages two-Distinct 2 1 (omega arith) (omega arith)
      (omega arith)

-- Between the two requests the third message is sent, and message 80 is read.
abbrev databases : ℕ → Db
databases zero = mark_read_conditional 80 2700 three
databases (suc n) = two

changed : (k : ℕ) → k < 1 → LaterSteps 2001 two (databases k)
changed zero h =
    step two three _ (sent two three third (omega arith) third_sent)
      (step three _ _ (marked three 80 2700 (omega arith)) (done _))
changed (suc k) h = absurd (omega (arith, h))

read_mailbox_complete_example :
    read_mailbox codec clock one_by_one 2 databases 2 none
    ≡ ok (
        some (
          map
            (λ m. row_to_message_as_of two m 2001)
            (order_by is_newer (mailbox codec clock one_by_one 2 two 2001))))
read_mailbox_complete_example =
    read_mailbox_complete codec clock one_by_one 2 databases 1 (omega arith) two-Distinct
      (omega arith) changed

next_page-frozen_example :
    next_page codec 3000 one_by_one 2 2000 600 81 (mark_read_conditional 80 2700 three)
    ≡ next_page codec 3000 one_by_one 2 2000 600 81 two
next_page-frozen_example =
    next_page-frozen codec 3000 one_by_one 2 2000 600 81 two (mark_read_conditional 80 2700 three) (
      step two three _ (sent two three third (omega arith) third_sent)
        (step three _ _ (marked three 80 2700 (omega arith)) (done _)))

notified-reply_status_example : any (λ n. n.conversation_id == 60) (notified answerable 2 2000) ≡ (
    is_needed (reply_status answerable 60 2 2000) && is_some (get_conversation_by_id answerable 60))
notified-reply_status_example = notified-reply_status answerable 60 2 2000 (tt, tt) (refl, tt)

abbrev asked : Request
asked = record { username = 2; command = points "get_messages"; sort = points "desc"; filters = [] }

abbrev other_user : Request
other_user = record asked { username = 3 }

pagination-next_cursor_example :
    pagination codec 3000 other_user (some (next_cursor codec asked 2000 (600 ∷ 81 ∷ []))) ≡ (
      if is_same asked other_user
      then ok (truthy (some (600 ∷ 81 ∷ [])), 2000)
      else err invalid_argument)
pagination-next_cursor_example =
    pagination-next_cursor codec asked other_user 3000 2000 (600 ∷ 81 ∷ [])

decode_cursor-Raises_example :
    Raises
      (Is (if has_ascii_body (233 ∷ 46 ∷ []) then invalid_argument else internal_error))
      (decode_cursor codec (233 ∷ 46 ∷ []))
decode_cursor-Raises_example = decode_cursor-Raises codec (233 ∷ 46 ∷ [])

forged_cursor_is_refused_example : decode_cursor codec (65 ∷ 46 ∷ 65 ∷ []) ≡ err invalid_argument
forged_cursor_is_refused_example =
    forged_cursor_is_refused codec (65 ∷ 46 ∷ 65 ∷ []) (65 ∷ []) (65 ∷ []) refl refl forged
