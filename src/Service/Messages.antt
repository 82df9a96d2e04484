-- ===== src/Service/Messages.antt =====
-- The message commands (synapse/service.py): send_message, read_message, mark_conversation_no_reply.
use synapse_messenger.Prelude.{
  ℕ, Option, none, some, Bool, true, false, not, ◌&&◌, ◌||◌, is_some, ◌==◌, if◌then◌else◌, String,
}
use text.Mathlib.Text.{◌==◌ as same_text}
use synapse_messenger.Errors.{
  Result, ok, err, ◌>>=◌, ◌>>◌, raise_if, or_raise, invalid_argument, message_already_exists,
  policy_denied, recipient_not_found, message_not_found, internal_error,
}
use synapse_messenger.Db.{Db, Message, Account, Organization}
use synapse_messenger.Store.Accounts
use synapse_messenger.Store.Accounts.{is_active}
use synapse_messenger.Store.Messages
use synapse_messenger.Store.Messages.{
  MessageView, row_to_message, conversation_low, conversation_high,
}
use synapse_messenger.Service.Common.{Env}
use synapse_messenger.Service.Guards.{check_message_budget}

-- The parameters of send_message, as `validate_envelope` hands them over.
pub record NewMessage : Type 0 where
  pub recipient_username : ℕ
  pub content : String
  pub client_message_id : ℕ
  pub business_reference : Option String

abbrev pub same_reference : Option String → Option String → Bool
same_reference none none = true
same_reference none (some b) = false
same_reference (some a) none = false
same_reference (some a) (some b) = same_text a b

-- The stored message is the one that is sent again.
abbrev pub is_same_message : NewMessage → Message → Bool
is_same_message p m =
    m.recipient_username == p.recipient_username
    && same_text m.content p.content
    && same_reference m.business_reference p.business_reference

-- The answer to an idempotency key that is taken.
abbrev pub sent_before : Db → NewMessage → Message → Result (MessageView × Db)
sent_before d p existing =
    if is_same_message p existing
    then ok (row_to_message d existing, d)
    else err message_already_exists

abbrev pub is_enabled : Option Organization → Bool
is_enabled none = false
is_enabled (some o) = o.enabled

-- An active account of an enabled organization
abbrev pub can_receive : Db → Account → Bool
can_receive d recip =
    is_active recip.status && is_enabled (Accounts.get_organization d recip.organization_name)

abbrev pub incoming_policy : Option Organization → Result (Unit {0})
incoming_policy none = err internal_error
incoming_policy (some o) = raise_if (not o.allow_incoming_external) policy_denied

-- The recipient's account and organization, and the two policies.
abbrev pub check_recipient : Db → Account → Organization → Option Account → Result (Unit {0})
check_recipient d sender sender_org none =
    err (if not sender_org.allow_outgoing_external then policy_denied else recipient_not_found)
check_recipient d sender sender_org (some recip) =
    if not (can_receive d recip)
    then err (if not sender_org.allow_outgoing_external then policy_denied else recipient_not_found)
    else if recip.organization_name == sender.organization_name
    then ok tt
    else if not sender_org.allow_outgoing_external
    then err policy_denied
    else incoming_policy (Accounts.get_organization d recip.organization_name)

abbrev pub new_row : Env → NewMessage → ℕ → ℕ → Message
new_row env p me conversation_id = record {
  message_id = env.uuid;
  conversation_id = conversation_id;
  client_message_id = p.client_message_id;
  sender_username = me;
  recipient_username = p.recipient_username;
  content = p.content;
  business_reference = p.business_reference;
  created_at = env.now;
  read_at = none;
}

-- The IntegrityError branch: the message that a concurrent send has committed.
abbrev pub lost_race : Db → NewMessage → Option Message → Result (MessageView × Db)
lost_race d p none = err message_already_exists
lost_race d p (some existing) = sent_before d p existing

-- The reply states of both ends, and the row that is returned.
abbrev pub deliver : Env → NewMessage → ℕ → ℕ → Db → Result (MessageView × Db)
deliver env p me conversation_id d = do
  let d1 = Messages.set_no_reply conversation_id p.recipient_username none none d
  let d2 = Messages.set_no_reply conversation_id me none none d1
  row ← or_raise (Messages.get_message_by_id d2 env.uuid) internal_error
  ok (row_to_message d2 row, d2)

-- What follows the INSERT, whose IntegrityError is `none`.
abbrev pub after_insert : Env → NewMessage → ℕ → ℕ → Db → Option Db → Result (MessageView × Db)
after_insert env p me conversation_id d none =
    lost_race d p (Messages.find_message_by_client_id d me p.client_message_id)
after_insert env p me conversation_id d (some d') = deliver env p me conversation_id d'

-- From the conversation to the answer.
unfoldable pub insert_new : Env → NewMessage → ℕ → Db → Result (MessageView × Db)
insert_new env p me d = do
  conversation ←
      or_raise
        (Messages.fetch_or_create_conversation d (conversation_low me p.recipient_username)
          (conversation_high me p.recipient_username) env.conversation_uuid env.now)
        internal_error
  let d1 = record d { conversations = conversation.1 }
  after_insert env p me conversation.0 d1
      (Messages.insert_message (new_row env p me conversation.0) d1)

-- What follows when the idempotency key is free.
unfoldable pub send_new :
    Env → NewMessage → ℕ → Account → Organization → Db → Result (MessageView × Db)
send_new env p me sender sender_org d = do
  check_message_budget d env.now me
  check_recipient d sender sender_org (Accounts.get d p.recipient_username)
  insert_new env p me d

-- The idempotency key before any policy.
abbrev pub by_key :
    Env → NewMessage → ℕ → Account → Organization → Db → Option Message → Result (MessageView × Db)
by_key env p me sender sender_org d (some existing) = sent_before d p existing
by_key env p me sender sender_org d none = send_new env p me sender sender_org d

-- _send_message
unfoldable pub send_message : Env → NewMessage → ℕ → Db → Result (MessageView × Db)
send_message env p me d = do
  raise_if (p.recipient_username == me) invalid_argument
  sender ← or_raise (Accounts.get d me) internal_error
  sender_org ← or_raise (Accounts.get_organization d sender.organization_name) internal_error
  by_key env p me sender sender_org d (Messages.find_message_by_client_id d me p.client_message_id)

abbrev pub is_end : ℕ → Message → Bool
is_end me m = m.sender_username == me || m.recipient_username == me

-- The row, if `me` is one of its ends.
abbrev pub readable : ℕ → Option Message → Result Message
readable me none = err message_not_found
readable me (some m) = if is_end me m then ok m else err message_not_found

abbrev pub mark_row : Env → ℕ → Db → Result (MessageView × Db)
mark_row env message_id d = do
  let d1 = Messages.mark_read_conditional message_id env.now d
  row ← or_raise (Messages.get_message_by_id d1 message_id) internal_error
  ok (row_to_message d1 row, d1)

-- The transaction of the first read; it does nothing to a row that a concurrent reader has marked.
unfoldable pub mark_and_get : Env → ℕ → Db → Result (MessageView × Db)
mark_and_get env message_id d = do
  row ← or_raise (Messages.get_message_by_id d message_id) internal_error
  (if is_some row.read_at then ok (row_to_message d row, d) else mark_row env message_id d)

-- _read_message: `seen` is the database at the read without a lock, `d` the one of the transaction.
unfoldable pub read_message : Env → ℕ → ℕ → Db → Db → Result (MessageView × Db)
read_message env message_id me seen d = do
  row ← readable me (Messages.get_message_by_id seen message_id)
  (if row.recipient_username == me && not (is_some row.read_at)
      then mark_and_get env message_id d
      else ok (row_to_message seen row, d))

-- _mark_conversation_no_reply: the message that the mark is for
unfoldable pub mark_conversation_no_reply : Env → ℕ → ℕ → Db → Result (ℕ × Db)
mark_conversation_no_reply env conversation_id me d = do
  conv ← or_raise (Messages.get_conversation_by_id d conversation_id) invalid_argument
  last ← or_raise (Messages.last_received_message d conv.conversation_id me) invalid_argument
  ok (
    last.message_id,
    Messages.set_no_reply conv.conversation_id me (some last.message_id) (some env.now) d,
  )
