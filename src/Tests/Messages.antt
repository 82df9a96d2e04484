-- ===== src/Tests/Messages.antt =====
-- Sending and reading on the small server.
use synapse_messenger.Prelude.{ℕ, ◌≡◌, refl, none, arith}
use synapse_messenger.Errors.{ok, ◌>>=◌, raise_if, or_raise}
use synapse_messenger.Db.{Db}
use synapse_messenger.Store.Accounts
use synapse_messenger.Store.Messages
use synapse_messenger.Store.Messages.{MessageView, row_to_message}
use synapse_messenger.Service.Guards
use synapse_messenger.Service.Messages.{NewMessage, send_new, insert_new, send_message}
use synapse_messenger.Service.Sending.{send_again}
use synapse_messenger.Service.Policies.{closed_reveals_nothing}
use synapse_messenger.Service.Reading.{ReadOnce, read_once}
use synapse_messenger.Tests.Data.{db, env, later, unread, closed, account, result_of}

abbrev hello : ℕ → NewMessage
hello recipient = record {
  recipient_username = recipient;
  content = "hi";
  client_message_id = 9;
  business_reference = none;
}

-- Account 1 writes to account 3, of another organization.
abbrev sent : MessageView × Db
sent = result_of (row_to_message db unread, db) (send_message env (hello 3) 1 db)

send_again_example : send_message later (hello 3) 1 sent.1 ≡ ok sent
unfolding send_message send_new insert_new Messages.find_message_by_client_id
    Messages.get_message_by_id Messages.get_conversation_by_key Messages.get_conversation_by_id
    Messages.fetch_or_create_conversation Messages.insert_message Messages.set_no_reply
    row_to_message Guards.check_message_budget Guards.budget_of Accounts.get
    Accounts.get_organization ◌>>=◌ raise_if or_raise
send_again_example = send_again env later (hello 3) 1 db refl

-- Account 3 cannot tell account 1, of another organization, from a name that nobody has.
closed_reveals_nothing_example : send_message env (hello 1) 3 db ≡ send_message env (hello 77) 3 db
unfolding Messages.find_message_by_client_id Accounts.get Accounts.get_organization
closed_reveals_nothing_example =
    closed_reveals_nothing env (hello 1) (hello 77) 3 db (account 3 11) closed (omega arith)
      (omega arith) refl refl refl refl refl refl refl

read_once_example : ReadOnce env later 80 2 db
unfolding Messages.get_message_by_id
read_once_example = read_once env later 80 2 db unread refl refl
