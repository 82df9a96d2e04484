-- ===== src/Service/GroupRetries.antt =====
-- The idempotency key of group messages (synapse/service.py: _agent_send_group_message).
use synapse_messenger.Prelude.{ℕ, ◌≡◌, refl, sym, ap, ◌∙◌, Option, none, some, ==_iff}
use synapse_messenger.Hlc.{Clock}
use synapse_messenger.Errors.{
  ok, ◌>>=◌, or_raise, Ensures, Ensures-ok, Ensures-bind, or_raise_found,
}
use synapse_messenger.Db.{Db, Group, GroupMessage}
use synapse_messenger.Store.Audit
use synapse_messenger.Service.Common.{Env}
use synapse_messenger.Service.Groups.{
  group_require_member, NewGroupMessage, find_group_message, get_group_message, group_send_new,
  group_send_by_key, agent_send_group_message,
}

-- A stored message under the key, and under its identifier.
abbrev IsStored : ℕ → ℕ → GroupMessage × Db → Type 0
IsStored me c (m, d) =
    (first : GroupMessage) × (find_group_message d me (some c) ≡ some first)
    × (get_group_message d first.message_id ≡ some m)

retry :
    (env : Env) (p : NewGroupMessage) (me c : ℕ) (h : Clock) (a : GroupMessage × Db) (g : Group)
    → p.client_message_id ≡ some c
    → group_require_member a.1 p.group_id me ≡ ok g
    → IsStored me c a
    → agent_send_group_message env p me h a.1 ≡ ok a
unfolding agent_send_group_message ◌>>=◌ or_raise
retry env p me c h (m, d) g key member (first, found, stored) = rw (member, key, found, stored) refl

stores :
    (env : Env) (p : NewGroupMessage) (me c : ℕ) (h : Clock) (d : Db)
    → p.client_message_id ≡ some c
    → Ensures (IsStored me c) (agent_send_group_message env p me h d)
unfolding agent_send_group_message group_send_new find_group_message get_group_message Audit.append
stores env p me c h d key = Ensures-bind _ _ λ _ _. by_key _ refl
  where
    fresh : GroupMessage
    fresh = record {
      message_id = env.uuid;
      group_id = p.group_id;
      client_message_id = p.client_message_id;
      sender_username = me;
      content = p.content;
      created_at = env.at;
    }

    by_key :
        (o : Option GroupMessage)
        → find_group_message d me p.client_message_id ≡ o
        → Ensures (IsStored me c) (group_send_by_key env p me h d o)
    by_key none e = Ensures-bind _ _ λ _ _. Ensures-bind _ _ λ _ _. Ensures-bind _ _ λ _ _.
        Ensures-bind _ _ λ org _. Ensures-ok _ (
          fresh,
          rw ((==_iff me me).1 refl, key, (==_iff c c).1 refl) refl,
          rw ((==_iff env.uuid env.uuid).1 refl) refl,
        )
    by_key (some m) e = Ensures-bind _ _ λ row stored.
        Ensures-ok _ (m, ap (find_group_message d me) (sym key) ∙ e, or_raise_found _ _ stored)

-- After a group message is sent under an idempotency key, every send of the same agent under the same
-- key, to any group that it is a member of and with any content, returns that first message and leaves
-- the database as it is: neither the group nor the content is compared.
pub key_hides_message :
    (env env' : Env) (p p' : NewGroupMessage) (me c : ℕ) (h h' : Clock) (d : Db) (g : Group)
    {a : GroupMessage × Db}
    → p.client_message_id ≡ some c
    → p'.client_message_id ≡ some c
    → agent_send_group_message env p me h d ≡ ok a
    → group_require_member a.1 p'.group_id me ≡ ok g
    → agent_send_group_message env' p' me h' a.1 ≡ ok a
key_hides_message env env' p p' me c h h' d g {a} key key' sent member =
    retry env' p' me c h' a g key' member ((stores env p me c h d key).returns a sent)
