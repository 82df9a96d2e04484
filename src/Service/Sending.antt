-- ===== src/Service/Sending.antt =====
-- Sending and reading a message (synapse/service.py: _send_message, _read_message).
use synapse_messenger.Prelude.{
  ℕ, List, ◌∷◌, ◌≡◌, refl, sym, ap, ◌∙◌, Option, none, some, true, false, arith, ◌==◌, ==_iff,
  String,
}
use text.Mathlib.TextEquality.{eq_iff}
use synapse_messenger.Errors.{
  ok, ◌>>=◌, raise_if, or_raise, Ensures, Ensures-ok, Ensures-err, Ensures-bind, Ensures-if,
  Ensures-map, raise_if_passed, or_raise_found,
}
use synapse_messenger.Db.{Db, Message, Account, Organization}
use synapse_messenger.Store.Accounts
use synapse_messenger.Store.Messages
use synapse_messenger.Store.Messages.{MessageView, row_to_message, mark}
use synapse_messenger.Service.Common.{Env}
use synapse_messenger.Service.Messages.{
  NewMessage, is_same_message, same_reference, sent_before, new_row, lost_race, deliver,
  after_insert, insert_new, by_key, send_new, send_message,
}

-- A message under the key of the send makes the answer.
resend :
    (env : Env) (p : NewMessage) (me : ℕ) (d : Db) (s : Account) (o : Organization) (m : Message)
    → (p.recipient_username == me) ≡ false
    → Accounts.get d me ≡ some s
    → Accounts.get_organization d s.organization_name ≡ some o
    → Messages.find_message_by_client_id d me p.client_message_id ≡ some m
    → send_message env p me d ≡ sent_before d p m
unfolding send_message raise_if or_raise ◌>>=◌
resend env p me d s o m e1 e2 e3 e4 = rw (e1, e2, e3, e4) refl

same_reference_refl : (r : Option String) → same_reference r r ≡ true
same_reference_refl none = refl
same_reference_refl (some a) = (eq_iff a a).1 refl

new_row_is_same :
    (env : Env) (p : NewMessage) (me c : ℕ) → is_same_message p (new_row env p me c) ≡ true
new_row_is_same env p me c =
    rw
      (
        (==_iff p.recipient_username p.recipient_username).1 refl,
        (eq_iff p.content p.content).1 refl,
        same_reference_refl p.business_reference,
      )
      refl

insert_message_head :
    (m : Message) (d d' : Db)
    → Messages.insert_message m d ≡ some d'
    → d' ≡ record d { messages = m ∷ d.messages }
unfolding Messages.insert_message
insert_message_head m d d' h = ground arith

-- What a send that is delivered leaves under its identifier and under its idempotency key.
abbrev pub Delivered : Env → NewMessage → ℕ → Db → MessageView × Db → Type 0
Delivered env p me d (v, d') =
    (c : ℕ) × (d'.messages ≡ new_row env p me c ∷ d.messages)
    × (d'.accounts ≡ d.accounts)
    × (d'.organizations ≡ d.organizations)
    × (v ≡ row_to_message d' (new_row env p me c))

get_message_by_id-head :
    (m : Message) (ms : List Message) (d : Db)
    → d.messages ≡ m ∷ ms
    → Messages.get_message_by_id d m.message_id ≡ some m
unfolding Messages.get_message_by_id
get_message_by_id-head m ms d e = rw (e, (==_iff m.message_id m.message_id).1 refl) refl

some_injective : {x y : Message} → some x ≡ some y → x ≡ y
some_injective h = cc

deliver-Delivered :
    (env : Env) (p : NewMessage) (me c : ℕ) (d d2 : Db)
    → d2.messages ≡ new_row env p me c ∷ d.messages
    → d2.accounts ≡ d.accounts
    → d2.organizations ≡ d.organizations
    → Ensures (Delivered env p me d) (deliver env p me c d2)
unfolding Messages.set_no_reply
deliver-Delivered env p me c d d2 em ea eo = Ensures-bind _ _ λ row e. Ensures-ok _ (
  c,
  em,
  ea,
  eo,
  ap (row_to_message _) (
      some_injective
        (sym (or_raise_found _ _ e) ∙ get_message_by_id-head (new_row env p me c) d.messages _ em)),
)

pub insert_new-Delivered :
    (env : Env) (p : NewMessage) (me : ℕ) (d : Db)
    → Messages.find_message_by_client_id d me p.client_message_id ≡ none
    → Ensures (Delivered env p me d) (insert_new env p me d)
unfolding insert_new Messages.find_message_by_client_id
insert_new-Delivered env p me d free = Ensures-bind _ _ λ conversation _.
    inserted conversation.0 (record d { conversations = conversation.1 }) refl refl refl
  where
    lost :
        (o : Option Message) (d1 : Db)
        → o ≡ none
        → Ensures (Delivered env p me d) (lost_race d1 p o)
    lost none d1 e = Ensures-err _
    lost (some m) d1 e = cc

    after :
        (c : ℕ) (d1 : Db) (o : Option Db)
        → Messages.insert_message (new_row env p me c) d1 ≡ o
        → d1.messages ≡ d.messages
        → d1.accounts ≡ d.accounts
        → d1.organizations ≡ d.organizations
        → Ensures (Delivered env p me d) (after_insert env p me c d1 o)
    after c d1 none i em ea eo = lost _ d1 (rw em free)
    after c d1 (some d2) i em ea eo =
        let head = insert_message_head _ d1 d2 i in
        deliver-Delivered env p me c d d2 (ap (λ x. x.messages) head ∙ rw em refl)
          (ap (λ x. x.accounts) head ∙ ea) (ap (λ x. x.organizations) head ∙ eo)

    inserted :
        (c : ℕ) (d1 : Db)
        → d1.messages ≡ d.messages
        → d1.accounts ≡ d.accounts
        → d1.organizations ≡ d.organizations
        → Ensures
            (Delivered env p me d)
            (after_insert env p me c d1 (Messages.insert_message (new_row env p me c) d1))
    inserted c d1 em ea eo = after c d1 _ refl em ea eo

-- A retry that finds the row of the delivery gives the same answer and changes nothing.
resend-Delivered :
    (env env' : Env) (p : NewMessage) (me : ℕ) (d : Db) (s : Account) (o : Organization)
    (a : MessageView × Db)
    → (p.recipient_username == me) ≡ false
    → Accounts.get d me ≡ some s
    → Accounts.get_organization d s.organization_name ≡ some o
    → Delivered env p me d a
    → send_message env' p me a.1 ≡ ok a
unfolding Accounts.get Accounts.get_organization Messages.find_message_by_client_id
resend-Delivered env env' p me d s o (v, d') ne es eo (c, em, ea, eg, ev) =
    resend env' p me d' s o (new_row env p me c) ne (rw ea es) (rw eg eo)
      (rw (em, (==_iff me me).1 refl, (==_iff p.client_message_id p.client_message_id).1 refl) refl)
    ∙ rw (new_row_is_same env p me c) (ap (λ x. ok (x, d')) (sym ev))

sends_alike :
    (env env' : Env) (p : NewMessage) (me : ℕ) (d : Db)
    → Ensures (λ a. send_message env' p me a.1 ≡ ok a) (send_message env p me d)
unfolding send_message send_new
sends_alike env env' p me d = Ensures-bind _ _ λ _ other. Ensures-bind _ _ λ s es.
    Ensures-bind _ _ λ o eo.
      keyed s o (raise_if_passed _ _ other) (or_raise_found _ _ es) (or_raise_found _ _ eo) _ refl
  where
    keyed :
        (s : Account) (o : Organization)
        → (p.recipient_username == me) ≡ false
        → Accounts.get d me ≡ some s
        → Accounts.get_organization d s.organization_name ≡ some o
        → (m : Option Message) → Messages.find_message_by_client_id d me p.client_message_id ≡ m
        → Ensures (λ a. send_message env' p me a.1 ≡ ok a) (by_key env p me s o d m)
    keyed s o ne es eo none free = Ensures-bind _ _ λ _ _. Ensures-bind _ _ λ _ _.
        Ensures-map _ (insert_new-Delivered env p me d free)
          λ a sent. resend-Delivered env env' p me d s o a ne es eo sent
    keyed s o ne es eo (some m) found =
        Ensures-if (is_same_message p m) _ _
          (λ same.
            Ensures-ok (row_to_message d m, d)
              (resend env' p me d s o m ne es eo found ∙ rw same refl))
          (λ _. Ensures-err _)

-- A send that succeeds can be repeated at once, on the database that it left: the same sender, with the
-- same parameters but at any reading of the clock and with any new identifiers, gets the same answer,
-- and the repetition leaves that database as it is.
pub send_again :
    (env env' : Env) (p : NewMessage) (me : ℕ) (d : Db) {a : MessageView × Db}
    → send_message env p me d ≡ ok a
    → send_message env' p me a.1 ≡ ok a
send_again env env' p me d {a} h = (sends_alike env env' p me d).returns a h
