-- ===== src/Store/Queries/Notifications.antt =====
-- get_notifications and the reply status of get_conversation (synapse/store/queries.py) compute the
-- same condition in two ways: in SQL over all conversations, and rule by rule in Python over one.
use synapse_messenger.Prelude.{
  ℕ, ◌≡◌, refl, sym, ap, ◌∙◌, Bool, true, false, not, ◌&&◌, Option, none, some, List, [], ◌∷◌, All,
  All-map, any, select, order_by, first, is_some, leb, ◌==◌, ==_iff, inl, inr, Bool-cases,
  if◌then◌else◌, arith,
}
use synapse_messenger.Db.{Db, Message, Conversation}
use synapse_messenger.Store.Messages.{is_newer, get_no_reply, get_conversation_by_id}
use synapse_messenger.Store.Paging.{descending}
use synapse_messenger.Store.Paging.Order.{Distinct, Distinct-select}
use synapse_messenger.Store.Paging.First.{any-select, any-All, any-first, holds_of, is_first}
use synapse_messenger.Store.Queries.{
  ReplyNeed, needs_reply, no_reply_needed, was_read, answers, is_received, covers, need_for,
  reply_status, message_key, is_notified, joined, notified, notification,
}

abbrev pub is_needed : ReplyNeed × Option ℕ → Bool
is_needed (needs_reply, id) = true
is_needed (no_reply_needed, id) = false

-- rules 2 to 5, as one condition on the last received message
abbrev is_open : Db → ℕ → ℕ → ℕ → Message → Bool
is_open d c me boundary l =
    not (l.sender_username == me)
    && (was_read boundary l
        && (not (any (answers me boundary l) d.messages) && not (covers (get_no_reply d c me) l)))

need_for-is_open :
    (d : Db) (c me boundary : ℕ) (o : Option Message)
    → is_needed (need_for d c me boundary o) ≡ holds_of (is_open d c me boundary) o
need_for-is_open d c me boundary none = refl
need_for-is_open d c me boundary (some l) =
    at (l.sender_username == me) (was_read boundary l) (any (answers me boundary l) d.messages)
      (covers (get_no_reply d c me) l)
  where
    at :
        (s r a m : Bool)
        → is_needed (
            if s
            then (no_reply_needed, some l.message_id)
            else if not r
            then (no_reply_needed, some l.message_id)
            else if a
            then (no_reply_needed, some l.message_id)
            else if m
            then (no_reply_needed, some l.message_id)
            else (needs_reply, some l.message_id))
          ≡ (not s && (r && (not a && not m)))
    at true r a m = refl
    at false true true m = refl
    at false true false true = refl
    at false true false false = refl
    at false false a m = refl

false_right : (b : Bool) → (b && false) ≡ false
false_right b = ground arith

-- The JOIN keeps the rows of a conversation, where the conversation exists.
any-joined :
    (d : Db) (c me boundary : ℕ) (rows : List Message)
    → any (λ n. n.conversation_id == c) (joined d me boundary rows)
      ≡ (any (λ l. l.conversation_id == c) rows && is_some (get_conversation_by_id d c))
any-joined d c me boundary [] = refl
any-joined d c me boundary (l ∷ rows) =
    at (any-joined d c me boundary rows) (l.conversation_id == c) refl
      (get_conversation_by_id d l.conversation_id) refl
  where
    at :
        (any (λ n. n.conversation_id == c) (joined d me boundary rows)
          ≡ (any (λ l. l.conversation_id == c) rows && is_some (get_conversation_by_id d c)))
        → (b : Bool) → (l.conversation_id == c) ≡ b
        → (o : Option Conversation) → get_conversation_by_id d l.conversation_id ≡ o
        → any
            (λ n. n.conversation_id == c)
            (elim o [
              | none ↦ joined d me boundary rows
              | some k ↦ notification d me boundary l k ∷ joined d me boundary rows
            ])
          ≡ (any (λ l. l.conversation_id == c) (l ∷ rows) && is_some (get_conversation_by_id d c))
    at ih true e none g =
        let here : get_conversation_by_id d c ≡ none = rw (sym ((==_iff _ _).0 e)) g in
        rw (ih, e, here) (false_right _)
    at ih true e (some k) g =
        let here : get_conversation_by_id d c ≡ some k = rw (sym ((==_iff _ _).0 e)) g in
        rw (e, here) refl
    at ih false e none g = rw (ih, e) refl
    at ih false e (some k) g = rw (e, ih) refl

notified_here :
    (d : Db) (me boundary : ℕ) (l : Message)
    → (l.sender_username == l.recipient_username) ≡ false
    → (is_notified d me boundary l && l.conversation_id == l.conversation_id) ≡ (
        is_received l.conversation_id me boundary l
        && (is_first descending message_key
              (select (is_received l.conversation_id me boundary) d.messages)
              l
            && is_open d l.conversation_id me boundary l))
unfolding descending
notified_here d me boundary l h =
    rw (any-select (λ m. is_newer m l) (is_received l.conversation_id me boundary) d.messages) (
      at l.recipient_username l.sender_username (leb l.created_at boundary)
        (any (λ x. is_received l.conversation_id me boundary x && is_newer x l) d.messages)
        (was_read boundary l) (any (answers me boundary l) d.messages)
        (covers (get_no_reply d l.conversation_id me) l) h)
  where
    at :
        (r s : ℕ) (b n w x y : Bool)
        → (s == r) ≡ false
        → (((r == me && (b && not n)) && (w && (not x && not y)))
            && l.conversation_id == l.conversation_id)
          ≡ ((l.conversation_id == l.conversation_id && (r == me && b))
              && (not n && (not (s == me) && (w && (not x && not y)))))
    at r s b n w x y e = ground arith

-- In conversation c, the SQL condition on a row: received there, none received later, and open.
notified_in :
    (d : Db) (c me boundary : ℕ) (l : Message)
    → (l.sender_username == l.recipient_username) ≡ false
    → (is_notified d me boundary l && l.conversation_id == c) ≡ (
        is_received c me boundary l
        && (is_first descending message_key (select (is_received c me boundary) d.messages) l
            && is_open d c me boundary l))
notified_in d c me boundary l h = elim (Bool-cases (l.conversation_id == c)) [
  | inl e ↦ rw (sym ((==_iff l.conversation_id c).0 e)) (notified_here d me boundary l h)
  | inr e ↦ rw e (false_right (is_notified d me boundary l))
]

-- For the messages of a database in which no two have the same time and identifier and nobody writes
-- to himself: a conversation is in the notifications of an account exactly where it exists and its
-- reply status is needs_reply.
pub notified-reply_status :
    (d : Db) (c me boundary : ℕ)
    → Distinct descending message_key d.messages
    → All (λ m. (m.sender_username == m.recipient_username) ≡ false) d.messages
    → any (λ n. n.conversation_id == c) (notified d me boundary)
      ≡ (is_needed (reply_status d c me boundary) && is_some (get_conversation_by_id d c))
unfolding notified reply_status descending
notified-reply_status d c me boundary distinct others =
    any-joined d c me boundary (select (is_notified d me boundary) d.messages)
    ∙ ap (λ b. b && is_some (get_conversation_by_id d c))
        (any-select (λ l. l.conversation_id == c) (is_notified d me boundary) d.messages
          ∙ any-All _ _ d.messages (All-map d.messages (notified_in d c me boundary) others)
          ∙ sym (
              any-select
                (λ l. is_first descending message_key received l && is_open d c me boundary l)
                (is_received c me boundary) d.messages)
          ∙ any-first descending message_key (is_open d c me boundary) received (
              Distinct-select descending message_key (is_received c me boundary) d.messages
                distinct)
          ∙ sym (need_for-is_open d c me boundary (first (order_by is_newer received))))
  where
    received : List Message
    received = select (is_received c me boundary) d.messages
