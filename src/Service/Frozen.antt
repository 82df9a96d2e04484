-- ===== src/Service/Frozen.antt =====
-- The snapshot of a paginated read (synapse/service.py: _get_messages; synapse/store/queries.py):
-- what happens after the boundary of a cursor does not show in its pages.
use synapse_messenger.Prelude.{
  ℕ, ◌<◌, ◌≡◌, refl, sym, ap, ◌∙◌, Bool, true, false, ◌&&◌, ◌||◌, Option, none, some, List, [], ◌∷◌,
  map, select, leb, ◌==◌, is_some, if◌then◌else◌, arith,
}
use synapse_messenger.Errors.{Result, ok}
use synapse_messenger.Db.{Db, Message}
use synapse_messenger.Cursor.{Codec, next_cursor}
use synapse_messenger.Store.Accounts
use synapse_messenger.Store.Messages.{
  MessageView, row_to_message_as_of, row_to_message, mark, mark_read_conditional, insert_message,
  get_message_by_id, find_message_by_client_id,
}
use synapse_messenger.Store.Paging.{descending, cut, fetch}
use synapse_messenger.Store.Paging.Update.{update-map, map-same, select-map, fetch-map, cut-map}
use synapse_messenger.Store.Queries.{
  ReadFilter, any_status, only_unread, only_read, message_key, in_message_page,
}
use synapse_messenger.Service.Reads.{
  GetMessages, get_messages, get_messages_request, messages_page, MessagesPage, cursor_at,
}
use synapse_messenger.Service.Mailbox.{page_at, resumed}

-- A change of the messages after the boundary: one is sent, or one is read for the first time.
pub data Later (boundary : ℕ) : Db → Db → Type 0 where
  sent :
      (d d' : Db) (m : Message)
      → boundary < m.created_at
      → insert_message m d ≡ some d'
      → Later boundary d d'
  marked :
      (d : Db) (id read_at : ℕ)
      → boundary < read_at
      → Later boundary d (mark_read_conditional id read_at d)

-- Any number of such changes
pub data LaterSteps (boundary : ℕ) : Db → Db → Type 0 where
  done : (d : Db) → LaterSteps boundary d d
  step : (d e f : Db) → Later boundary d e → LaterSteps boundary e f → LaterSteps boundary d f

-- mark_read_conditional on one row
abbrev marking : ℕ → ℕ → Message → Message
marking id read_at m = if m.message_id == id then mark read_at m else m

-- What holds of a row and, where it was unread, of the row read at t, holds of the marked row.
marking-cases :
    (P : Message → Type 0) (id t : ℕ) (m : Message)
    → P m
    → (m.read_at ≡ none → P (record m { read_at = some t }))
    → P (marking id t m)
marking-cases P id t m p q = at (m.message_id == id) (is_some m.read_at) refl
  where
    absent : (o : Option ℕ) → is_some o ≡ false → o ≡ none
    absent none e = refl
    absent (some s) e = cc

    at :
        (b c : Bool)
        → is_some m.read_at ≡ c
        → P (if b then (if c then m else record m { read_at = some t }) else m)
    at true true e = p
    at true false e = q (absent m.read_at e)
    at false c e = p

unread_later : (boundary t : ℕ) → boundary < t → leb t boundary ≡ false
unread_later boundary t h = ground arith

module _ (id t boundary : ℕ) (later : boundary < t) where
  marking-key : (m : Message) → message_key (marking id t m) ≡ message_key m
  marking-key m = marking-cases (λ x. message_key x ≡ message_key m) id t m refl (λ e. refl)

  marking-selected :
      (me : ℕ) (status : ReadFilter) (sender conversation : Option ℕ) (m : Message)
      → in_message_page me boundary status sender conversation (marking id t m)
        ≡ in_message_page me boundary status sender conversation m
  marking-selected me status sender conversation m =
      marking-cases
        (λ x.
          in_message_page me boundary status sender conversation x
          ≡ in_message_page me boundary status sender conversation m)
        id t m refl (λ e. at status e)
    where
      at :
          (status : ReadFilter)
          → m.read_at ≡ none
          → in_message_page me boundary status sender conversation (record m { read_at = some t })
            ≡ in_message_page me boundary status sender conversation m
      at any_status e = refl
      at only_unread e = rw (e, unread_later boundary t later) refl
      at only_read e = rw (e, unread_later boundary t later) refl

  marking-view :
      (d : Db) (m : Message)
      → row_to_message_as_of (mark_read_conditional id t d) (marking id t m) boundary
        ≡ row_to_message_as_of d m boundary
  unfolding row_to_message_as_of row_to_message mark_read_conditional Accounts.get
  marking-view d m =
      marking-cases
        (λ x.
          row_to_message_as_of (mark_read_conditional id t d) x boundary
          ≡ row_to_message_as_of d m boundary)
        id t m refl (λ e. rw (e, unread_later boundary t later) refl)

-- The page of a request at the boundary, of the rows that are selected.
module _ (u : Codec) (p : GetMessages) (me boundary : ℕ) (k : Option (ℕ × ℕ)) where
  abbrev page_of : Db → MessagesPage
  page_of d = messages_page u d (get_messages_request p me) boundary (
      cut descending message_key p.limit (
        fetch descending message_key
          (select (in_message_page me boundary p.status p.sender_username p.conversation_id)
            d.messages)
          k p.limit))

  abbrev shown : (Message → MessageView) → List Message × Option (ℕ × ℕ) → MessagesPage
  shown view x = record {
    messages = map view x.0;
    next_cursor = cursor_at u (get_messages_request p me) boundary x.1;
  }

  page_of-marked :
      (d : Db) (id t : ℕ) → boundary < t → page_of (mark_read_conditional id t d) ≡ page_of d
  unfolding mark_read_conditional
  page_of-marked d id t later =
      let g = marking id t in
      let selects = in_message_page me boundary p.status p.sender_username p.conversation_id in
      let view : Message → MessageView =
        λ m. row_to_message_as_of (mark_read_conditional id t d) m boundary in
      let key_kept = marking-key id t boundary later in
      let page : List Message → MessagesPage = λ rows.
        shown view
          (cut descending message_key p.limit (fetch descending message_key rows k p.limit)) in
      ap (λ rows. page (select selects rows))
        (update-map (λ m. m.message_id == id) (mark t) d.messages)
      ∙ ap page (
          select-map selects g d.messages
            (marking-selected id t boundary later me p.status p.sender_username p.conversation_id))
      ∙ ap (λ rows. shown view (cut descending message_key p.limit rows))
          (fetch-map descending message_key g key_kept (select selects d.messages) k p.limit)
      ∙ ap (shown view) (
          cut-map descending message_key g key_kept p.limit
            (fetch descending message_key (select selects d.messages) k p.limit))
      ∙ ap
          (λ rows. record {
            messages = rows;
            next_cursor =
                cursor_at u (get_messages_request p me) boundary
                  (cut descending message_key p.limit
                    (fetch descending message_key (select selects d.messages) k p.limit)).1;
          })
          (map-same view (λ m. row_to_message_as_of d m boundary) g _
            (marking-view id t boundary later d))

  too_late :
      (status : ReadFilter) (m : Message)
      → boundary < m.created_at
      → in_message_page me boundary status p.sender_username p.conversation_id m ≡ false
  too_late status m later =
      rw (unread_later boundary m.created_at later) (false_right (m.recipient_username == me))
    where
      false_right : (b : Bool) → (b && false) ≡ false
      false_right b = ground arith

  page_of-sent :
      (d : Db) (m : Message)
      → boundary < m.created_at
      → page_of (record d { messages = m ∷ d.messages }) ≡ page_of d
  unfolding row_to_message_as_of row_to_message Accounts.get
  page_of-sent d m later = rw (too_late p.status m later) refl

inserted :
    (m : Message) (d d' : Db)
    → insert_message m d ≡ some d'
    → record d { messages = m ∷ d.messages } ≡ d'
unfolding insert_message
inserted m d d' e =
    at
      (is_some (get_message_by_id d m.message_id)
        || is_some (find_message_by_client_id d m.sender_username m.client_message_id))
      e
  where
    at :
        (b : Bool)
        → (if b then none else some (record d { messages = m ∷ d.messages })) ≡ some d'
        → record d { messages = m ∷ d.messages } ≡ d'
    at true e = cc
    at false e = cc

module _ (u : Codec) (now : ℕ) (p : GetMessages) (me boundary a b : ℕ) where
  -- The page of a cursor of get_messages with this boundary
  abbrev pub next_page : Db → Result MessagesPage
  next_page =
      get_messages u now
        (record p {
          cursor = some (next_cursor u (get_messages_request p me) boundary (a ∷ b ∷ []));
        })
        me

  pub next_page-page_of : (d : Db) → next_page d ≡ ok (page_of u p me boundary (some (a, b)) d)
  next_page-page_of d =
      page_at u (λ n. now) p me d now boundary _ (some (a ∷ b ∷ [])) (some (a, b))
        (resumed u (λ n. now) p me d now boundary a b) refl

  page-Later :
      (d d' : Db)
      → Later boundary d d'
      → page_of u p me boundary (some (a, b)) d' ≡ page_of u p me boundary (some (a, b)) d
  page-Later _ _ (sent d d' m later e) =
      rw (sym (inserted m d d' e)) (page_of-sent u p me boundary (some (a, b)) d m later)
  page-Later _ _ (marked d id t later) = page_of-marked u p me boundary (some (a, b)) d id t later

  -- A page that is read with a cursor is the same after any messages that are sent, and any that are
  -- read for the first time, later than the boundary of the cursor.
  pub next_page-frozen : (d d' : Db) → LaterSteps boundary d d' → next_page d' ≡ next_page d
  next_page-frozen _ _ (done d) = refl
  next_page-frozen _ _ (step d e f now_step rest) =
      next_page-frozen e f rest
      ∙ next_page-page_of e
      ∙ ap ok (page-Later d e now_step)
      ∙ sym (next_page-page_of d)
