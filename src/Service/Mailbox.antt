-- ===== src/Service/Mailbox.antt =====
-- A client that reads its mailbox with get_messages (synapse/service.py: _get_messages), page after
-- page, by the cursors that it is given.
use mathlib.Core.Option
use synapse_messenger.Validation.NamesLaws.{same_text_refl}
use synapse_messenger.Prelude.{
  ℕ, zero, suc, ◌*◌, ◌≤◌, ◌≡◌, refl, sym, ap, ◌∙◌, true, Option, none, some, List, [], ◌∷◌, ◌++◌,
  map, length, select, order_by, ==_iff, arith,
}
use synapse_messenger.Errors.{Result, ok, ◌>>=◌}
use synapse_messenger.Db.{Db, Message}
use synapse_messenger.Cursor.{
  Codec, Request, Filters, same_filters, same_option, pagination, next_cursor,
}
use synapse_messenger.Cursor.Roundtrip.{is_same, pagination-next_cursor}
use synapse_messenger.Store.Messages.{MessageView, row_to_message_as_of, is_newer}
use synapse_messenger.Store.Paging.{descending, cut, turn, walk, fetch}
use synapse_messenger.Store.Paging.Order.{Distinct, Distinct-select}
use synapse_messenger.Store.Paging.Walk.{walk_covers}
use synapse_messenger.Store.Queries.{message_key, message_page, in_message_page}
use synapse_messenger.Service.Reads.{
  GetMessages, MessagesPage, get_messages, get_messages_request, messages_page, pair_of,
}

same_filters_refl : (fs : Filters) → same_filters fs fs ≡ true
same_filters_refl [] = refl
same_filters_refl ((k, x) ∷ fs) = rw (same_text_refl k, same_option_refl x) (same_filters_refl fs)
  where
    same_option_refl : (x : Option ℕ) → same_option x x ≡ true
    same_option_refl none = refl
    same_option_refl (some a) = (==_iff a a).1 refl

is_same_refl : (r : Request) → is_same r r ≡ true
is_same_refl r =
    rw (same_text_refl r.command, (==_iff r.username r.username).1 refl, same_text_refl r.sort)
      (same_filters_refl r.filters)

map-append : {A B : Type 0} (f : A → B) (xs ys : List A) → map f (xs ++ ys) ≡ map f xs ++ map f ys
map-append f [] ys = refl
map-append f (x ∷ xs) ys = ap (λ zs. f x ∷ zs) (map-append f xs ys)

-- What the client does with a page: it has the messages, and behind them, where the page has a cursor,
-- what the rest of its reads gives.
abbrev pub after_page :
    (List ℕ → Result (Option (List MessageView)))
    → MessagesPage
    → Result (Option (List MessageView))
after_page go_on page = elim page.next_cursor [
  | none ↦ ok (some page.messages)
  | some next ↦ (go_on next >>= λ rest. ok (Option.map (λ xs. page.messages ++ xs) rest))
]

-- The client's loop, for `pages` requests at most: `none` where the answer to the last of them has a
-- cursor. At a request after which n more are left the clock reads `clock n` and the database is `ds n`.
unfoldable pub read_mailbox :
    Codec
    → (ℕ → ℕ)
    → GetMessages
    → ℕ
    → (ℕ → Db)
    → ℕ
    → Option (List ℕ)
    → Result (Option (List MessageView))
read_mailbox u clock p me ds zero cursor = ok none
read_mailbox u clock p me ds (suc pages) cursor =
    get_messages u (clock pages) (record p { cursor = cursor }) me (ds pages)
    >>= after_page (λ next. read_mailbox u clock p me ds pages (some next))

-- On a database that stays as it is
module _ (u : Codec) (clock : ℕ → ℕ) (p : GetMessages) (me : ℕ) (d : Db) where
  abbrev reads : ℕ → Option (List ℕ) → Result (Option (List MessageView))
  reads = read_mailbox u clock p me (λ n. d)

  abbrev pub view : ℕ → Message → MessageView
  view boundary m = row_to_message_as_of d m boundary

  -- The messages that the request is about, as of the boundary.
  abbrev pub mailbox : ℕ → List Message
  mailbox boundary =
      select (in_message_page me boundary p.status p.sender_username p.conversation_id) d.messages

  pub page_at :
      (now boundary : ℕ) (cursor last : Option (List ℕ)) (k : Option (ℕ × ℕ))
      → pagination u now (get_messages_request p me) cursor ≡ ok (last, boundary)
      → pair_of last ≡ ok k
      → get_messages u now (record p { cursor = cursor }) me d
        ≡ ok (
            messages_page u d (get_messages_request p me) boundary (
              cut descending message_key p.limit
                (fetch descending message_key (mailbox boundary) k p.limit)))
  unfolding get_messages message_page ◌>>=◌
  page_at now boundary cursor last k h e = rw (h, e) refl

  pub resumed :
      (now boundary a b : ℕ)
      → pagination u now
          (get_messages_request p me)
          (some (next_cursor u (get_messages_request p me) boundary (a ∷ b ∷ [])))
        ≡ ok (some (a ∷ b ∷ []), boundary)
  resumed now boundary a b =
      pagination-next_cursor u (get_messages_request p me) (get_messages_request p me) now boundary
        (a ∷ b ∷ [])
      ∙ rw (is_same_refl (get_messages_request p me)) refl

  step :
      (boundary pages : ℕ) (x : List Message × Option (ℕ × ℕ))
      → ((a b : ℕ)
          → reads pages (some (next_cursor u (get_messages_request p me) boundary (a ∷ b ∷ [])))
            ≡ ok (
                Option.map
                  (map (view boundary))
                  (walk descending message_key pages (mailbox boundary) p.limit (some (a, b)))))
      → after_page
          (λ next. reads pages (some next))
          (messages_page u d (get_messages_request p me) boundary x)
        ≡ ok (
            Option.map (map (view boundary)) (
              turn descending message_key x
                (λ k. walk descending message_key pages (mailbox boundary) p.limit (some k))))
  unfolding ◌>>=◌
  step boundary pages (rows, none) ih = refl
  step boundary pages (rows, some (a, b)) ih =
      rw (ih a b)
        (joined (walk descending message_key pages (mailbox boundary) p.limit (some (a, b))))
    where
      joined :
          (rest : Option (List Message))
          → Result.ok (
              Option.map
                (λ xs. map (view boundary) rows ++ xs)
                (Option.map (map (view boundary)) rest))
            ≡ ok (Option.map (map (view boundary)) (Option.map (λ xs. rows ++ xs) rest))
      joined none = refl
      joined (some xs) = ap (λ ys. ok (some ys)) (sym (map-append (view boundary) rows xs))

  -- One request, and the rest of the loop, where the rest is the rest of the walk.
  request :
      (boundary pages : ℕ) (cursor last : Option (List ℕ)) (k : Option (ℕ × ℕ))
      → pagination u (clock pages) (get_messages_request p me) cursor ≡ ok (last, boundary)
      → pair_of last ≡ ok k
      → ((a b : ℕ)
          → reads pages (some (next_cursor u (get_messages_request p me) boundary (a ∷ b ∷ [])))
            ≡ ok (
                Option.map
                  (map (view boundary))
                  (walk descending message_key pages (mailbox boundary) p.limit (some (a, b)))))
      → reads (suc pages) cursor
        ≡ ok (
            Option.map
              (map (view boundary))
              (walk descending message_key (suc pages) (mailbox boundary) p.limit k))
  unfolding read_mailbox walk ◌>>=◌ fetch
  request boundary pages cursor last k h e ih =
      rw (page_at (clock pages) boundary cursor last k h e) (
        step boundary pages
          (cut descending message_key p.limit
            (fetch descending message_key (mailbox boundary) k p.limit))
          ih)

  -- The loop is the walk of the pages, from any position.
  follows :
      (boundary pages a b : ℕ)
      → reads pages (some (next_cursor u (get_messages_request p me) boundary (a ∷ b ∷ [])))
        ≡ ok (
            Option.map
              (map (view boundary))
              (walk descending message_key pages (mailbox boundary) p.limit (some (a, b))))
  unfolding read_mailbox walk
  follows boundary zero a b = refl
  follows boundary (suc pages) a b =
      request boundary pages _ (some (a ∷ b ∷ [])) (some (a, b))
        (resumed (clock pages) boundary a b) refl (follows boundary pages)

  -- The client gets every message that is selected as of its first request, each once and in order.
  pub read_mailbox_still :
      (n : ℕ)
      → 1 ≤ p.limit
      → Distinct descending message_key d.messages
      → length (mailbox (clock n)) ≤ suc n * p.limit
      → reads (suc n) none
        ≡ ok (some (map (view (clock n)) (order_by is_newer (mailbox (clock n)))))
  unfolding descending pagination
  read_mailbox_still n pos distinct enough =
      request (clock n) n none none none refl refl (follows (clock n) n)
      ∙ ap (λ rows. ok (Option.map (map (view (clock n))) rows))
          (walk_covers descending message_key (mailbox (clock n))
            (Distinct-select descending message_key _ d.messages distinct) (suc n) p.limit pos
            (omega arith) enough)
