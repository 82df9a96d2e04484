-- ===== src/Service/Snapshot.antt =====
-- A client that reads its mailbox with get_messages (synapse/service.py: _get_messages), page after
-- page, while messages are sent and read.
use synapse_messenger.Prelude.{
  ℕ, zero, suc, ◌*◌, ◌≤◌, ◌<◌, ◌≡◌, refl, sym, ap, ◌∙◌, Option, none, some, List, [], ◌∷◌, map,
  length, order_by, arith,
}
use synapse_messenger.Errors.{Result, ok, ◌>>=◌}
use synapse_messenger.Db.{Db, Message}
use synapse_messenger.Cursor.{Codec, next_cursor, pagination}
use synapse_messenger.Store.Messages.{MessageView, is_newer, row_to_message_as_of}
use synapse_messenger.Store.Paging.{descending}
use synapse_messenger.Store.Paging.Order.{Distinct}
use synapse_messenger.Store.Queries.{message_key}
use synapse_messenger.Service.Reads.{GetMessages, get_messages_request, messages_page}
use synapse_messenger.Service.Mailbox.{
  after_page, read_mailbox, mailbox, page_at, read_mailbox_still,
}
use synapse_messenger.Service.Frozen.{LaterSteps, next_page-frozen, next_page-page_of}

module _ (u : Codec) (clock : ℕ → ℕ) (p : GetMessages) (me : ℕ) (ds : ℕ → Db) (d : Db)
    (boundary : ℕ) where
  -- The rest of the reads, on the databases and on the one of the first request
  abbrev moving : ℕ → List ℕ → Result (Option (List MessageView))
  moving pages next = read_mailbox u clock p me ds pages (some next)

  abbrev still : ℕ → List ℕ → Result (Option (List MessageView))
  still pages next = read_mailbox u clock p me (λ n. d) pages (some next)

  abbrev cursor : ℕ → ℕ → List ℕ
  cursor a b = next_cursor u (get_messages_request p me) boundary (a ∷ b ∷ [])

  -- After the same page both go on alike, where they do with every cursor of the page's boundary.
  after_page-alike :
      (pages : ℕ) (x : List Message × Option (ℕ × ℕ))
      → ((a b : ℕ) → moving pages (cursor a b) ≡ still pages (cursor a b))
      → after_page (moving pages) (messages_page u d (get_messages_request p me) boundary x)
        ≡ after_page (still pages) (messages_page u d (get_messages_request p me) boundary x)
  after_page-alike pages (rows, none) ih = refl
  after_page-alike pages (rows, some (a, b)) ih = rw (ih a b) refl

  moving-still :
      (pages : ℕ)
      → ((k : ℕ) → k < pages → LaterSteps boundary d (ds k))
      → (a b : ℕ) → moving pages (cursor a b) ≡ still pages (cursor a b)
  unfolding read_mailbox ◌>>=◌
  moving-still zero later a b = refl
  moving-still (suc pages) later a b =
      ap (λ r. r >>= after_page (moving pages))
        (next_page-frozen u (clock pages) p me boundary a b d (ds pages) (later pages (omega arith))
          ∙ next_page-page_of u (clock pages) p me boundary a b d)
      ∙ after_page-alike pages _ (moving-still pages λ k h. later k (omega (arith, h)))
      ∙ sym (
          ap (λ r. r >>= after_page (still pages))
            (next_page-page_of u (clock pages) p me boundary a b d))

-- A client starts without a cursor and follows the cursors, with a limit other than 0; between its
-- requests any messages are sent, and any are read for the first time, later than its first request.
-- Where no two messages that stand at the first request have the same time and identifier, it comes to
-- an answer without a cursor, and has then got every message that the filters select as of its first
-- request, each once, the newest first and with the read status of that time, whatever the times of
-- the later requests. No more requests are needed than these messages fill, and one where there are none.
pub read_mailbox_complete :
    (u : Codec) (clock : ℕ → ℕ) (p : GetMessages) (me : ℕ) (ds : ℕ → Db) (n : ℕ)
    → 1 ≤ p.limit
    → Distinct descending message_key (ds n).messages
    → length (mailbox u clock p me (ds n) (clock n)) ≤ suc n * p.limit
    → ((k : ℕ) → k < n → LaterSteps (clock n) (ds n) (ds k))
    → read_mailbox u clock p me ds (suc n) none
      ≡ ok (
          some (
            map
              (λ m. row_to_message_as_of (ds n) m (clock n))
              (order_by is_newer (mailbox u clock p me (ds n) (clock n)))))
unfolding read_mailbox pagination ◌>>=◌
read_mailbox_complete u clock p me ds n pos distinct enough later =
    let first = page_at u clock p me (ds n) (clock n) (clock n) none none none refl refl in
    ap (λ r. r >>= after_page (λ next. read_mailbox u clock p me ds n (some next))) first
    ∙ after_page-alike u clock p me ds (ds n) (clock n) n _
        (moving-still u clock p me ds (ds n) (clock n) n later)
    ∙ sym (
        ap (λ r. r >>= after_page (λ next. read_mailbox u clock p me (λ k. ds n) n (some next)))
          first)
    ∙ read_mailbox_still u clock p me (ds n) n pos distinct enough
