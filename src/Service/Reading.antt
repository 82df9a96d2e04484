-- ===== src/Service/Reading.antt =====
-- The first read of a message (synapse/service.py: _read_message).
use synapse_messenger.Prelude.{
  ℕ, List, [], ◌∷◌, ◌≡◌, refl, ◌∙◌, Option, none, some, Bool, true, false, not, ◌&&◌, is_some, find,
  update, arith, ◌==◌, ==_iff, if◌then◌else◌, Bool-cases, inl, inr,
}
use synapse_messenger.Errors.{ok, ◌>>=◌, or_raise}
use synapse_messenger.Db.{Db, Message}
use synapse_messenger.Store.Messages
use synapse_messenger.Store.Messages.{MessageView, row_to_message, mark}
use synapse_messenger.Service.Common.{Env}
use synapse_messenger.Service.Messages.{readable, mark_and_get, read_message}

abbrev marked : ℕ → Option Message → Option Message
marked at none = none
marked at (some m) = some (mark at m)

find-mark :
    (id at : ℕ) (ms : List Message)
    → find (λ m. m.message_id == id) (update (λ m. m.message_id == id) (mark at) ms)
      ≡ marked at (find (λ m. m.message_id == id) ms)
find-mark id at [] = refl
find-mark id at (m ∷ ms) = ground (arith, find-mark id at ms)

get-mark_read :
    (id at : ℕ) (d : Db)
    → Messages.get_message_by_id (Messages.mark_read_conditional id at d) id
      ≡ marked at (Messages.get_message_by_id d id)
unfolding Messages.get_message_by_id Messages.mark_read_conditional
get-mark_read id at d = find-mark id at d.messages

if_false : {A : Type 0} (b : Bool) (x y : A) → b ≡ false → (if b then x else y) ≡ y
if_false b x y e = rw e refl

if_true : {A : Type 0} (b : Bool) (x y : A) → b ≡ true → (if b then x else y) ≡ x
if_true b x y e = rw e refl

readable_recipient :
    (me : ℕ) (m : Message) → m.recipient_username ≡ me → readable me (some m) ≡ ok m
readable_recipient me m to = ground (arith, to)

addressed : (me : ℕ) (m : Message) → m.recipient_username ≡ me → (m.recipient_username == me) ≡ true
addressed me m to = (==_iff _ _).1 to

module _ (env : Env) (id me : ℕ) (m : Message) where
  -- A read that finds the row marked answers with it.
  read_marked :
      (seen d : Db)
      → Messages.get_message_by_id seen id ≡ some m
      → m.recipient_username ≡ me
      → is_some m.read_at ≡ true
      → read_message env id me seen d ≡ ok (row_to_message seen m, d)
  unfolding read_message or_raise ◌>>=◌
  read_marked seen d g to at =
      rw (g, readable_recipient me m to)
        (if_false (m.recipient_username == me && not (is_some m.read_at)) _ _
          (rw (addressed me m to, at) refl))

  read_unmarked :
      (seen d : Db)
      → Messages.get_message_by_id seen id ≡ some m
      → m.recipient_username ≡ me
      → is_some m.read_at ≡ false
      → read_message env id me seen d ≡ mark_and_get env id d
  unfolding read_message or_raise ◌>>=◌
  read_unmarked seen d g to at =
      rw (g, readable_recipient me m to)
        (if_true (m.recipient_username == me && not (is_some m.read_at)) _ _
          (rw (addressed me m to, at) refl))

  keep_mark :
      (d : Db)
      → Messages.get_message_by_id d id ≡ some m
      → is_some m.read_at ≡ true
      → mark_and_get env id d ≡ ok (row_to_message d m, d)
  unfolding mark_and_get or_raise ◌>>=◌
  keep_mark d g at = rw g (if_true _ _ _ at)

  set_mark :
      (d : Db)
      → Messages.get_message_by_id d id ≡ some m
      → is_some m.read_at ≡ false
      → mark_and_get env id d ≡ (
          let d' = Messages.mark_read_conditional id env.now d in
          ok (row_to_message d' (mark env.now m), d'))
  unfolding mark_and_get or_raise ◌>>=◌
  set_mark d g at = rw g (if_false _ _ _ at ∙ rw (get-mark_read id env.now d, g) refl)

mark_marks : (at : ℕ) (m : Message) → is_some (mark at m).read_at ≡ true
mark_marks at m = ground arith

mark_keeps_ends : (at : ℕ) (m : Message) → (mark at m).recipient_username ≡ m.recipient_username
mark_keeps_ends at m = ground arith

-- What two reads of one message by its recipient agree on.
abbrev pub ReadOnce : Env → Env → ℕ → ℕ → Db → Type 0
ReadOnce env env' id me d =
    (a : MessageView × Db) × (read_message env id me d d ≡ ok a)
    × (a.0.is_read ≡ true)
    × (read_message env' id me d a.1 ≡ ok a)
    × (read_message env' id me a.1 a.1 ≡ ok a)

-- The recipient's read of a message succeeds and marks it. A second read by the recipient returns the
-- same answer, with the date of the first, and changes nothing, where it begins on the database that the
-- first one left, and also where it began on the database that the first one began on and takes the lock
-- right after it.
pub read_once :
    (env env' : Env) (id me : ℕ) (d : Db) (m : Message)
    → Messages.get_message_by_id d id ≡ some m
    → m.recipient_username ≡ me
    → ReadOnce env env' id me d
unfolding row_to_message
read_once env env' id me d m g to = elim (Bool-cases (is_some m.read_at)) [
  | inl at ↦ (
    (row_to_message d m, d),
    read_marked env id me m d d g to at,
    at,
    read_marked env' id me m d d g to at,
    read_marked env' id me m d d g to at,
  )
  | inr at ↦
      let d' = Messages.mark_read_conditional id env.now d in
      let m' = mark env.now m in
      let g' = get-mark_read id env.now d ∙ rw g refl in
      let at' = mark_marks env.now m in
      (
        (row_to_message d' m', d'),
        read_unmarked env id me m d d g to at ∙ set_mark env id me m d g at,
        at',
        read_unmarked env' id me m d d' g to at ∙ keep_mark env' id me m' d' g' at',
        read_marked env' id me m' d' d' g' (mark_keeps_ends env.now m ∙ to) at',
      )
]
