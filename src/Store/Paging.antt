-- ===== src/Store/Paging.antt =====
-- Keyset pagination (synapse/store/queries.py and the paginated handlers of synapse/service.py):
-- WHERE the key is past the last one, ORDER BY the key, LIMIT limit + 1, and the cut of the handler.
pub mod Order
pub mod Update
pub mod First
pub mod Walk
use mathlib.Core.Option
use synapse_messenger.Prelude.{
  ℕ, suc, zero, ◌≡◌, Bool, true, false, ◌&&◌, ◌||◌, Option, none, some, List, [], ◌∷◌, ◌++◌, length,
  take, select, order_by, ltb, ◌==◌, if◌then◌else◌, ◌⊎◌, arith,
}

-- A sort key with its strict order, as the ORDER BY and the WHERE clause of a page compare it.
pub record SortKey (K : Type 0) : Type 0 where
  pub before : K → K → Bool
  pub asym : (a b : K) → before a b ≡ true → before b a ≡ false
  pub trans : (a b c : K) → before a b ≡ true → before b c ≡ true → before a c ≡ true

-- (created_at, id) ascending
abbrev pub pair_before : ℕ × ℕ → ℕ × ℕ → Bool
pair_before (a, i) (b, j) = ltb a b || a == b && ltb i j

pub pair_asym : (a b : ℕ × ℕ) → pair_before a b ≡ true → pair_before b a ≡ false
pair_asym (a, i) (b, j) h = ground arith

pub pair_trans :
    (a b c : ℕ × ℕ) → pair_before a b ≡ true → pair_before b c ≡ true → pair_before a c ≡ true
pair_trans (a, i) (b, j) (c, k) h k' = ground arith

pub ltb_asym : (a b : ℕ) → ltb a b ≡ true → ltb b a ≡ false
ltb_asym a b h = ground arith

pub ltb_trans : (a b c : ℕ) → ltb a b ≡ true → ltb b c ≡ true → ltb a c ≡ true
ltb_trans a b c h k = ground arith

unfoldable pub ascending : SortKey (ℕ × ℕ)
ascending = record { before = pair_before; asym = pair_asym; trans = pair_trans }

-- (created_at, id) descending
unfoldable pub descending : SortKey (ℕ × ℕ)
descending = record {
  before = λ a b. pair_before b a;
  asym = λ a b h. pair_asym b a h;
  trans = λ a b c h k. pair_trans c b a k h;
}

-- a single number ascending: seq, id, or a username
unfoldable pub by_number : SortKey ℕ
by_number = record { before = ltb; asym = ltb_asym; trans = ltb_trans }

module _ {A K : Type 0} (o : SortKey K) (key : A → K) where
  abbrev pub lt : A → A → Bool
  lt a b = o.before (key a) (key b)

  -- The row is past the position of the cursor.
  abbrev pub is_past : Option K → A → Bool
  is_past none r = true
  is_past (some k) r = o.before k (key r)

  -- The rows of a page and one more, of the rows that the other conditions leave.
  unfoldable pub fetch : List A → Option K → ℕ → List A
  fetch rows last limit = take (suc limit) (order_by lt (select (is_past last) rows))

  -- The position of the last row, rows[-1]
  abbrev pub last_key : List A → Option K
  last_key [] = none
  last_key (x ∷ []) = some (key x)
  last_key (x ∷ y ∷ rows) = last_key (y ∷ rows)

  -- rows[:limit], and the position for the next cursor where there are more
  abbrev pub cut : ℕ → List A → List A × Option K
  cut limit rows =
      (take limit rows, if ltb limit (length rows) then last_key (take limit rows) else none)

  -- What a client has after a page: the page, and behind it what the rest of its reads gives.
  abbrev pub turn : List A × Option K → (K → Option (List A)) → Option (List A)
  turn (out, none) go_on = some out
  turn (out, some k) go_on = Option.map (λ rest. out ++ rest) (go_on k)

  -- A client that follows the cursors to the page without one, for as many pages as `pages` at most;
  -- `none` where there is a next page after that many.
  unfoldable pub walk : ℕ → List A → ℕ → Option K → Option (List A)
  walk zero rows limit last = none
  walk (suc pages) rows limit last =
      turn (cut limit (fetch rows last limit)) (λ k. walk pages rows limit (some k))
