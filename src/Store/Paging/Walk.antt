-- ===== src/Store/Paging/Walk.antt =====
-- Following the cursors of a paginated list yields each row once, in order.
use mathlib.Core.Option
use synapse_messenger.Prelude.{
  ◌*◌, ℕ, zero, suc, ◌+◌, ◌≤◌, ◌<◌, ◌≡◌, refl, sym, ap, ◌∙◌, Bool, true, false, Option, none, some,
  List, [], ◌∷◌, ◌++◌, length, take, select, insert_by, order_by, ltb, if◌then◌else◌, arith,
}
use mathlib.Core.Path.{subst}
use mathlib.Core.List.{append_assoc}
use synapse_messenger.Store.Paging.{SortKey, lt, is_past, fetch, last_key, cut, turn, walk}
use synapse_messenger.Store.Paging.Order.{
  Distinct, Sorted, order_by-Sorted, select-order_by, select-past,
}

module _ {A : Type 0} where
  abbrev drop : ℕ → List A → List A
  drop zero xs = xs
  drop (suc n) [] = []
  drop (suc n) (x ∷ xs) = drop n xs

  take-drop : (n : ℕ) (xs : List A) → xs ≡ take n xs ++ drop n xs
  take-drop zero xs = refl
  take-drop (suc n) [] = refl
  take-drop (suc n) (x ∷ xs) = ap (λ ys. x ∷ ys) (take-drop n xs)

  take_all : (n : ℕ) (xs : List A) → length xs ≤ n → take n xs ≡ xs
  take_all zero [] h = refl
  take_all (suc n) [] h = refl
  take_all (suc n) (x ∷ xs) h = ap (λ ys. x ∷ ys) (take_all n xs (omega (arith, h)))
  take_all zero (x ∷ xs) h = absurd (omega (arith, h))

  take-take : (n : ℕ) (xs : List A) → take n (take (suc n) xs) ≡ take n xs
  take-take zero xs = refl
  take-take (suc n) [] = refl
  take-take (suc n) (x ∷ xs) = ap (λ ys. x ∷ ys) (take-take n xs)

  length-take : (n : ℕ) (xs : List A) → n ≤ length xs → length (take n xs) ≡ n
  length-take zero xs h = refl
  length-take (suc n) [] h = omega (arith, h)
  length-take (suc n) (x ∷ xs) h = ap suc (length-take n xs (omega (arith, h)))

  length-drop : (n : ℕ) (xs : List A) → length (drop n xs) ≤ length xs
  length-drop zero xs = omega arith
  length-drop (suc n) [] = omega arith
  length-drop (suc n) (x ∷ xs) = omega (arith, length-drop n xs)

  select-true : (xs : List A) → select (λ r. true) xs ≡ xs
  select-true [] = refl
  select-true (x ∷ xs) = ap (λ ys. x ∷ ys) (select-true xs)

  -- One row more than the limit tells whether there are more.
  more_left : (n : ℕ) (xs : List A) → ltb n (length (take (suc n) xs)) ≡ ltb n (length xs)
  more_left zero [] = refl
  more_left zero (x ∷ xs) = ground arith
  more_left (suc n) [] = refl
  more_left (suc n) (x ∷ xs) = ground (arith, more_left n xs)

module _ {A K : Type 0} (o : SortKey K) (key : A → K) where
  -- The last key of a list that is not empty is the key of its last element.
  last_key-split :
      (x : A) (xs : List A)
      → (pre : List A) × (y : A) × (x ∷ xs ≡ pre ++ y ∷ [])
        × (last_key o key (x ∷ xs) ≡ some (key y))
  last_key-split x [] = ([], x, refl, refl)
  last_key-split x (z ∷ xs) =
      let (pre, y, e, k) = last_key-split z xs in (x ∷ pre, y, ap (λ ys. x ∷ ys) e, k)

  last_key-some : (xs : List A) → 1 ≤ length xs → (k : K) × (last_key o key xs ≡ some k)
  last_key-some [] h = absurd (omega (arith, h))
  last_key-some (x ∷ xs) h = let (pre, y, e, k) = last_key-split x xs in (key y, k)

  last_key-append :
      (pre xs : List A) {k : K} → last_key o key xs ≡ some k → last_key o key (pre ++ xs) ≡ some k
  last_key-append [] xs h = h
  last_key-append (x ∷ []) [] h = cc
  last_key-append (x ∷ []) (y ∷ ys) h = h
  last_key-append (x ∷ y ∷ pre) xs h = last_key-append (y ∷ pre) xs h

  length-insert : (x : A) (xs : List A) → length (insert_by (lt o key) x xs) ≡ suc (length xs)
  length-insert x [] = refl
  length-insert x (y ∷ ys) = ground (arith, length-insert x ys)

  length-order_by : (xs : List A) → length (order_by (lt o key) xs) ≡ length xs
  length-order_by [] = refl
  length-order_by (x ∷ xs) = length-insert x (order_by (lt o key) xs) ∙ ap suc (length-order_by xs)

  -- The cut of the rows that were fetched, of what is left.
  cut-rest :
      (limit : ℕ) (rest : List A)
      → cut o key limit (take (suc limit) rest) ≡ (
        take limit rest,
        if ltb limit (length rest) then last_key o key (take limit rest) else none,
      )
  cut-rest limit rest = rw (take-take limit rest, more_left limit rest) refl

  module _ (rows : List A) (distinct : Distinct o key rows) where
    -- What stands past the rows that were given out is the rest.
    past_rest :
        (pre rest : List A)
        → order_by (lt o key) rows ≡ pre ++ rest
        → order_by (lt o key) (select (is_past o key (last_key o key pre)) rows) ≡ rest
    past_rest [] rest e = ap (order_by (lt o key)) (select-true rows) ∙ e
    past_rest (x ∷ xs) rest e =
        let (pre, y, split, k) = last_key-split x xs in
        let eq = e ∙ ap (λ ys. ys ++ rest) split ∙ append_assoc pre (y ∷ []) rest in
        ap (λ m. order_by (lt o key) (select (is_past o key m) rows)) k
        ∙ sym (select-order_by o key (is_past o key (some (key y))) rows distinct)
        ∙ ap (select (is_past o key (some (key y)))) eq
        ∙ select-past o key pre y rest
            (subst (Sorted o key) eq (order_by-Sorted o key rows distinct))

    -- One page, and the walk on from it, where the walk on gives the rest.
    step :
        (pages limit : ℕ) (pre rest : List A)
        → 1 ≤ limit
        → order_by (lt o key) rows ≡ pre ++ rest
        → (limit < length rest
            → walk o key pages rows limit (last_key o key (pre ++ take limit rest))
              ≡ some (drop limit rest))
        → walk o key (suc pages) rows limit (last_key o key pre) ≡ some rest
    unfolding walk fetch
    step pages limit pre rest pos e ih =
        ap (λ xs. turn o key (cut o key limit (take (suc limit) xs)) go) (past_rest pre rest e)
        ∙ ap (λ x. turn o key x go) (cut-rest limit rest)
        ∙ at (ltb limit (length rest)) refl (last_key o key (take limit rest)) refl
      where
        go : K → Option (List A)
        go k = walk o key pages rows limit (some k)

        out_length : ltb limit (length rest) ≡ true → length (take limit rest) ≡ limit
        out_length e = length-take limit rest (ground (arith, e))

        at :
            (b : Bool)
            → ltb limit (length rest) ≡ b
            → (m : Option K) → last_key o key (take limit rest) ≡ m
            → turn o key (take limit rest, if b then m else none) go ≡ some rest
        at false e m q = ap some (take_all limit rest (ground (arith, e)))
        at true e none q =
            let (k, some_k) = last_key-some (take limit rest) (omega (arith, pos, out_length e)) in
            cc
        at true e (some k) q =
            ap (Option.map (λ ys. take limit rest ++ ys)) (
              ap (walk o key pages rows limit) (sym (last_key-append pre (take limit rest) q))
              ∙ ih (ground (arith, e)))
            ∙ ap some (sym (take-drop limit rest))

    length-drop_more : (n : ℕ) (xs : List A) → n < length xs → n + length (drop n xs) ≡ length xs
    length-drop_more zero xs h = omega arith
    length-drop_more (suc n) [] h = omega (arith, h)
    length-drop_more (suc n) (x ∷ xs) h = omega (arith, length-drop_more n xs (omega (arith, h)))

    -- What is left after a full page needs one page less.
    fuel_left :
        (pages limit m n : ℕ)
        → m ≤ suc pages * limit
        → limit < m
        → limit + n ≡ m
        → (1 ≤ pages) × (n ≤ pages * limit)
    fuel_left zero limit m n h k e = absurd (omega (arith, h, k))
    fuel_left (suc pages) limit m n h k e = (omega arith, omega (arith, h, k, e))

    -- Following the cursors from any position gives out what stands past it.
    pub walk_rest :
        (pages limit : ℕ) (pre rest : List A)
        → 1 ≤ limit
        → order_by (lt o key) rows ≡ pre ++ rest
        → 1 ≤ pages
        → length rest ≤ pages * limit
        → walk o key pages rows limit (last_key o key pre) ≡ some rest
    walk_rest zero limit pre rest pos e some_page fuel = absurd (omega (arith, some_page))
    walk_rest (suc pages) limit pre rest pos e some_page fuel =
        step pages limit pre rest pos e λ more.
          let (p, f) =
            fuel_left pages limit (length rest) (length (drop limit rest)) fuel more
              (length-drop_more limit rest more) in
          walk_rest pages limit (pre ++ take limit rest) (drop limit rest) pos
            (e
              ∙ ap (λ ys. pre ++ ys) (take-drop limit rest)
              ∙ sym (append_assoc pre (take limit rest) (drop limit rest)))
            p f

    -- Of rows with distinct keys, a client that follows the cursors from the first page reaches a page
    -- without a cursor, and has then got every row once, in the order of the sort, for every limit but
    -- 0: a page is full but for the last, so that no more pages are needed than the rows fill, and one
    -- where there are no rows.
    pub walk_covers :
        (pages limit : ℕ)
        → 1 ≤ limit
        → 1 ≤ pages
        → length rows ≤ pages * limit
        → walk o key pages rows limit none ≡ some (order_by (lt o key) rows)
    walk_covers pages limit pos some_page fuel =
        walk_rest pages limit [] (order_by (lt o key) rows) pos refl some_page
          (omega (arith, length-order_by rows, fuel))
