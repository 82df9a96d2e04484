-- ===== src/Store/Paging/Order.antt =====
-- ORDER BY yields a strictly sorted list where no two rows tie, and commutes with WHERE.
use synapse_messenger.Prelude.{
  ◌≡◌, refl, sym, ◌∙◌, Bool, true, false, List, [], ◌∷◌, ◌++◌, All, All-map, select, insert_by,
  order_by, ◌⊎◌, inl, inr, Bool-cases, if◌then◌else◌,
}
use synapse_messenger.Store.Paging.{SortKey, lt}

module _ {A K : Type 0} (o : SortKey K) (key : A → K) where
  abbrev pub Apart : A → A → Type 0
  Apart a b = (lt o key a b ≡ true) ⊎ (lt o key b a ≡ true)

  -- No two rows have the same key.
  abbrev pub Distinct : List A → Type 0
  Distinct [] = Unit
  Distinct (x ∷ xs) = All (Apart x) xs × Distinct xs

  abbrev pub Sorted : List A → Type 0
  Sorted [] = Unit
  Sorted (x ∷ xs) = All (λ y. lt o key x y ≡ true) xs × Sorted xs

  All-insert :
      (P : A → Type 0) (x : A) (ys : List A) → P x → All P ys → All P (insert_by (lt o key) x ys)
  All-insert P x [] p h = (p, tt)
  All-insert P x (y ∷ ys) p (q, h) = elim (Bool-cases (lt o key y x)) [
    | inl e ↦ rw e (q, All-insert P x ys p h)
    | inr e ↦ rw e (p, (q, h))
  ]

  All-order_by : (P : A → Type 0) (xs : List A) → All P xs → All P (order_by (lt o key) xs)
  All-order_by P [] h = tt
  All-order_by P (x ∷ xs) (p, h) = All-insert P x (order_by (lt o key) xs) p (All-order_by P xs h)

  -- x stands before y, and so before all that y stands before.
  below :
      (x y : A) (ys : List A)
      → lt o key y x ≡ false
      → Apart x y
      → All (λ z. lt o key y z ≡ true) ys
      → All (λ z. lt o key x z ≡ true) (y ∷ ys)
  below x y ys e (inl first) h =
      (first, All-map ys (λ z q. o.trans (key x) (key y) (key z) first q) h)
  below x y ys e (inr second) h = cc

  insert-Sorted :
      (x : A) (ys : List A) → All (Apart x) ys → Sorted ys → Sorted (insert_by (lt o key) x ys)
  insert-Sorted x [] a s = (tt, tt)
  insert-Sorted x (y ∷ ys) (p, a) (h, s) = elim (Bool-cases (lt o key y x)) [
    | inl e ↦ rw e (All-insert (λ z. lt o key y z ≡ true) x ys e h, insert-Sorted x ys a s)
    | inr e ↦ rw e (below x y ys e p h, (h, s))
  ]

  pub order_by-Sorted : (xs : List A) → Distinct xs → Sorted (order_by (lt o key) xs)
  order_by-Sorted [] d = tt
  order_by-Sorted (x ∷ xs) (a, d) =
      insert-Sorted x (order_by (lt o key) xs) (All-order_by (Apart x) xs a) (order_by-Sorted xs d)

  -- Inserting in front of a sorted list whose elements all stand after x.
  insert_first :
      (x : A) (ys : List A) → All (λ z. lt o key x z ≡ true) ys → insert_by (lt o key) x ys ≡ x ∷ ys
  insert_first x [] h = refl
  insert_first x (y ∷ ys) (p, h) = rw (o.asym (key x) (key y) p) refl

  pub All-select : (P : A → Type 0) (p : A → Bool) (xs : List A) → All P xs → All P (select p xs)
  All-select P p [] h = tt
  All-select P p (x ∷ xs) (q, h) = elim (Bool-cases (p x)) [
    | inl e ↦ rw e (q, All-select P p xs h)
    | inr e ↦ rw e (All-select P p xs h)
  ]

  pub Distinct-select : (p : A → Bool) (xs : List A) → Distinct xs → Distinct (select p xs)
  Distinct-select p [] d = tt
  Distinct-select p (x ∷ xs) (a, d) = elim (Bool-cases (p x)) [
    | inl e ↦ rw e (All-select (Apart x) p xs a, Distinct-select p xs d)
    | inr e ↦ rw e (Distinct-select p xs d)
  ]

  -- WHERE commutes with the insertion of one row.
  select-insert :
      (p : A → Bool) (x : A) (ys : List A)
      → All (Apart x) ys
      → Sorted ys
      → select p (insert_by (lt o key) x ys)
        ≡ (if p x then insert_by (lt o key) x (select p ys) else select p ys)
  select-insert p x [] a s = refl
  select-insert p x (y ∷ ys) (q, a) (h, s) =
      at (select-insert p x ys a s) (lt o key y x) (p x) (p y) refl refl refl
    where
      at :
          (select p (insert_by (lt o key) x ys)
            ≡ (if p x then insert_by (lt o key) x (select p ys) else select p ys))
          → (b px py : Bool) → lt o key y x ≡ b
          → p x ≡ px
          → p y ≡ py
          → select p (insert_by (lt o key) x (y ∷ ys))
            ≡ (if p x then insert_by (lt o key) x (select p (y ∷ ys)) else select p (y ∷ ys))
      at ih true true true e ex ey = rw (e, ex, ey, ih, ex, e) refl
      at ih true true false e ex ey = rw (e, ex, ey, ih, ex) refl
      at ih true false true e ex ey = rw (e, ex, ey, ih, ex) refl
      at ih true false false e ex ey = rw (e, ex, ey, ih, ex) refl
      at ih false true py e ex ey =
          rw (e, ex)
            (sym (
              insert_first x (select p (y ∷ ys))
                (All-select (λ z. lt o key x z ≡ true) p (y ∷ ys) (below x y ys e q h))))
      at ih false false py e ex ey = rw (e, ex) refl

  pub select-order_by :
      (p : A → Bool) (xs : List A)
      → Distinct xs
      → select p (order_by (lt o key) xs) ≡ order_by (lt o key) (select p xs)
  select-order_by p [] d = refl
  select-order_by p (x ∷ xs) (a, d) =
      select-insert p x (order_by (lt o key) xs) (All-order_by (Apart x) xs a)
        (order_by-Sorted xs d)
      ∙ at (select-order_by p xs d) (p x) refl
    where
      at :
          (select p (order_by (lt o key) xs) ≡ order_by (lt o key) (select p xs))
          → (b : Bool) → p x ≡ b
          → (if p x
              then insert_by (lt o key) x (select p (order_by (lt o key) xs))
              else select p (order_by (lt o key) xs))
            ≡ order_by (lt o key) (select p (x ∷ xs))
      at ih true e = rw (e, ih) refl
      at ih false e = rw (e, ih) refl

  select_none : (p : A → Bool) (xs : List A) → All (λ z. p z ≡ false) xs → select p xs ≡ []
  select_none p [] h = refl
  select_none p (x ∷ xs) (e, h) = rw e (select_none p xs h)

  select_every : (p : A → Bool) (xs : List A) → All (λ z. p z ≡ true) xs → select p xs ≡ xs
  select_every p [] h = refl
  select_every p (x ∷ xs) (e, h) = rw (e, select_every p xs h) refl

  -- Of a sorted list, what stands past the key of an element is what follows it.
  pub select-past :
      (pre : List A) (x : A) (post : List A)
      → Sorted (pre ++ x ∷ post)
      → select (λ r. lt o key x r) (pre ++ x ∷ post) ≡ post
  select-past [] x post (h, s) =
      rw (self (lt o key x x) refl) (select_every (λ r. lt o key x r) post h)
    where
      self : (b : Bool) → lt o key x x ≡ b → lt o key x x ≡ false
      self true e = o.asym (key x) (key x) e
      self false e = e
  select-past (z ∷ pre) x post (h, s) =
      rw (o.asym (key z) (key x) (found pre h)) (select-past pre x post s)
    where
      found : (ys : List A) → All (λ y. lt o key z y ≡ true) (ys ++ x ∷ post) → lt o key z x ≡ true
      found [] (q, h) = q
      found (y ∷ ys) (q, h) = found ys h
