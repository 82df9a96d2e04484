-- ===== src/Store/Paging/First.antt =====
-- The first row of an ORDER BY, as a condition on rows: no other row stands before it.
use synapse_messenger.Prelude.{
  ◌≡◌, refl, sym, ◌∙◌, Bool, true, false, not, ◌&&◌, Option, none, some, List, [], ◌∷◌, All,
  All-map, any, select, insert_by, order_by, first, inl, inr, Bool-cases, if◌then◌else◌, arith,
}
use synapse_messenger.Store.Paging.{SortKey, lt}
use synapse_messenger.Store.Paging.Order.{Distinct, Sorted, order_by-Sorted}

module _ {A : Type 0} where
  pub any-All : (p q : A → Bool) (xs : List A) → All (λ x. p x ≡ q x) xs → any p xs ≡ any q xs
  any-All p q [] h = refl
  any-All p q (x ∷ xs) (e, h) = rw (e, any-All p q xs h) refl

  pub any-select : (p r : A → Bool) (xs : List A) → any p (select r xs) ≡ any (λ x. r x && p x) xs
  any-select p r [] = refl
  any-select p r (x ∷ xs) = elim (Bool-cases (r x)) [
    | inl e ↦ rw (e, any-select p r xs) refl
    | inr e ↦ rw (e, any-select p r xs) refl
  ]

  any-insert_by :
      (before : A → A → Bool) (p : A → Bool) (x : A) (xs : List A)
      → any p (insert_by before x xs) ≡ (if p x then true else any p xs)
  any-insert_by before p x [] = refl
  any-insert_by before p x (y ∷ ys) = elim (Bool-cases (before y x)) [
    | inl e ↦ rw (e, any-insert_by before p x ys) (swap (p y) (p x) (any p ys))
    | inr e ↦ rw e refl
  ]
    where
      swap :
          (a b c : Bool)
          → (if a then true else if b then true else c)
            ≡ (if b then true else if a then true else c)
      swap a b c = ground arith

  pub any-order_by :
      (before : A → A → Bool) (p : A → Bool) (xs : List A) → any p (order_by before xs) ≡ any p xs
  any-order_by before p [] = refl
  any-order_by before p (x ∷ xs) =
      any-insert_by before p x (order_by before xs) ∙ rw (any-order_by before p xs) refl

  pub any_none : (p : A → Bool) (xs : List A) → All (λ x. p x ≡ false) xs → any p xs ≡ false
  any_none p [] h = refl
  any_none p (x ∷ xs) (e, h) = rw (e, any_none p xs h) refl

abbrev pub holds_of {ℓ} : {A : Type ℓ} → (A → Bool) → Option A → Bool
holds_of q none = false
holds_of q (some x) = q x

module _ {A K : Type 0} (o : SortKey K) (key : A → K) where
  -- No row of `rows` stands before x.
  abbrev pub is_first : List A → A → Bool
  is_first rows x = not (any (λ y. lt o key y x) rows)

  first-Sorted :
      (q : A → Bool) (rows : List A)
      → Sorted o key rows
      → any (λ x. is_first rows x && q x) rows ≡ holds_of q (first rows)
  first-Sorted q [] s = refl
  first-Sorted q (x ∷ rows) (h, s) =
      rw
        (
          irreflexive (lt o key x x) refl,
          any_none (λ y. lt o key y x) rows (All-map rows (λ y e. o.asym (key x) (key y) e) h),
          any_none (λ z. is_first (x ∷ rows) z && q z) rows (All-map rows (λ z e. rw e refl) h),
        )
        (tidy (q x))
    where
      irreflexive : (b : Bool) → lt o key x x ≡ b → lt o key x x ≡ false
      irreflexive true e = o.asym (key x) (key x) e
      irreflexive false e = e

      tidy : (b : Bool) → (if b then true else false) ≡ b
      tidy b = ground arith

  -- Some row that is first and satisfies `q` is the row that ORDER BY puts first.
  pub any-first :
      (q : A → Bool) (rows : List A)
      → Distinct o key rows
      → any (λ x. is_first rows x && q x) rows ≡ holds_of q (first (order_by (lt o key) rows))
  any-first q rows d =
      sym (any-order_by (lt o key) (λ x. is_first rows x && q x) rows)
      ∙ any-All _ _ (order_by (lt o key) rows) (
          All_of (order_by (lt o key) rows)
            λ x. rw (any-order_by (lt o key) (λ y. lt o key y x) rows) refl)
      ∙ first-Sorted q (order_by (lt o key) rows) (order_by-Sorted o key rows d)
    where
      All_of : {P : A → Type 0} (xs : List A) → ((x : A) → P x) → All P xs
      All_of [] f = tt
      All_of (x ∷ xs) f = (f x, All_of xs f)
