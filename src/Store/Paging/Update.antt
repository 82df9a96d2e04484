-- ===== src/Store/Paging/Update.antt =====
-- An UPDATE that keeps the sort keys keeps the pages, up to the update.
use synapse_messenger.Prelude.{
  ℕ, zero, suc, ◌≡◌, refl, ap, ◌∙◌, Bool, Option, none, some, List, [], ◌∷◌, map, length, take,
  select, update, insert_by, order_by, if◌then◌else◌, Bool-cases, inl, inr,
}
use synapse_messenger.Store.Paging.{SortKey, lt, is_past, fetch, last_key, cut}

module _ {A : Type 0} where
  pub update-map :
      (p : A → Bool) (f : A → A) (xs : List A)
      → update p f xs ≡ map (λ x. if p x then f x else x) xs
  update-map p f [] = refl
  update-map p f (x ∷ xs) = ap (λ ys. (if p x then f x else x) ∷ ys) (update-map p f xs)

  pub map-same :
      {B : Type 0} (f h : A → B) (g : A → A) (xs : List A)
      → ((x : A) → f (g x) ≡ h x)
      → map f (map g xs) ≡ map h xs
  map-same f h g [] e = refl
  map-same f h g (x ∷ xs) e = rw (e x, map-same f h g xs e) refl

  pub select-map :
      (p : A → Bool) (g : A → A) (xs : List A)
      → ((x : A) → p (g x) ≡ p x)
      → select p (map g xs) ≡ map g (select p xs)
  select-map p g [] e = refl
  select-map p g (x ∷ xs) e = elim (Bool-cases (p x)) [
    | inl h ↦ rw (e x, h, select-map p g xs e) refl
    | inr h ↦ rw (e x, h, select-map p g xs e) refl
  ]

  take-map : (g : A → A) (n : ℕ) (xs : List A) → take n (map g xs) ≡ map g (take n xs)
  take-map g zero xs = refl
  take-map g (suc n) [] = refl
  take-map g (suc n) (x ∷ xs) = ap (λ ys. g x ∷ ys) (take-map g n xs)

  length-map : (g : A → A) (xs : List A) → length (map g xs) ≡ length xs
  length-map g [] = refl
  length-map g (x ∷ xs) = ap suc (length-map g xs)

module _ {A K : Type 0} (o : SortKey K) (key : A → K) (g : A → A)
    (same : (x : A) → key (g x) ≡ key x) where
  lt-map : (x y : A) → lt o key (g y) (g x) ≡ lt o key y x
  lt-map x y = ap (λ k. o.before k (key (g x))) (same y) ∙ ap (o.before (key y)) (same x)

  insert-map :
      (x : A) (ys : List A)
      → insert_by (lt o key) (g x) (map g ys) ≡ map g (insert_by (lt o key) x ys)
  insert-map x [] = refl
  insert-map x (y ∷ ys) = elim (Bool-cases (lt o key y x)) [
    | inl e ↦ rw (lt-map x y, e, insert-map x ys) refl
    | inr e ↦ rw (lt-map x y, e) refl
  ]

  order_by-map : (xs : List A) → order_by (lt o key) (map g xs) ≡ map g (order_by (lt o key) xs)
  order_by-map [] = refl
  order_by-map (x ∷ xs) = rw (order_by-map xs) (insert-map x (order_by (lt o key) xs))

  pub fetch-map :
      (rows : List A) (last : Option K) (limit : ℕ)
      → fetch o key (map g rows) last limit ≡ map g (fetch o key rows last limit)
  unfolding fetch
  fetch-map rows last limit =
      rw (select-map (is_past o key last) g rows (past last), order_by-map)
        (take-map g (suc limit) (order_by (lt o key) (select (is_past o key last) rows)))
    where
      past : (last : Option K) (x : A) → is_past o key last (g x) ≡ is_past o key last x
      past none x = refl
      past (some k) x = ap (o.before k) (same x)

  last_key-map : (rows : List A) → last_key o key (map g rows) ≡ last_key o key rows
  last_key-map [] = refl
  last_key-map (x ∷ []) = ap some (same x)
  last_key-map (x ∷ y ∷ rows) = last_key-map (y ∷ rows)

  pub cut-map :
      (limit : ℕ) (rows : List A)
      → cut o key limit (map g rows) ≡ (map g (cut o key limit rows).0, (cut o key limit rows).1)
  cut-map limit rows =
      rw (take-map g limit rows, last_key-map (take limit rows), length-map g rows) refl
