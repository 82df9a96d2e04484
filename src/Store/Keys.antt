-- ===== src/Store/Keys.antt =====
-- Statements on the row of one key (the upserts and deletions of synapse/service.py) leave the rows
-- of the other keys.
use mathlib.Core.Option
use synapse_messenger.Prelude.{
  ℕ, ◌≡◌, ◌≢◌, refl, ap, ◌∙◌, Option, none, some, Bool, true, false, not, List, [], ◌∷◌, find,
  select, update, any, is_some, arith, ◌==◌, ==_iff, if◌then◌else◌, Bool-cases, ◌⊎◌, inl, inr,
}

-- INSERT ... ON CONFLICT(key) DO UPDATE: `same` finds the row of the key.
abbrev pub insert_or_update {ℓ} : {A : Type ℓ} → (A → Bool) → (A → A) → A → List A → List A
insert_or_update same change new rows =
    if any same rows then update same change rows else new ∷ rows

module _ {ℓ} {A : Type ℓ} (key : A → ℕ) (u v : ℕ) (other : u ≢ v) where
  other_key : (a : A) → key a ≡ v → (key a == u) ≡ false
  other_key a e = elim (Bool-cases (key a == u)) [
    | inl same ↦ absurd (other (clash ((==_iff _ _).0 same)))
    | inr differs ↦ differs
  ]
    where
      clash : key a ≡ u → u ≡ v
      clash same = cc

  -- UPDATE ... WHERE key = v
  pub find-update_other :
      (f : A → A) (rows : List A)
      → ((a : A) → key (f a) ≡ key a)
      → find (λ a. key a == u) (update (λ a. key a == v) f rows) ≡ find (λ a. key a == u) rows
  find-update_other f [] keep = refl
  find-update_other f (a ∷ rows) keep = ground (arith, other, keep a, find-update_other f rows keep)

  -- DELETE ... WHERE key = v
  pub find-delete_other :
      (rows : List A)
      → find (λ a. key a == u) (select (λ a. not (key a == v)) rows) ≡ find (λ a. key a == u) rows
  find-delete_other [] = refl
  find-delete_other (a ∷ rows) = elim (Bool-cases (key a == v)) [
    | inl same ↦ rw same (rw (other_key a ((==_iff _ _).0 same)) (find-delete_other rows))
    | inr differs ↦ rw differs (at (key a == u) (find-delete_other rows))
  ]
    where
      at :
          {m n : Option A} (b : Bool)
          → m ≡ n
          → (if b then some a else m) ≡ (if b then some a else n)
      at true e = refl
      at false e = e

  pub find-upsert_other :
      (f : A → A) (new : A) (rows : List A)
      → ((a : A) → key (f a) ≡ key a)
      → key new ≡ v
      → find (λ a. key a == u) (insert_or_update (λ a. key a == v) f new rows)
        ≡ find (λ a. key a == u) rows
  find-upsert_other f new rows keep own = elim (Bool-cases (any (λ a. key a == v) rows)) [
    | inl there ↦ rw there (find-update_other f rows keep)
    | inr absent ↦ rw absent (rw (other_key new own) refl)
  ]

-- A row whose key is free hides no row that is found.
pub find-insert_other {ℓ} :
    {A : Type ℓ} (key : A → ℕ) (u : ℕ) (new : A) {row : A} (rows : List A)
    → find (λ a. key a == u) rows ≡ some row
    → is_some (find (λ a. key a == key new) rows) ≡ false
    → find (λ a. key a == u) (new ∷ rows) ≡ find (λ a. key a == u) rows
find-insert_other {A = A} key u new {row} rows found free = elim (Bool-cases (key new == u)) [
  | inl same ↦ absurd (taken ((==_iff _ _).0 same))
  | inr differs ↦ rw differs refl
]
  where
    taken : key new ≡ u → ⊥
    taken e = missing _ (ap (λ k. find (λ a. key a == k) rows) e ∙ found) free
      where
        missing : (m : Option A) → m ≡ some row → is_some m ≡ false → ⊥
        missing none e free = cc
        missing (some r) e free = cc

-- An UPDATE that keeps the key changes the row of the key, or none.
pub find-update_cases {ℓ} :
    {A : Type ℓ} (key : A → ℕ) (u v : ℕ) (f : A → A) (rows : List A) {row : A}
    → ((a : A) → key (f a) ≡ key a)
    → find (λ a. key a == u) rows ≡ some row
    → (find (λ a. key a == u) (update (λ a. key a == v) f rows) ≡ some row)
      ⊎ (find (λ a. key a == u) (update (λ a. key a == v) f rows) ≡ some (f row))
find-update_cases key u v f [] keep h = cc
find-update_cases {A = A} key u v f (a ∷ rows) {row} keep h =
    rw (kept (key a == v))
      (at (key a == v) (key a == u) _ h (find-update_cases key u v f rows keep))
  where
    kept : (b : Bool) → (key (if b then f a else a) == u) ≡ (key a == u)
    kept true = ap (λ k. k == u) (keep a)
    kept false = refl

    at :
        (b c : Bool) (found : Option A)
        → (if c then some a else find (λ a. key a == u) rows) ≡ some row
        → (find (λ a. key a == u) rows ≡ some row → (found ≡ some row) ⊎ (found ≡ some (f row)))
        → ((if c then some (if b then f a else a) else found) ≡ some row)
          ⊎ ((if c then some (if b then f a else a) else found) ≡ some (f row))
    at true true found h ih = inr (ap (λ o. Option.map f o) h)
    at false true found h ih = inl h
    at b false found h ih = ih h
