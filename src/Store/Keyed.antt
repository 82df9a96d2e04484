-- ===== src/Store/Keyed.antt =====
-- The primary key of the task table (synapse/db.py: tasks.task_id): lookups under the UPDATEs.
use synapse_messenger.Prelude.{
  ℕ, ◌≡◌, refl, Bool, true, Option, none, some, List, [], ◌∷◌, All, All-map, find, select, update,
  arith, ◌==◌, ==_iff, if◌then◌else◌, Bool-cases, inl, inr,
}
use synapse_messenger.Db.{Task}

abbrev pub by_id : ℕ → List Task → Option Task
by_id id rows = find (λ t. t.task_id == id) rows

-- No two rows have the same task_id.
abbrev pub Keyed : List Task → Type 0
Keyed [] = Unit
Keyed (t ∷ ts) = (by_id t.task_id ts ≡ none) × Keyed ts

abbrev pub map_some : (Task → Task) → Option Task → Option Task
map_some f none = none
map_some f (some t) = some (f t)

-- UPDATE ... WHERE task_id = k, for a change that keeps the key.
pub by_id-update :
    (k id : ℕ) (f : Task → Task) (rows : List Task)
    → ((t : Task) → (f t).task_id ≡ t.task_id)
    → by_id id (update (λ t. t.task_id == k) f rows)
      ≡ (if k == id then map_some f (by_id id rows) else by_id id rows)
by_id-update k id f [] keep = ground arith
by_id-update k id f (t ∷ ts) keep = ground (arith, keep t, by_id-update k id f ts keep)

pub Keyed-update :
    (k : ℕ) (f : Task → Task) (rows : List Task)
    → ((t : Task) → (f t).task_id ≡ t.task_id)
    → Keyed rows
    → Keyed (update (λ t. t.task_id == k) f rows)
Keyed-update k f [] keep h = tt
Keyed-update k f (t ∷ ts) keep (new, h) =
    (ground (arith, keep t, by_id-update k t.task_id f ts keep, new), Keyed-update k f ts keep h)

-- Two UPDATEs of the same key are one.
pub update_twice :
    (k : ℕ) (f g : Task → Task) (rows : List Task)
    → ((t : Task) → (g t).task_id ≡ t.task_id)
    → update (λ t. t.task_id == k) f (update (λ t. t.task_id == k) g rows)
      ≡ update (λ t. t.task_id == k) (λ t. f (g t)) rows
update_twice k f g [] keep = refl
update_twice k f g (t ∷ ts) keep = ground (arith, keep t, update_twice k f g ts keep)

-- In a keyed table a selected row is the one that its key finds.
pub select-found :
    (p : Task → Bool) (rows : List Task)
    → Keyed rows
    → All (λ r. (by_id r.task_id rows ≡ some r) × (p r ≡ true)) (select p rows)
select-found p [] h = tt
select-found p (t ∷ ts) (new, h) =
    let below =
      All-map {P = λ r. (by_id r.task_id ts ≡ some r) × (p r ≡ true)}
        {Q = λ r. (by_id r.task_id (t ∷ ts) ≡ some r) × (p r ≡ true)} (select p ts)
        (λ r e. (still_found r e.0, e.1)) (select-found p ts h) in
    elim (Bool-cases (p t)) [
      | inl keep ↦ rw keep ((first_found, keep), below)
      | inr drop ↦ rw drop below
    ]
  where
    first_found : by_id t.task_id (t ∷ ts) ≡ some t
    first_found = ground arith

    still_found : (r : Task) → by_id r.task_id ts ≡ some r → by_id r.task_id (t ∷ ts) ≡ some r
    still_found r e = elim (Bool-cases (t.task_id == r.task_id)) [
      | inl same ↦ rw same (absurd (clash ((==_iff _ _).0 same)))
      | inr other ↦ rw other e
    ]
      where
        clash : t.task_id ≡ r.task_id → ⊥
        clash q = cc
