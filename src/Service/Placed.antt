-- ===== src/Service/Placed.antt =====
-- The structure of the organizations under their commands (synapse/service.py: _org_set_agent_department
-- and the other write commands of an organization).
use synapse_messenger.Prelude.{
  ℕ, ◌≡◌, refl, sym, ap, ◌∙◌, some, Bool, true, false, ◌&&◌, ◌∷◌, All, All-map, find, update, any,
  is_some, ◌==◌, if◌then◌else◌, inl, inr,
}
use mathlib.Core.Path.{subst}
use synapse_messenger.Db.{Db, Account, Membership, Department}
use synapse_messenger.Store.Accounts
use synapse_messenger.Store.Accounts.{is_active}
use synapse_messenger.Store.Keys.{find-insert_other, find-update_cases}
use synapse_messenger.Service.Structure.{is_department, has_department}
use synapse_messenger.Service.Organizations.{insert_account}

-- The account `u` is there, and of the organization `o`.
abbrev pub HasAccount : Db → ℕ → ℕ → Type 0
HasAccount d u o = (a : Account) × (Accounts.get d u ≡ some a) × (a.organization_name ≡ o)

-- A membership is of an account of its organization, and in a department that it has.
abbrev pub IsPlaced : Db → Membership → Type 0
IsPlaced d m =
    HasAccount d m.username m.organization_name
    × (has_department d m.organization_name m.department_name ≡ true)

abbrev pub IsStructured : Db → Type 0
IsStructured d = All (IsPlaced d) d.memberships

-- No account leaves its organization and no department goes; the memberships are as they were.
pub record Grows (d d' : Db) : Type 0 where
  pub accounts : (u o : ℕ) → HasAccount d u o → HasAccount d' u o
  pub departments : (o name : ℕ) → has_department d o name ≡ true → has_department d' o name ≡ true
  pub memberships : d'.memberships ≡ d.memberships

pub Grows-IsStructured : (d d' : Db) → Grows d d' → IsStructured d → IsStructured d'
Grows-IsStructured d d' g h =
    subst (All (IsPlaced d')) (sym g.memberships)
      (All-map d.memberships (λ m p. (g.accounts _ _ p.0, g.departments _ _ p.1)) h)

pub Grows-trans : {d d' d'' : Db} → Grows d d' → Grows d' d'' → Grows d d''
Grows-trans g h = record {
  accounts = λ u o a. h.accounts u o (g.accounts u o a);
  departments = λ o name a. h.departments o name (g.departments o name a);
  memberships = h.memberships ∙ g.memberships;
}

module _ {d : Db} where
  pub Grows-refl : Grows d d
  Grows-refl = record { accounts = λ u o a. a; departments = λ o name a. a; memberships = refl }

  -- A statement on other tables
  pub same_tables-Grows :
      (d' : Db)
      → d'.accounts ≡ d.accounts
      → d'.departments ≡ d.departments
      → d'.memberships ≡ d.memberships
      → Grows d d'
  unfolding Accounts.get has_department
  same_tables-Grows d' accounts departments memberships = record {
    accounts = λ u o (a, found, own).
        (a, ap (λ rows. find (λ r. r.username == u) rows) accounts ∙ found, own);
    departments = λ o name h. ap (λ rows. any (is_department o name) rows) departments ∙ h;
    memberships = memberships;
  }

  pub if-Grows : (b : Bool) (x y : Db) → Grows d x → Grows d y → Grows d (if b then x else y)
  if-Grows true x y hx hy = hx
  if-Grows false x y hx hy = hy

  -- UPDATE accounts, of other columns than the username and the organization
  pub update-Grows :
      (v : ℕ) (f : Account → Account)
      → ((a : Account)
          → ((f a).username ≡ a.username) × ((f a).organization_name ≡ a.organization_name))
      → Grows d (record d { accounts = update (λ a. a.username == v) f d.accounts })
  unfolding Accounts.get has_department
  update-Grows v f keep = record {
    accounts = λ u o (a, found, own).
        elim (find-update_cases (λ a. a.username) u v f d.accounts (λ a. (keep a).0) found) [
          | inl same ↦ (a, same, own)
          | inr changed ↦ (f a, changed, (keep a).1 ∙ own)
        ];
    departments = λ o name a. a;
    memberships = refl;
  }

  pub insert-Grows :
      (a : Account) → is_some (Accounts.get d a.username) ≡ false → Grows d (insert_account a d)
  unfolding Accounts.get has_department insert_account
  insert-Grows a free = record {
    accounts = λ u o (b, found, own).
        (b, find-insert_other (λ r. r.username) u a d.accounts found free ∙ found, own);
    departments = λ o name h. h;
    memberships = refl;
  }

  pub add_department-Grows :
      (r : Department) → Grows d (record d { departments = r ∷ d.departments })
  unfolding Accounts.get has_department
  add_department-Grows r = record {
    accounts = λ u o a. a;
    departments = λ o name h. one_more (r.organization_name == o && r.department_name == name) _ h;
    memberships = refl;
  }
    where
      one_more : (b c : Bool) → c ≡ true → (if b then true else c) ≡ true
      one_more true c h = refl
      one_more false c h = h
