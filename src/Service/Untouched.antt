-- ===== src/Service/Untouched.antt =====
-- The rows that an organization's statements leave as they are (synapse/service.py): the accounts,
-- the budgets and the settings of the other organizations.
pub mod Settings
pub mod Structure
use synapse_messenger.Prelude.{
  ℕ, ◌≡◌, ◌≢◌, refl, sym, ◌∙◌, Option, some, Bool, true, false, ◌&&◌, any, ◌∷◌, find, update,
  is_some, ◌==◌, ==_iff, if◌then◌else◌, Bool-cases, inl, inr, String,
}
use synapse_messenger.Hlc.{Clock}
use synapse_messenger.Db.{
  Db, Account, Organization, OrgSettings, EscalationPolicy, Outcome, Department, Membership,
}
use synapse_messenger.Store.Accounts
use synapse_messenger.Store.Accounts.{is_active}
use synapse_messenger.Store.Audit
use synapse_messenger.Store.Keys.{find-update_other, find-delete_other, find-upsert_other}
use synapse_messenger.Store.Cards.{get_card}
use synapse_messenger.Service.Guards.{budget_of}
use synapse_messenger.Service.Tasks.{task_entry as audit}
use synapse_messenger.Service.Organizations.{insert_account}
use synapse_messenger.Service.Structure.{
  is_department, has_department, membership_of, put_membership,
}
use synapse_messenger.Service.Settings.{
  NewBudget, put_retention, put_policy, put_budget, delete_budget, write_budget,
  org_get_escalation_policy,
}

-- SELECT event_retention_days FROM org_settings WHERE organization_name = ?
abbrev pub retention_row : Db → ℕ → Option OrgSettings
retention_row d o = find (λ s. s.organization_name == o) d.org_settings

-- Account `u` with its budget, and organization `o` with its settings, are found as they are in `d`.
pub record IsUntouched (u o : ℕ) (d d' : Db) : Type 0 where
  pub account : Accounts.get d' u ≡ Accounts.get d u
  pub organization : Accounts.get_organization d' o ≡ Accounts.get_organization d o
  pub budget : budget_of d' u ≡ budget_of d u
  pub policy : org_get_escalation_policy d' o ≡ org_get_escalation_policy d o
  pub settings : retention_row d' o ≡ retention_row d o
  pub membership : membership_of d' u ≡ membership_of d u
  pub card : get_card d' u ≡ get_card d u
  pub departments : (name : ℕ) → has_department d' o name ≡ has_department d o name

pub IsUntouched-trans :
    {u o : ℕ} {d d' d'' : Db}
    → IsUntouched u o d d'
    → IsUntouched u o d' d''
    → IsUntouched u o d d''
IsUntouched-trans h k = record {
  account = k.account ∙ h.account;
  organization = k.organization ∙ h.organization;
  budget = k.budget ∙ h.budget;
  policy = k.policy ∙ h.policy;
  settings = k.settings ∙ h.settings;
  membership = k.membership ∙ h.membership;
  card = k.card ∙ h.card;
  departments = λ name. k.departments name ∙ h.departments name;
}

module _ {u o : ℕ} {d : Db} where
  pub IsUntouched-refl : IsUntouched u o d d
  IsUntouched-refl = record {
    account = refl;
    organization = refl;
    budget = refl;
    policy = refl;
    settings = refl;
    membership = refl;
    card = refl;
    departments = λ name. refl;
  }

  -- UPDATE accounts ... WHERE username = v
  pub update-IsUntouched :
      (v : ℕ) (f : Account → Account)
      → u ≢ v
      → ((a : Account) → (f a).username ≡ a.username)
      → IsUntouched u o d (record d { accounts = update (λ a. a.username == v) f d.accounts })
  unfolding Accounts.get get_card Accounts.get_organization budget_of org_get_escalation_policy
      has_department
  update-IsUntouched v f other keep = record {
    account = find-update_other (λ a. a.username) u v other f d.accounts keep;
    organization = refl;
    budget = refl;
    policy = refl;
    settings = refl;
    membership = refl;
    card = refl;
    departments = λ name. refl;
  }

  -- UPDATE organizations ... WHERE organization_name = org
  pub update_own-IsUntouched :
      (org : ℕ) (f : Organization → Organization)
      → o ≢ org
      → ((a : Organization) → (f a).organization_name ≡ a.organization_name)
      → IsUntouched u o d
          (record d { organizations = update (λ a. a.organization_name == org) f d.organizations })
  unfolding Accounts.get get_card Accounts.get_organization budget_of org_get_escalation_policy
      has_department
  update_own-IsUntouched org f foreign keep = record {
    account = refl;
    organization =
        find-update_other (λ a. a.organization_name) o org foreign f d.organizations keep;
    budget = refl;
    policy = refl;
    settings = refl;
    membership = refl;
    card = refl;
    departments = λ name. refl;
  }

  pub insert-IsUntouched :
      (a : Account) {row : Account}
      → Accounts.get d u ≡ some row
      → is_some (Accounts.get d a.username) ≡ false
      → IsUntouched u o d (insert_account a d)
  unfolding Accounts.get get_card Accounts.get_organization insert_account budget_of
      org_get_escalation_policy has_department
  insert-IsUntouched a {row} found free = record {
    account = rw (another a free) refl;
    organization = refl;
    budget = refl;
    policy = refl;
    settings = refl;
    membership = refl;
    card = refl;
    departments = λ name. refl;
  }
    where
      another :
          (a : Account) → is_some (Accounts.get d a.username) ≡ false → (a.username == u) ≡ false
      another a free = elim (Bool-cases (a.username == u)) [
        | inl e ↦ absurd (taken ((==_iff _ _).0 e))
        | inr e ↦ e
      ]
        where
          taken : a.username ≡ u → ⊥
          taken e = cc

  pub if-IsUntouched :
      (b : Bool) (x y : Db)
      → IsUntouched u o d x
      → IsUntouched u o d y
      → IsUntouched u o d (if b then x else y)
  if-IsUntouched true x y hx hy = hx
  if-IsUntouched false x y hx hy = hy

  -- The audit journal is no table of these.
  pub audit-IsUntouched :
      (org at me : ℕ) (command : String) (target : ℕ) (outcome : Outcome) (hlc : Clock) (x : Db)
      → IsUntouched u o d x
      → IsUntouched u o d (audit org at me command target outcome hlc x)
  unfolding Accounts.get get_card Accounts.get_organization budget_of org_get_escalation_policy
      has_department Audit.append
  audit-IsUntouched org at me command target outcome hlc x h = record {
    account = h.account;
    organization = h.organization;
    budget = h.budget;
    policy = h.policy;
    settings = h.settings;
    membership = h.membership;
    card = h.card;
    departments = h.departments;
  }
