-- ===== src/Service/HumanOrgs.antt =====
-- The organizations that human accounts create and disable, and the budgets that organizations set
-- (synapse/service.py).
use synapse_messenger.Prelude.{ℕ, ◌≡◌, ◌≢◌, refl, ◌∙◌, Option, none, some, true, ◌==◌, ==_iff}
use synapse_messenger.Errors.{
  Result, ok, Ensures, Ensures-ok, Ensures-bind, Ensures-then, or_raise, internal_error,
  raise_if_passed, raise_unless_passed, ◌>>=◌,
}
use synapse_messenger.Db.{Db, Account, Organization}
use synapse_messenger.Store.Accounts
use synapse_messenger.Store.Keys.{find-update_other, find-insert_other}
use synapse_messenger.Service.Common.{Env}
use synapse_messenger.Service.Guards.{org_of}
use synapse_messenger.Service.Settings.{
  NewOrganization, human_create_org, human_disable_org, insert_organization, disable_organization,
}
use synapse_messenger.Service.Organizations.{insert_account}

pub data HumanOrgRequest : Type 0 where
  create_org : NewOrganization → HumanOrgRequest
  disable_org : ℕ → HumanOrgRequest

unfoldable pub run_human_org_request : Env → ℕ → HumanOrgRequest → Db → Result (ℕ × Db)
run_human_org_request env me (create_org p) d = do
  a ← human_create_org env p d
  ok (p.organization_name, a.1)
run_human_org_request env me (disable_org target) d = human_disable_org target me d d

module _ (u o me : ℕ) (d : Db) (row mine : Account) (old : Organization)
    (found : Accounts.get d u ≡ some row) (caller : Accounts.get d me ≡ some mine)
    (there : Accounts.get_organization d o ≡ some old) (foreign : o ≢ mine.organization_name) where
  abbrev IsKept : Db → Type 0
  IsKept d' = (Accounts.get d' u ≡ some row) × (Accounts.get_organization d' o ≡ some old)

  create-IsKept :
      (env : Env) (p : NewOrganization) → Ensures (λ a. IsKept a.1) (human_create_org env p d)
  unfolding human_create_org insert_account insert_organization Accounts.get
      Accounts.get_organization
  create-IsKept env p = Ensures-bind _ _ λ _ no_org. Ensures-bind _ _ λ _ no_human. Ensures-ok _ (
    find-insert_other (λ a. a.username) u _ d.accounts found (raise_if_passed _ _ no_human) ∙ found,
    find-insert_other (λ a. a.organization_name) o _ d.organizations there
          (raise_if_passed _ _ no_org)
        ∙ there,
  )

  own_target : (target org : ℕ) → org_of d me ≡ ok org → (target == org) ≡ true → o ≢ target
  unfolding org_of or_raise ◌>>=◌
  own_target target org e same at_target =
      foreign (at_target ∙ (==_iff _ _).0 same ∙ named (Accounts.get d me) caller e)
    where
      named :
          (m : Option Account)
          → m ≡ some mine
          → (or_raise m internal_error >>= λ r. ok r.organization_name) ≡ ok org
          → org ≡ mine.organization_name
      named none h e = cc
      named (some r) h e = cc

  disable-IsKept : (target : ℕ) → Ensures (λ a. IsKept a.1) (human_disable_org target me d d)
  unfolding human_disable_org disable_organization Accounts.get Accounts.get_organization
  disable-IsKept target = Ensures-bind _ _ λ org e. Ensures-bind _ _ λ _ same.
      Ensures-bind _ _ λ _ _. Ensures-bind _ _ λ _ _. Ensures-ok _ (
        found,
        find-update_other (λ a. a.organization_name) o target
              (own_target target org e (raise_unless_passed _ _ same)) _ d.organizations (λ a. refl)
            ∙ there,
      )

  run-IsKept :
      (env : Env) (request : HumanOrgRequest)
      → Ensures (λ a. IsKept a.1) (run_human_org_request env me request d)
  unfolding run_human_org_request
  run-IsKept env (create_org p) = Ensures-then _ _ (create-IsKept env p) λ a h. Ensures-ok _ h
  run-IsKept env (disable_org target) = disable-IsKept target

-- A human account that creates an organization or disables one changes no account, and no
-- organization but the caller's own.
pub human_org_requests_stay_inside :
    (env : Env) (u o me : ℕ) (request : HumanOrgRequest) (d : Db) (row mine : Account)
    (old : Organization) {a : ℕ × Db}
    → Accounts.get d u ≡ some row
    → Accounts.get d me ≡ some mine
    → Accounts.get_organization d o ≡ some old
    → o ≢ mine.organization_name
    → run_human_org_request env me request d ≡ ok a
    → (Accounts.get a.1 u ≡ some row) × (Accounts.get_organization a.1 o ≡ some old)
human_org_requests_stay_inside env u o me request d row mine old {a} found caller there foreign
      ran =
    (run-IsKept u o me d row mine old found caller there foreign env request).returns a ran
