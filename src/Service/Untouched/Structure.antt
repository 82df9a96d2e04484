-- ===== src/Service/Untouched/Structure.antt =====
-- The departments and memberships that an organization's statements leave (synapse/service.py).
use synapse_messenger.Prelude.{
  ℕ, ◌≡◌, ◌≢◌, refl, sym, ap, none, ◌∙◌, Option, some, Bool, true, false, ◌&&◌, any, ◌∷◌, is_some,
  ◌==◌, ==_iff, if◌then◌else◌,
}
use synapse_messenger.Db.{Db, Account, Department, Membership}
use synapse_messenger.Store.Accounts
use synapse_messenger.Store.Accounts.{is_active}
use synapse_messenger.Store.Keys.{find-upsert_other, find-update_other}
use synapse_messenger.Store.Cards.{get_card, approve_card}
use synapse_messenger.Service.Guards.{budget_of}
use synapse_messenger.Service.Organizations.{insert_account}
use synapse_messenger.Service.Structure.{
  is_department, has_department, put_membership, mark_observer,
}
use synapse_messenger.Service.Settings.{org_get_escalation_policy}
use synapse_messenger.Service.Untouched.{
  IsUntouched, IsUntouched-trans, insert-IsUntouched, update-IsUntouched,
}

module _ {u o : ℕ} {d : Db} where
  -- INSERT INTO departments of the organization itself
  pub add_department-IsUntouched :
      (org : ℕ) (r : Department)
      → r.organization_name ≡ org
      → o ≢ org
      → IsUntouched u o d (record d { departments = r ∷ d.departments })
  unfolding Accounts.get get_card Accounts.get_organization budget_of org_get_escalation_policy
      has_department
  add_department-IsUntouched org r own foreign = record {
    account = refl;
    organization = refl;
    budget = refl;
    policy = refl;
    settings = refl;
    membership = refl;
    card = refl;
    departments = λ name. at name (r.organization_name == o) ((==_iff r.organization_name o).0);
  }
    where
      at :
          (name : ℕ) (b : Bool)
          → (b ≡ true → r.organization_name ≡ o)
          → (if b && r.department_name == name
              then true
              else any (is_department o name) d.departments)
            ≡ any (is_department o name) d.departments
      at name true same = absurd (foreign (sym (same refl) ∙ own))
      at name false same = refl

  -- An account is inserted, and then updated.
  pub observer-IsUntouched :
      (a : Account) (v : ℕ) {row : Account}
      → Accounts.get d u ≡ some row
      → is_some (Accounts.get d v) ≡ false
      → a.username ≡ v
      → IsUntouched u o d (mark_observer v (insert_account a d))
  unfolding mark_observer
  observer-IsUntouched a v {row} found free named =
      IsUntouched-trans
        (insert-IsUntouched a found (ap (λ k. is_some (Accounts.get d k)) named ∙ free))
        (update-IsUntouched v _ (λ same. missing _ (ap (Accounts.get d) (sym same) ∙ found) free)
          (λ r. refl))
    where
      missing : (m : Option Account) → m ≡ some row → is_some m ≡ false → ⊥
      missing none e f = cc
      missing (some r) e f = cc

  pub put_membership-IsUntouched :
      (m : Membership) → u ≢ m.username → IsUntouched u o d (put_membership m d)
  unfolding Accounts.get get_card Accounts.get_organization budget_of org_get_escalation_policy
      has_department put_membership
  put_membership-IsUntouched m other = record {
    account = refl;
    organization = refl;
    budget = refl;
    policy = refl;
    settings = refl;
    membership =
        find-upsert_other (λ r. r.username) u m.username other _ _ d.memberships (λ r. refl) refl;
    card = refl;
    departments = λ name. refl;
  }

  -- the approval of the card of a member
  pub approve_card-IsUntouched :
      (v org now : ℕ) → u ≢ v → IsUntouched u o d (approve_card v org now d)
  unfolding Accounts.get Accounts.get_organization budget_of org_get_escalation_policy
      has_department get_card approve_card
  approve_card-IsUntouched v org now other = record {
    account = refl;
    organization = refl;
    budget = refl;
    policy = refl;
    settings = refl;
    membership = refl;
    card = find-update_other (λ c. c.username) u v other _ d.agent_cards (λ c. refl);
    departments = λ name. refl;
  }
