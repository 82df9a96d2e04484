-- ===== src/Service/Untouched/Settings.antt =====
-- The settings and budgets that an organization's statements leave (synapse/service.py).
use synapse_messenger.Prelude.{ℕ, ◌≢◌, refl, is_some}
use synapse_messenger.Db.{Db, EscalationPolicy}
use synapse_messenger.Store.Accounts
use synapse_messenger.Store.Accounts.{is_active}
use synapse_messenger.Store.Keys.{find-delete_other, find-upsert_other}
use synapse_messenger.Store.Cards.{get_card}
use synapse_messenger.Service.Guards.{budget_of}
use synapse_messenger.Service.Structure.{has_department}
use synapse_messenger.Service.Settings.{
  NewBudget, put_retention, put_policy, put_budget, delete_budget, write_budget,
  org_get_escalation_policy,
}
use synapse_messenger.Service.Untouched.{IsUntouched, if-IsUntouched}

module _ {u o : ℕ} {d : Db} where
  -- INSERT ... ON CONFLICT(organization_name) of the organization's own settings
  pub put_retention-IsUntouched :
      (org days : ℕ) → o ≢ org → IsUntouched u o d (put_retention org days d)
  unfolding Accounts.get get_card Accounts.get_organization budget_of org_get_escalation_policy
      has_department put_retention
  put_retention-IsUntouched org days foreign = record {
    account = refl;
    organization = refl;
    budget = refl;
    policy = refl;
    settings =
        find-upsert_other (λ s. s.organization_name) o org foreign _ _ d.org_settings (λ s. refl)
          refl;
    membership = refl;
    card = refl;
    departments = λ name. refl;
  }

  pub put_policy-IsUntouched :
      (p : EscalationPolicy) → o ≢ p.organization_name → IsUntouched u o d (put_policy p d)
  unfolding Accounts.get get_card Accounts.get_organization budget_of org_get_escalation_policy
      has_department put_policy
  put_policy-IsUntouched p foreign = record {
    account = refl;
    organization = refl;
    budget = refl;
    policy =
        find-upsert_other (λ r. r.organization_name) o p.organization_name foreign _ _
          d.org_escalation_policy (λ r. refl) refl;
    settings = refl;
    membership = refl;
    card = refl;
    departments = λ name. refl;
  }

  -- a member's budget
  pub write_budget-IsUntouched :
      (p : NewBudget) → u ≢ p.username → IsUntouched u o d (write_budget p d)
  unfolding Accounts.get get_card Accounts.get_organization budget_of org_get_escalation_policy
      has_department put_budget delete_budget
  write_budget-IsUntouched p other = if-IsUntouched (is_some p.max_active_tasks) _ _ put (
      if-IsUntouched (is_some p.max_messages_per_hour) _ _ put (record {
        account = refl;
        organization = refl;
        budget = find-delete_other (λ b. b.username) u p.username other d.agent_budgets;
        policy = refl;
        settings = refl;
        membership = refl;
        card = refl;
        departments = λ name. refl;
      }))
    where
      put : IsUntouched u o d (put_budget p d)
      put = record {
        account = refl;
        organization = refl;
        budget =
            find-upsert_other (λ b. b.username) u p.username other _ _ d.agent_budgets (λ b. refl)
              refl;
        policy = refl;
        settings = refl;
        membership = refl;
        card = refl;
        departments = λ name. refl;
      }
