-- ===== src/Service/Tenancy.antt =====
-- An organization's commands reach its own accounts and its own row (synapse/service.py).
use synapse_messenger.Prelude.{ℕ, ◌≡◌, ◌≢◌, refl, ◌∙◌, Option, none, some, Bool, arith, String}
use synapse_messenger.Hlc.{Clock}
use synapse_messenger.Errors.{
  Result, ok, Ensures, Ensures-ok, Ensures-bind, Ensures-then, raise_if_passed, ◌>>=◌,
}
use synapse_messenger.Db.{Db, Account, OrgRole}
use synapse_messenger.Store.Accounts
use synapse_messenger.Store.Accounts.{is_active}
use synapse_messenger.Service.Common.{Env}
use synapse_messenger.Service.Guards.{budget_of}
use synapse_messenger.Service.Organizations.{
  member_of, org_require_member, NewAgent, org_create_agent, org_deactivate_agent,
  org_reactivate_agent, org_change_password, org_set_visibility, org_set_policy,
  org_change_organization_password, set_description, org_change_agent_description,
}
use synapse_messenger.Service.Settings.{
  NewPolicy, NewBudget, org_set_event_retention_days, org_set_escalation_policy,
  org_set_agent_budget, org_get_escalation_policy,
}
use synapse_messenger.Store.Cards.{get_card}
use synapse_messenger.Service.Directory.{org_approve_agent_card}
use synapse_messenger.Service.Structure.{
  NewObserver, has_department, membership_of, org_create_department, org_set_agent_department,
  org_create_observer_account, org_revoke_observer_account,
}
use synapse_messenger.Service.Untouched.Settings.{
  put_retention-IsUntouched, put_policy-IsUntouched, write_budget-IsUntouched,
}
use synapse_messenger.Service.Untouched.Structure.{
  add_department-IsUntouched, put_membership-IsUntouched, approve_card-IsUntouched,
  observer-IsUntouched,
}
use synapse_messenger.Service.Untouched.{
  retention_row, IsUntouched, IsUntouched-refl, if-IsUntouched, update-IsUntouched,
  update_own-IsUntouched, insert-IsUntouched, audit-IsUntouched,
}

pub data OrgRequest : Type 0 where
  create_agent : NewAgent → OrgRequest
  deactivate_agent reactivate_agent : ℕ → OrgRequest
  change_password : ℕ → ℕ → OrgRequest
  set_visibility : ℕ → Bool → OrgRequest
  set_policy : Bool → Bool → OrgRequest
  change_organization_password : ℕ → OrgRequest
  change_agent_description : ℕ → String → OrgRequest
  set_event_retention_days : ℕ → Clock → OrgRequest
  set_escalation_policy : NewPolicy → Clock → OrgRequest
  set_agent_budget : NewBudget → Clock → OrgRequest
  create_department : ℕ → OrgRequest
  set_agent_department : ℕ → ℕ → OrgRole → OrgRequest
  create_observer_account : NewObserver → Clock → OrgRequest
  revoke_observer_account : ℕ → Clock → OrgRequest
  approve_agent_card : ℕ → OrgRequest

-- The write commands of the organization `org_name`, one at a time.
unfoldable pub run_org_request : Env → ℕ → OrgRequest → Db → Result (ℕ × Db)
run_org_request env org_name (create_agent p) d = org_create_agent env p org_name d
run_org_request env org_name (deactivate_agent u) d = org_deactivate_agent u org_name d
run_org_request env org_name (reactivate_agent u) d = org_reactivate_agent u org_name d
run_org_request env org_name (change_password u hash) d = org_change_password u hash org_name d d
run_org_request env org_name (set_visibility u b) d = org_set_visibility u b org_name d
run_org_request env org_name (set_policy incoming outgoing) d =
    org_set_policy incoming outgoing org_name d
run_org_request env org_name (change_organization_password hash) d =
    org_change_organization_password hash org_name d
run_org_request env org_name (change_agent_description u text) d =
    org_change_agent_description u text org_name d
run_org_request env org_name (set_event_retention_days days hlc) d =
    org_set_event_retention_days env days org_name hlc d
run_org_request env org_name (set_escalation_policy p hlc) d = do
  a ← org_set_escalation_policy env p org_name hlc d
  ok (org_name, a.1)
run_org_request env org_name (set_agent_budget p hlc) d = do
  a ← org_set_agent_budget env p org_name hlc d
  ok (p.username, a.1)
run_org_request env org_name (create_department name) d = org_create_department env name org_name d
run_org_request env org_name (set_agent_department u name role) d =
    org_set_agent_department env u name role org_name d
run_org_request env org_name (create_observer_account p hlc) d =
    org_create_observer_account env p org_name hlc d
run_org_request env org_name (revoke_observer_account u hlc) d =
    org_revoke_observer_account env u org_name hlc d
run_org_request env org_name (approve_agent_card u) d = org_approve_agent_card env u org_name d

pub member_found :
    (d : Db) (u org : ℕ) {row : Account}
    → org_require_member d u org ≡ ok row
    → (Accounts.get d u ≡ some row) × (row.organization_name ≡ org)
unfolding org_require_member
member_found d u org {row} h = found (Accounts.get d u) h
  where
    found :
        (m : Option Account)
        → member_of org m ≡ ok row
        → (m ≡ some row) × (row.organization_name ≡ org)
    found none h = cc
    found (some a) h = ground (arith, h)

module _ (org u o : ℕ) (d : Db) (row : Account) (foreign : o ≢ org)
    (found : Accounts.get d u ≡ some row) (elsewhere : row.organization_name ≢ org) where
  -- A member's name is another one than `u`.
  not_member : (v : ℕ) {r : Account} → org_require_member d v org ≡ ok r → u ≢ v
  not_member v {r} e same =
      let (seen, own) = member_found d v org e in elsewhere (clash r (rw same seen) own)
    where
      clash :
          (r : Account)
          → Accounts.get d u ≡ some r
          → r.organization_name ≡ org
          → row.organization_name ≡ org
      clash r seen own = cc

  run-IsUntouched :
      (env : Env) (request : OrgRequest)
      → Ensures (λ a. IsUntouched u o d a.1) (run_org_request env org request d)
  unfolding run_org_request org_create_agent org_deactivate_agent org_reactivate_agent
      org_change_password org_set_visibility org_set_policy org_change_organization_password
      org_change_agent_description Accounts.set_status Accounts.set_password_hash
      Accounts.set_visibility Accounts.update_policies Accounts.update_password set_description
      org_set_event_retention_days org_set_escalation_policy org_set_agent_budget
      org_create_department org_set_agent_department org_create_observer_account
      org_revoke_observer_account org_approve_agent_card
  run-IsUntouched env (create_agent p) = Ensures-bind _ _ λ _ _. Ensures-bind _ _ λ _ _.
      Ensures-bind _ _
        λ _ free. Ensures-ok _ (insert-IsUntouched _ found (raise_if_passed _ _ free))
  run-IsUntouched env (deactivate_agent v) = Ensures-bind _ _ λ r e. Ensures-bind _ _ λ _ _.
      Ensures-ok _ (
        if-IsUntouched (is_active r.status) _ _
          (update-IsUntouched v _ (not_member v e) (λ a. refl)) IsUntouched-refl)
  run-IsUntouched env (reactivate_agent v) = Ensures-bind _ _ λ r e. Ensures-ok _ (
      if-IsUntouched (is_active r.status) _ _ IsUntouched-refl
        (update-IsUntouched v _ (not_member v e) (λ a. refl)))
  run-IsUntouched env (change_password v hash) = Ensures-bind _ _ λ r e.
      Ensures-bind _ _ λ _ _. Ensures-ok _ (update-IsUntouched v _ (not_member v e) (λ a. refl))
  run-IsUntouched env (set_visibility v b) =
      Ensures-bind _ _ λ r e. Ensures-ok _ (update-IsUntouched v _ (not_member v e) (λ a. refl))
  run-IsUntouched env (set_policy incoming outgoing) =
      Ensures-ok _ (update_own-IsUntouched org _ foreign (λ a. refl))
  run-IsUntouched env (change_organization_password hash) =
      Ensures-ok _ (update_own-IsUntouched org _ foreign (λ a. refl))
  run-IsUntouched env (change_agent_description v text) = Ensures-bind _ _ λ r e.
      Ensures-bind _ _ λ _ _. Ensures-ok _ (update-IsUntouched v _ (not_member v e) (λ a. refl))
  run-IsUntouched env (set_event_retention_days days hlc) = Ensures-ok _ (
      audit-IsUntouched _ _ _ "set_event_retention_days" _ _ _ _
        (put_retention-IsUntouched org days foreign))
  run-IsUntouched env (set_escalation_policy p hlc) =
      Ensures-then _ _
        (Ensures-bind _ _ λ _ _. Ensures-ok _ (
          audit-IsUntouched _ _ _ "set_escalation_policy" _ _ _ _
            (put_policy-IsUntouched _ foreign)))
        λ a h. Ensures-ok _ h
  run-IsUntouched env (set_agent_budget p hlc) =
      Ensures-then _ _
        (Ensures-bind _ _ λ r e. Ensures-ok _ (
          audit-IsUntouched _ _ _ "set_agent_budget" _ _ _ _
            (write_budget-IsUntouched p (not_member p.username e))))
        λ a h. Ensures-ok _ h
  run-IsUntouched env (create_department name) =
      Ensures-bind _ _ λ _ _. Ensures-ok _ (add_department-IsUntouched org _ refl foreign)
  run-IsUntouched env (set_agent_department v name role) =
      Ensures-bind _ _
        λ r e. Ensures-bind _ _ λ _ _. Ensures-ok _ (put_membership-IsUntouched _ (not_member v e))
  run-IsUntouched env (create_observer_account p hlc) = Ensures-bind _ _ λ _ free. Ensures-ok _ (
      audit-IsUntouched _ _ _ "create_observer_account" _ _ _ _
        (observer-IsUntouched _ p.observer_name found (raise_if_passed _ _ free) refl))
  run-IsUntouched env (revoke_observer_account v hlc) = Ensures-bind _ _ λ r e. Ensures-ok _ (
      audit-IsUntouched _ _ _ "revoke_observer_account" _ _ _ _
        (update-IsUntouched v _ (not_member v e) (λ a. refl)))
  run-IsUntouched env (approve_agent_card v) = Ensures-bind _ _ λ r e.
      Ensures-bind _ _ λ _ _. Ensures-ok _ (approve_card-IsUntouched v org _ (not_member v e))

-- No command of an organization reaches another one: an account of another organization and the row
-- of another organization are found as they were after every command that returns, and so are the
-- account's budget, membership and card, and the organization's escalation policy, retention and departments.
pub org_commands_stay_inside :
    (env : Env) (org u o : ℕ) (request : OrgRequest) (d : Db) (row : Account) {a : ℕ × Db}
    → o ≢ org
    → Accounts.get d u ≡ some row
    → row.organization_name ≢ org
    → run_org_request env org request d ≡ ok a
    → (Accounts.get a.1 u ≡ some row)
      × (Accounts.get_organization a.1 o ≡ Accounts.get_organization d o)
      × (budget_of a.1 u ≡ budget_of d u)
      × (org_get_escalation_policy a.1 o ≡ org_get_escalation_policy d o)
      × (retention_row a.1 o ≡ retention_row d o)
      × (membership_of a.1 u ≡ membership_of d u)
      × (get_card a.1 u ≡ get_card d u)
      × ((name : ℕ) → has_department a.1 o name ≡ has_department d o name)
org_commands_stay_inside env org u o request d row {a} foreign found elsewhere ran =
    let same = (run-IsUntouched org u o d row foreign found elsewhere env request).returns a ran in
    (
      same.account ∙ found,
      same.organization,
      same.budget,
      same.policy,
      same.settings,
      same.membership,
      same.card,
      same.departments,
    )
