-- ===== src/Service/Placement.antt =====
-- The structure of the organizations under every command of an organization (synapse/service.py:
-- _org_create_department, _org_set_agent_department and the other write commands).
use synapse_messenger.Prelude.{
  ℕ, ◌≡◌, refl, sym, ap, ◌∙◌, some, Bool, true, false, List, [], ◌∷◌, All, update, any, is_some,
  ◌==◌, ==_iff, if◌then◌else◌,
}
use mathlib.Core.Path.{subst}
use synapse_messenger.Errors.{
  ok, Ensures, Ensures-ok, Ensures-bind, Ensures-then, raise_if_passed, raise_unless_passed,
}
use synapse_messenger.Db.{Db, Account, Membership, AuditEntry}
use synapse_messenger.Store.Accounts
use synapse_messenger.Store.Accounts.{is_active}
use synapse_messenger.Store.Audit
use synapse_messenger.Service.Common.{Env}
use synapse_messenger.Service.Organizations
use synapse_messenger.Service.Settings
use synapse_messenger.Store.Cards.{approve_card}
use synapse_messenger.Service.Directory.{org_approve_agent_card}
use synapse_messenger.Service.Structure.{
  has_department, put_membership, mark_observer, org_create_department, org_set_agent_department,
  org_create_observer_account, org_revoke_observer_account,
}
use synapse_messenger.Service.Placed.{
  IsPlaced, IsStructured, Grows, Grows-IsStructured, Grows-trans, Grows-refl, if-Grows,
  same_tables-Grows, update-Grows, insert-Grows, add_department-Grows,
}
use synapse_messenger.Service.Tenancy.{
  OrgRequest, create_agent, deactivate_agent, reactivate_agent, change_password, set_visibility,
  set_policy, change_organization_password, change_agent_description, set_event_retention_days,
  set_escalation_policy, set_agent_budget, create_department, set_agent_department,
  create_observer_account, revoke_observer_account, approve_agent_card, run_org_request,
  member_found,
}

module _ (d : Db) (m : Membership) (placed : IsPlaced d m) where
  -- A row of the same account is of the same organization.
  moved-IsPlaced :
      (r : Membership)
      → (r.username == m.username) ≡ true
      → IsPlaced d r
      → IsPlaced d (record r {
        department_name = m.department_name;
        role = m.role;
        created_at = m.created_at;
      })
  moved-IsPlaced r same ((a, found, own), known) =
      let (b, seen, theirs) = placed.0 in
      let same_org : m.organization_name ≡ r.organization_name =
        sym theirs
        ∙ one_account a b (ap (Accounts.get d) ((==_iff r.username m.username).0 same)) found seen
        ∙ own in
      ((a, found, own), subst (λ o. has_department d o m.department_name ≡ true) same_org placed.1)
    where
      one_account :
          (a b : Account)
          → Accounts.get d r.username ≡ Accounts.get d m.username
          → Accounts.get d r.username ≡ some a
          → Accounts.get d m.username ≡ some b
          → b.organization_name ≡ a.organization_name
      one_account a b same h k = organization (sym k ∙ sym same ∙ h)
        where
          organization : some b ≡ some a → b.organization_name ≡ a.organization_name
          organization e = cc

  update-IsPlaced :
      (rows : List Membership)
      → All (IsPlaced d) rows
      → All (IsPlaced d) (
          update
            (λ r. r.username == m.username)
            (λ r. record r {
              department_name = m.department_name;
              role = m.role;
              created_at = m.created_at;
            })
            rows)
  update-IsPlaced [] h = tt
  update-IsPlaced (r ∷ rows) (p, h) = (at (r.username == m.username) refl, update-IsPlaced rows h)
    where
      at :
          (b : Bool)
          → (r.username == m.username) ≡ b
          → IsPlaced d (
              if b
              then record r {
                department_name = m.department_name;
                role = m.role;
                created_at = m.created_at;
              }
              else r)
      at true same = moved-IsPlaced r same p
      at false same = p

  put_membership-IsStructured : IsStructured d → IsStructured (put_membership m d)
  unfolding put_membership Accounts.get has_department
  put_membership-IsStructured h = at (any (λ r. r.username == m.username) d.memberships)
    where
      at :
          (b : Bool)
          → All (IsPlaced d) (
              if b
              then update
                  (λ r. r.username == m.username)
                  (λ r. record r {
                    department_name = m.department_name;
                    role = m.role;
                    created_at = m.created_at;
                  })
                  d.memberships
              else m ∷ d.memberships)
      at true = update-IsPlaced d.memberships h
      at false = (placed, h)

module _ (env : Env) (org : ℕ) (d : Db) (structured : IsStructured d) where
  abbrev Kept : ℕ × Db → Type 0
  Kept a = IsStructured a.1

  grown : {x : ℕ} {d' : Db} → Grows d d' → Ensures Kept (ok (x, d'))
  grown {x} {d'} g = Ensures-ok (x, d') (Grows-IsStructured d d' g structured)

  audited : (e : AuditEntry) (x : Db) → Grows d x → Grows d (Audit.append e x)
  unfolding Audit.append
  audited e x g = Grows-trans g (same_tables-Grows _ refl refl refl)

  run-IsStructured : (request : OrgRequest) → Ensures Kept (run_org_request env org request d)
  unfolding run_org_request Organizations.org_create_agent Organizations.org_deactivate_agent
      Organizations.org_reactivate_agent Organizations.org_change_password
      Organizations.org_set_visibility Organizations.org_set_policy
      Organizations.org_change_organization_password Organizations.org_change_agent_description
      Accounts.set_status Accounts.set_password_hash Accounts.set_visibility
      Accounts.update_policies Accounts.update_password Organizations.set_description
      Settings.org_set_event_retention_days Settings.org_set_escalation_policy
      Settings.org_set_agent_budget org_create_department org_set_agent_department
      org_create_observer_account org_revoke_observer_account mark_observer Settings.put_retention
      org_approve_agent_card approve_card Settings.put_policy Settings.put_budget
      Settings.delete_budget
  run-IsStructured (create_agent p) = Ensures-bind _ _ λ _ _.
      Ensures-bind _ _
        λ _ _. Ensures-bind _ _ λ _ free. grown (insert-Grows _ (raise_if_passed _ _ free))
  run-IsStructured (deactivate_agent v) = Ensures-bind _ _ λ r _. Ensures-bind _ _ λ _ _.
      grown (if-Grows (is_active r.status) _ _ (update-Grows v _ (λ a. (refl, refl))) Grows-refl)
  run-IsStructured (reactivate_agent v) = Ensures-bind _ _ λ r _.
      grown (if-Grows (is_active r.status) _ _ Grows-refl (update-Grows v _ (λ a. (refl, refl))))
  run-IsStructured (change_password v hash) =
      Ensures-bind _ _ λ _ _. Ensures-bind _ _ λ _ _. grown (update-Grows v _ (λ a. (refl, refl)))
  run-IsStructured (set_visibility v b) =
      Ensures-bind _ _ λ _ _. grown (update-Grows v _ (λ a. (refl, refl)))
  run-IsStructured (set_policy incoming outgoing) = grown (same_tables-Grows _ refl refl refl)
  run-IsStructured (change_organization_password hash) = grown (same_tables-Grows _ refl refl refl)
  run-IsStructured (change_agent_description v text) =
      Ensures-bind _ _ λ _ _. Ensures-bind _ _ λ _ _. grown (update-Grows v _ (λ a. (refl, refl)))
  run-IsStructured (set_event_retention_days days hlc) =
      grown (audited _ _ (same_tables-Grows _ refl refl refl))
  run-IsStructured (set_escalation_policy p hlc) =
      Ensures-then _ _
        (Ensures-bind _ _ λ _ _.
          Ensures-ok {P = λ a. IsStructured a.1} _
            (Grows-IsStructured _ _ (audited _ _ (same_tables-Grows _ refl refl refl)) structured))
        λ a h. Ensures-ok _ h
  run-IsStructured (set_agent_budget p hlc) =
      Ensures-then _ _
        (Ensures-bind _ _ λ _ _. Ensures-ok {P = λ a. IsStructured a.1} _ (
          Grows-IsStructured _ _
            (audited _ _ (
              if-Grows (is_some p.max_active_tasks) _ _ (same_tables-Grows _ refl refl refl) (
                if-Grows (is_some p.max_messages_per_hour) _ _ (same_tables-Grows _ refl refl refl)
                  (same_tables-Grows _ refl refl refl))))
            structured))
        λ a h. Ensures-ok _ h
  run-IsStructured (create_department name) = Ensures-bind _ _ λ _ _. grown (add_department-Grows _)
  run-IsStructured (set_agent_department v name role) = Ensures-bind _ _ λ row e.
      Ensures-bind _ _ λ _ known.
        let (found, own) = member_found d v org e in
        Ensures-ok _ (
          put_membership-IsStructured d _ ((row, found, own), raise_unless_passed _ _ known)
            structured)
  run-IsStructured (create_observer_account p hlc) = Ensures-bind _ _ λ _ free. grown (
      audited _ _ (
        Grows-trans (insert-Grows _ (raise_if_passed _ _ free))
          (update-Grows p.observer_name _ (λ a. (refl, refl)))))
  run-IsStructured (revoke_observer_account v hlc) =
      Ensures-bind _ _ λ _ _. grown (audited _ _ (update-Grows v _ (λ a. (refl, refl))))
  run-IsStructured (approve_agent_card v) =
      Ensures-bind _ _ λ _ _. Ensures-bind _ _ λ _ _. grown (same_tables-Grows _ refl refl refl)

-- Every membership stays in place: if each is of an account of its organization, and in a department
-- that its organization has, then so it is after every command of an organization that returns.
pub org_command-IsStructured :
    (env : Env) (org : ℕ) (request : OrgRequest) (d : Db) {a : ℕ × Db}
    → IsStructured d
    → run_org_request env org request d ≡ ok a
    → IsStructured a.1
org_command-IsStructured env org request d {a} structured ran =
    (run-IsStructured env org d structured request).returns a ran
