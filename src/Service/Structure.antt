-- ===== src/Service/Structure.antt =====
-- Departments, roles and observer accounts (synapse/service.py: _org_create_department,
-- _org_set_agent_department, _structure_by_department, _org_get_org_structure, _require_role,
-- _org_create_observer_account, _org_revoke_observer_account, _org_list_observers).

use synapse_messenger.Prelude.{
  ℕ, Option, none, some, Bool, true, false, not, ◌&&◌, List, [], ◌∷◌, ◌++◌, map, find, select,
  update, any, is_some, order_by, take, ltb, ◌==◌, if◌then◌else◌, String,
}
use synapse_messenger.Hlc.{Clock}
use synapse_messenger.Errors.{
  Result, ok, err, ◌>>=◌, ◌>>◌, raise_if, invalid_argument, user_not_found, access_denied,
  username_already_exists,
}
use synapse_messenger.Db.{
  Db, Account, Department, Membership, OrgRole, manager, employee, rh, active, disabled, agent,
  word,
}
use synapse_messenger.Store.Accounts
use synapse_messenger.Store.Keys.{insert_or_update}
use synapse_messenger.Service.Common.{Env}
use synapse_messenger.Service.Tasks.{task_entry as audit}
use synapse_messenger.Service.Organizations.{org_require_member, insert_account}

-- WHERE organization_name = ? AND department_name = ?
abbrev pub is_department : ℕ → ℕ → Department → Bool
is_department org_name name r = r.organization_name == org_name && r.department_name == name

unfoldable pub has_department : Db → ℕ → ℕ → Bool
has_department d org_name name = any (is_department org_name name) d.departments

-- _org_create_department
unfoldable pub org_create_department : Env → ℕ → ℕ → Db → Result (ℕ × Db)
org_create_department env name org_name d = do
  raise_if (has_department d org_name name) invalid_argument
  let row : Department = record {
    organization_name = org_name;
    department_name = name;
    created_at = env.at;
  }
  ok (name, record d { departments = row ∷ d.departments })

-- INSERT INTO memberships ... ON CONFLICT(username), which leaves the organization of the row
unfoldable pub put_membership : Membership → Db → Db
put_membership m d = record d {
  memberships =
      insert_or_update (λ r. r.username == m.username)
        (λ r. record r {
          department_name = m.department_name;
          role = m.role;
          created_at = m.created_at;
        })
        m d.memberships;
}

abbrev pub membership_of : Db → ℕ → Option Membership
membership_of d username = find (λ m. m.username == username) d.memberships

-- _org_set_agent_department
unfoldable pub org_set_agent_department : Env → ℕ → ℕ → OrgRole → ℕ → Db → Result (ℕ × Db)
org_set_agent_department env username name role org_name d = do
  row ← org_require_member d username org_name
  raise_if (not (has_department d org_name name)) user_not_found
  let m : Membership = record {
    username = username;
    organization_name = org_name;
    department_name = name;
    role = role;
    created_at = env.at;
  }
  ok (username, put_membership m d)

-- by_dept.setdefault(name, []).append(member)
abbrev pub add_member : Membership → List (ℕ × List Membership) → List (ℕ × List Membership)
add_member m [] = (m.department_name, m ∷ []) ∷ []
add_member m ((name, members) ∷ rest) =
    let after = add_member m rest in
    if name == m.department_name
    then (name, members ++ (m ∷ [])) ∷ rest
    else (name, members) ∷ after

abbrev pub add_members : List Membership → List (ℕ × List Membership) → List (ℕ × List Membership)
add_members [] by_dept = by_dept
add_members (m ∷ ms) by_dept = add_members ms (add_member m by_dept)

-- _structure_by_department
unfoldable pub structure_by_department : Db → ℕ → List (ℕ × List Membership)
structure_by_department d org_name =
    add_members
      (order_by (λ a b. ltb a.username b.username)
        (select (λ m. m.organization_name == org_name) d.memberships))
      (map (λ (r : Department). (r.department_name, []))
        (order_by (λ a b. ltb a.department_name b.department_name)
          (select (λ r. r.organization_name == org_name) d.departments)))

abbrev pub is_among : ℕ → List (ℕ × List Membership) → Bool
is_among username by_dept = any (λ g. any (λ m. m.username == username) g.1) by_dept

-- _org_get_org_structure: the departments by name, and the agents that are in none
unfoldable pub org_get_org_structure : ℕ → Db → Result (List (ℕ × List Membership) × List ℕ)
org_get_org_structure org_name d =
    let by_dept = structure_by_department d org_name in
    let all_agents = take 10000 (
      order_by (λ a b. ltb a.username b.username)
        (select (λ (a : Account). a.organization_name == org_name) d.accounts)) in
    ok (
      order_by (λ a b. ltb a.0 b.0) by_dept,
      select (λ username. not (is_among username by_dept)) (map (λ a. a.username) all_agents),
    )

abbrev pub same_role : OrgRole → OrgRole → Bool
same_role manager manager = true
same_role employee employee = true
same_role rh rh = true
same_role _ _ = false

abbrev pub role_of : List OrgRole → Option Membership → Result OrgRole
role_of allowed none = err access_denied
role_of allowed (some m) = if any (same_role m.role) allowed then ok m.role else err access_denied

-- _require_role, with a department where one is given
unfoldable pub require_role : Db → ℕ → List OrgRole → Option ℕ → Result OrgRole
require_role d username allowed none = role_of allowed (membership_of d username)
require_role d username allowed (some name) =
    role_of allowed (find (λ m. m.username == username && m.department_name == name) d.memberships)

-- The parameters of create_observer_account, with the hash of its password
pub record NewObserver : Type 0 where
  pub observer_name : ℕ
  pub password_hash : ℕ
  pub description : String

-- UPDATE accounts SET is_observer = 1
unfoldable pub mark_observer : ℕ → Db → Db
mark_observer username d = record d {
  accounts = update (λ a. a.username == username) (λ a. record a { is_observer = true }) d.accounts;
}

-- _org_create_observer_account
unfoldable pub org_create_observer_account : Env → NewObserver → ℕ → Clock → Db → Result (ℕ × Db)
org_create_observer_account env p org_name hlc d = do
  raise_if (is_some (Accounts.get d p.observer_name)) username_already_exists
  let row : Account = record {
    username = p.observer_name;
    password_hash = p.password_hash;
    status = active;
    description = p.description;
    organization_name = org_name;
    can_see_org_agents = true;
    created_at = env.now;
    principal_type = agent;
    is_observer = false;
  }
  ok (
    p.observer_name,
    audit org_name env.now org_name "create_observer_account" p.observer_name (word "created") hlc
        (mark_observer p.observer_name (insert_account row d)),
  )

-- _org_revoke_observer_account: the account need not be an observer
unfoldable pub org_revoke_observer_account : Env → ℕ → ℕ → Clock → Db → Result (ℕ × Db)
org_revoke_observer_account env username org_name hlc d = do
  row ← org_require_member d username org_name
  ok (
    username,
    audit org_name env.now org_name "revoke_observer_account" username (word "revoked") hlc
        (Accounts.set_status username disabled d),
  )

-- _org_list_observers
unfoldable pub org_list_observers : ℕ → Db → List Account
org_list_observers org_name d =
    order_by (λ a b. ltb a.username b.username)
      (select (λ a. a.organization_name == org_name && a.is_observer) d.accounts)
