-- ===== src/Service/Organizations.antt =====
-- The commands of an organization on its agents (synapse/service.py: _org_require_member and
-- _org_create_agent to _org_change_agent_description) and the delegations of tasks (F17).
use synapse_messenger.Prelude.{
  ℕ, Option, none, some, Bool, true, false, not, ◌&&◌, ◌∷◌, select, update, any, is_some, ◌==◌, leb,
  if◌then◌else◌, String,
}
use synapse_messenger.Hlc.{Clock}
use synapse_messenger.Errors.{
  Result, ok, err, ◌>>=◌, ◌>>◌, raise_if, user_not_found, invalid_argument, username_already_exists,
  access_denied, policy_denied,
}
use synapse_messenger.Db.{
  Db, Account, active, disabled, PrincipalType, agent, human, Delegation, name,
}
use synapse_messenger.Store.Accounts
use synapse_messenger.Store.Accounts.{is_active}
use synapse_messenger.Service.Common.{Env}
use synapse_messenger.Service.Guards.{
  org_of, task_visible_or_404, require_active_account, external_comm_allowed,
}
use synapse_messenger.Service.Tasks.{task_entry as audit}

abbrev pub is_human : PrincipalType → Bool
is_human human = true
is_human agent = false

abbrev pub member_of : ℕ → Option Account → Result Account
member_of org_name none = err user_not_found
member_of org_name (some row) =
    if row.organization_name == org_name then ok row else err user_not_found

-- _org_require_member
unfoldable pub org_require_member : Db → ℕ → ℕ → Result Account
org_require_member d username org_name = member_of org_name (Accounts.get d username)

-- The parameters of create_agent; the password is hashed before the transaction, and `is_reserved` is
-- the answer of is_reserved_human_username on the name.
pub record NewAgent : Type 0 where
  pub username : ℕ
  pub is_reserved : Bool
  pub password_hash : ℕ
  pub description : String
  pub can_see_org_agents : Bool
  pub principal_type : PrincipalType

-- accounts.insert
unfoldable pub insert_account : Account → Db → Db
insert_account row d = record d { accounts = row ∷ d.accounts }

-- _org_create_agent
unfoldable pub org_create_agent : Env → NewAgent → ℕ → Db → Result (ℕ × Db)
org_create_agent env p org_name d = do
  raise_if p.is_reserved invalid_argument
  raise_if (is_human p.principal_type) invalid_argument
  raise_if (is_some (Accounts.get d p.username)) username_already_exists
  ok (
    p.username,
    insert_account
        (record {
          username = p.username;
          password_hash = p.password_hash;
          status = active;
          description = p.description;
          organization_name = org_name;
          can_see_org_agents = p.can_see_org_agents;
          created_at = env.now;
          principal_type = p.principal_type;
          is_observer = false;
        })
        d,
  )

-- _org_deactivate_agent
unfoldable pub org_deactivate_agent : ℕ → ℕ → Db → Result (ℕ × Db)
org_deactivate_agent username org_name d = do
  row ← org_require_member d username org_name
  raise_if (is_human row.principal_type) access_denied
  ok (username, if is_active row.status then Accounts.set_status username disabled d else d)

-- _org_reactivate_agent
unfoldable pub org_reactivate_agent : ℕ → ℕ → Db → Result (ℕ × Db)
org_reactivate_agent username org_name d = do
  row ← org_require_member d username org_name
  ok (username, if is_active row.status then d else Accounts.set_status username active d)

-- _org_change_password: `seen` is the database before the hash is computed, `d` the transaction's.
unfoldable pub org_change_password : ℕ → ℕ → ℕ → Db → Db → Result (ℕ × Db)
org_change_password username password_hash org_name seen d = do
  row ← org_require_member seen username org_name
  raise_if (is_human row.principal_type) access_denied
  ok (username, Accounts.set_password_hash username password_hash d)

-- _org_set_visibility
unfoldable pub org_set_visibility : ℕ → Bool → ℕ → Db → Result (ℕ × Db)
org_set_visibility username can_see_org_agents org_name d = do
  row ← org_require_member d username org_name
  ok (username, Accounts.set_visibility username can_see_org_agents d)

-- _org_set_policy
unfoldable pub org_set_policy : Bool → Bool → ℕ → Db → Result (ℕ × Db)
org_set_policy incoming outgoing org_name d =
    ok (org_name, Accounts.update_policies org_name incoming outgoing d)

-- _org_change_organization_password
unfoldable pub org_change_organization_password : ℕ → ℕ → Db → Result (ℕ × Db)
org_change_organization_password password_hash org_name d =
    ok (org_name, Accounts.update_password org_name password_hash d)

-- UPDATE accounts SET description
unfoldable pub set_description : ℕ → String → Db → Db
set_description username description d = record d {
  accounts =
      update (λ a. a.username == username) (λ a. record a { description = description }) d.accounts;
}

-- _org_change_agent_description
unfoldable pub org_change_agent_description : ℕ → String → ℕ → Db → Result (ℕ × Db)
org_change_agent_description username description org_name d = do
  row ← org_require_member d username org_name
  raise_if (is_human row.principal_type) access_denied
  ok (username, set_description username description d)

-- _agent_create_delegation
unfoldable pub agent_create_delegation : Env → ℕ → ℕ → ℕ → ℕ → Clock → Db → Result (ℕ × Db)
agent_create_delegation env task_id delegatee expires_at me hlc d = do
  row ← task_visible_or_404 d env.now task_id me false
  require_active_account d delegatee
  raise_if (not (external_comm_allowed d me delegatee)) policy_denied
  raise_if (leb expires_at env.at) invalid_argument
  let delegation : Delegation = record {
    delegator_username = me;
    delegatee_username = delegatee;
    task_id = task_id;
    expires_at = expires_at;
    created_at = env.at;
  }
  let d1 = record d { delegations = delegation ∷ d.delegations }
  org ← org_of d1 me
  ok (task_id, audit org env.at me "create_delegation" task_id (name delegatee) hlc d1)

abbrev pub is_delegation : ℕ → ℕ → ℕ → Delegation → Bool
is_delegation me task_id delegatee r =
    r.delegator_username == me && r.task_id == task_id && r.delegatee_username == delegatee

-- _agent_revoke_delegation: whether there was one
unfoldable pub agent_revoke_delegation : Env → ℕ → ℕ → ℕ → Clock → Db → Result (Bool × Db)
agent_revoke_delegation env task_id delegatee me hlc d = do
  row ← task_visible_or_404 d env.now task_id me false
  let rest = select (λ r. not (is_delegation me task_id delegatee r)) d.delegations
  let d1 = record d { delegations = rest }
  org ← org_of d1 me
  ok (
    any (is_delegation me task_id delegatee) d.delegations,
    audit org env.at me "revoke_delegation" task_id (name delegatee) hlc d1,
  )
