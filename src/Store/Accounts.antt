-- ===== src/Store/Accounts.antt =====
-- Accounts and organizations (synapse/store/accounts.py, synapse/store/organizations.py).
use synapse_messenger.Prelude.{ℕ, Bool, Option, find, update, ◌==◌, true}
use synapse_messenger.Db.{Db, Account, AccountStatus, active, disabled, Organization}

-- accounts.get
unfoldable pub get : Db → ℕ → Option Account
get d username = find (λ a. a.username == username) d.accounts

-- organizations.get
unfoldable pub get_organization : Db → ℕ → Option Organization
get_organization d name = find (λ o. o.organization_name == name) d.organizations

abbrev pub is_active : AccountStatus → Bool
is_active active = true
is_active disabled = Bool.false

-- accounts.set_status
unfoldable pub set_status : ℕ → AccountStatus → Db → Db
set_status username status d = record d {
  accounts = update (λ a. a.username == username) (λ a. record a { status = status }) d.accounts;
}

-- accounts.set_password_hash
unfoldable pub set_password_hash : ℕ → ℕ → Db → Db
set_password_hash username password_hash d = record d {
  accounts =
      update (λ a. a.username == username) (λ a. record a { password_hash = password_hash })
        d.accounts;
}

-- accounts.set_visibility
unfoldable pub set_visibility : ℕ → Bool → Db → Db
set_visibility username can_see_org_agents d = record d {
  accounts =
      update (λ a. a.username == username)
        (λ a. record a { can_see_org_agents = can_see_org_agents }) d.accounts;
}

-- organizations.update_policies
unfoldable pub update_policies : ℕ → Bool → Bool → Db → Db
update_policies name incoming outgoing d = record d {
  organizations =
      update (λ o. o.organization_name == name)
        (λ o. record o { allow_incoming_external = incoming; allow_outgoing_external = outgoing })
        d.organizations;
}

-- organizations.update_password
unfoldable pub update_password : ℕ → ℕ → Db → Db
update_password name password_hash d = record d {
  organizations =
      update (λ o. o.organization_name == name) (λ o. record o { password_hash = password_hash })
        d.organizations;
}
