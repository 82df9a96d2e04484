-- ===== src/Service/SoundCache.antt =====
-- The cache of passwords over complete requests (synapse/service.py: Service.process).
use synapse_messenger.Prelude.{
  ℕ, ◌≡◌, Option, none, some, Bool, true, false, not, ◌==◌, is_some, if◌then◌else◌,
}
use synapse_messenger.Errors.{Result, err, auth_failed, access_denied}
use synapse_messenger.Db.{
  Db, Account, Organization, AuthKey, of_user, of_org, PrincipalType, agent, human,
}
use synapse_messenger.Store.Accounts
use synapse_messenger.Store.Accounts.{is_active}
use synapse_messenger.Service.Auth.{
  Secrets, Attempt, AuthState, check_password, check_by_type, check_account, check_principal,
  check_organization, refuse, accept, authenticate, authenticate_organization,
}
use synapse_messenger.Service.PasswordCache.{IsSound, cache_agrees}

module _ (secrets : Secrets) (at : Attempt)
    (no_collision : (a b : ℕ) → secrets.digest a ≡ secrets.digest b → a ≡ b) where
  abbrev Sound : {A : Type 0} → Result A × AuthState → Type 0
  Sound x = IsSound secrets x.1.cache

  if-Sound :
      {A : Type 0} (b : Bool) (x y : Result A × AuthState)
      → Sound x
      → Sound y
      → Sound (if b then x else y)
  if-Sound true x y h k = h
  if-Sound false x y h k = k

  check_password-Sound :
      {A : Type 0} (key : AuthKey) (a : A) (or_token : Bool) (hash password : ℕ) (s : AuthState)
      → IsSound secrets s.cache
      → Sound (check_password secrets at key a or_token hash password s)
  check_password-Sound key a or_token hash password s sound =
      let (agrees, kept) = cache_agrees secrets at key hash password s.cache no_collision sound in
      if-Sound _ (accept key a _) (refuse at key _) kept kept

  by_type-Sound :
      (key : AuthKey) (password : ℕ) (r : Account) (o : Organization) (type : PrincipalType)
      (s : AuthState)
      → IsSound secrets s.cache
      → Sound (check_by_type secrets at key password r o type s)
  by_type-Sound key password r o human s sound = check_password-Sound key _ true _ password s sound
  by_type-Sound key password r o agent s sound = check_password-Sound key _ false _ password s sound

  account-Sound :
      (key : AuthKey) (password : ℕ) (r : Account) (m : Option Organization) (s : AuthState)
      → IsSound secrets s.cache
      → Sound (check_account secrets at key password r m s)
  account-Sound key password r none s sound = sound
  account-Sound key password r (some o) s sound =
      if-Sound (not o.enabled) (refuse at key s) _ sound
        (by_type-Sound key password r o r.principal_type s sound)

  principal-Sound :
      (d : Db) (key : AuthKey) (password : ℕ) (m : Option Account) (s : AuthState)
      → IsSound secrets s.cache
      → Sound (check_principal secrets at d key password m s)
  principal-Sound d key password none s sound = sound
  principal-Sound d key password (some r) s sound =
      if-Sound (not (is_active r.status)) (refuse at key s) _ sound
        (account-Sound key password r _ s sound)

  pub authenticate-Sound :
      (d : Db) (username password : ℕ) (s : AuthState)
      → IsSound secrets s.cache
      → Sound (authenticate secrets at d username password s)
  unfolding authenticate
  authenticate-Sound d username password s sound =
      if-Sound (username == at.web_local) _ _
        (if-Sound (secrets.web_token_matches password) (accept (of_user username) none s)
          (refuse at (of_user username) s) sound sound)
        (if-Sound _ (err auth_failed, _) _ sound
          (principal-Sound d (of_user username) password (Accounts.get d username) _ sound))

  organization-Sound :
      (d : Db) (name password : ℕ) (m : Option Organization) (s : AuthState)
      → IsSound secrets s.cache
      → Sound (check_organization secrets at d name password m s)
  organization-Sound d name password none s sound =
      if-Sound (is_some (Accounts.get d name)) (err access_denied, s) (refuse at (of_org name) s)
        sound sound
  organization-Sound d name password (some o) s sound =
      if-Sound (not o.enabled) (refuse at (of_org name) s) _ sound
        (check_password-Sound (of_org name) name true o.password_hash password s sound)

  pub authenticate_organization-Sound :
      (d : Db) (name password : ℕ) (s : AuthState)
      → IsSound secrets s.cache
      → Sound (authenticate_organization secrets at d name password s)
  unfolding authenticate_organization
  authenticate_organization-Sound d name password s sound =
      if-Sound _ (err auth_failed, _) _ sound
        (organization-Sound d name password (Accounts.get_organization d name) _ sound)
