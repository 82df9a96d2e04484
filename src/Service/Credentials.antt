-- ===== src/Service/Credentials.antt =====
-- What a request has shown before its handler runs (synapse/service.py: Service._dispatch,
-- Service._authenticate_organization).
use synapse_messenger.Prelude.{
  ℕ, ◌≡◌, refl, sym, ap, ◌∙◌, Option, none, some, Bool, true, false, not, ◌||◌, arith, ◌==◌, ==_iff,
  is_some, if◌then◌else◌,
}
use synapse_messenger.Errors.{Result, ok, err, auth_failed, access_denied}
use synapse_messenger.Db.{Db, Account, Organization, of_user, of_org, PrincipalType, agent, human}
use synapse_messenger.Store.Accounts
use synapse_messenger.Store.Accounts.{is_active}
use synapse_messenger.Store.AuthFailures
use synapse_messenger.Service.Auth.{
  Secrets, Attempt, AuthState, cached_password_ok, check_password, check_by_type, check_account,
  check_principal, check_organization, unless_locked, refuse, accept, authenticate,
  authenticate_organization,
}
use synapse_messenger.Service.PasswordCache.{IsSound, cache_agrees}

-- The organization is enabled, and the password is its own or the token of the web interface.
abbrev pub MayAct : Secrets → Db → ℕ → ℕ → Type 0
MayAct secrets d org_name password =
    (o : Organization) × (Accounts.get_organization d org_name ≡ some o)
    × (o.enabled ≡ true)
    × ((secrets.verify_password o.password_hash password || secrets.web_token_matches password)
        ≡ true)

module _ (secrets : Secrets) (at : Attempt) (d : Db) (org_name password : ℕ)
    (no_collision : (a b : ℕ) → secrets.digest a ≡ secrets.digest b → a ≡ b) where
  organization_passed :
      (s : AuthState) {n : ℕ} (m : Option Organization)
      → IsSound secrets s.cache
      → Accounts.get_organization d org_name ≡ m
      → (check_organization secrets at d org_name password m s).0 ≡ ok n
      → (n ≡ org_name) × MayAct secrets d org_name password
  organization_passed s {n} none sound e h = no_row (is_some (Accounts.get d org_name)) h
    where
      no_row :
          (b : Bool)
          → (if b then (err access_denied, s) else refuse {A = ℕ} at (of_org org_name) s).0 ≡ ok n
          → (n ≡ org_name) × MayAct secrets d org_name password
      no_row true h = cc
      no_row false h = cc
  organization_passed s {n} (some o) sound e h =
      let (agrees, _) =
        cache_agrees secrets at (of_org org_name) o.password_hash password s.cache no_collision
          sound in
      let (enabled, named, passed) = parts o.enabled h in
      (
        named,
        (o, e, enabled, ap (λ b. b || secrets.web_token_matches password) (sym agrees) ∙ passed),
      )
    where
      parts :
          (b : Bool)
          → (if not b
              then refuse at (of_org org_name) s
              else check_password secrets at
                  (of_org org_name)
                  org_name
                  true
                  o.password_hash
                  password
                  s).0
            ≡ ok n
          → (b ≡ true)
            × (n ≡ org_name)
            × (((cached_password_ok secrets at (of_org org_name) o.password_hash password s.cache).0
                  || secrets.web_token_matches password)
                ≡ true)
      parts true h = ground (arith, h)
      parts false h = cc

  -- An organization that is authenticated has shown its password, or the token.
  pub organization_is_proved :
      (s : AuthState) {n : ℕ}
      → IsSound secrets s.cache
      → (authenticate_organization secrets at d org_name password s).0 ≡ ok n
      → (n ≡ org_name) × MayAct secrets d org_name password
  unfolding authenticate_organization
  organization_is_proved s {n} sound h = unlocked _ h
    where
      s1 : AuthState
      s1 = record s { failures = AuthFailures.prune at.cutoff s.failures }

      unlocked :
          (b : Bool)
          → (if b
              then (err auth_failed, s1)
              else check_organization secrets at d org_name password
                  (Accounts.get_organization d org_name)
                  s1).0
            ≡ ok n
          → (n ≡ org_name) × MayAct secrets d org_name password
      unlocked true h = cc
      unlocked false h = organization_passed s1 _ sound refl h

  -- Only the token opens the service to the identity of the web interface.
  pub web_local_is_proved :
      (s : AuthState)
      → (authenticate secrets at d org_name password s).0 ≡ ok none
      → (org_name ≡ at.web_local) × (secrets.web_token_matches password ≡ true)
  unfolding authenticate
  web_local_is_proved s h = outer (org_name == at.web_local) (==_iff org_name at.web_local).0 h
    where
      Login : Type 0
      Login = Result (Option Account) × AuthState

      s1 : AuthState
      s1 = record s { failures = AuthFailures.prune at.cutoff s.failures }

      Shown : Type 0
      Shown = (org_name ≡ at.web_local) × (secrets.web_token_matches password ≡ true)

      by_token :
          (b : Bool)
          → org_name ≡ at.web_local
          → secrets.web_token_matches password ≡ b
          → (if b
              then accept {A = Option Account} (of_user org_name) none s
              else refuse at (of_user org_name) s).0
            ≡ ok none
          → Shown
      by_token true e t h = (e, t)
      by_token false e t h = cc

      checked :
          (b : Bool) (r : Account) (k : AuthState)
          → (if b then accept (of_user org_name) (some r) k else refuse at (of_user org_name) k).0
            ≡ ok none
          → Shown
      checked true r k h = cc
      checked false r k h = cc

      by_type :
          (r : Account) (o : Organization) (type : PrincipalType)
          → (check_by_type secrets at (of_user org_name) password r o type s1).0 ≡ ok none
          → Shown
      by_type r o human h = checked _ r _ h
      by_type r o agent h = checked _ r _ h

      account :
          (r : Account) (active : Bool) (m : Option Organization)
          → (if not active
              then refuse at (of_user org_name) s1
              else check_account secrets at (of_user org_name) password r m s1).0
            ≡ ok none
          → Shown
      account r false m h = cc
      account r true none h = cc
      account r true (some o) h = enabled o.enabled h
        where
          enabled :
              (b : Bool)
              → (if not b
                  then refuse at (of_user org_name) s1
                  else check_by_type secrets at
                      (of_user org_name)
                      password
                      r
                      o
                      r.principal_type
                      s1).0
                ≡ ok none
              → Shown
          enabled true h = by_type r o r.principal_type h
          enabled false h = cc

      unlocked :
          (b : Bool) (m : Option Account)
          → (if b
              then (err auth_failed, s1)
              else check_principal secrets at d (of_user org_name) password m s1).0
            ≡ ok none
          → Shown
      unlocked true m h = cc
      unlocked false none h = cc
      unlocked false (some r) h = account r (is_active r.status) _ h

      outer :
          (b : Bool)
          → (b ≡ true → org_name ≡ at.web_local)
          → (if b
              then (if secrets.web_token_matches password
                  then accept (of_user org_name) none s
                  else refuse at (of_user org_name) s)
              else unless_locked at
                  (of_user org_name)
                  (check_principal secrets at d
                    (of_user org_name)
                    password
                    (Accounts.get d org_name))
                  s).0
            ≡ ok none
          → Shown
      outer true named h = by_token _ (named refl) refl h
      outer false named h = unlocked _ (Accounts.get d org_name) h
