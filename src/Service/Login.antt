-- ===== src/Service/Login.antt =====
-- What a login that succeeds has shown, and the cache of passwords (synapse/service.py: _authenticate,
-- _cached_password_ok).
use synapse_messenger.Prelude.{
  ℕ, ◌≡◌, refl, sym, ap, ◌∙◌, Option, none, some, Bool, true, false, not, ◌&&◌, ◌||◌, arith, ◌==◌,
  if◌then◌else◌, ◌⊎◌, inl, inr,
}
use mathlib.Core.Path.{subst}
use synapse_messenger.Errors.{Result, ok, err, ErrorCode}
use synapse_messenger.Db.{Db, Account, Organization, of_user, PrincipalType, agent, human}
use synapse_messenger.Store.Accounts
use synapse_messenger.Store.Accounts.{is_active}
use synapse_messenger.Store.AuthFailures
use synapse_messenger.Store.AuthFailures.{same_key}
use synapse_messenger.Service.Auth.{
  Secrets, Attempt, AuthState, cached_password_ok, check_password, check_by_type, check_account,
  check_principal, unless_locked, refuse, accept, authenticate,
}
use synapse_messenger.Service.PasswordCache.{IsSound, cache_agrees}

-- The password was the account's, or for a human account the organization's or the local token.
abbrev pub IsProved : Secrets → Account → Organization → ℕ → Type 0
IsProved secrets row o password =
    ((row.principal_type ≡ agent) × (secrets.verify_password row.password_hash password ≡ true))
    ⊎ ((row.principal_type ≡ human)
        × ((secrets.verify_password o.password_hash password || secrets.web_token_matches password)
            ≡ true))

abbrev pub MayLogIn : Secrets → Db → ℕ → ℕ → Account → Type 0
MayLogIn secrets d username password row =
    (o : Organization) × (Accounts.get d username ≡ some row)
    × (is_active row.status ≡ true)
    × (Accounts.get_organization d row.organization_name ≡ some o)
    × (o.enabled ≡ true)
    × IsProved secrets row o password

module _ (secrets : Secrets) (at : Attempt) (d : Db) (username password : ℕ) (row : Account)
    (s : AuthState) where
  not_refused :
      (b : Bool) (m : Result (Option Account) × AuthState)
      → (if not b then refuse at (of_user username) s else m).0 ≡ ok (some row)
      → (b ≡ true) × (m.0 ≡ ok (some row))
  not_refused true m h = (refl, h)
  not_refused false m h = cc

  check_passed :
      (a : Option Account) (or_token : Bool) (hash : ℕ)
      → (check_password secrets at (of_user username) a or_token hash password s).0 ≡ ok (some row)
      → (a ≡ some row)
        × (((cached_password_ok secrets at (of_user username) hash password s.cache).0
              || or_token && secrets.web_token_matches password)
            ≡ true)
  check_passed a or_token hash h = ground arith

  by_type_passed :
      ((a b : ℕ) → secrets.digest a ≡ secrets.digest b → a ≡ b)
      → IsSound secrets s.cache
      → (r : Account) (o : Organization) (type : PrincipalType) → r.principal_type ≡ type
      → (check_by_type secrets at (of_user username) password r o type s).0 ≡ ok (some row)
      → (r ≡ row) × IsProved secrets r o password
  by_type_passed no_collision sound r o human t h =
      let (same, passed) = check_passed (some r) true o.password_hash h in
      let (agrees, _) =
        cache_agrees secrets at (of_user username) o.password_hash password s.cache no_collision
          sound in
      (
        account_injective same,
        inr (t, ap (λ b. b || secrets.web_token_matches password) (sym agrees) ∙ passed),
      )
    where
      account_injective : {a b : Account} → some a ≡ some b → a ≡ b
      account_injective q = cc
  by_type_passed no_collision sound r o agent t h =
      let (same, passed) = check_passed (some r) false r.password_hash h in
      let (agrees, _) =
        cache_agrees secrets at (of_user username) r.password_hash password s.cache no_collision
          sound in
      (account_injective same, inl (t, sym agrees ∙ or_false _ passed))
    where
      account_injective : {a b : Account} → some a ≡ some b → a ≡ b
      account_injective q = cc

      or_false : (b : Bool) → (b || false) ≡ true → b ≡ true
      or_false true e = refl
      or_false false e = e

  account_passed :
      ((a b : ℕ) → secrets.digest a ≡ secrets.digest b → a ≡ b)
      → IsSound secrets s.cache
      → (r : Account) (o : Option Organization)
      → (check_account secrets at (of_user username) password r o s).0 ≡ ok (some row)
      → (org : Organization) × (o ≡ some org)
        × (org.enabled ≡ true)
        × (r ≡ row)
        × IsProved secrets r org password
  account_passed no_collision sound r none h = cc
  account_passed no_collision sound r (some org) h =
      let (enabled, rest) = not_refused org.enabled _ h in
      let (same, proved) = by_type_passed no_collision sound r org r.principal_type refl rest in
      (org, refl, enabled, same, proved)

  principal_passed :
      ((a b : ℕ) → secrets.digest a ≡ secrets.digest b → a ≡ b)
      → IsSound secrets s.cache
      → (check_principal secrets at d (of_user username) password (Accounts.get d username) s).0
        ≡ ok (some row)
      → MayLogIn secrets d username password row
  principal_passed no_collision sound h = by_account (Accounts.get d username) refl h
    where
      by_account :
          (m : Option Account)
          → Accounts.get d username ≡ m
          → (check_principal secrets at d (of_user username) password m s).0 ≡ ok (some row)
          → MayLogIn secrets d username password row
      by_account none e h = cc
      by_account (some r) e h =
          let (active, rest) = not_refused (is_active r.status) _ h in
          let (org, found, enabled, same, proved) = account_passed no_collision sound r _ rest in
          subst (MayLogIn secrets d username password) same (org, e, active, found, enabled, proved)

-- A login that returns an account has found it under the name, active and in an enabled organization,
-- with the password that its type asks for: its own for an agent, its organization's or the token of
-- the web interface for a human. SHA-256 tells passwords apart, and the cache is sound.
pub login_is_proved :
    (secrets : Secrets) (at : Attempt) (d : Db) (username password : ℕ) (row : Account)
    (s : AuthState)
    → ((a b : ℕ) → secrets.digest a ≡ secrets.digest b → a ≡ b)
    → IsSound secrets s.cache
    → (authenticate secrets at d username password s).0 ≡ ok (some row)
    → MayLogIn secrets d username password row
unfolding authenticate
login_is_proved secrets at d username password row s no_collision sound h =
    outer (username == at.web_local) h
  where
    s1 : AuthState
    s1 = record s { failures = AuthFailures.prune at.cutoff s.failures }

    attempt : Result (Option Account) × AuthState
    attempt = check_principal secrets at d (of_user username) password (Accounts.get d username) s1

    no_account :
        (b : Bool)
        → (if b
            then accept {A = Option Account} (of_user username) none s
            else refuse at (of_user username) s).0
          ≡ ok (some row)
        → MayLogIn secrets d username password row
    no_account true h = cc
    no_account false h = cc

    unlocked :
        (b : Bool)
        → (if b then (err synapse_messenger.Errors.auth_failed, s1) else attempt).0 ≡ ok (some row)
        → MayLogIn secrets d username password row
    unlocked true h = cc
    unlocked false h = principal_passed secrets at d username password row s1 no_collision sound h

    outer :
        (b : Bool)
        → (if b
            then (if secrets.web_token_matches password
                then accept (of_user username) none s
                else refuse at (of_user username) s)
            else unless_locked at
                (of_user username)
                (check_principal secrets at d (of_user username) password (Accounts.get d username))
                s).0
          ≡ ok (some row)
        → MayLogIn secrets d username password row
    outer true h = no_account _ h
    outer false h = unlocked _ h
