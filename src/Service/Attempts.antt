-- ===== src/Service/Attempts.antt =====
-- One attempt to authenticate and the journal of failures (synapse/service.py: _authenticate).
use synapse_messenger.Prelude.{
  ℕ, ◌+◌, ◌≤◌, ◌≡◌, ◌≢◌, refl, Option, none, some, Bool, true, false, not, ◌&&◌, ◌||◌, List, [],
  ◌∷◌, arith, ◌==◌, ==_iff, leb, le→leb, if◌then◌else◌, ◌⊎◌, inl, inr,
}
use synapse_messenger.Errors.{Result, ok, err}
use synapse_messenger.Db.{
  Db, Account, Organization, AuthFailure, AuthKey, of_user, of_org, PrincipalType, agent, human,
}
use synapse_messenger.Store.Accounts
use synapse_messenger.Store.Accounts.{is_active}
use synapse_messenger.Store.AuthFailures.{same_key, count_recent, prune, record_failure}
use synapse_messenger.Service.Auth.{
  Secrets, Attempt, AuthState, cached_password_ok, check_password, check_by_type, check_account,
  check_principal, unless_locked, refuse, accept, authenticate,
}

abbrev pub failed {ℓ} : {A : Type ℓ} → Result A → Bool
failed (ok a) = false
failed (err e) = true

-- One guess of a password, with the clocks as it finds them.
pub record Guess : Type 0 where
  pub at : Attempt
  pub password : ℕ

abbrev pub is_locked : Attempt → AuthKey → List AuthFailure → Bool
is_locked at key rows = leb at.auth_max_failures (count_recent key at.cutoff (prune at.cutoff rows))

-- The wrong guesses that are compared with the password before the first right one, of guesses that are
-- made one after another: each login (the count of the failures, the comparison and the record of the
-- result) is complete before the next begins, and what follows the right one is not counted.
unfoldable pub tested : Secrets → Db → ℕ → List Guess → AuthState → ℕ
tested secrets d username [] s = 0
tested secrets d username (g ∷ gs) s =
    let (r, s') = authenticate secrets g.at d username g.password s in
    let rest = tested secrets d username gs s' in
    if is_locked g.at (of_user username) s.failures then rest else if failed r then 1 + rest else 0

-- The guess falls in the window that begins at `start`, and the limit on it is `limit`.
abbrev pub IsWithin : ℕ → ℕ → ℕ → Guess → Type 0
IsWithin username start limit g =
    (username ≢ g.at.web_local)
    × (g.at.cutoff ≤ start)
    × (start ≤ g.at.now)
    × (g.at.auth_max_failures ≡ limit)

pub count_recent-prune :
    (key : AuthKey) (start cutoff : ℕ) (rows : List AuthFailure)
    → cutoff ≤ start
    → count_recent key start (prune cutoff rows) ≡ count_recent key start rows
unfolding count_recent prune
count_recent-prune key start cutoff [] le = refl
count_recent-prune key start cutoff (r ∷ rs) le =
    ground (arith, count_recent-prune key start cutoff rs le)

pub count_recent-earlier :
    (key : AuthKey) (start cutoff : ℕ) (rows : List AuthFailure)
    → cutoff ≤ start
    → count_recent key start rows ≤ count_recent key cutoff rows
unfolding count_recent
count_recent-earlier key start cutoff [] le = omega arith
count_recent-earlier key start cutoff (r ∷ rs) le =
    ground (arith, count_recent-earlier key start cutoff rs le)

pub same_key_refl : (key : AuthKey) → same_key key key ≡ true
same_key_refl (of_user a) = (==_iff a a).1 refl
same_key_refl (of_org a) = (==_iff a a).1 refl

pub count_recent-record :
    (key : AuthKey) (start now : ℕ) (rows : List AuthFailure)
    → start ≤ now
    → count_recent key start (record_failure key now rows) ≡ 1 + count_recent key start rows
unfolding count_recent record_failure
count_recent-record key start now rows le = rw (same_key_refl key, le→leb _ _ le) refl

-- The attempt succeeds, or it leaves one more failure.
abbrev pub Settled {ℓ} :
    {A : Type ℓ} → Attempt → AuthKey → AuthState → Result A × AuthState → Type 0
Settled at key s r = (failed r.0 ≡ false) ⊎ (r.1.failures ≡ record_failure key at.now s.failures)

module _ (secrets : Secrets) (at : Attempt) (key : AuthKey) (s : AuthState) where
  pub Settled-if {ℓ} :
      {A : Type ℓ} (b : Bool) (m n : Result A × AuthState)
      → Settled at key s m
      → Settled at key s n
      → Settled at key s (if b then m else n)
  Settled-if true m n hm hn = hm
  Settled-if false m n hm hn = hn

  pub check_password-Settled {ℓ} :
      {A : Type ℓ} (a : A) (or_token : Bool) (hash password : ℕ)
      → Settled at key s (check_password secrets at key a or_token hash password s)
  check_password-Settled a or_token hash password =
      Settled-if
        ((cached_password_ok secrets at key hash password s.cache).0
          || or_token && secrets.web_token_matches password)
        (accept key a
          (record s { cache = (cached_password_ok secrets at key hash password s.cache).1 }))
        (refuse at key
          (record s { cache = (cached_password_ok secrets at key hash password s.cache).1 }))
        (inl refl) (inr refl)

  pub check_by_type-Settled :
      (password : ℕ) (row : Account) (o : Organization) (type : PrincipalType)
      → Settled at key s (check_by_type secrets at key password row o type s)
  check_by_type-Settled password row o human =
      check_password-Settled (some row) true o.password_hash password
  check_by_type-Settled password row o agent =
      check_password-Settled (some row) false row.password_hash password

  pub check_account-Settled :
      (password : ℕ) (row : Account) (o : Option Organization)
      → Settled at key s (check_account secrets at key password row o s)
  check_account-Settled password row none = inr refl
  check_account-Settled password row (some o) =
      Settled-if (not o.enabled) (refuse at key s)
        (check_by_type secrets at key password row o row.principal_type s) (inr refl)
        (check_by_type-Settled password row o row.principal_type)

  pub check_principal-Settled :
      (d : Db) (password : ℕ) (o : Option Account)
      → Settled at key s (check_principal secrets at d key password o s)
  check_principal-Settled d password none = inr refl
  check_principal-Settled d password (some row) =
      Settled-if (not (is_active row.status)) (refuse at key s)
        (check_account secrets at key password row
          (Accounts.get_organization d row.organization_name) s)
        (inr refl)
        (check_account-Settled password row (Accounts.get_organization d row.organization_name))

abbrev pub pruned : Attempt → AuthState → AuthState
pruned at s = record s { failures = prune at.cutoff s.failures }

-- An attempt on a key that is locked prunes the journal; another one succeeds or adds one failure.
pub authenticate_cases :
    (secrets : Secrets) (at : Attempt) (d : Db) (username password : ℕ) (s : AuthState)
    → username ≢ at.web_local
    → (if is_locked at (of_user username) s.failures
        then (authenticate secrets at d username password s).1.failures ≡ prune at.cutoff s.failures
        else Settled at
            (of_user username)
            (pruned at s)
            (authenticate secrets at d username password s))
unfolding authenticate
authenticate_cases secrets at d username password s other = rw not_local (cases _ refl)
  where
    not_local : (username == at.web_local) ≡ false
    not_local = ground (arith, other)

    cases :
        (b : Bool)
        → is_locked at (of_user username) s.failures ≡ b
        → (if b
            then (unless_locked at
                (of_user username)
                (check_principal secrets at d (of_user username) password (Accounts.get d username))
                s).1.failures
              ≡ prune at.cutoff s.failures
            else Settled at (of_user username) (pruned at s) (
                unless_locked at
                  (of_user username)
                  (check_principal secrets at d
                    (of_user username)
                    password
                    (Accounts.get d username))
                  s))
    cases true locked = rw locked refl
    cases false free = rw free (
        check_principal-Settled secrets at (of_user username) (pruned at s) d password
          (Accounts.get d username))
