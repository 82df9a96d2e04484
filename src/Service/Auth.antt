-- ===== src/Service/Auth.antt =====
-- Authentication (synapse/service.py: _cached_password_ok, _prune_auth_cache, _authenticate,
-- _authenticate_organization). The journal of failures is committed whether or not the call raises.
use synapse_messenger.Prelude.{
  ℕ, ◌+◌, Option, none, some, Bool, true, false, not, ◌&&◌, ◌||◌, List, ◌∷◌, find, select, length,
  is_some, ◌==◌, ltb, leb, if◌then◌else◌,
}
use synapse_messenger.Errors.{Result, ok, err, auth_failed, access_denied}
use synapse_messenger.Db.{
  Db, Account, Organization, AuthFailure, AuthKey, of_user, of_org, PrincipalType, agent, human,
}
use synapse_messenger.Store.Accounts
use synapse_messenger.Store.Accounts.{is_active}
use synapse_messenger.Store.AuthFailures
use synapse_messenger.Store.AuthFailures.{same_key}

-- What the service calls of other code: Argon2 (`verify_password`), SHA-256, and the comparison with
-- the token file of the web interface.
pub record Secrets : Type 0 where
  pub verify_password : ℕ → ℕ → Bool
  pub digest : ℕ → ℕ
  pub web_token_matches : ℕ → Bool

pub record CacheEntry : Type 0 where
  pub key : AuthKey
  pub password_hash : ℕ
  pub digest : ℕ
  pub expires : ℕ

-- The configuration, and the clocks as one call reads them.
pub record Attempt : Type 0 where
  -- now_utc_offset(auth_window_seconds)
  pub cutoff : ℕ
  pub now : ℕ
  pub auth_max_failures : ℕ
  pub monotonic : ℕ
  pub auth_cache_ttl : ℕ
  -- the reserved name of the local web interface
  pub web_local : ℕ

-- The journal and the cache between two calls.
pub record AuthState : Type 0 where
  pub failures : List AuthFailure
  pub cache : List CacheEntry

-- _MAX_AUTH_CACHE_ENTRIES
abbrev pub max_auth_cache_entries : ℕ
max_auth_cache_entries = 2048

-- _prune_auth_cache
unfoldable pub prune_auth_cache : ℕ → List CacheEntry → List CacheEntry
prune_auth_cache now cache = select (λ e. ltb now e.expires) cache

-- self._auth_cache[key] = entry
unfoldable pub put : CacheEntry → List CacheEntry → List CacheEntry
put entry cache = entry ∷ select (λ e. not (same_key e.key entry.key)) cache

abbrev pub is_hit : Secrets → ℕ → ℕ → ℕ → Option CacheEntry → Bool
is_hit secrets now password_hash password none = false
is_hit secrets now password_hash password (some e) =
    e.password_hash == password_hash && e.digest == secrets.digest password && ltb now e.expires

-- _cached_password_ok: the answer, and the cache after it
unfoldable pub cached_password_ok :
    Secrets → Attempt → AuthKey → ℕ → ℕ → List CacheEntry → Bool × List CacheEntry
cached_password_ok secrets at key password_hash password cache =
    if is_hit secrets at.monotonic password_hash password (find (λ e. same_key e.key key) cache)
    then (true, cache)
    else if secrets.verify_password password_hash password
    then (
      true,
      put
          (record {
            key = key;
            password_hash = password_hash;
            digest = secrets.digest password;
            expires = at.monotonic + at.auth_cache_ttl;
          })
          (if leb max_auth_cache_entries (length cache)
            then prune_auth_cache at.monotonic cache
            else cache),
    )
    else (false, cache)

-- record(conn, key); raise ApiError(e)
abbrev pub refuse {ℓ} : {A : Type ℓ} → Attempt → AuthKey → AuthState → Result A × AuthState
refuse at key s =
    (err auth_failed, record s { failures = AuthFailures.record_failure key at.now s.failures })

-- clear(conn, key); return
abbrev pub accept {ℓ} : {A : Type ℓ} → AuthKey → A → AuthState → Result A × AuthState
accept key a s = (ok a, record s { failures = AuthFailures.clear key s.failures })

-- The verification of a password, with the token of the web interface where it is accepted too.
abbrev pub check_password {ℓ} :
    {A : Type ℓ} → Secrets → Attempt → AuthKey → A → Bool → ℕ → ℕ → AuthState → Result A × AuthState
check_password secrets at key a or_token password_hash password s =
    let checked = cached_password_ok secrets at key password_hash password s.cache in
    let s1 = record s { cache = checked.1 } in
    if checked.0 || or_token && secrets.web_token_matches password
    then accept key a s1
    else refuse at key s1

-- A human account has the password of its organization.
abbrev pub check_by_type :
    Secrets
    → Attempt
    → AuthKey
    → ℕ
    → Account
    → Organization
    → PrincipalType
    → AuthState
    → Result (Option Account) × AuthState
check_by_type secrets at key password row org_row human s =
    check_password secrets at key (some row) true org_row.password_hash password s
check_by_type secrets at key password row org_row agent s =
    check_password secrets at key (some row) false row.password_hash password s

-- The account of an enabled organization
abbrev pub check_account :
    Secrets
    → Attempt
    → AuthKey
    → ℕ
    → Account
    → Option Organization
    → AuthState
    → Result (Option Account) × AuthState
check_account secrets at key password row none s = refuse at key s
check_account secrets at key password row (some org_row) s =
    if not org_row.enabled
    then refuse at key s
    else check_by_type secrets at key password row org_row row.principal_type s

abbrev pub check_principal :
    Secrets
    → Attempt
    → Db
    → AuthKey
    → ℕ
    → Option Account
    → AuthState
    → Result (Option Account) × AuthState
check_principal secrets at d key password none s = refuse at key s
check_principal secrets at d key password (some row) s =
    if not (is_active row.status)
    then refuse at key s
    else check_account secrets at key password row
        (Accounts.get_organization d row.organization_name) s

-- prune, and the refusal of a key that has reached the limit
abbrev pub unless_locked {ℓ} :
    {A : Type ℓ}
    → Attempt
    → AuthKey
    → (AuthState → Result A × AuthState)
    → AuthState
    → Result A × AuthState
unless_locked at key attempt s =
    let s1 = record s { failures = AuthFailures.prune at.cutoff s.failures } in
    if leb at.auth_max_failures (AuthFailures.count_recent key at.cutoff s1.failures)
    then (err auth_failed, s1)
    else attempt s1

-- _authenticate: the account row, or none for the identity of the web interface
unfoldable pub authenticate :
    Secrets → Attempt → Db → ℕ → ℕ → AuthState → Result (Option Account) × AuthState
authenticate secrets at d username password s =
    if username == at.web_local
    then (if secrets.web_token_matches password
        then accept (of_user username) none s
        else refuse at (of_user username) s)
    else unless_locked at (of_user username)
        (check_principal secrets at d (of_user username) password (Accounts.get d username)) s

abbrev pub check_organization :
    Secrets → Attempt → Db → ℕ → ℕ → Option Organization → AuthState → Result ℕ × AuthState
check_organization secrets at d org_name password (some row) s =
    if not row.enabled
    then refuse at (of_org org_name) s
    else check_password secrets at (of_org org_name) org_name true row.password_hash password s
check_organization secrets at d org_name password none s =
    if is_some (Accounts.get d org_name)
    then (err access_denied, s)
    else refuse at (of_org org_name) s

-- _authenticate_organization
unfoldable pub authenticate_organization :
    Secrets → Attempt → Db → ℕ → ℕ → AuthState → Result ℕ × AuthState
authenticate_organization secrets at d org_name password s =
    unless_locked at (of_org org_name)
      (check_organization secrets at d org_name password (Accounts.get_organization d org_name)) s
