-- ===== src/Service/Accepted.antt =====
-- A request reaches a handler only after its credentials (synapse/service.py: Service._dispatch,
-- Service.process).
use synapse_messenger.Prelude.{
  ℕ, ◌≡◌, refl, sym, Option, none, some, Bool, true, false, List, ◌==◌, ◌⊎◌, inl, inr,
}
use mathlib.Core.Path.{subst}
use synapse_messenger.Errors.{Result, ok, err, ErrorCode, or_raise, or_raise_found, internal_error}
use synapse_messenger.Db.{Db, Account}
use synapse_messenger.Validation.Params.{Spec}
use synapse_messenger.Validation.Envelope.{spec_of}
use synapse_messenger.Service.Targets.{Params}
use synapse_messenger.Service.Auth.{Secrets, authenticate, authenticate_organization}
use synapse_messenger.Service.PasswordCache.{IsSound}
use synapse_messenger.Service.Login.{MayLogIn}
use synapse_messenger.Service.Credentials.{MayAct, organization_is_proved, web_local_is_proved}
use synapse_messenger.Service.Login.{login_is_proved}
use synapse_messenger.Service.Dispatch.{Route, route}
use synapse_messenger.Store.Messages.{organization_of}
use synapse_messenger.Service.Process.{
  Handlers, Server, Context, proceed, with_auth, credential, password_of, serve_route, follow,
  dispatch, dispatch_spec, dispatch_organization, dispatch_principal,
}

-- The account's login is proved; no account is the web interface with its token.
abbrev pub HasLoggedIn : Secrets → Context → Db → ℕ → ℕ → Option Account → Type 0
HasLoggedIn secrets c d name password none =
    (name ≡ c.attempt.web_local) × (secrets.web_token_matches password ≡ true)
HasLoggedIn secrets c d name password (some row) = MayLogIn secrets d name password row

-- Why `actor`, of the organization `org`, may run the handler of the route on the database `d`.
pub data IsAccepted (secrets : Secrets) (c : Context) (d : Db) (command : List ℕ) (params : Params)
    : Route → ℕ → Option ℕ → Type 0 where
  by_organization :
      (t : Route) (actor password : ℕ) (spec : Spec)
      → spec_of command ≡ some spec
      → spec.org ≡ true
      → credential c "organization_name_auth" params ≡ ok actor
      → password_of c "organization_password_auth" params ≡ ok password
      → MayAct secrets d actor password
      → route true command false none ≡ ok t
      → IsAccepted secrets c d command params t actor (some actor)
  by_principal :
      (t : Route) (actor password : ℕ) (spec : Spec) (row : Option Account)
      → spec_of command ≡ some spec
      → spec.org ≡ false
      → credential c "my_name_auth" params ≡ ok actor
      → password_of c "my_password_auth" params ≡ ok password
      → HasLoggedIn secrets c d actor password row
      → route false command (actor == c.attempt.web_local) row ≡ ok t
      → IsAccepted secrets c d command params t actor (organization_of row)

-- The call raises.
abbrev pub Fails {ℓ} : {A : Type ℓ} → Result A → Type ℓ
Fails r = (e : ErrorCode) × (r ≡ err e)

module _ {A : Type 0} (secrets : Secrets) (handlers : Handlers A) (c : Context) (command : List ℕ)
    (params : Params) (s : Server) where
  -- SHA-256 tells passwords apart, and the cache of passwords is sound.
  abbrev pub Trusted : Type 0
  Trusted = ((a b : ℕ) → secrets.digest a ≡ secrets.digest b → a ≡ b) × IsSound secrets s.auth.cache

  -- Either a refusal that leaves the clock and the tables but auth_failures, or the handler of an accepted call.
  abbrev pub Guarded : Result A × Server → Type 0
  Guarded x =
      ((x.1.service ≡ s.service) × Fails x.0)
      ⊎ ((t : Route) × (actor : ℕ) × (org : Option ℕ) × (s1 : Server) × IsAccepted secrets c
            s.service.db command params t actor org
          × (s1.service ≡ s.service)
          × (x ≡ serve_route secrets handlers c t command params actor org s1))

  proceed-Guarded :
      {B : Type 0} (m : Result B × Server) (next : B → Server → Result A × Server)
      → m.1.service ≡ s.service
      → ((b : B) → m.0 ≡ ok b → Guarded (next b m.1))
      → Guarded (proceed m next)
  proceed-Guarded (ok b, s1) next same h = h b refl
  proceed-Guarded (err e, s1) next same h = inl (same, (e, refl))

  follow-Guarded :
      (r : Result Route) (actor : ℕ) (org : Option ℕ) (s1 : Server)
      → s1.service ≡ s.service
      → ((t : Route) → r ≡ ok t → IsAccepted secrets c s.service.db command params t actor org)
      → Guarded (follow secrets handlers c r command params actor org s1)
  follow-Guarded (ok t) actor org s1 same h = inr (t, actor, org, s1, h t refl, same, refl)
  follow-Guarded (err e) actor org s1 same h = inl (same, (e, refl))

  organization-Guarded :
      (spec : Spec) (name password : ℕ)
      → Trusted
      → spec_of command ≡ some spec
      → spec.org ≡ true
      → credential c "organization_name_auth" params ≡ ok name
      → password_of c "organization_password_auth" params ≡ ok password
      → Guarded (dispatch_organization secrets handlers c command params name password s)
  unfolding dispatch_organization
  organization-Guarded spec name password (no_collision, sound) found org e f =
      proceed-Guarded
        (with_auth s
          (authenticate_organization secrets c.attempt s.service.db name password s.auth))
        _ refl
        λ n shown.
          let (named, may) =
            organization_is_proved secrets c.attempt s.service.db name password no_collision s.auth
              sound shown in
          subst
            (λ k. Guarded (
              follow secrets handlers c (route true command false none) command params k (some k)
                (record s {
                  auth =
                      (authenticate_organization secrets c.attempt s.service.db name password
                        s.auth).1;
                })))
            (sym named)
            (follow-Guarded (route true command false none) name (some name) _ refl
              λ t to. by_organization t name password spec found org e f may to)

  principal-Guarded :
      (spec : Spec) (name password : ℕ)
      → Trusted
      → spec_of command ≡ some spec
      → spec.org ≡ false
      → credential c "my_name_auth" params ≡ ok name
      → password_of c "my_password_auth" params ≡ ok password
      → Guarded (dispatch_principal secrets handlers c command params name password s)
  unfolding dispatch_principal
  principal-Guarded spec name password (no_collision, sound) found org e f =
      proceed-Guarded
        (with_auth s (authenticate secrets c.attempt s.service.db name password s.auth)) _ refl
        λ row shown.
          follow-Guarded _ name (organization_of row) _ refl
            λ t to. by_principal t name password spec row found org e f (proved row shown) to
    where
      proved :
          (row : Option Account)
          → (authenticate secrets c.attempt s.service.db name password s.auth).0 ≡ ok row
          → HasLoggedIn secrets c s.service.db name password row
      proved none h =
          web_local_is_proved secrets c.attempt s.service.db name password no_collision s.auth h
      proved (some row) h =
          login_is_proved secrets c.attempt s.service.db name password row s.auth no_collision sound
            h

  spec-Guarded :
      (spec : Spec) (org : Bool)
      → Trusted
      → spec_of command ≡ some spec
      → spec.org ≡ org
      → Guarded (dispatch_spec secrets handlers c org command params s)
  spec-Guarded spec true trusted found org =
      proceed-Guarded (credential c "organization_name_auth" params, s) _ refl
        λ name e.
          proceed-Guarded (password_of c "organization_password_auth" params, s) _ refl
            λ password f. organization-Guarded spec name password trusted found org e f
  spec-Guarded spec false trusted found org =
      proceed-Guarded (credential c "my_name_auth" params, s) _ refl
        λ name e.
          proceed-Guarded (password_of c "my_password_auth" params, s) _ refl
            λ password f. principal-Guarded spec name password trusted found org e f

  pub dispatch-Guarded : Trusted → Guarded (dispatch secrets handlers c command params s)
  unfolding dispatch
  dispatch-Guarded trusted =
      proceed-Guarded (or_raise (spec_of command) internal_error, s) _ refl
        λ spec found. spec-Guarded spec spec.org trusted (or_raise_found _ _ found) refl
