-- ===== src/Service/Reached.antt =====
-- Servers that run (synapse/service.py: Service.process over any sequence of requests).
use synapse_messenger.Prelude.{ℕ, ◌+◌, ◌≡◌, Option, Bool, true, false, List, []}
use synapse_messenger.Errors.{Result, ok, err, ◌>>=◌, or_raise, internal_error}
use synapse_messenger.Validation.{Json, Unicode}
use synapse_messenger.Validation.Envelope.{spec_of, validate_envelope}
use synapse_messenger.Service.Targets.{Params}
use synapse_messenger.Service.Auth.{Secrets, authenticate, authenticate_organization}
use synapse_messenger.Service.PasswordCache.{IsSound}
use synapse_messenger.Service.SoundCache.{authenticate-Sound, authenticate_organization-Sound}
use synapse_messenger.Service.Dispatch.{Route, is_audited}
use synapse_messenger.Store.Messages.{organization_of}
use synapse_messenger.Service.Process.{
  Handlers, Server, Context, respond, proceed, with_auth, with_service, credential, password_of,
  handle_route, audit_action, finish, serve_route, follow, dispatch_organization,
  dispatch_principal, dispatch_spec, dispatch, process,
}
use synapse_messenger.Service.Answered.{Answered, process-Answered}
use synapse_messenger.Service.Logged.{Logged}

-- The servers that requests lead to, from a start with an empty cache. Each request has its own
-- readings of the clocks, and its handlers may do anything.
pub data Reached (secrets : Secrets) : Server → Type 1 where
  started : (s : Server) → s.auth.cache ≡ [] → Reached secrets s
  served :
      {A : Type 0} (handlers : Handlers A) (c : Context) (u : Unicode)
      (parse : List ℕ → Result Json) (raw : List ℕ) (s : Server)
      → Reached secrets s
      → Reached secrets (process secrets handlers c u parse raw s).1

module _ {A : Type 0} (secrets : Secrets) (handlers : Handlers A) (c : Context)
    (no_collision : (a b : ℕ) → secrets.digest a ≡ secrets.digest b → a ≡ b) where
  abbrev Keeps : {B : Type 0} → Result B × Server → Type 0
  Keeps x = IsSound secrets x.1.auth.cache

  proceed-Keeps :
      {B C : Type 0} (m : Result B × Server) (next : B → Server → Result C × Server)
      → Keeps m
      → ((b : B) (s : Server) → IsSound secrets s.auth.cache → Keeps (next b s))
      → Keeps (proceed m next)
  proceed-Keeps (ok b, s) next h k = k b s h
  proceed-Keeps (err e, s) next h k = h

  serve_route-Keeps :
      (t : Route) (command : List ℕ) (params : Params) (user : ℕ) (org : Option ℕ) (s : Server)
      → IsSound secrets s.auth.cache
      → Keeps (serve_route secrets handlers c t command params user org s)
  unfolding serve_route
  serve_route-Keeps t command params user org s h =
      proceed-Keeps
        (with_service s (handle_route secrets handlers c t command params user s.service)) _ h
        λ answer s1 h1. ended (is_audited t command) answer s1 h1
    where
      ended :
          (b : Bool) (answer : A) (s1 : Server)
          → IsSound secrets s1.auth.cache
          → Keeps (
              finish secrets handlers c b answer
                (with_service s1 (audit_action c command params user org s1.service))
                s1)
      ended true answer s1 h1 =
          proceed-Keeps (with_service s1 (audit_action c command params user org s1.service)) _ h1
            λ done s2 h2. h2
      ended false answer s1 h1 = h1

  follow-Keeps :
      (r : Result Route) (command : List ℕ) (params : Params) (user : ℕ) (org : Option ℕ)
      (s : Server)
      → IsSound secrets s.auth.cache
      → Keeps (follow secrets handlers c r command params user org s)
  follow-Keeps (ok t) command params user org s h = serve_route-Keeps t command params user org s h
  follow-Keeps (err e) command params user org s h = h

  spec-Keeps :
      (org : Bool) (command : List ℕ) (params : Params) (s : Server)
      → IsSound secrets s.auth.cache
      → Keeps (dispatch_spec secrets handlers c org command params s)
  unfolding dispatch_organization dispatch_principal
  spec-Keeps true command params s h =
      proceed-Keeps (credential c "organization_name_auth" params, s) _ h
        λ name s1 h1.
          proceed-Keeps (password_of c "organization_password_auth" params, s1) _ h1
            λ password s2 h2.
              proceed-Keeps
                (with_auth s2
                  (authenticate_organization secrets c.attempt s2.service.db name password s2.auth))
                _
                (authenticate_organization-Sound secrets c.attempt no_collision s2.service.db name
                  password s2.auth h2)
                λ org s3 h3. follow-Keeps _ command params org _ s3 h3
  spec-Keeps false command params s h =
      proceed-Keeps (credential c "my_name_auth" params, s) _ h
        λ name s1 h1.
          proceed-Keeps (password_of c "my_password_auth" params, s1) _ h1
            λ password s2 h2.
              proceed-Keeps
                (with_auth s2 (authenticate secrets c.attempt s2.service.db name password s2.auth))
                _
                (authenticate-Sound secrets c.attempt no_collision s2.service.db name password
                  s2.auth h2)
                λ row s3 h3. follow-Keeps _ command params name (organization_of row) s3 h3

  process-IsSound :
      (u : Unicode) (parse : List ℕ → Result Json) (raw : List ℕ) (s : Server)
      → IsSound secrets s.auth.cache
      → IsSound secrets (process secrets handlers c u parse raw s).1.auth.cache
  unfolding process dispatch
  process-IsSound u parse raw s h = respond-Keeps _ (
      proceed-Keeps
        (
          parse raw >>= (λ request. validate_envelope u request),
          record s { requests_total = s.requests_total + 1 },
        )
        _ h
        λ valid s1 h1.
          proceed-Keeps (or_raise (spec_of valid.0) internal_error, s1) _ h1
            λ spec s2 h2. spec-Keeps spec.org valid.0 valid.1 s2 h2)
    where
      respond-Keeps : (x : Result A × Server) → Keeps x → IsSound secrets (respond x).1.auth.cache
      respond-Keeps (ok answer, s') h = h
      respond-Keeps (err e, s') h = h

pub Reached-IsSound :
    (secrets : Secrets) (s : Server)
    → ((a b : ℕ) → secrets.digest a ≡ secrets.digest b → a ≡ b)
    → Reached secrets s
    → IsSound secrets s.auth.cache
Reached-IsSound secrets _ no_collision (started s fresh) = rw fresh tt
Reached-IsSound secrets _ no_collision (served handlers c u parse raw s before) =
    process-IsSound secrets handlers c no_collision u parse raw s
      (Reached-IsSound secrets s no_collision before)

-- On a server that started with an empty cache and has answered any requests since, a request changes
-- a table of the database other than auth_failures, or the clock, or succeeds, only if it is a valid request for a declared command whose
-- credentials are accepted: the password is its organization's or its account's own, of an active
-- account and an enabled organization, or the token where the web interface may use it, and the dispatch
-- has a route for that caller, whose handler then gives the answer. Whatever the handlers do, any other
-- request is answered with an error and leaves every table but auth_failures, and the clock, as they
-- were; the failed login itself is recorded in auth_failures, of which nothing is said here. SHA-256 tells passwords
-- apart.
pub reached-Answered :
    {A : Type 0} (secrets : Secrets) (handlers : Handlers A) (c : Context) (u : Unicode)
    (parse : List ℕ → Result Json) (raw : List ℕ) (s : Server)
    → ((a b : ℕ) → secrets.digest a ≡ secrets.digest b → a ≡ b)
    → Reached secrets s
    → Answered secrets handlers c u parse raw s (process secrets handlers c u parse raw s)
reached-Answered secrets handlers c u parse raw s no_collision before =
    process-Answered secrets handlers c u parse raw s no_collision
      (Reached-IsSound secrets s no_collision before)
