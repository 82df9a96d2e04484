-- ===== src/Service/Process.antt =====
-- A complete request (synapse/service.py: Service.process, Service._dispatch, Service._audit_action,
-- _TARGET_FIELD): parsed, validated, authenticated, routed, handled, and audited. The handlers are the
-- tables that a server is given, so what is shown here holds of any of them. The fields of the log and
-- the cache of the text of `help` are left out.

use synapse_messenger.Prelude.{ℕ, ◌+◌, Bool, true, false, Option, none, some, List, String, ◌==◌}
use mathlib.Core.Option
use synapse_messenger.Hlc.{Clock}
use synapse_messenger.Errors.{Result, ok, err, ErrorCode, ◌>>=◌, or_raise, internal_error}
use synapse_messenger.Db.{Db, word}
use synapse_messenger.Store.Audit
use synapse_messenger.Validation.{Json, Unicode, points, lower}
use synapse_messenger.Validation.Keys.{lookup}
use synapse_messenger.Validation.Envelope.{spec_of, validate_envelope}
use synapse_messenger.Store.Messages.{organization_of}
use synapse_messenger.Service.Targets.{Params, target_of, text_of}
use synapse_messenger.Service.Common.{Env}
use synapse_messenger.Service.Transaction.{State, write}
use synapse_messenger.Service.Auth.{
  Secrets, Attempt, AuthState, authenticate, authenticate_organization,
}
use synapse_messenger.Service.Dispatch.{
  Route, org_handler, human_handler, agent_handler, list_orgs, create_org, route, is_audited,
}

-- handler(service, conn, params, me), for answers in A
abbrev pub Handler : Type 0 → Type 0
Handler A = Params → ℕ → State → Result A × State

-- _ORG_HANDLERS, _HUMAN_HANDLERS and _AGENT_HANDLERS by the command, and _human_list_orgs by web_local
pub record Handlers (A : Type 0) : Type 0 where
  pub org : List ℕ → Handler A
  pub human : List ℕ → Handler A
  pub agent : List ℕ → Handler A
  pub list_orgs : Bool → Handler A

-- The server between two requests.
pub record Server : Type 0 where
  pub service : State
  pub auth : AuthState
  pub requests_total : ℕ

-- One request: the readings of its login and of its audit, and the number that stands for a text.
pub record Context : Type 0 where
  pub attempt : Attempt
  pub env : Env
  pub number : List ℕ → ℕ

-- The next step of a block with the server, which an exception leaves as it is then.
abbrev pub proceed :
    {A B : Type 0} → Result A × Server → (A → Server → Result B × Server) → Result B × Server
proceed (ok a, s) next = next a s
proceed (err e, s) next = (err e, s)

unfoldable pub credential : Context → String → Params → Result ℕ
credential c key params = text_of (lookup (points key) params) >>= λ t. ok (c.number (lower t))

-- A password is compared as it is written.
unfoldable pub password_of : Context → String → Params → Result ℕ
password_of c key params = text_of (lookup (points key) params) >>= λ t. ok (c.number t)

abbrev pub with_auth {ℓ} : {A : Type ℓ} → Server → Result A × AuthState → Result A × Server
with_auth s (r, auth) = (r, record s { auth = auth })

abbrev pub with_service {ℓ} : {A : Type ℓ} → Server → Result A × State → Result A × Server
with_service s (r, service) = (r, record s { service = service })

module _ (c : Context) where
  -- the line of _audit_action
  abbrev pub audit_line : List ℕ → Params → ℕ → ℕ → Clock → Db → Db
  audit_line command params actor org hlc = Audit.append (record {
    organization_name = org;
    at = c.env.at;
    actor_username = actor;
    command = command;
    target_username = Option.map c.number (target_of command params);
    outcome = word "ok";
    hlc = hlc;
  })

  -- _audit_action where the command is audited: the assert, and a transaction of its own
  unfoldable pub audit_action : List ℕ → Params → ℕ → Option ℕ → State → Result (Unit {0}) × State
  audit_action command params actor none s = (err internal_error, s)
  audit_action command params actor (some org) s =
      write c.env (λ hlc d. ok (tt, audit_line command params actor org hlc d)) s

-- {"success": ..., "data": ..., "error": ...}
pub record Response (A : Type 0) : Type 0 where
  pub success : Bool
  pub data_of : Option A
  pub error : Option ErrorCode

abbrev pub respond : {A : Type 0} → Result A × Server → Response A × Server
respond (ok answer, s) = (record { success = true; data_of = some answer; error = none }, s)
respond (err e, s) = (record { success = false; data_of = none; error = some e }, s)

module _ {A : Type 0} (secrets : Secrets) (handlers : Handlers A) (c : Context) where
  -- handler(self, conn, params, user)
  abbrev pub handle_route : Route → List ℕ → Handler A
  handle_route org_handler command = handlers.org command
  handle_route human_handler command = handlers.human command
  handle_route agent_handler command = handlers.agent command
  handle_route (list_orgs web_local) command = handlers.list_orgs web_local
  handle_route create_org command = handlers.human (points "create_org")

  -- The answer goes out after the line of the audit, where there is one.
  abbrev pub finish : Bool → A → Result (Unit {0}) × Server → Server → Result A × Server
  finish true answer audited s = proceed audited λ done s2. (ok answer, s2)
  finish false answer audited s = (ok answer, s)

  -- The handler of the route, and then the audit
  unfoldable pub serve_route : Route → List ℕ → Params → ℕ → Option ℕ → Server → Result A × Server
  serve_route t command params user org s =
      proceed (with_service s (handle_route t command params user s.service)) λ answer s1.
        finish (is_audited t command) answer
          (with_service s1 (audit_action c command params user org s1.service)) s1

  abbrev pub follow : Result Route → List ℕ → Params → ℕ → Option ℕ → Server → Result A × Server
  follow (err e) command params user org s = (err e, s)
  follow (ok t) command params user org s = serve_route t command params user org s

  -- _dispatch of an organization command, with the credentials
  unfoldable pub dispatch_organization : List ℕ → Params → ℕ → ℕ → Server → Result A × Server
  dispatch_organization command params name password s =
      proceed
        (with_auth s
          (authenticate_organization secrets c.attempt s.service.db name password s.auth))
        λ org s1. follow (route true command false none) command params org (some org) s1

  -- _dispatch of another command
  unfoldable pub dispatch_principal : List ℕ → Params → ℕ → ℕ → Server → Result A × Server
  dispatch_principal command params name password s =
      proceed (with_auth s (authenticate secrets c.attempt s.service.db name password s.auth))
        λ row s1.
          follow (route false command (name == c.attempt.web_local) row) command params name
            (organization_of row) s1

  abbrev pub with_credentials :
      Result ℕ → Result ℕ → (ℕ → ℕ → Server → Result A × Server) → Server → Result A × Server
  with_credentials name password next s =
      proceed (name, s) λ n s1. proceed (password, s1) λ p s2. next n p s2

  abbrev pub dispatch_spec : Bool → List ℕ → Params → Server → Result A × Server
  dispatch_spec true command params =
      with_credentials (credential c "organization_name_auth" params)
        (password_of c "organization_password_auth" params) (dispatch_organization command params)
  dispatch_spec false command params =
      with_credentials (credential c "my_name_auth" params)
        (password_of c "my_password_auth" params) (dispatch_principal command params)

  -- _dispatch
  unfoldable pub dispatch : List ℕ → Params → Server → Result A × Server
  dispatch command params s =
      proceed (or_raise (spec_of command) internal_error, s)
        λ spec s1. dispatch_spec spec.org command params s1

  -- process, where `parse` is parse_json_request
  unfoldable pub process : Unicode → (List ℕ → Result Json) → List ℕ → Server → Response A × Server
  process u parse raw s =
      let s0 = record s { requests_total = s.requests_total + 1 } in
      respond (
        proceed (parse raw >>= λ request. validate_envelope u request, s0)
          λ valid s1. dispatch valid.0 valid.1 s1)
