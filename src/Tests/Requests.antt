-- ===== src/Tests/Requests.antt =====
-- Complete requests on the small server: the organization 10, whose name is "home", deactivates its
-- agent 2, whose name is "bob".
use synapse_messenger.Prelude.{ℕ, refl, List, [], if◌then◌else◌}
use synapse_messenger.Errors.{Result, ok, err, ◌>>=◌}
use synapse_messenger.Db.{Db}
use synapse_messenger.Validation.{Json, text, Fields, field, no_fields, points, same_text}
use synapse_messenger.Store.Accounts
use synapse_messenger.Store.Audit
use synapse_messenger.Store.AuthFailures
use synapse_messenger.Tests.Validation.{request_of}
use synapse_messenger.Service.Targets.{text_of}
use synapse_messenger.Validation.Keys.{lookup}
use synapse_messenger.Service.Transaction.{State, settle}
use synapse_messenger.Service.Organizations.{org_deactivate_agent}
use synapse_messenger.Service.Process.{Handler, Handlers, Server, Context, Response, process}
use synapse_messenger.Service.Answered.{Answered}
use synapse_messenger.Service.Logged.{Logged}
use synapse_messenger.Service.Reached.{Reached, started, served, reached-Answered}
use synapse_messenger.Tests.Data.{env, attempt, secrets, start, no_failures}
use synapse_messenger.Tests.Codec.{unicode}

abbrev number : List ℕ → ℕ
number t = if same_text t (points "home") then 10 else if same_text t (points "bob") then 2 else 9

-- The transaction of a handler that takes no stamp
abbrev commit : {A : Type 0} → (Db → Result (A × Db)) → State → Result A × State
commit body s = settle s.clock s.db (body s.db)

abbrev no_handler : Handler ℕ
no_handler params me s = (err synapse_messenger.Errors.internal_error, s)

abbrev deactivate : Handler ℕ
deactivate params me s =
    commit
      (λ d.
        text_of (lookup (points "username") params) >>= λ t. org_deactivate_agent (number t) me d)
      s

abbrev handlers : Handlers ℕ
handlers = record {
  org = λ command. if same_text command (points "deactivate_agent") then deactivate else no_handler;
  human = λ command. no_handler;
  agent = λ command. no_handler;
  list_orgs = λ web_local. no_handler;
}

abbrev context : Context
context = record { attempt = attempt; env = env; number = number }

abbrev fresh : Server
fresh = record { service = start; auth = no_failures; requests_total = 0 }

abbrev parameters : Fields
parameters = field (points "organization_name_auth") (text (points "Home")) (
    field (points "organization_password_auth") (text (points "secret"))
      (field (points "username") (text (points "bob")) no_fields))

abbrev parse : List ℕ → Result Json
parse raw = ok (request_of (points "deactivate_agent") parameters)

-- The server after a request that is no JSON object.
abbrev server : Server
server = (process secrets handlers context unicode (λ raw. ok (text raw)) [] fresh).1

after_first : Reached secrets server
after_first = served handlers context unicode (λ raw. ok (text raw)) [] fresh (started fresh refl)

abbrev answered : Response ℕ × Server
answered = process secrets handlers context unicode parse [] server

reached-Answered_example : Answered secrets handlers context unicode parse [] server answered
reached-Answered_example =
    reached-Answered secrets handlers context unicode parse [] server (λ a b e. e) after_first
