-- ===== src/Tests/Validation.antt =====
-- Requests that are validated and dispatched.
use synapse_messenger.Prelude.{ℕ, ◌≡◌, refl, true, false, Option, none, some, List, [], ◌∷◌}
use synapse_messenger.Errors.{ok, ◌>>=◌, raise_if, Raises, Is, Ensures, access_denied}
use synapse_messenger.Db.{Account}
use synapse_messenger.Validation.{
  Json, text, array, dict, Fields, field, no_fields, item, no_items, points, entries, is_in,
}
use synapse_messenger.Validation.Names.{normalize_name, normalize_username}
use synapse_messenger.Validation.Identifiers.{validate_depends_on}
use synapse_messenger.Validation.DependsOn.{IsDependencies, validate_depends_on-IsDependencies}
use synapse_messenger.Validation.Params.{Spec, run}
use synapse_messenger.Validation.Envelope.{spec_of, names_of, validate_envelope}
use synapse_messenger.Validation.Envelope.Conforms.{
  Checked, end, given, Conforms, validate_envelope-Conforms,
}
use synapse_messenger.Validation.Envelope.ExactKeys.{Within}
use synapse_messenger.Validation.Envelope.Accepts.{validate_envelope-accepts}
use synapse_messenger.Validation.Envelope.Needs.{Documented}
use synapse_messenger.Validation.Envelope.Errors.{validate_envelope-Raises}
use synapse_messenger.Service.Dispatch.{
  route, route_principal, agent_handler, is_audited, observer_read_commands,
}
use synapse_messenger.Service.Dispatch.Access.{route-Raises, observer_reads}
use synapse_messenger.Tests.Data.{account}
use synapse_messenger.Tests.Codec.{unicode}

-- {"api_version": "v2", "command": command, "parameters": {...}}
abbrev pub request_of : List ℕ → Fields → Json
request_of command fs = dict (
    field (points "api_version") (text (points "v2"))
      (field (points "command") (text command) (field (points "parameters") (dict fs) no_fields)))

-- get_agent_description of the account "Bob"
abbrev parameters : Fields
parameters = field (points "my_password_auth") (text (points "secret")) (
    field (points "my_name_auth") (text (points "ann"))
      (field (points "username") (text (points "Bob")) no_fields))

abbrev answers : List (List ℕ × Json)
answers =
    (points "username", text (points "bob"))
    ∷ (points "my_name_auth", text (points "ann"))
    ∷ (points "my_password_auth", text (points "secret"))
    ∷ []

abbrev command : List ℕ
command = points "get_agent_description"

abbrev first_or : Option Spec → Spec
first_or none = record { name = []; params = []; org = false }
first_or (some s) = s

declared_spec : Spec
unfolding spec_of
declared_spec = first_or (spec_of command)

declared : spec_of command ≡ some declared_spec
unfolding spec_of declared_spec
declared = refl

known : Within (entries parameters) (names_of declared_spec.params)
unfolding declared_spec spec_of
known = (refl, (refl, (refl, tt)))

checked : Checked unicode (entries parameters) declared_spec.params answers
unfolding declared_spec spec_of run normalize_username normalize_name raise_if ◌>>=◌
checked = given _ _ (text (points "Bob")) _ _ refl refl refl (
    given _ _ (text (points "ann")) _ _ refl refl refl
      (given _ _ (text (points "secret")) _ _ refl refl refl end))

-- the same request, with the command first
abbrev envelope : Fields
envelope = field (points "command") (text command) (
    field (points "parameters") (dict parameters)
      (field (points "api_version") (text (points "v2")) no_fields))

conforms : Conforms unicode (dict envelope) (command, answers)
conforms = record {
  spec = declared_spec;
  envelope = envelope;
  parameters = parameters;
  is_object = refl;
  no_other_field = (refl, (refl, (refl, tt)));
  version_field = refl;
  command_field = refl;
  parameters_field = refl;
  declared = declared;
  no_other_parameter = known;
  checked = checked;
}

validate_envelope-accepts_example :
    validate_envelope unicode (dict envelope) ≡ ok (command, answers)
validate_envelope-accepts_example =
    validate_envelope-accepts unicode (dict envelope) (command, answers) conforms

validate_envelope-Conforms_example :
    Ensures
      (Conforms unicode (request_of command parameters))
      (validate_envelope unicode (request_of command parameters))
validate_envelope-Conforms_example =
    validate_envelope-Conforms unicode (request_of command parameters)

-- a request whose parameters are a list
abbrev malformed : Json
malformed = dict (
    field (points "api_version") (text (points "v2")) (
      field (points "command") (text (points "update_task_state"))
        (field (points "parameters") (array no_items) no_fields)))

validate_envelope-Raises_example : Raises Documented (validate_envelope unicode malformed)
validate_envelope-Raises_example = validate_envelope-Raises unicode malformed refl

abbrev identifier : Json
identifier = text (points "0A8D1F52-7C3B-4E6A-9B1D-2F4C6E8A0B1C")

validate_depends_on-IsDependencies_example :
    Ensures
      (IsDependencies 20)
      (validate_depends_on (array (item identifier (item identifier no_items))))
validate_depends_on-IsDependencies_example =
    validate_depends_on-IsDependencies (array (item identifier (item identifier no_items)))

route-Raises_example : Raises (Is access_denied) (route declared_spec.org command true none)
route-Raises_example = route-Raises command declared_spec true none declared

abbrev observer : Account
observer = record (account 5 10) { is_observer = true }

routed : route false (points "get_messages") false (some observer) ≡ ok agent_handler
unfolding route route_principal
routed = refl

observer_reads_example :
    (is_in (points "get_messages") observer_read_commands ≡ true)
    × (agent_handler ≡ agent_handler)
    × (is_audited agent_handler (points "get_messages") ≡ false)
observer_reads_example =
    observer_reads (points "get_messages") false (some observer) agent_handler refl routed
