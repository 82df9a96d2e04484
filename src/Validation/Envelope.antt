-- ===== src/Validation/Envelope.antt =====
-- The envelope of a request (synapse/validation.py: validate_envelope).
pub mod Needs
pub mod Rows
pub mod Errors
pub mod ExactKeys
pub mod Conforms
pub mod Accepts
use synapse_messenger.Prelude.{
  ℕ, Bool, true, false, not, Option, none, some, List, [], ◌∷◌, ◌++◌, map, find, if◌then◌else◌,
}
use synapse_messenger.Errors.{
  Result, ok, err, ◌>>=◌, ◌>>◌, raise_if, or_raise, invalid_argument, internal_error,
  unknown_command,
}
use synapse_messenger.Validation.{
  Json, null, text, dict, Fields, Unicode, points, same_text, entries, invalid,
}
use synapse_messenger.Validation.Keys.{ensure_exact_keys, lookup}
use synapse_messenger.Validation.Params.{Param, Spec, Validator, unchecked, has_type, run}
use synapse_messenger.Validation.Commands.{command_specs, command_names}

-- COMMAND_SPECS[command]
unfoldable pub spec_of : List ℕ → Option Spec
spec_of command = find (λ s. same_text command s.name) command_specs

abbrev pub names_of : List Param → List (List ℕ)
names_of params = map (λ p. p.name) params

abbrev pub as_text : Json → Result (List ℕ)
as_text (text t) = ok t
as_text other = invalid

abbrev pub as_dict : Json → Result (List (List ℕ × Json))
as_dict (dict fs) = ok (entries fs)
as_dict other = invalid

module _ (u : Unicode) where
  -- The value of one parameter: required, type, validator
  unfoldable pub check_param : Param → Json → Result Json
  check_param p null = if p.is_required then invalid else run u command_names p.validator null
  check_param p raw =
      if not (has_type p.type_of raw) then invalid else run u command_names p.validator raw

  -- the loop over the rows of the declaration
  unfoldable pub check_params : List Param → List (List ℕ × Json) → Result (List (List ℕ × Json))
  check_params [] raw = ok []
  check_params (p ∷ params) raw = or_raise (lookup p.name raw) internal_error >>= λ given.
      check_param p given >>= λ value.
      check_params params raw >>= λ rest. ok ((p.name, value) ∷ rest)

  -- What follows once the command is known
  unfoldable pub check_command : List ℕ → Spec → Json → Result (List ℕ × List (List ℕ × Json))
  check_command command s raw = do
    parameters ← as_dict raw
    ensure_exact_keys parameters (names_of s.params)
    validated ← check_params s.params parameters
    ok (command, validated)

  -- validate_envelope
  unfoldable pub validate_envelope : Json → Result (List ℕ × List (List ℕ × Json))
  validate_envelope request = do
    envelope ← as_dict request
    ensure_exact_keys envelope (points "api_version" ∷ points "command" ∷ points "parameters" ∷ [])
    api_version ← or_raise (lookup (points "api_version") envelope) internal_error
    version ← as_text api_version
    raise_if (not (same_text version (points "v2"))) invalid_argument
    raw_command ← or_raise (lookup (points "command") envelope) internal_error
    command ← as_text raw_command
    s ← or_raise (spec_of command) unknown_command
    parameters ← or_raise (lookup (points "parameters") envelope) internal_error
    check_command command s parameters
