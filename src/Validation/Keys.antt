-- ===== src/Validation/Keys.antt =====
-- The keys of JSON objects (synapse/validation.py: _ensure_exact_keys, _reject_duplicate_keys and
-- validate_deadline).
use synapse_messenger.Prelude.{
  ℕ, not, Option, none, some, List, [], ◌∷◌, ◌++◌, any, length, ◌==◌, if◌then◌else◌,
}
use synapse_messenger.Errors.{
  Result, ok, ◌>>=◌, ◌>>◌, raise_if, or_raise, invalid_argument, internal_error,
}
use synapse_messenger.Validation.{
  Json, null, text, dict, field, no_fields, Unicode, points, is_in, same_text, strip, entries,
  invalid,
}
use synapse_messenger.Validation.Words.{validate_hlc}

abbrev pub keys_of : List (List ℕ × Json) → List (List ℕ)
keys_of [] = []
keys_of ((key, x) ∷ rest) = key ∷ keys_of rest

-- mapping[key]; `none` is the KeyError
abbrev pub lookup : List ℕ → List (List ℕ × Json) → Option Json
lookup key [] = none
lookup key ((name, x) ∷ rest) =
    let found = lookup key rest in if same_text key name then some x else found

-- _ensure_exact_keys
unfoldable pub ensure_exact_keys : List (List ℕ × Json) → List (List ℕ) → Result (Unit {0})
ensure_exact_keys mapping allowed = do
  raise_if (any (λ key. not (is_in key allowed)) (keys_of mapping)) invalid_argument
  raise_if (any (λ key. not (is_in key (keys_of mapping))) allowed) invalid_argument

-- _reject_duplicate_keys: the object_pairs_hook of the JSON parser; its ValueError becomes
-- INVALID_ARGUMENT in parse_json_request.
unfoldable pub reject_duplicate_keys :
    List (List ℕ × Json) → List (List ℕ × Json) → Result (List (List ℕ × Json))
reject_duplicate_keys [] result = ok result
reject_duplicate_keys ((key, x) ∷ pairs) result =
    raise_if (is_in key (keys_of result)) invalid_argument
    >> reject_duplicate_keys pairs (result ++ (key, x) ∷ [])

-- agent.strip() of a non-empty text
abbrev pub agent_of : Unicode → Json → Result (List ℕ)
agent_of u (text t) = if length (strip u t) == 0 then invalid else ok (strip u t)
agent_of u other = invalid

-- validate_deadline
unfoldable pub validate_deadline : Unicode → Json → Result Json
validate_deadline u null = ok null
validate_deadline u (dict fs) = do
  ensure_exact_keys (entries fs) (points "agent" ∷ points "hlc" ∷ [])
  raw_agent ← or_raise (lookup (points "agent") (entries fs)) internal_error
  agent ← agent_of u raw_agent
  raw_hlc ← or_raise (lookup (points "hlc") (entries fs)) internal_error
  hlc ← validate_hlc u raw_hlc
  ok (dict (field (points "agent") (text agent) (field (points "hlc") hlc no_fields)))
validate_deadline u other = invalid
