-- ===== src/Validation/Envelope/Accepts.antt =====
-- What validate_envelope accepts (synapse/validation.py).
use mathlib.Core.Bool.{true≢false}
use synapse_messenger.Prelude.{ℕ, ◌≡◌, refl, sym, ◌∙◌, true, false, List, [], ◌∷◌, All}
use synapse_messenger.Errors.{ok, ◌>>=◌, raise_if, or_raise}
use synapse_messenger.Validation.{
  Json, null, float, boolean, natural, negative, text, array, dict, Unicode, points, entries, is_in,
}
use synapse_messenger.Validation.Keys.{keys_of, ensure_exact_keys}
use synapse_messenger.Validation.Params.{
  Param, ParamType, of_str, of_bool_type, of_int, of_list, of_dict, has_type, run,
}
use synapse_messenger.Validation.Commands.{command_names}
use synapse_messenger.Validation.Envelope.{
  names_of, check_param, check_params, check_command, validate_envelope,
}
use synapse_messenger.Validation.Envelope.ExactKeys.{lookup-is_in, ensure_exact_keys-accepts}
use synapse_messenger.Validation.Envelope.Conforms.{
  Checked, end, absent, given, Conforms, envelope_keys,
}

null_untyped : (type : ParamType) → has_type type null ≡ false
null_untyped of_str = refl
null_untyped of_bool_type = refl
null_untyped of_int = refl
null_untyped of_list = refl
null_untyped of_dict = refl

module _ (u : Unicode) where
  typed-accepts :
      (p : Param) (x : Json) {value : Json}
      → has_type p.type_of x ≡ true
      → run u command_names p.validator x ≡ ok value
      → check_param u p x ≡ ok value
  unfolding check_param
  typed-accepts p null h v = absurd (true≢false (sym h ∙ null_untyped p.type_of))
  typed-accepts p float h v = rw (h, v) refl
  typed-accepts p (boolean b) h v = rw (h, v) refl
  typed-accepts p (natural n) h v = rw (h, v) refl
  typed-accepts p (negative n) h v = rw (h, v) refl
  typed-accepts p (text t) h v = rw (h, v) refl
  typed-accepts p (array xs) h v = rw (h, v) refl
  typed-accepts p (dict fs) h v = rw (h, v) refl

  check_params-accepts :
      (params : List Param) (raw values : List (List ℕ × Json))
      → Checked u raw params values
      → check_params u params raw ≡ ok values
  unfolding check_params check_param ◌>>=◌ or_raise
  check_params-accepts [] raw _ end = refl
  check_params-accepts (p ∷ params) raw _ (absent _ _ value rest found optional valid h) =
      rw (found, optional, valid, check_params-accepts params raw rest h) refl
  check_params-accepts (p ∷ params) raw _ (given _ _ x value rest found fits valid h) =
      rw (found, typed-accepts p x fits valid, check_params-accepts params raw rest h) refl

  Checked-present :
      (params : List Param) (raw values : List (List ℕ × Json))
      → Checked u raw params values
      → All (λ name. is_in name (keys_of raw) ≡ true) (names_of params)
  Checked-present [] raw _ end = tt
  Checked-present (p ∷ params) raw _ (absent _ _ value rest found _ _ h) =
      (lookup-is_in p.name raw found, Checked-present params raw rest h)
  Checked-present (p ∷ params) raw _ (given _ _ x value rest found _ _ h) =
      (lookup-is_in p.name raw found, Checked-present params raw rest h)

  enveloped :
      {request : Json} {answer : List ℕ × List (List ℕ × Json)} (c : Conforms u request answer)
      → ensure_exact_keys (entries c.envelope) envelope_keys ≡ ok tt
  enveloped c = ensure_exact_keys-accepts (entries c.envelope) envelope_keys c.no_other_field (
    lookup-is_in (points "api_version") (entries c.envelope) c.version_field,
    (
      lookup-is_in (points "command") (entries c.envelope) c.command_field,
      (lookup-is_in (points "parameters") (entries c.envelope) c.parameters_field, tt),
    ),
  )

  -- Every request that has the form of the conclusion of validate_envelope-Conforms is accepted with
  -- that answer, whatever the order of its fields and of its parameters: an object with the three
  -- fields of the envelope and no other, the version v2, a declared command and exactly its
  -- parameters, each null only where the row is not required and otherwise of the row's type, with a
  -- value that the row's validator returns.
  pub validate_envelope-accepts :
      (request : Json) (answer : List ℕ × List (List ℕ × Json))
      → Conforms u request answer
      → validate_envelope u request ≡ ok answer
  unfolding validate_envelope check_command ◌>>=◌ or_raise raise_if
  validate_envelope-accepts request answer c =
      rw
        (
          c.is_object,
          enveloped c,
          c.version_field,
          c.command_field,
          c.declared,
          c.parameters_field,
          ensure_exact_keys-accepts (entries c.parameters) (names_of c.spec.params)
              c.no_other_parameter (Checked-present c.spec.params _ _ c.checked),
          check_params-accepts c.spec.params (entries c.parameters) answer.1 c.checked,
        )
        refl
