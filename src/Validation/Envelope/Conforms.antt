-- ===== src/Validation/Envelope/Conforms.antt =====
-- What validate_envelope returns (synapse/validation.py).
use synapse_messenger.Prelude.{
  ℕ, ◌≡◌, refl, sym, ap, ◌∙◌, Bool, true, false, not, some, List, [], ◌∷◌, if◌then◌else◌,
}
use synapse_messenger.Errors.{
  Result, ok, err, or_raise, Ensures, Ensures-ok, Ensures-bind, Ensures-then, Ensures-map,
  or_raise_found, raise_unless_passed, invalid_argument, ErrorCode,
}
use synapse_messenger.Validation.{
  Json, null, float, boolean, natural, negative, text, array, dict, Fields, Unicode, points,
  entries,
}
use synapse_messenger.Validation.Keys.{lookup}
use synapse_messenger.Validation.Params.{Param, Spec, has_type, run}
use synapse_messenger.Validation.Commands.{command_names}
use synapse_messenger.Validation.Envelope.{
  spec_of, names_of, as_text, as_dict, check_param, check_params, check_command, validate_envelope,
}
use synapse_messenger.Validation.Envelope.ExactKeys.{Within, ensured-Within}
use synapse_messenger.Validation.Envelope.Errors.{same_text_eq}

-- The values of the parameters in the order of the rows, from the object of parameters `raw`: a null
-- only where the row is not required, any other value of the type of the row, and each as the row's
-- validator returns it.
pub data Checked (u : Unicode) (raw : List (List ℕ × Json))
    : List Param → List (List ℕ × Json) → Type 0 where
  end : Checked u raw [] []
  absent :
      (p : Param) (params : List Param) (value : Json) (rest : List (List ℕ × Json))
      → lookup p.name raw ≡ some null
      → p.is_required ≡ false
      → run u command_names p.validator null ≡ ok value
      → Checked u raw params rest
      → Checked u raw (p ∷ params) ((p.name, value) ∷ rest)
  given :
      (p : Param) (params : List Param) (x value : Json) (rest : List (List ℕ × Json))
      → lookup p.name raw ≡ some x
      → has_type p.type_of x ≡ true
      → run u command_names p.validator x ≡ ok value
      → Checked u raw params rest
      → Checked u raw (p ∷ params) ((p.name, value) ∷ rest)

abbrev pub envelope_keys : List (List ℕ)
envelope_keys = points "api_version" ∷ points "command" ∷ points "parameters" ∷ []

-- The request is an object with the three fields of the envelope and no other: the version v2, the
-- command of the answer, which is declared, and an object with the declared parameters and no other,
-- whose checked values are those of the answer.
pub record Conforms (u : Unicode) (request : Json) (answer : List ℕ × List (List ℕ × Json))
    : Type 0 where
  pub spec : Spec
  pub envelope : Fields
  pub parameters : Fields
  pub is_object : request ≡ dict envelope
  pub no_other_field : Within (entries envelope) envelope_keys
  pub version_field : lookup (points "api_version") (entries envelope) ≡ some (text (points "v2"))
  pub command_field : lookup (points "command") (entries envelope) ≡ some (text (answer.0))
  pub parameters_field : lookup (points "parameters") (entries envelope) ≡ some (dict parameters)
  pub declared : spec_of answer.0 ≡ some spec
  pub no_other_parameter : Within (entries parameters) (names_of spec.params)
  pub checked : Checked u (entries parameters) spec.params answer.1

as_dict-dict :
    (x : Json) {fs : List (List ℕ × Json)}
    → as_dict x ≡ ok fs
    → (gs : Fields) × (x ≡ dict gs) × (entries gs ≡ fs)
as_dict-dict (dict gs) h = (gs, refl, cc)
as_dict-dict null h = cc
as_dict-dict float h = cc
as_dict-dict (boolean b) h = cc
as_dict-dict (natural n) h = cc
as_dict-dict (negative n) h = cc
as_dict-dict (text t) h = cc
as_dict-dict (array xs) h = cc

as_text-text : (x : Json) {t : List ℕ} → as_text x ≡ ok t → x ≡ text t
as_text-text (text t) h = cc
as_text-text null h = cc
as_text-text float h = cc
as_text-text (boolean b) h = cc
as_text-text (natural n) h = cc
as_text-text (negative n) h = cc
as_text-text (array xs) h = cc
as_text-text (dict gs) h = cc

tested :
    {A : Type 0} (b : Bool) (r : Result A) {v : A}
    → (if b then err invalid_argument else r) ≡ ok v
    → (b ≡ false) × (r ≡ ok v)
tested true r h = cc
tested false r h = (refl, h)

typed :
    {A : Type 0} (b : Bool) (r : Result A) {v : A}
    → (if not b then err invalid_argument else r) ≡ ok v
    → (b ≡ true) × (r ≡ ok v)
typed true r h = (refl, h)
typed false r h = cc

-- A field that was read, as a field of the object.
field_of :
    (key : List ℕ) (mapping envelope : List (List ℕ × Json)) (e : ErrorCode) {x y : Json}
    → mapping ≡ envelope
    → or_raise (lookup key envelope) e ≡ ok x
    → x ≡ y
    → lookup key mapping ≡ some y
field_of key mapping envelope e same found is =
    ap (lookup key) same ∙ or_raise_found _ _ found ∙ ap some is

module _ (u : Unicode) where
  -- Of one row, by what the value is.
  check_row :
      (p : Param) (params : List Param) (raw : List (List ℕ × Json)) (x value : Json)
      (rest : List (List ℕ × Json))
      → lookup p.name raw ≡ some x
      → check_param u p x ≡ ok value
      → Checked u raw params rest
      → Checked u raw (p ∷ params) ((p.name, value) ∷ rest)
  unfolding check_param
  check_row p params raw null value rest found e h =
      let (optional, valid) = tested p.is_required _ e in
      absent p params value rest found optional valid h
  check_row p params raw float value rest found e h =
      let (fits, valid) = typed (has_type p.type_of float) _ e in
      given p params float value rest found fits valid h
  check_row p params raw (boolean b) value rest found e h =
      let (fits, valid) = typed (has_type p.type_of (boolean b)) _ e in
      given p params (boolean b) value rest found fits valid h
  check_row p params raw (natural n) value rest found e h =
      let (fits, valid) = typed (has_type p.type_of (natural n)) _ e in
      given p params (natural n) value rest found fits valid h
  check_row p params raw (negative n) value rest found e h =
      let (fits, valid) = typed (has_type p.type_of (negative n)) _ e in
      given p params (negative n) value rest found fits valid h
  check_row p params raw (text t) value rest found e h =
      let (fits, valid) = typed (has_type p.type_of (text t)) _ e in
      given p params (text t) value rest found fits valid h
  check_row p params raw (array xs) value rest found e h =
      let (fits, valid) = typed (has_type p.type_of (array xs)) _ e in
      given p params (array xs) value rest found fits valid h
  check_row p params raw (dict fs) value rest found e h =
      let (fits, valid) = typed (has_type p.type_of (dict fs)) _ e in
      given p params (dict fs) value rest found fits valid h

  check_params-Checked :
      (params : List Param) (raw : List (List ℕ × Json))
      → Ensures (Checked u raw params) (check_params u params raw)
  unfolding check_params
  check_params-Checked [] raw = Ensures-ok [] end
  check_params-Checked (p ∷ params) raw = Ensures-bind (or_raise (lookup p.name raw) _) _ λ x found.
      Ensures-bind (check_param u p x) _ λ value valid.
        Ensures-then (check_params u params raw) _ (check_params-Checked params raw) λ rest h.
          Ensures-ok _ (check_row p params raw x value rest (or_raise_found _ _ found) valid h)

  -- What check_command has tested, of the object of parameters.
  abbrev Commanded : List ℕ → Spec → Json → List ℕ × List (List ℕ × Json) → Type 0
  Commanded command s x answer =
      (fs : Fields) × (x ≡ dict fs)
      × (answer.0 ≡ command)
      × Within (entries fs) (names_of s.params)
      × Checked u (entries fs) s.params answer.1

  check_command-Commanded :
      (command : List ℕ) (s : Spec) (x : Json)
      → Ensures (Commanded command s x) (check_command u command s x)
  unfolding check_command
  check_command-Commanded command s x = Ensures-bind _ _ λ raw object.
      let (fs, is_dict, e) = as_dict-dict x object in
      Ensures-then _ _ (ensured-Within raw (names_of s.params)) λ t within.
        Ensures-then _ _ (check_params-Checked s.params raw)
          λ validated checked. Ensures-ok _ (fs, is_dict, refl, rw e within, rw e checked)

  -- Where validate_envelope returns, the request is an object with the three fields of the envelope and
  -- no other, the version v2, the command of the answer, which is declared, and an object with exactly
  -- the declared parameters. The answer has them in the declared order: a null only where the row is not
  -- required, any other value of the row's type, and each as the row's validator returns it.
  pub validate_envelope-Conforms :
      (request : Json) → Ensures (Conforms u request) (validate_envelope u request)
  unfolding validate_envelope
  validate_envelope-Conforms request = Ensures-bind _ _ λ envelope object.
      let (fs, is_dict, e) = as_dict-dict request object in
      Ensures-then _ _ (ensured-Within envelope envelope_keys) λ t within.
        Ensures-bind _ _ λ api api_found. Ensures-bind _ _ λ version api_text.
          Ensures-bind _ _ λ t' v2. Ensures-bind _ _ λ raw_command command_found.
            Ensures-bind _ _ λ command command_text. Ensures-bind _ _ λ s declared.
              Ensures-bind _ _ λ x parameters_found.
                Ensures-map _ (check_command-Commanded command s x)
                  λ answer (gs, is_object, same, known, checked). record {
                    spec = s;
                    envelope = fs;
                    parameters = gs;
                    is_object = is_dict;
                    no_other_field = rw e within;
                    version_field = field_of (points "api_version") _ _ _ e api_found (
                        as_text-text api api_text
                        ∙ ap text (same_text_eq _ _ (raise_unless_passed _ _ v2)));
                    command_field =
                        field_of (points "command") _ _ _ e command_found
                          (as_text-text raw_command command_text ∙ ap text (sym same));
                    parameters_field =
                        field_of (points "parameters") _ _ _ e parameters_found is_object;
                    declared = ap spec_of same ∙ or_raise_found _ _ declared;
                    no_other_parameter = known;
                    checked = checked;
                  }
