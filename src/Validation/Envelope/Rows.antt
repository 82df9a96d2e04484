-- ===== src/Validation/Envelope/Rows.antt =====
-- The errors of the parameters' checks (synapse/validation.py: validate_envelope).
use mathlib.Core.Bool.{true≢false}
use synapse_messenger.Prelude.{
  ℕ, ◌≡◌, refl, sym, ap, ◌∙◌, Bool, true, false, not, inl, List, [], ◌∷◌, All, all, if◌then◌else◌,
  both,
}
use synapse_messenger.Errors.{err, Raises, Raises-bind, Raises-found, invalid_argument}
use synapse_messenger.Validation.{
  Json, null, float, boolean, natural, negative, text, array, dict, Unicode, is_in,
}
use synapse_messenger.Validation.Keys.{keys_of}
use synapse_messenger.Validation.Params.{
  Param, ParamType, of_str, of_bool_type, of_int, of_list, of_dict, has_type, run,
}
use synapse_messenger.Validation.InvalidWords.{is_hashable}
use synapse_messenger.Validation.InvalidKeys.{lookup-present}
use synapse_messenger.Validation.Commands.{command_names}
use synapse_messenger.Validation.Envelope.{names_of, check_param, check_params}
use synapse_messenger.Validation.Envelope.Needs.{
  Documented, Need, nothing, a_value, hashable, texts, need_of, is_null, meets, run-Documented,
}

abbrev pub is_scalar : ParamType → Bool
is_scalar of_list = false
is_scalar of_dict = false
is_scalar other = true

-- The row's test and type spare its validator what it cannot take.
abbrev pub is_guarded : Need → ParamType → Bool → Bool
is_guarded nothing type required = true
is_guarded a_value type required = required
is_guarded hashable type required = is_scalar type
is_guarded texts type required = false

abbrev pub row_guarded : Param → Bool
row_guarded p = is_guarded (need_of p.validator) p.type_of p.is_required

-- A null that is not required, or a value of the type, has what is needed.
guarded_null : (n : Need) (type : ParamType) → is_guarded n type false ≡ true → meets n null ≡ true
guarded_null nothing type h = refl
guarded_null a_value type h = absurd (true≢false (sym h))
guarded_null hashable type h = refl
guarded_null texts type h = absurd (true≢false (sym h))

guarded_typed :
    (n : Need) (type : ParamType) (required : Bool) (raw : Json)
    → is_null raw ≡ false
    → has_type type raw ≡ true
    → is_guarded n type required ≡ true
    → meets n raw ≡ true
guarded_typed nothing type required raw e t h = refl
guarded_typed a_value type required raw e t h = rw e refl
guarded_typed texts type required raw e t h = absurd (true≢false (sym h))
guarded_typed hashable type required raw e t h = scalar type raw t h
  where
    scalar :
        (type : ParamType) (raw : Json)
        → has_type type raw ≡ true
        → is_scalar type ≡ true
        → is_hashable raw ≡ true
    scalar type null t h = refl
    scalar type float t h = refl
    scalar type (boolean b) t h = refl
    scalar type (natural n) t h = refl
    scalar type (negative n) t h = refl
    scalar type (text s) t h = refl
    scalar of_list (array xs) t h = absurd (true≢false (sym h))
    scalar of_dict (dict fs) t h = absurd (true≢false (sym h))
    scalar of_str (array xs) t h = absurd (true≢false (sym t))
    scalar of_bool_type (array xs) t h = absurd (true≢false (sym t))
    scalar of_int (array xs) t h = absurd (true≢false (sym t))
    scalar of_dict (array xs) t h = absurd (true≢false (sym t))
    scalar of_str (dict fs) t h = absurd (true≢false (sym t))
    scalar of_bool_type (dict fs) t h = absurd (true≢false (sym t))
    scalar of_int (dict fs) t h = absurd (true≢false (sym t))
    scalar of_list (dict fs) t h = absurd (true≢false (sym t))

module _ (u : Unicode) where
  -- a value that is not null
  typed :
      (p : Param) (raw : Json)
      → is_null raw ≡ false
      → row_guarded p ≡ true
      → Raises Documented (
          if not (has_type p.type_of raw)
          then err invalid_argument
          else run u command_names p.validator raw)
  typed p raw e h = at (has_type p.type_of raw) refl
    where
      at :
          (b : Bool)
          → has_type p.type_of raw ≡ b
          → Raises Documented
              (if not b then err invalid_argument else run u command_names p.validator raw)
      at true t =
          run-Documented u p.validator raw
            (guarded_typed (need_of p.validator) p.type_of p.is_required raw e t h)
      at false t = inl refl

  check_param-Documented :
      (p : Param) (raw : Json) → row_guarded p ≡ true → Raises Documented (check_param u p raw)
  unfolding check_param
  check_param-Documented p null h = at p.is_required refl
    where
      at :
          (b : Bool)
          → p.is_required ≡ b
          → Raises Documented
              (if b then err invalid_argument else run u command_names p.validator null)
      at true e = inl refl
      at false e = run-Documented u p.validator null (
          guarded_null (need_of p.validator) p.type_of
            (ap (is_guarded (need_of p.validator) p.type_of) (sym e) ∙ h))
  check_param-Documented p (text t) h = typed p (text t) refl h
  check_param-Documented p float h = typed p float refl h
  check_param-Documented p (boolean b) h = typed p (boolean b) refl h
  check_param-Documented p (natural n) h = typed p (natural n) refl h
  check_param-Documented p (negative n) h = typed p (negative n) refl h
  check_param-Documented p (array xs) h = typed p (array xs) refl h
  check_param-Documented p (dict fs) h = typed p (dict fs) refl h

  pub check_params-Documented :
      (params : List Param) (raw : List (List ℕ × Json))
      → All (λ key. is_in key (keys_of raw) ≡ true) (names_of params)
      → all row_guarded params ≡ true
      → Raises Documented (check_params u params raw)
  unfolding check_params
  check_params-Documented [] raw k h = tt
  check_params-Documented (p ∷ params) raw (k, ks) h =
      Raises-bind Documented _ _ (Raises-found Documented _ _ (lookup-present p.name raw k).1)
        λ given.
          Raises-bind Documented _ _
            (check_param-Documented p given (both (row_guarded p) (all row_guarded params) h).0)
            λ value.
              Raises-bind Documented _ _
                (check_params-Documented params raw ks
                  (both (row_guarded p) (all row_guarded params) h).1)
                λ rest. tt
