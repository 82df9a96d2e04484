-- ===== src/Validation/Envelope/Errors.antt =====
-- The errors of validate_envelope (synapse/validation.py): a malformed request is never an internal
-- error, but for the lists of set_agent_card.
use mathlib.Core.Bool.{true≢false}
use synapse_messenger.Prelude.{
  ℕ, ◌≡◌, refl, sym, ap, ◌∙◌, Bool, true, false, ◌&&◌, ◌||◌, inl, inr, Option, some, List, [], ◌∷◌,
  All, all, find, if◌then◌else◌, arith,
}
use synapse_messenger.Errors.{
  ◌>>=◌, or_raise, Raises, Raises-bind, Raises-step, Raises-found, Raises-raise_if, Raises-or_raise,
  or_raise_found, invalid_argument, unknown_command, internal_error,
}
use synapse_messenger.Validation.{
  Json, null, float, boolean, natural, negative, text, array, dict, Unicode, is_in, same_text,
  points, entries,
}
use synapse_messenger.Validation.Keys.{keys_of, lookup}
use synapse_messenger.Validation.Params.{Spec}
use synapse_messenger.Validation.InvalidKeys.{
  ensure_exact_keys-Invalid, ensure_exact_keys-Ensures, lookup-present,
}
use synapse_messenger.Validation.Commands.{command_specs}
use synapse_messenger.Validation.Envelope.{
  spec_of, names_of, as_text, as_dict, check_command, validate_envelope,
}
use synapse_messenger.Validation.Envelope.Needs.{Documented, documented}
use synapse_messenger.Validation.Envelope.Rows.{row_guarded, check_params-Documented}

-- What `find` returns passes the test, and any test that all elements pass.
pub find-all :
    {A : Type 0} (p q : A → Bool) (xs : List A) (x : A)
    → all q xs ≡ true
    → find p xs ≡ some x
    → (p x ≡ true) × (q x ≡ true)
find-all p q [] x h f = (cc, cc)
find-all p q (y ∷ xs) x h f = at (p y) (q y) refl refl h f (find-all p q xs x)
  where
    at :
        (b c : Bool)
        → p y ≡ b
        → q y ≡ c
        → (c && all q xs) ≡ true
        → (if b then some y else find p xs) ≡ some x
        → (all q xs ≡ true → find p xs ≡ some x → (p x ≡ true) × (q x ≡ true))
        → (p x ≡ true) × (q x ≡ true)
    at true true e k h f ih = (cc, cc)
    at false true e k h f ih = ih h f
    at b false e k h f ih = absurd (true≢false (sym h))

pub same_text_eq : (s t : List ℕ) → same_text s t ≡ true → s ≡ t
same_text_eq [] [] h = refl
same_text_eq [] (d ∷ t) h = cc
same_text_eq (c ∷ s) [] h = cc
same_text_eq (c ∷ s) (d ∷ t) h = ground (arith, same_text_eq s t)

abbrev card_command : List ℕ
card_command = points "set_agent_card"

abbrev spec_guarded : Spec → Bool
spec_guarded s = same_text s.name card_command || all row_guarded s.params

-- Every declaration but that of set_agent_card has guarded rows only.
specs_guarded : all spec_guarded command_specs ≡ true
specs_guarded = refl

spec_of-guarded :
    (command : List ℕ) (s : Spec)
    → same_text command card_command ≡ false
    → spec_of command ≡ some s
    → all row_guarded s.params ≡ true
unfolding spec_of
spec_of-guarded command s other found =
    let (named, guarded) =
      find-all (λ s. same_text command s.name) spec_guarded command_specs s specs_guarded found in
    at (same_text s.name card_command)
      (ap (λ t. same_text t card_command) (sym (same_text_eq command s.name named)) ∙ other) guarded
  where
    at :
        (b : Bool)
        → b ≡ false
        → (b || all row_guarded s.params) ≡ true
        → all row_guarded s.params ≡ true
    at true e h = absurd (true≢false e)
    at false e h = h

-- The command of the request is the text "set_agent_card".
abbrev pub is_card_command : Option Json → Bool
is_card_command (some (text t)) = same_text t card_command
is_card_command other = false

abbrev pub is_card_request : Json → Bool
is_card_request (dict fs) = is_card_command (lookup (points "command") (entries fs))
is_card_request other = false

as_dict-Documented : (raw : Json) → Raises Documented (as_dict raw)
as_dict-Documented (dict fs) = tt
as_dict-Documented null = inl refl
as_dict-Documented float = inl refl
as_dict-Documented (boolean b) = inl refl
as_dict-Documented (natural n) = inl refl
as_dict-Documented (negative n) = inl refl
as_dict-Documented (text t) = inl refl
as_dict-Documented (array xs) = inl refl

as_text-Documented : (raw : Json) → Raises Documented (as_text raw)
as_text-Documented (text t) = tt
as_text-Documented null = inl refl
as_text-Documented float = inl refl
as_text-Documented (boolean b) = inl refl
as_text-Documented (natural n) = inl refl
as_text-Documented (negative n) = inl refl
as_text-Documented (array xs) = inl refl
as_text-Documented (dict fs) = inl refl

module _ (u : Unicode) where
  check_command-Documented :
      (command : List ℕ) (s : Spec) (raw : Json)
      → all row_guarded s.params ≡ true
      → Raises Documented (check_command u command s raw)
  unfolding check_command
  check_command-Documented command s raw h =
      Raises-bind Documented _ _ (as_dict-Documented raw) λ parameters.
        Raises-step Documented _ _
          (documented _ (ensure_exact_keys-Invalid parameters (names_of s.params)))
          λ t passed.
            Raises-bind Documented _ _
              (check_params-Documented u s.params parameters
                ((ensure_exact_keys-Ensures parameters (names_of s.params)).returns t passed) h)
              λ validated. tt

  -- Of every request whose command is not the text "set_agent_card", well-formed or not, the exceptions
  -- of validate_envelope are INVALID_ARGUMENT and UNKNOWN_COMMAND.
  pub validate_envelope-Raises :
      (request : Json)
      → is_card_request request ≡ false
      → Raises Documented (validate_envelope u request)
  unfolding validate_envelope ◌>>=◌
  validate_envelope-Raises null h = inl refl
  validate_envelope-Raises float h = inl refl
  validate_envelope-Raises (boolean b) h = inl refl
  validate_envelope-Raises (natural n) h = inl refl
  validate_envelope-Raises (negative n) h = inl refl
  validate_envelope-Raises (text t) h = inl refl
  validate_envelope-Raises (array xs) h = inl refl
  validate_envelope-Raises (dict fs) h =
      Raises-step Documented _ _ (documented _ (ensure_exact_keys-Invalid (entries fs) _))
        λ t passed.
          let keys =
            (ensure_exact_keys-Ensures (entries fs)
                (points "api_version" ∷ points "command" ∷ points "parameters" ∷ [])).returns
              t passed in
          let present : (key : List ℕ)
              → is_in key (keys_of (entries fs)) ≡ true
              → Raises Documented (or_raise (lookup key (entries fs)) internal_error) =
            λ key k. Raises-found Documented _ _ (lookup-present key (entries fs) k).1 in
          Raises-bind Documented _ _ (present (points "api_version") keys.0) λ api_version.
            Raises-bind Documented _ _ (as_text-Documented api_version) λ version.
              Raises-bind Documented _ _ (Raises-raise_if Documented _ invalid_argument (inl refl))
                λ t'.
                  Raises-step Documented _ _ (present (points "command") keys.1.0)
                    λ raw_command found. at keys raw_command (or_raise_found _ _ found)
    where
      at :
          All
            (λ key. is_in key (keys_of (entries fs)) ≡ true)
            (points "api_version" ∷ points "command" ∷ points "parameters" ∷ [])
          → (raw_command : Json) → lookup (points "command") (entries fs) ≡ some raw_command
          → Raises Documented (
              as_text raw_command >>= (λ command.
                or_raise (spec_of command) unknown_command >>= (λ s.
                  or_raise (lookup (points "parameters") (entries fs)) internal_error
                  >>= (λ parameters. check_command u command s parameters))))
      at keys (text command) found =
          Raises-step Documented (or_raise (spec_of command) unknown_command) _
            (Raises-or_raise Documented (spec_of command) unknown_command (inr refl))
            λ s declared.
              Raises-bind Documented
                (or_raise (lookup (points "parameters") (entries fs)) internal_error) _
                (Raises-found Documented _ _
                  (lookup-present (points "parameters") (entries fs) keys.1.1.0).1)
                λ parameters. check_command-Documented command s parameters (
                  spec_of-guarded command s (ap is_card_command (sym found) ∙ h)
                    (or_raise_found _ _ declared))
      at keys null found = inl refl
      at keys float found = inl refl
      at keys (boolean b) found = inl refl
      at keys (natural n) found = inl refl
      at keys (negative n) found = inl refl
      at keys (array xs) found = inl refl
      at keys (dict gs) found = inl refl
