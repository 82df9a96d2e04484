-- ===== src/Validation/Identifiers.antt =====
-- Identifiers, dependencies and dates (synapse/validation.py: validate_client_message_id,
-- normalize_uuid, validate_depends_on and validate_due_at).
use synapse_messenger.Prelude.{
  ℕ, zero, suc, Bool, false, not, ◌&&◌, ◌||◌, List, [], ◌∷◌, ◌++◌, all, ltb, ◌==◌, length,
  if◌then◌else◌,
}
use synapse_messenger.Errors.{Result, ok, ◌>>=◌, ◌>>◌, raise_if, invalid_argument}
use synapse_messenger.Hlc.{Digits, digits_then, at_end}
use synapse_messenger.Validation.{
  Json, null, text, array, Unicode, between, is_upper, is_lower, is_digit, lower, is_in, elements,
  invalid,
}
use synapse_messenger.Validation.Names.{on_text}
use synapse_messenger.Validation.Texts.{optional}

-- [A-Za-z0-9._:-]
abbrev pub is_id_char : ℕ → Bool
is_id_char c =
    is_upper c || (is_lower c || (is_digit c || (c == 46 || (c == 95 || (c == 58 || c == 45)))))

-- validate_client_message_id
unfoldable pub validate_client_message_id : Json → Result Json
validate_client_message_id raw =
    on_text
      (λ t.
        raise_if (not (between 1 128 (length t))) invalid_argument
        >> (raise_if (not (all is_id_char t)) invalid_argument >> ok (text t)))
      raw

-- _validate_optional_client_id
unfoldable pub validate_optional_client_id : Json → Result Json
validate_optional_client_id raw = optional validate_client_message_id raw

-- [0-9a-fA-F]
abbrev pub is_hex : ℕ → Bool
is_hex c = is_digit c || (between 97 102 c || between 65 70 c)

-- [0-9a-fA-F]{n} and then the rest of the pattern
abbrev pub hex_then : ℕ → (List ℕ → Bool) → List ℕ → Bool
hex_then zero rest t = rest t
hex_then (suc n) rest [] = false
hex_then (suc n) rest (c ∷ t) = is_hex c && hex_then n rest t

-- the character d and then the rest of the pattern
abbrev pub char_then : ℕ → (List ℕ → Bool) → List ℕ → Bool
char_then d rest [] = false
char_then d rest (c ∷ t) = c == d && rest t

-- UUID4_RE
abbrev pub is_uuid_text : List ℕ → Bool
is_uuid_text t =
    hex_then 8
      (char_then 45 (
        hex_then 4 (
          char_then 45
            (hex_then 4 (char_then 45 (hex_then 4 (char_then 45 (hex_then 12 at_end))))))))
      t

abbrev pub char_at : ℕ → List ℕ → ℕ
char_at n [] = 0
char_at zero (c ∷ t) = c
char_at (suc n) (c ∷ t) = char_at n t

-- uuid.UUID(t): the version is the 13th digit, and the variant of RFC 4122 has 8, 9, a or b as the 17th.
abbrev pub is_version_4 : List ℕ → Bool
is_version_4 t = char_at 14 t == 52

abbrev pub is_rfc_4122 : List ℕ → Bool
is_rfc_4122 t = let c = char_at 19 t in between 56 57 c || (between 97 98 c || between 65 66 c)

-- normalize_uuid, on a text: str(uuid.UUID(t)) has lowercase digits.
unfoldable pub normalize_uuid_text : List ℕ → Result (List ℕ)
normalize_uuid_text t = do
  raise_if (not (is_uuid_text t)) invalid_argument
  raise_if (not (is_version_4 t && is_rfc_4122 t)) invalid_argument
  ok (lower t)

abbrev pub uuid_of : Json → Result (List ℕ)
uuid_of (text t) = normalize_uuid_text t
uuid_of other = invalid

-- normalize_uuid
unfoldable pub normalize_uuid : Json → Result Json
normalize_uuid raw = uuid_of raw >>= λ t. ok (text t)

-- the loop of validate_depends_on; `seen` holds what `out` does
abbrev pub add_new : List (List ℕ) → List ℕ → List (List ℕ)
add_new out value = if is_in value out then out else out ++ value ∷ []

unfoldable pub collect_uuids : List Json → List (List ℕ) → Result (List (List ℕ))
collect_uuids [] out = ok out
collect_uuids (x ∷ rest) out = uuid_of x >>= λ value. collect_uuids rest (add_new out value)

-- validate_depends_on
unfoldable pub validate_depends_on : Json → Result (List (List ℕ))
validate_depends_on null = ok []
validate_depends_on (array xs) =
    raise_if (ltb 20 (length (elements xs))) invalid_argument >> collect_uuids (elements xs) []
validate_depends_on other = invalid

-- _DATE_RE
abbrev pub is_date_text : Digits → List ℕ → Bool
unfolding digits_then
is_date_text u t =
    digits_then u 4
      (char_then 45 (
        digits_then u 2 (
          char_then 45 (
            digits_then u 2 (
              char_then 84 (
                digits_then u 2 (
                  char_then 58 (
                    digits_then u 2 (
                      char_then 58 (
                        digits_then u 2
                          (char_then 46 (digits_then u 3 (char_then 90 at_end)))))))))))))
      t

-- validate_due_at
unfoldable pub validate_due_at : Unicode → Json → Result Json
validate_due_at u raw =
    optional
      (λ raw.
        on_text (λ t. raise_if (not (is_date_text u.digits t)) invalid_argument >> ok (text t)) raw)
      raw
