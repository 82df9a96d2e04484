-- ===== src/Validation/Names.antt =====
-- Usernames and organization names, the derived names of human accounts, passwords and booleans
-- (synapse/validation.py: normalize_username to validate_password).
use synapse_messenger.Prelude.{
  ℕ, ◌-◌, Bool, true, false, not, ◌&&◌, ◌||◌, List, [], ◌∷◌, ◌++◌, all, leb, ◌==◌, length, take,
  if◌then◌else◌,
}
use synapse_messenger.Errors.{Result, ok, err, ◌>>=◌, ◌>>◌, raise_if, invalid_argument}
use synapse_messenger.Validation.{
  Json, null, boolean, text, Unicode, points, between, is_upper, is_lower, is_digit, lower,
  same_text, invalid,
}

-- `if not isinstance(raw, str): raise`, and the rest on a text
abbrev pub on_text : (List ℕ → Result Json) → Json → Result Json
on_text f (text t) = f t
on_text f other = invalid

-- [A-Za-z0-9_-]
abbrev pub is_name_char : ℕ → Bool
is_name_char c = is_upper c || (is_lower c || (is_digit c || (c == 95 || c == 45)))

-- The rules of a name; normalize_organization_name repeats those of normalize_username.
unfoldable pub normalize_name : List ℕ → Result (List ℕ)
normalize_name raw = do
  raise_if (not (between 3 64 (length raw))) invalid_argument
  raise_if (not (all is_name_char raw)) invalid_argument
  ok (lower raw)

-- normalize_username
unfoldable pub normalize_username : Json → Result Json
normalize_username raw = on_text (λ t. normalize_name t >>= λ name. ok (text name)) raw

-- is_valid_username
unfoldable pub is_valid_username : List ℕ → Bool
is_valid_username raw = elim (normalize_username (text raw)) [ ok name ↦ true | err e ↦ false ]

-- normalize_organization_name
unfoldable pub normalize_organization_name : Json → Result Json
normalize_organization_name raw = on_text (λ t. normalize_name t >>= λ name. ok (text name)) raw

-- normalize_department_name
unfoldable pub normalize_department_name : Json → Result Json
normalize_department_name raw = normalize_organization_name raw

-- HUMAN_SUFFIX
abbrev pub human_suffix : List ℕ
human_suffix = points "_humain"

-- human_username_for
unfoldable pub human_username_for : Unicode → List ℕ → List ℕ
human_username_for u organization_name =
    let derived = organization_name ++ human_suffix in
    let digest = take 8 (u.sha256_hex organization_name) in
    if leb (length derived) 64
    then derived
    else take (64 - length human_suffix - 1 - length digest) organization_name
      ++ (human_suffix ++ 95 ∷ digest)

-- text.startswith(prefix)
abbrev pub starts_with : List ℕ → List ℕ → Bool
starts_with [] t = true
starts_with (c ∷ prefix) [] = false
starts_with (c ∷ prefix) (d ∷ t) = c == d && starts_with prefix t

-- part in text
abbrev pub contains : List ℕ → List ℕ → Bool
contains part [] = starts_with part []
contains part (c ∷ t) = starts_with part (c ∷ t) || contains part t

-- text.endswith(suffix)
abbrev pub ends_with : List ℕ → List ℕ → Bool
ends_with suffix [] = same_text suffix []
ends_with suffix (c ∷ t) = same_text suffix (c ∷ t) || ends_with suffix t

-- is_reserved_human_username
unfoldable pub is_reserved_human_username : List ℕ → Bool
is_reserved_human_username username =
    ends_with human_suffix username || contains (human_suffix ++ 95 ∷ []) username

-- validate_bool
unfoldable pub validate_bool : Json → Result Json
validate_bool null = ok (boolean false)
validate_bool (boolean b) = ok (boolean b)
validate_bool other = invalid

-- _PASSWORD_ALLOWED_MAJOR: L, M, N, P and S, and the category Zs
abbrev pub is_printable : ℕ × ℕ → Bool
is_printable (major, minor) =
    (major == 76 || (major == 77 || (major == 78 || (major == 80 || major == 83))))
    || major == 90 && minor == 115

-- validate_password
unfoldable pub validate_password : Unicode → Json → Result Json
validate_password u raw =
    on_text
      (λ t.
        raise_if (not (leb 12 (length t))) invalid_argument
        >> (raise_if (not (all (λ c. is_printable (u.category c)) t)) invalid_argument
            >> ok (text t)))
      raw
