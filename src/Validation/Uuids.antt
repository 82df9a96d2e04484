-- ===== src/Validation/Uuids.antt =====
-- What normalize_uuid (synapse/validation.py) returns: a UUIDv4 in lower case, its own normal form.
use synapse_messenger.Prelude.{
  ℕ, zero, suc, ◌≤◌, ◌≡◌, refl, ◌⊎◌, both, Bool, not, ◌&&◌, ◌||◌, List, [], ◌∷◌, ◌==◌, arith,
}
use synapse_messenger.Errors.{
  ok, ◌>>=◌, raise_if, Ensures, Ensures-bind, Ensures-ok, Ensures-err, raise_unless_passed,
  invalid_argument,
}
use synapse_messenger.Validation.{
  Json, null, float, boolean, natural, negative, text, array, dict, between, lower, lower_char,
}
use synapse_messenger.Hlc.{at_end}
use synapse_messenger.Validation.UuidForm.{
  HasGroups, char_at-lower, is_uuid_text-HasGroups, version_digit, variant_digit,
}
use synapse_messenger.Validation.Identifiers.{
  is_hex, hex_then, char_then, char_at, is_uuid_text, is_version_4, is_rfc_4122,
  normalize_uuid_text, uuid_of,
}

-- A UUIDv4 in its lowercase form: the first digit of the third group is 4 (52), the first of the fourth
-- is 8, 9, a or b (56, 57, 97, 98), and normalize_uuid returns it unchanged.
pub record IsUuid (t : List ℕ) : Type 0 where
  pub groups : HasGroups t
  pub version : char_at 14 t ≡ 52
  pub variant :
      (char_at 19 t ≡ 56) ⊎ ((char_at 19 t ≡ 57) ⊎ ((char_at 19 t ≡ 97) ⊎ (char_at 19 t ≡ 98)))
  pub accepted : normalize_uuid_text t ≡ ok t

lower_lower : (c : ℕ) → lower_char (lower_char c) ≡ lower_char c
lower_lower c = ground arith

lower-lower : (t : List ℕ) → lower (lower t) ≡ lower t
lower-lower [] = refl
lower-lower (c ∷ t) = rw (lower_lower c, lower-lower t) refl

hex_lower : (c : ℕ) → is_hex (lower_char c) ≡ is_hex c
hex_lower c = ground arith

char_lower : (c d : ℕ) → d ≤ 64 → (lower_char c == d) ≡ (c == d)
char_lower c d h = ground arith

hex_then-lower :
    (n : ℕ) (rest : List ℕ → Bool) (t : List ℕ)
    → ((s : List ℕ) → rest (lower s) ≡ rest s)
    → hex_then n rest (lower t) ≡ hex_then n rest t
hex_then-lower zero rest t h = h t
hex_then-lower (suc n) rest [] h = refl
hex_then-lower (suc n) rest (c ∷ t) h = rw (hex_lower c, hex_then-lower n rest t h) refl

char_then-lower :
    (d : ℕ) (rest : List ℕ → Bool) (t : List ℕ)
    → d ≤ 64
    → ((s : List ℕ) → rest (lower s) ≡ rest s)
    → char_then d rest (lower t) ≡ char_then d rest t
char_then-lower d rest [] k h = refl
char_then-lower d rest (c ∷ t) k h = rw (char_lower c d k, h t) refl

at_end-lower : (t : List ℕ) → at_end (lower t) ≡ at_end t
at_end-lower [] = refl
at_end-lower (c ∷ t) = refl

-- The groups of the pattern after the first, each behind a "-"
is_uuid_text-lower : (t : List ℕ) → is_uuid_text (lower t) ≡ is_uuid_text t
is_uuid_text-lower t =
    hex_then-lower 8 _ t
      (dash _ (hex 4 _ (dash _ (hex 4 _ (dash _ (hex 4 _ (dash _ (hex 12 _ at_end-lower))))))))
  where
    dash :
        (rest : List ℕ → Bool)
        → ((s : List ℕ) → rest (lower s) ≡ rest s)
        → (s : List ℕ) → char_then 45 rest (lower s) ≡ char_then 45 rest s
    dash rest h s = char_then-lower 45 rest s (omega arith) h

    hex :
        (n : ℕ) (rest : List ℕ → Bool)
        → ((s : List ℕ) → rest (lower s) ≡ rest s)
        → (s : List ℕ) → hex_then n rest (lower s) ≡ hex_then n rest s
    hex n rest h s = hex_then-lower n rest s h

variant_lower :
    (c : ℕ)
    → (between 56 57 (lower_char c)
        || (between 97 98 (lower_char c) || between 65 66 (lower_char c)))
      ≡ (between 56 57 c || (between 97 98 c || between 65 66 c))
variant_lower c = ground arith

version-lower :
    (t : List ℕ)
    → (is_version_4 (lower t) && is_rfc_4122 (lower t)) ≡ (is_version_4 t && is_rfc_4122 t)
version-lower t =
    rw
      (
        char_at-lower 14 t,
        char_at-lower 19 t,
        char_lower (char_at 14 t) 52 (omega arith),
        variant_lower (char_at 19 t),
      )
      refl

pub uuid_of-IsUuid : (x : Json) → Ensures IsUuid (uuid_of x)
unfolding normalize_uuid_text raise_if ◌>>=◌
uuid_of-IsUuid (text t) =
    Ensures-bind (raise_if (not (is_uuid_text t)) invalid_argument) _ λ a shape.
      Ensures-bind (raise_if (not (is_version_4 t && is_rfc_4122 t)) invalid_argument) _
        λ b version. Ensures-ok (lower t) record {
          groups = is_uuid_text-HasGroups t (raise_unless_passed _ _ shape);
          version = version_digit t (both _ _ (raise_unless_passed _ _ version)).0;
          variant = variant_digit t (both _ _ (raise_unless_passed _ _ version)).1;
          accepted =
              rw
                (
                  is_uuid_text-lower t,
                  raise_unless_passed _ _ shape,
                  version-lower t,
                  raise_unless_passed _ _ version,
                  lower-lower t,
                )
                refl;
        }
uuid_of-IsUuid null = Ensures-err invalid_argument
uuid_of-IsUuid float = Ensures-err invalid_argument
uuid_of-IsUuid (boolean b) = Ensures-err invalid_argument
uuid_of-IsUuid (natural n) = Ensures-err invalid_argument
uuid_of-IsUuid (negative n) = Ensures-err invalid_argument
uuid_of-IsUuid (array xs) = Ensures-err invalid_argument
uuid_of-IsUuid (dict fs) = Ensures-err invalid_argument
