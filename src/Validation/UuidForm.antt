-- ===== src/Validation/UuidForm.antt =====
-- The text of a UUIDv4 (synapse/validation.py: normalize_uuid), after it is put in lower case.
use synapse_messenger.Prelude.{
  ℕ, zero, suc, ◌≡◌, refl, ap, ◌∙◌, true, ◌⊎◌, ◌++◌, length, All, Bool, ◌||◌, List, [], ◌∷◌, ◌==◌,
  arith,
}
use synapse_messenger.Validation.{between, lower, lower_char}
use synapse_messenger.Hlc.{at_end}
use synapse_messenger.Validation.Identifiers.{
  is_hex, hex_then, char_then, char_at, is_uuid_text, is_version_4, is_rfc_4122,
}

-- The characters 0 to 9 and a to f
abbrev pub IsDigit : ℕ → Type 0
IsDigit c = (between 48 57 c || between 97 102 c) ≡ true

-- `t` is a group of `n` lowercase digits and then `rest`.
abbrev pub Group : ℕ → List ℕ → List ℕ → Type 0
Group n t rest = (g : List ℕ) × (t ≡ g ++ rest) × (length g ≡ n) × All IsDigit g

-- Five groups of 8, 4, 4, 4 and 12 lowercase digits, with a "-" (45) between them
abbrev pub HasGroups : List ℕ → Type 0
HasGroups t =
    (t1 t2 t3 t4 : List ℕ) × Group 8 t (45 ∷ t1)
    × Group 4 t1 (45 ∷ t2)
    × Group 4 t2 (45 ∷ t3)
    × Group 4 t3 (45 ∷ t4)
    × Group 12 t4 []

pub char_at-lower : (n : ℕ) (t : List ℕ) → char_at n (lower t) ≡ lower_char (char_at n t)
char_at-lower n [] = refl
char_at-lower zero (c ∷ t) = refl
char_at-lower (suc n) (c ∷ t) = char_at-lower n t

IsDigit-lower : (c : ℕ) → is_hex c ≡ true → IsDigit (lower_char c)
IsDigit-lower c h = ground arith

dash_lower : (c : ℕ) → (c == 45) ≡ true → lower_char c ≡ 45
dash_lower c h = ground arith

-- What the pattern matches after the digits and the "-", and the text before it in lower case.
hex_then-Group :
    (n : ℕ) (rest : List ℕ → Bool) (t : List ℕ)
    → hex_then n rest t ≡ true
    → (s : List ℕ) × Group n (lower t) (lower s) × (rest s ≡ true)
hex_then-Group zero rest t h = (t, ([], refl, refl, tt), h)
hex_then-Group (suc n) rest [] h = cc
hex_then-Group (suc n) rest (c ∷ t) h =
    let (s, (g, e, size, digits), more) = hex_then-Group n rest t (ground (arith, h)) in
    (
      s,
      (
        lower_char c ∷ g,
        ap (λ x. lower_char c ∷ x) e,
        ap suc size,
        (IsDigit-lower c (ground (arith, h)), digits),
      ),
      more,
    )

char_then-dash :
    (rest : List ℕ → Bool) (t : List ℕ)
    → char_then 45 rest t ≡ true
    → (s : List ℕ) × (lower t ≡ 45 ∷ lower s) × (rest s ≡ true)
char_then-dash rest [] h = cc
char_then-dash rest (c ∷ t) h =
    (t, ap (λ x. x ∷ lower t) (dash_lower c (ground (arith, h))), ground (arith, h))

-- A group with the "-" behind it
dashed :
    (n : ℕ) (rest : List ℕ → Bool) (t : List ℕ)
    → hex_then n (char_then 45 rest) t ≡ true
    → (s : List ℕ) × Group n (lower t) (45 ∷ lower s) × (rest s ≡ true)
dashed n rest t h =
    let (s, (g, e, size, digits), dash) = hex_then-Group n (char_then 45 rest) t h in
    let (s', e', more) = char_then-dash rest s dash in
    (s', (g, e ∙ ap (λ x. g ++ x) e', size, digits), more)

ended : (t : List ℕ) → at_end t ≡ true → lower t ≡ []
ended [] h = refl
ended (c ∷ t) h = cc

pub is_uuid_text-HasGroups : (t : List ℕ) → is_uuid_text t ≡ true → HasGroups (lower t)
is_uuid_text-HasGroups t h =
    let (t1, g1, h1) = dashed 8 _ t h in
    let (t2, g2, h2) = dashed 4 _ t1 h1 in
    let (t3, g3, h3) = dashed 4 _ t2 h2 in
    let (t4, g4, h4) = dashed 4 _ t3 h3 in
    let (t5, (g, e, size, digits), h5) = hex_then-Group 12 at_end t4 h4 in
    (
      lower t1,
      lower t2,
      lower t3,
      lower t4,
      g1,
      g2,
      g3,
      g4,
      (g, e ∙ ap (λ x. g ++ x) (ended t5 h5), size, digits),
    )

pub version_digit : (t : List ℕ) → is_version_4 t ≡ true → char_at 14 (lower t) ≡ 52
version_digit t h = char_at-lower 14 t ∙ digit (char_at 14 t) h
  where
    digit : (c : ℕ) → (c == 52) ≡ true → lower_char c ≡ 52
    digit c h = ground arith

pub variant_digit :
    (t : List ℕ)
    → is_rfc_4122 t ≡ true
    → (char_at 19 (lower t) ≡ 56)
      ⊎ ((char_at 19 (lower t) ≡ 57) ⊎ ((char_at 19 (lower t) ≡ 97) ⊎ (char_at 19 (lower t) ≡ 98)))
variant_digit t h = rw (char_at-lower 19 t) (digit (char_at 19 t) h)
  where
    digit :
        (c : ℕ)
        → (between 56 57 c || (between 97 98 c || between 65 66 c)) ≡ true
        → (lower_char c ≡ 56) ⊎ ((lower_char c ≡ 57) ⊎ ((lower_char c ≡ 97) ⊎ (lower_char c ≡ 98)))
    digit c h = ground arith
