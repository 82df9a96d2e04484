-- ===== src/Validation/NamesLaws.antt =====
-- Names are normalised once, and every derived human name is reserved (synapse/validation.py:
-- normalize_username, human_username_for and is_reserved_human_username).
use synapse_messenger.Prelude.{
  ℕ, zero, suc, ◌+◌, ◌-◌, ◌≤◌, ◌≡◌, refl, ap, ◌∙◌, Bool, true, false, ◌||◌, List, [], ◌∷◌, ◌++◌,
  all, leb, length, length-append, take, ◌==◌, if◌then◌else◌, leb→le, both, arith,
}
use synapse_messenger.Errors.{
  ok, ◌>>=◌, raise_if, Ensures, Ensures-bind, Ensures-ok, raise_unless_passed,
}
use synapse_messenger.Validation.{
  Unicode, between, is_lower, is_digit, lower_char, lower, same_text, points,
}
use synapse_messenger.Validation.Names.{
  is_name_char, normalize_name, human_suffix, human_username_for, starts_with, contains, ends_with,
  is_reserved_human_username,
}

-- [a-z0-9_-]
abbrev pub is_normal_char : ℕ → Bool
is_normal_char c = is_lower c || (is_digit c || (c == 95 || c == 45))

-- 3 to 64 characters of [a-z0-9_-]
pub record IsName (name : List ℕ) : Type 0 where
  pub fits : between 3 64 (length name) ≡ true
  pub normal : all is_normal_char name ≡ true

length-lower : (t : List ℕ) → length (lower t) ≡ length t
length-lower [] = refl
length-lower (c ∷ t) = ap suc (length-lower t)

normal_lower : (c : ℕ) → is_name_char c ≡ true → is_normal_char (lower_char c) ≡ true
normal_lower c h = ground arith

lower-normal : (t : List ℕ) → all is_name_char t ≡ true → all is_normal_char (lower t) ≡ true
lower-normal [] h = refl
lower-normal (c ∷ t) h =
    let (first, rest) = both (is_name_char c) (all is_name_char t) h in
    rw (normal_lower c first) (lower-normal t rest)

-- Where normalize_username accepts a text, its answer is a name.
pub normalize_name-IsName : (raw : List ℕ) → Ensures IsName (normalize_name raw)
unfolding normalize_name
normalize_name-IsName raw = Ensures-bind _ _ λ t fits. Ensures-bind _ _ λ t' chars.
    Ensures-ok (lower raw) record {
      fits = ap (between 3 64) (length-lower raw) ∙ raise_unless_passed _ _ fits;
      normal = lower-normal raw (raise_unless_passed _ _ chars);
    }

lower_normal : (c : ℕ) → is_normal_char c ≡ true → lower_char c ≡ c
lower_normal c h = ground arith

name_char : (c : ℕ) → is_normal_char c ≡ true → is_name_char c ≡ true
name_char c h = ground arith

lower-fixed :
    (t : List ℕ) → all is_normal_char t ≡ true → (lower t ≡ t) × (all is_name_char t ≡ true)
lower-fixed [] h = (refl, refl)
lower-fixed (c ∷ t) h =
    let (first, rest) = both (is_normal_char c) (all is_normal_char t) h in
    let (same, names) = lower-fixed t rest in
    (rw (lower_normal c first, same) refl, rw (name_char c first) names)

-- A text of 3 to 64 characters of [a-z0-9_-] is accepted as a name, and is its own normal form.
pub normalize_name-fixed : (name : List ℕ) → IsName name → normalize_name name ≡ ok name
unfolding normalize_name raise_if ◌>>=◌
normalize_name-fixed name h =
    let (same, names) = lower-fixed name h.normal in rw (h.fits, names, same) refl

pub same_text_refl : (t : List ℕ) → same_text t t ≡ true
same_text_refl [] = refl
same_text_refl (c ∷ t) = ground (arith, same_text_refl t)

ends_with_self : (t : List ℕ) → ends_with t t ≡ true
ends_with_self [] = refl
ends_with_self (c ∷ t) = rw (same_text_refl (c ∷ t)) refl

or_true : (b : Bool) → (b || true) ≡ true
or_true b = ground arith

ends_with-append : (t suffix : List ℕ) → ends_with suffix (t ++ suffix) ≡ true
ends_with-append [] suffix = ends_with_self suffix
ends_with-append (c ∷ t) suffix =
    rw (ends_with-append t suffix) (or_true (same_text suffix (c ∷ t ++ suffix)))

starts_with-append : (part rest : List ℕ) → starts_with part (part ++ rest) ≡ true
starts_with-append [] rest = refl
starts_with-append (c ∷ part) rest = ground (arith, starts_with-append part rest)

contains-append :
    (t : List ℕ) (c : ℕ) (part rest : List ℕ)
    → contains (c ∷ part) (t ++ ((c ∷ part) ++ rest)) ≡ true
contains-append [] c part rest = rw (starts_with-append (c ∷ part) rest) refl
contains-append (d ∷ t) c part rest =
    rw (contains-append t c part rest)
      (or_true (starts_with (c ∷ part) (d ∷ t ++ ((c ∷ part) ++ rest))))

length-take_le : (n : ℕ) (t : List ℕ) → length (take n t) ≤ n
length-take_le zero t = omega arith
length-take_le (suc n) [] = omega arith
length-take_le (suc n) (c ∷ t) = omega (arith, length-take_le n t)

room :
    (p d : ℕ)
    → p ≤ 64 - 7 - 1 - d
    → d ≤ 8
    → p + suc (suc (suc (suc (suc (suc (suc (suc d))))))) ≤ 64
room p d h k = omega arith

-- The username derived from an organization name has at most 64 characters and is reserved, whatever
-- the name and its fingerprint.
pub human_username_for-Reserved :
    (u : Unicode) (organization_name : List ℕ)
    → (is_reserved_human_username (human_username_for u organization_name) ≡ true)
      × (length (human_username_for u organization_name) ≤ 64)
unfolding human_username_for is_reserved_human_username
human_username_for-Reserved u name = at (leb (length (name ++ human_suffix)) 64) refl
  where
    digest : List ℕ
    digest = take 8 (u.sha256_hex name)

    prefix : List ℕ
    prefix = take (64 - length human_suffix - 1 - length digest) name

    long_length : length (prefix ++ (human_suffix ++ 95 ∷ digest)) ≤ 64
    long_length = rw (length-append prefix (human_suffix ++ 95 ∷ digest)) (
        room (length prefix) (length digest)
          (length-take_le (64 - length human_suffix - 1 - length digest) name)
          (length-take_le 8 (u.sha256_hex name)))

    at :
        (b : Bool)
        → leb (length (name ++ human_suffix)) 64 ≡ b
        → (let derived =
              if b then name ++ human_suffix else prefix ++ (human_suffix ++ 95 ∷ digest) in
            ((ends_with human_suffix derived || contains (human_suffix ++ 95 ∷ []) derived) ≡ true)
            × (length derived ≤ 64))
    at true e = (rw (ends_with-append name human_suffix) refl, leb→le _ _ e)
    at false e = (
      rw (contains-append prefix 95 (points "humain_") digest)
          (or_true (ends_with human_suffix (prefix ++ (human_suffix ++ 95 ∷ digest)))),
      long_length,
    )
