-- ===== src/Cursor/Base64.antt =====
-- The unpadded base64 of synapse/cursor.py.
use synapse_messenger.Prelude.{
  ℕ, zero, suc, ◌+◌, ◌-◌, ◌%◌, ◌<◌, ◌≡◌, refl, Bool, true, false, not, ◌&&◌, some, List, [], ◌∷◌,
  ◌++◌, length, all, ltb, ◌==◌, arith,
}
use synapse_messenger.Errors.{ok, or_raise}
use synapse_messenger.Cursor.{Codec, repeat, rstrip, split_dot, encode_ascii, b64url, unb64url}

-- the characters of the URL-safe alphabet
abbrev pub is_plain : ℕ → Bool
is_plain c = ltb c 128 && (not (c == 46) && not (c == 61))

all-repeat : (n : ℕ) → all (λ d. d == 61) (repeat n 61) ≡ true
all-repeat zero = refl
all-repeat (suc n) = all-repeat n

rstrip-repeat : (n : ℕ) → rstrip (repeat n 61) ≡ []
rstrip-repeat zero = refl
rstrip-repeat (suc n) = rw (all-repeat n) refl

plain_parts :
    (c : ℕ) (core : List ℕ)
    → all is_plain (c ∷ core) ≡ true
    → ((c == 61) ≡ false) × (all is_plain core ≡ true)
plain_parts c core h = ground arith

rstrip-padded :
    (core : List ℕ) (n : ℕ) → all is_plain core ≡ true → rstrip (core ++ repeat n 61) ≡ core
rstrip-padded [] n h = rstrip-repeat n
rstrip-padded (c ∷ core) n h =
    rw ((plain_parts c core h).0, rstrip-padded core n ((plain_parts c core h).1)) refl

rest_of_group : (n p : ℕ) → p < 3 → (n + p) % 4 ≡ 0 → (4 - n % 4) % 4 ≡ p
rest_of_group n p h k = omega arith

split-plain :
    (core tail : List ℕ)
    → all is_plain core ≡ true
    → split_dot (core ++ 46 ∷ tail) ≡ some (core, tail)
split-plain [] tail h = refl
split-plain (c ∷ core) tail h =
    rw (no_dot c core h, split-plain core tail (plain_parts c core h).1) refl
  where
    no_dot : (c : ℕ) (core : List ℕ) → all is_plain (c ∷ core) ≡ true → (c == 46) ≡ false
    no_dot c core h = ground arith

ascii-plain : (core : List ℕ) → all is_plain core ≡ true → all (λ c. ltb c 128) core ≡ true
ascii-plain [] h = refl
ascii-plain (c ∷ core) h = rw (low c core h, ascii-plain core (plain_parts c core h).1) refl
  where
    low : (c : ℕ) (core : List ℕ) → all is_plain (c ∷ core) ≡ true → ltb c 128 ≡ true
    low c core h = ground arith

module _ (u : Codec) where
  pub b64url-core : (bytes : List ℕ) → b64url u bytes ≡ u.base64_core bytes
  unfolding b64url
  b64url-core bytes = rstrip-padded (u.base64_core bytes) (u.base64_pad bytes) (u.alphabet bytes)

  -- The padding that is put back is the one that was stripped.
  pub unb64url-b64url : (bytes : List ℕ) → unb64url u (b64url u bytes) ≡ ok bytes
  unfolding unb64url or_raise
  unb64url-b64url bytes =
      rw
        (
          b64url-core bytes,
          rest_of_group (length (u.base64_core bytes)) (u.base64_pad bytes) (u.pad_bound bytes)
              (u.whole_groups bytes),
          u.decodes bytes,
        )
        refl

  -- The body of a cursor ends at the first dot, and is ASCII.
  pub split-b64url :
      (bytes tail : List ℕ) → split_dot (b64url u bytes ++ 46 ∷ tail) ≡ some (b64url u bytes, tail)
  split-b64url bytes tail =
      rw b64url-core (split-plain (u.base64_core bytes) tail (u.alphabet bytes))

  pub encode_ascii-b64url : (bytes : List ℕ) → encode_ascii (b64url u bytes) ≡ ok (b64url u bytes)
  encode_ascii-b64url bytes =
      rw (b64url-core, ascii-plain (u.base64_core bytes) (u.alphabet bytes)) refl
