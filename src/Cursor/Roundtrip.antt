-- ===== src/Cursor/Roundtrip.antt =====
-- A cursor that the service made is accepted by the request it was made for and by no other.
use synapse_messenger.Validation.{same_text}
use synapse_messenger.Prelude.{
  ℕ, ◌≡◌, refl, Option, Bool, true, false, not, ◌&&◌, some, List, [], ◌∷◌, ◌==◌, if◌then◌else◌,
  arith,
}
use synapse_messenger.Errors.{ok, err, ◌>>=◌, raise_if, or_raise, invalid_argument}
use synapse_messenger.Cursor.{
  Codec, Payload, Request, compare_digest, truthy, same_filters, encode_cursor, decode_cursor,
  decode_parts, build_payload, validate_cursor_binding, pagination, next_cursor,
}
use synapse_messenger.Cursor.Base64.{unb64url-b64url, split-b64url, encode_ascii-b64url}

pub compare_digest_refl : (bytes : List ℕ) → compare_digest bytes bytes ≡ true
compare_digest_refl [] = refl
compare_digest_refl (b ∷ bytes) = ground (arith, compare_digest_refl bytes)

-- The request `r` is the one that `q` was, in what a cursor is bound to.
abbrev pub is_same : Request → Request → Bool
is_same q r =
    same_text q.command r.command
    && (q.username == r.username && (same_text q.sort r.sort && same_filters q.filters r.filters))

four_checks :
    (a b c d : Bool) (x : Option (List ℕ) × ℕ)
    → (raise_if (not a) invalid_argument
        >>= (λ _. raise_if (not b) invalid_argument >>= (λ _.
            raise_if (not c) invalid_argument >>= (λ _. raise_if (not d) invalid_argument)))
        >>= (λ _. ok x))
      ≡ (if a && (b && (c && d)) then ok x else err invalid_argument)
unfolding raise_if ◌>>=◌
four_checks true true true true x = refl
four_checks true true true false x = refl
four_checks true true false d x = refl
four_checks true false c d x = refl
four_checks false b c d x = refl

module _ (u : Codec) where
  pub decode_cursor-encode_cursor :
      (p : Payload) → p.v ≡ some 1 → decode_cursor u (encode_cursor u p) ≡ ok p
  unfolding decode_cursor encode_cursor decode_parts or_raise raise_if ◌>>=◌
  decode_cursor-encode_cursor p h =
      rw
        (
          split-b64url, encode_ascii-b64url, unb64url-b64url, compare_digest_refl, unb64url-b64url,
          u.loads-dumps, h,
        )
        refl

  -- A cursor of the service is accepted exactly by a request with the command, the account, the sort
  -- order and the filters of the request that it was made for, which then resumes at the position and
  -- at the boundary it carries; any other request is refused with INVALID_ARGUMENT.
  pub pagination-next_cursor :
      (q r : Request) (now boundary : ℕ) (last : List ℕ)
      → pagination u now r (some (next_cursor u q boundary last))
        ≡ (if is_same q r then ok (truthy (some last), boundary) else err invalid_argument)
  unfolding pagination next_cursor validate_cursor_binding build_payload or_raise ◌>>=◌
  pagination-next_cursor q r now boundary last =
      rw
        (decode_cursor-encode_cursor
          (build_payload q.command q.username boundary q.sort last q.filters) refl)
        (four_checks (same_text q.command r.command) (q.username == r.username)
          (same_text q.sort r.sort) (same_filters q.filters r.filters)
          (truthy (some last), boundary))
