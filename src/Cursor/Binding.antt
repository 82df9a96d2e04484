-- ===== src/Cursor/Binding.antt =====
-- What a refused cursor answers.
use synapse_messenger.Prelude.{
  ℕ, ◌≡◌, ◌≢◌, refl, Bool, true, false, not, Option, none, some, List, [], ◌∷◌, all, ltb,
  if◌then◌else◌, Bool-cases, inl, inr, arith,
}
use synapse_messenger.Errors.{
  Result, ok, err, ◌>>=◌, raise_if, or_raise, Raises, Is, Raises-bind, Raises-raise_if,
  Raises-or_raise, invalid_argument, internal_error,
}
use synapse_messenger.Cursor.{
  Codec, Payload, Loaded, not_json, not_object, object, compare_digest, split_dot, decode_cursor,
  decode_parts, unb64url, is_value, as_object,
}

-- The part of the cursor before its first dot is ASCII, where there is a dot.
abbrev pub has_ascii_body : List ℕ → Bool
has_ascii_body cursor = elim (split_dot cursor) [
  | none ↦ true
  | some (body, signature) ↦ all (λ c. ltb c 128) body
]

compare_digest_eq : (a b : List ℕ) → compare_digest a b ≡ true → a ≡ b
compare_digest_eq [] [] h = refl
compare_digest_eq [] (y ∷ b) h = cc
compare_digest_eq (x ∷ a) [] h = cc
compare_digest_eq (x ∷ a) (y ∷ b) h = ground (arith, compare_digest_eq a b)

module _ (u : Codec) where
  -- After the ASCII encoding, every exception is INVALID_ARGUMENT.
  checked :
      (payload : Payload)
      → Raises
          (Is invalid_argument)
          (raise_if (not (is_value payload.v 1)) invalid_argument >>= λ _. ok payload)
  checked payload =
      Raises-bind (Is invalid_argument) (raise_if (not (is_value payload.v 1)) invalid_argument)
        (λ _. ok payload)
        (Raises-raise_if (Is invalid_argument) (not (is_value payload.v 1)) invalid_argument refl)
        (λ _. tt)

  as_object-Raises : (l : Loaded) → Raises (Is invalid_argument) (as_object l)
  as_object-Raises not_json = refl
  as_object-Raises not_object = refl
  as_object-Raises (object p) = tt

  unb64url-Raises : (token : List ℕ) → Raises (Is invalid_argument) (unb64url u token)
  unfolding unb64url
  unb64url-Raises token = Raises-or_raise (Is invalid_argument) _ invalid_argument refl

  decode_parts-ascii :
      (body signature : List ℕ)
      → all (λ c. ltb c 128) body ≡ true
      → Raises (Is invalid_argument) (decode_parts u (body, signature))
  unfolding decode_parts ◌>>=◌
  decode_parts-ascii body signature h = rw h (
      Raises-bind (Is invalid_argument) (unb64url u signature) _ (unb64url-Raises signature)
        λ provided.
          Raises-bind (Is invalid_argument)
            (raise_if (not (compare_digest (u.hmac body) provided)) invalid_argument) _
            (Raises-raise_if (Is invalid_argument) _ invalid_argument refl)
            λ _.
              Raises-bind (Is invalid_argument) (unb64url u body) _ (unb64url-Raises body) λ bytes.
                Raises-bind (Is invalid_argument) (as_object (u.loads bytes)) _
                  (as_object-Raises (u.loads bytes)) checked)

  decode_parts-non_ascii :
      (body signature : List ℕ)
      → all (λ c. ltb c 128) body ≡ false
      → decode_parts u (body, signature) ≡ err internal_error
  unfolding decode_parts ◌>>=◌
  decode_parts-non_ascii body signature h = rw h refl

  at_body :
      (body signature : List ℕ)
      → Raises
          (Is (if all (λ c. ltb c 128) body then invalid_argument else internal_error))
          (decode_parts u (body, signature))
  at_body body signature = elim (Bool-cases (all (λ c. ltb c 128) body)) [
    | inl e ↦ rw e (decode_parts-ascii body signature e)
    | inr e ↦ rw (e, decode_parts-non_ascii body signature e) refl
  ]

  -- A cursor that decode_cursor refuses is refused with INVALID_ARGUMENT where the part before its
  -- first dot is ASCII or there is no dot, and with INTERNAL_ERROR otherwise.
  pub decode_cursor-Raises :
      (cursor : List ℕ)
      → Raises
          (Is (if has_ascii_body cursor then invalid_argument else internal_error))
          (decode_cursor u cursor)
  unfolding decode_cursor or_raise ◌>>=◌
  decode_cursor-Raises cursor = at (split_dot cursor)
    where
      at :
          (o : Option (List ℕ × List ℕ))
          → Raises
              (Is (
                if (elim o [ none ↦ true | some (body, signature) ↦ all (λ c. ltb c 128) body ])
                then invalid_argument
                else internal_error))
              (or_raise o invalid_argument >>= decode_parts u)
      at none = refl
      at (some (body, signature)) = at_body body signature

  -- A cursor whose signature does not decode to the HMAC of its ASCII body is refused with
  -- INVALID_ARGUMENT.
  pub forged_cursor_is_refused :
      (cursor body signature : List ℕ)
      → split_dot cursor ≡ some (body, signature)
      → all (λ c. ltb c 128) body ≡ true
      → unb64url u signature ≢ ok (u.hmac body)
      → decode_cursor u cursor ≡ err invalid_argument
  unfolding decode_cursor decode_parts or_raise raise_if ◌>>=◌
  forged_cursor_is_refused cursor body signature hs ha hm =
      rw (hs, ha) (at (unb64url u signature) refl (unb64url-Raises signature))
    where
      differs :
          (provided : List ℕ)
          → unb64url u signature ≡ ok provided
          → (b : Bool) → compare_digest (u.hmac body) provided ≡ b
          → compare_digest (u.hmac body) provided ≡ false
      differs provided eq true e = absurd (hm (rw (compare_digest_eq (u.hmac body) provided e) eq))
      differs provided eq false e = e

      at :
          (m : Result (List ℕ))
          → unb64url u signature ≡ m
          → Raises (Is invalid_argument) m
          → (unb64url u signature >>= (λ provided.
              raise_if (not (compare_digest (u.hmac body) provided)) invalid_argument >>= (λ _.
                unb64url u body >>= (λ bytes. as_object (u.loads bytes) >>= (λ payload.
                  raise_if (not (is_value payload.v 1)) invalid_argument >>= (λ _. ok payload))))))
            ≡ err invalid_argument
      at (err e) eq r = rw (eq, r) refl
      at (ok provided) eq r =
          rw (eq, differs provided eq (compare_digest (u.hmac body) provided) refl) refl
