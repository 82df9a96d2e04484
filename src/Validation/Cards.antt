-- ===== src/Validation/Cards.antt =====
-- The lists of an agent card (synapse/validation.py: normalize_capabilities and normalize_tools) and
-- the filters of the search.
use synapse_messenger.Prelude.{
  ℕ, Bool, true, false, not, List, [], ◌∷◌, ◌++◌, any, ltb, length, if◌then◌else◌,
}
use synapse_messenger.Errors.{
  Result, ok, err, ◌>>=◌, ◌>>◌, raise_if, invalid_argument, internal_error,
}
use synapse_messenger.Validation.{
  Json, null, boolean, text, array, Unicode, between, is_in, elements, as_items, invalid,
}
use synapse_messenger.Validation.Texts.{normalize_card_text}

abbrev pub is_boolean : Json → Bool
is_boolean (boolean b) = true
is_boolean other = false

-- assert value is not None
abbrev pub asserted : Json → Result (List ℕ)
asserted (text t) = ok t
asserted other = err internal_error

module _ (u : Unicode) where
  abbrev pub keep_first : List (List ℕ) × List (List ℕ) → List ℕ → List (List ℕ) × List (List ℕ)
  keep_first (out, seen) value =
      if is_in (u.casefold value) seen
      then (out, seen)
      else (out ++ value ∷ [], u.casefold value ∷ seen)

  -- the loop of both functions, with `out` and `seen`
  unfoldable pub collect_texts : List Json → List (List ℕ) × List (List ℕ) → Result (List (List ℕ))
  collect_texts [] (out, seen) = ok out
  collect_texts (x ∷ rest) state = normalize_card_text u 64 x >>= λ value.
      asserted value >>= λ t. collect_texts rest (keep_first state t)

  -- normalize_capabilities
  unfoldable pub normalize_capabilities : Json → Result Json
  normalize_capabilities (array xs) = do
    raise_if (any is_boolean (elements xs)) invalid_argument
    raise_if (not (between 1 50 (length (elements xs)))) invalid_argument
    out ← collect_texts (elements xs) ([], [])
    ok (array (as_items out))
  normalize_capabilities other = invalid

  -- normalize_tools
  unfoldable pub normalize_tools : Json → Result Json
  normalize_tools null = ok (array (as_items []))
  normalize_tools (array xs) = do
    raise_if (any is_boolean (elements xs)) invalid_argument
    raise_if (ltb 50 (length (elements xs))) invalid_argument
    out ← collect_texts (elements xs) ([], [])
    ok (array (as_items out))
  normalize_tools other = invalid

  -- _validate_capability_filter
  unfoldable pub validate_capability_filter : Json → Result Json
  validate_capability_filter raw = normalize_card_text u 64 raw

  -- _validate_card_text_filter
  unfoldable pub validate_card_text_filter : Json → Result Json
  validate_card_text_filter raw = normalize_card_text u 128 raw
