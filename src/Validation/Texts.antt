-- ===== src/Validation/Texts.antt =====
-- Free texts (synapse/validation.py: normalize_content, normalize_description,
-- normalize_business_reference, _normalize_task_text, _normalize_card_text and what they share).
use synapse_messenger.Prelude.{ℕ, Bool, not, ◌&&◌, List, any, ◌==◌, length}
use synapse_messenger.Errors.{
  Result, ok, err, ◌>>=◌, ◌>>◌, raise_if, invalid_argument, internal_error,
}
use synapse_messenger.Validation.{Json, null, text, Unicode, between, strip}
use synapse_messenger.Validation.Names.{on_text}

-- _reject_surrogates
abbrev pub is_surrogate : ℕ → Bool
is_surrogate c = between 55296 57343 c

-- unicodedata.category(ch) == "Cc"
abbrev pub is_control : ℕ × ℕ → Bool
is_control (major, minor) = major == 67 && minor == 99

-- `None` is accepted, and stays.
abbrev pub optional : (Json → Result Json) → Json → Result Json
optional f null = ok null
optional f raw = f raw

module _ (u : Unicode) where
  -- The steps that the five functions repeat: surrogates, NFC, strip, length, control characters.
  unfoldable pub clean : ℕ → ℕ → List ℕ → Result (List ℕ)
  clean min_len max_len raw = do
    raise_if (any is_surrogate raw) invalid_argument
    let stripped = strip u (u.nfc raw)
    raise_if (not (between min_len max_len (length stripped))) invalid_argument
    raise_if (any (λ c. is_control (u.category c)) stripped) invalid_argument
    ok stripped

  unfoldable pub cleaned : ℕ → ℕ → Json → Result Json
  cleaned min_len max_len raw =
      on_text (λ t. clean min_len max_len t >>= λ stripped. ok (text stripped)) raw

  -- normalize_content
  unfoldable pub normalize_content : Json → Result Json
  normalize_content raw = cleaned 1 10000 raw

  -- normalize_description
  unfoldable pub normalize_description : Json → Result Json
  normalize_description raw = cleaned 1 500 raw

  -- normalize_business_reference
  unfoldable pub normalize_business_reference : Json → Result Json
  normalize_business_reference raw = optional (cleaned 1 128) raw

  -- _normalize_task_text
  unfoldable pub normalize_task_text : ℕ → ℕ → Json → Result Json
  normalize_task_text min_len max_len raw = cleaned min_len max_len raw

  -- normalize_task_title
  unfoldable pub normalize_task_title : Json → Result Json
  normalize_task_title raw = normalize_task_text 1 200 raw

  -- normalize_task_description
  unfoldable pub normalize_task_description : Json → Result Json
  normalize_task_description raw = optional (normalize_task_text 1 5000) raw

  -- normalize_task_result
  unfoldable pub normalize_task_result : Json → Result Json
  normalize_task_result raw = optional (normalize_task_text 1 10000) raw

  -- normalize_reason
  unfoldable pub normalize_reason : Json → Result Json
  normalize_reason raw = optional (normalize_task_text 1 500) raw

  -- _normalize_card_text
  unfoldable pub normalize_card_text : ℕ → Json → Result Json
  normalize_card_text max_len raw = optional (cleaned 1 max_len) raw

  -- normalize_group_name; its assertion fails on None
  unfoldable pub normalize_group_name : Json → Result Json
  normalize_group_name null = err internal_error
  normalize_group_name raw = normalize_card_text 64 raw
