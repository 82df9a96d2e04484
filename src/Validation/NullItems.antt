-- ===== src/Validation/NullItems.antt =====
-- A null in the lists of an agent card (synapse/validation.py: normalize_capabilities, normalize_tools).
use synapse_messenger.Prelude.{ℕ, suc, ◌≤◌, ◌≡◌, refl, true, false, any, ltb, length, arith}
use synapse_messenger.Errors.{err, ◌>>=◌, raise_if, internal_error}
use synapse_messenger.Validation.{null, array, Items, item, Unicode, between, elements}
use synapse_messenger.Validation.Texts.{normalize_card_text}
use synapse_messenger.Validation.Cards.{
  is_boolean, collect_texts, normalize_capabilities, normalize_tools,
}

few : (n : ℕ) → n ≤ 49 → (between 1 50 (suc n) ≡ true) × (ltb 50 (suc n) ≡ false)
few n h = ground arith

-- A list of at most 50 elements that starts with null and holds no boolean ends as INTERNAL_ERROR, both
-- as capabilities and as tools.
pub null_item :
    (u : Unicode) (xs : Items)
    → any is_boolean (elements xs) ≡ false
    → length (elements xs) ≤ 49
    → (normalize_capabilities u (array (item null xs)) ≡ err internal_error)
      × (normalize_tools u (array (item null xs)) ≡ err internal_error)
unfolding normalize_capabilities normalize_tools collect_texts normalize_card_text raise_if ◌>>=◌
null_item u xs b h =
    let (low, high) = few (length (elements xs)) h in (rw (b, low) refl, rw (b, high) refl)
