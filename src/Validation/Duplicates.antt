-- ===== src/Validation/Duplicates.antt =====
-- The duplicate keys of a JSON object (synapse/validation.py: _reject_duplicate_keys).
use mathlib.Core.List.{append_assoc, append-nil}
use mathlib.Core.Bool.{true≢false}
use synapse_messenger.Prelude.{
  ℕ, ◌≡◌, refl, sym, ap, ◌∙◌, Bool, true, false, List, [], ◌∷◌, ◌++◌, if◌then◌else◌,
}
use synapse_messenger.Errors.{ok, err, ◌>>=◌, raise_if, invalid_argument}
use synapse_messenger.Validation.{Json, is_in}
use synapse_messenger.Validation.Keys.{keys_of, reject_duplicate_keys}
use synapse_messenger.Validation.DependsOn.{distinct, distinct-before, distinct-append}

keys_of-append : (xs ys : List (List ℕ × Json)) → keys_of (xs ++ ys) ≡ keys_of xs ++ keys_of ys
keys_of-append [] ys = refl
keys_of-append ((key, x) ∷ xs) ys = ap (λ keys. key ∷ keys) (keys_of-append xs ys)

duplicate :
    (keys : List (List ℕ)) (key : List ℕ) (rest : List (List ℕ))
    → is_in key keys ≡ true
    → distinct (keys ++ key ∷ rest) ≡ false
duplicate keys key rest h = at (distinct (keys ++ key ∷ rest)) refl
  where
    at : (b : Bool) → distinct (keys ++ key ∷ rest) ≡ b → distinct (keys ++ key ∷ rest) ≡ false
    at true e = absurd (true≢false (sym h ∙ distinct-before keys key rest e))
    at false e = e

rejects :
    (pairs result : List (List ℕ × Json))
    → distinct (keys_of result) ≡ true
    → reject_duplicate_keys pairs result ≡ (
        if distinct (keys_of (result ++ pairs)) then ok (result ++ pairs) else err invalid_argument)
unfolding reject_duplicate_keys raise_if ◌>>=◌
rejects [] result d = rw (append-nil result, d) refl
rejects ((key, x) ∷ pairs) result d =
    at (is_in key (keys_of result)) refl (rejects pairs (result ++ (key, x) ∷ []))
  where
    at :
        (b : Bool)
        → is_in key (keys_of result) ≡ b
        → (distinct (keys_of (result ++ (key, x) ∷ [])) ≡ true
            → reject_duplicate_keys pairs (result ++ (key, x) ∷ []) ≡ (
                if distinct (keys_of (result ++ (key, x) ∷ [] ++ pairs))
                then ok (result ++ (key, x) ∷ [] ++ pairs)
                else err invalid_argument))
        → reject_duplicate_keys ((key, x) ∷ pairs) result ≡ (
            if distinct (keys_of (result ++ (key, x) ∷ pairs))
            then ok (result ++ (key, x) ∷ pairs)
            else err invalid_argument)
    at true e ih =
        rw
          (
            e,
            keys_of-append result ((key, x) ∷ pairs),
            duplicate (keys_of result) key (keys_of pairs) e,
          )
          refl
    at false e ih = rw e (
        ih (
          ap distinct (keys_of-append result ((key, x) ∷ []))
          ∙ distinct-append (keys_of result) key d e)
        ∙ rw (append_assoc result ((key, x) ∷ []) pairs) refl)

-- The object of a list of pairs is these pairs, in their order, where no key occurs twice, and is
-- refused with INVALID_ARGUMENT where one does.
pub reject_duplicate_keys-distinct :
    (pairs : List (List ℕ × Json))
    → reject_duplicate_keys pairs []
      ≡ (if distinct (keys_of pairs) then ok pairs else err invalid_argument)
reject_duplicate_keys-distinct pairs = rejects pairs [] refl
