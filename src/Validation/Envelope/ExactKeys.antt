-- ===== src/Validation/Envelope/ExactKeys.antt =====
-- The keys that _ensure_exact_keys lets pass (synapse/validation.py).
use synapse_messenger.Prelude.{
  ℕ, ◌≡◌, refl, Bool, true, false, not, some, List, [], ◌∷◌, All, any, arith, if◌then◌else◌,
}
use synapse_messenger.Errors.{ok, ◌>>=◌, raise_if, Ensures, Ensures-bind, raise_if_passed}
use synapse_messenger.Validation.{Json, is_in, same_text}
use synapse_messenger.Validation.Keys.{keys_of, lookup, ensure_exact_keys}

-- The object has no key but the allowed ones.
abbrev pub Within : List (List ℕ × Json) → List (List ℕ) → Type 0
Within mapping allowed = All (λ key. is_in key allowed ≡ true) (keys_of mapping)

module _ {A : Type 0} (f : A → Bool) where
  any-not-All : (xs : List A) → any (λ x. not (f x)) xs ≡ false → All (λ x. f x ≡ true) xs
  any-not-All [] h = tt
  any-not-All (x ∷ xs) h = (ground (arith, h), any-not-All xs (ground (arith, h)))

  All-any-not : (xs : List A) → All (λ x. f x ≡ true) xs → any (λ x. not (f x)) xs ≡ false
  All-any-not [] h = refl
  All-any-not (x ∷ xs) (h, hs) = rw h (All-any-not xs hs)

pub ensured-Within :
    (mapping : List (List ℕ × Json)) (allowed : List (List ℕ))
    → Ensures (λ t. Within mapping allowed) (ensure_exact_keys mapping allowed)
unfolding ensure_exact_keys
ensured-Within mapping allowed = Ensures-bind _ _ λ t passed. record {
  returns = λ a e. any-not-All _ (keys_of mapping) (raise_if_passed _ _ passed);
}

pub lookup-is_in :
    (key : List ℕ) (mapping : List (List ℕ × Json)) {x : Json}
    → lookup key mapping ≡ some x
    → is_in key (keys_of mapping) ≡ true
lookup-is_in key [] {x = x} h = cc
lookup-is_in key ((name, y) ∷ rest) {x = x} h = at (lookup-is_in key rest) (same_text key name) h
  where
    at :
        (lookup key rest ≡ some x → is_in key (keys_of rest) ≡ true)
        → (b : Bool) → (if b then some y else lookup key rest) ≡ some x
        → (if b then true else is_in key (keys_of rest)) ≡ true
    at ih true e = refl
    at ih false e = ih e

pub ensure_exact_keys-accepts :
    (mapping : List (List ℕ × Json)) (allowed : List (List ℕ))
    → Within mapping allowed
    → All (λ name. is_in name (keys_of mapping) ≡ true) allowed
    → ensure_exact_keys mapping allowed ≡ ok tt
unfolding ensure_exact_keys raise_if ◌>>=◌
ensure_exact_keys-accepts mapping allowed known all =
    rw
      (
        All-any-not (λ key. is_in key allowed) (keys_of mapping) known,
        All-any-not (λ name. is_in name (keys_of mapping)) allowed all,
      )
      refl
