-- ===== src/Validation/InvalidKeys.antt =====
-- The keys that an object has after _ensure_exact_keys (synapse/validation.py).
use synapse_messenger.Prelude.{
  ℕ, ◌≡◌, refl, Bool, true, false, not, some, List, [], ◌∷◌, All, any, if◌then◌else◌, arith, length,
  ◌==◌,
}
use mathlib.Core.Bool.{true≢false}
use synapse_messenger.Errors.{
  Raises, Raises-bind, Raises-step, Raises-found, Ensures, Ensures-bind, raise_if_passed,
}
use synapse_messenger.Validation.{
  Json, null, float, boolean, natural, negative, text, array, dict, Unicode, is_in, same_text,
  points, entries, strip,
}
use synapse_messenger.Validation.Keys.{
  keys_of, lookup, ensure_exact_keys, agent_of, validate_deadline,
}
use synapse_messenger.Validation.Invalid.{Invalid, refused, then_ok, refused_if}
use synapse_messenger.Validation.InvalidWords.{validate_hlc-Invalid}

pub ensure_exact_keys-Invalid :
    (mapping : List (List ℕ × Json)) (allowed : List (List ℕ))
    → Raises Invalid (ensure_exact_keys mapping allowed)
unfolding ensure_exact_keys
ensure_exact_keys-Invalid mapping allowed = then_ok _ _ λ _. refused _

pub lookup-present :
    (key : List ℕ) (mapping : List (List ℕ × Json))
    → is_in key (keys_of mapping) ≡ true
    → (x : Json) × (lookup key mapping ≡ some x)
lookup-present key [] h = cc
lookup-present key ((name, x) ∷ rest) h = at (lookup-present key rest) (same_text key name) refl
  where
    at :
        (is_in key (keys_of rest) ≡ true → (y : Json) × (lookup key rest ≡ some y))
        → (b : Bool) → same_text key name ≡ b
        → (y : Json) × (lookup key ((name, x) ∷ rest) ≡ some y)
    at ih true e = (x, rw e refl)
    at ih false e = let (y, found) = ih (ground (arith, h, e)) in (y, rw e found)

keys_present :
    (keys allowed : List (List ℕ))
    → any (λ key. not (is_in key keys)) allowed ≡ false
    → All (λ key. is_in key keys ≡ true) allowed
keys_present keys [] h = tt
keys_present keys (key ∷ allowed) h = at (is_in key keys) refl h (keys_present keys allowed)
  where
    at :
        (b : Bool)
        → is_in key keys ≡ b
        → (if not b then true else any (λ key. not (is_in key keys)) allowed) ≡ false
        → (any (λ key. not (is_in key keys)) allowed ≡ false
            → All (λ key. is_in key keys ≡ true) allowed)
        → All (λ key. is_in key keys ≡ true) (key ∷ allowed)
    at true e h' ih = (e, ih h')
    at false e h' ih = absurd (true≢false h')

-- After the test of the keys, each allowed key is there.
pub ensure_exact_keys-Ensures :
    (mapping : List (List ℕ × Json)) (allowed : List (List ℕ))
    → Ensures
        (λ t. All (λ key. is_in key (keys_of mapping) ≡ true) allowed)
        (ensure_exact_keys mapping allowed)
unfolding ensure_exact_keys
ensure_exact_keys-Ensures mapping allowed = Ensures-bind _ _ λ t h. record {
  returns = λ t' e. keys_present (keys_of mapping) allowed (raise_if_passed _ _ e);
}

module _ (u : Unicode) where
  agent_of-Invalid : (raw : Json) → Raises Invalid (agent_of u raw)
  agent_of-Invalid (text t) = refused_if (length (strip u t) == 0) (strip u t)
  agent_of-Invalid null = refl
  agent_of-Invalid float = refl
  agent_of-Invalid (boolean b) = refl
  agent_of-Invalid (natural n) = refl
  agent_of-Invalid (negative n) = refl
  agent_of-Invalid (array xs) = refl
  agent_of-Invalid (dict fs) = refl

  pub validate_deadline-Invalid : (raw : Json) → Raises Invalid (validate_deadline u raw)
  unfolding validate_deadline
  validate_deadline-Invalid null = tt
  validate_deadline-Invalid float = refl
  validate_deadline-Invalid (boolean b) = refl
  validate_deadline-Invalid (natural n) = refl
  validate_deadline-Invalid (negative n) = refl
  validate_deadline-Invalid (text t) = refl
  validate_deadline-Invalid (array xs) = refl
  validate_deadline-Invalid (dict fs) =
      Raises-step Invalid _ _ (ensure_exact_keys-Invalid (entries fs) _) λ t passed.
        let keys =
          (ensure_exact_keys-Ensures (entries fs) (points "agent" ∷ points "hlc" ∷ [])).returns t
            passed in
        Raises-bind Invalid _ _
          (Raises-found Invalid _ _ (lookup-present (points "agent") (entries fs) keys.0).1)
          λ raw_agent. Raises-bind Invalid _ _ (agent_of-Invalid raw_agent) λ agent.
            Raises-bind Invalid _ _
              (Raises-found Invalid _ _ (lookup-present (points "hlc") (entries fs) keys.1.0).1)
              λ raw_hlc. Raises-bind Invalid _ _ (validate_hlc-Invalid u raw_hlc) λ hlc. tt
