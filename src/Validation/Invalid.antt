-- ===== src/Validation/Invalid.antt =====
-- The validators of names and texts raise INVALID_ARGUMENT only (synapse/validation.py).
use synapse_messenger.Prelude.{ℕ, refl, Bool, true, false, List, if◌then◌else◌}
use synapse_messenger.Errors.{
  ErrorCode, Result, ok, err, ◌>>=◌, raise_if, Raises, Is, Raises-bind, Raises-raise_if,
  invalid_argument,
}
use synapse_messenger.Validation.{
  Json, null, float, boolean, natural, negative, text, array, dict, Unicode,
}
use synapse_messenger.Validation.Names.{
  on_text, normalize_name, normalize_username, normalize_organization_name, validate_password,
  validate_bool,
}
use synapse_messenger.Validation.Texts.{optional, clean, cleaned}

abbrev pub Invalid : ErrorCode → Type 0
Invalid = Is invalid_argument

pub refused : (b : Bool) → Raises Invalid (raise_if b invalid_argument)
refused b = Raises-raise_if Invalid b invalid_argument refl

-- A check, and then a rest that raises nothing else.
pub then_ok :
    {A : Type 0} (b : Bool) (rest : Unit {0} → Result A)
    → ((t : Unit {0}) → Raises Invalid (rest t))
    → Raises Invalid (raise_if b invalid_argument >>= rest)
then_ok b rest h = Raises-bind Invalid (raise_if b invalid_argument) rest (refused b) h

pub valid_if :
    {A : Type 0} (b : Bool) (x : A) → Raises Invalid (if b then ok x else err invalid_argument)
valid_if true x = tt
valid_if false x = refl

pub refused_if :
    {A : Type 0} (b : Bool) (x : A) → Raises Invalid (if b then err invalid_argument else ok x)
refused_if true x = refl
refused_if false x = tt

pub on_text-Invalid :
    (f : List ℕ → Result Json) (raw : Json)
    → ((t : List ℕ) → Raises Invalid (f t))
    → Raises Invalid (on_text f raw)
on_text-Invalid f (text t) h = h t
on_text-Invalid f null h = refl
on_text-Invalid f float h = refl
on_text-Invalid f (boolean b) h = refl
on_text-Invalid f (natural n) h = refl
on_text-Invalid f (negative n) h = refl
on_text-Invalid f (array xs) h = refl
on_text-Invalid f (dict fs) h = refl

pub optional-Invalid :
    (f : Json → Result Json) (raw : Json)
    → ((x : Json) → Raises Invalid (f x))
    → Raises Invalid (optional f raw)
optional-Invalid f null h = tt
optional-Invalid f (text t) h = h (text t)
optional-Invalid f float h = h float
optional-Invalid f (boolean b) h = h (boolean b)
optional-Invalid f (natural n) h = h (natural n)
optional-Invalid f (negative n) h = h (negative n)
optional-Invalid f (array xs) h = h (array xs)
optional-Invalid f (dict fs) h = h (dict fs)

pub normalize_name-Invalid : (t : List ℕ) → Raises Invalid (normalize_name t)
unfolding normalize_name
normalize_name-Invalid t = then_ok _ _ λ _. then_ok _ _ λ _. tt

pub normalize_username-Invalid : (raw : Json) → Raises Invalid (normalize_username raw)
unfolding normalize_username
normalize_username-Invalid raw =
    on_text-Invalid _ raw λ t. Raises-bind Invalid _ _ (normalize_name-Invalid t) λ name. tt

pub normalize_organization_name-Invalid :
    (raw : Json) → Raises Invalid (normalize_organization_name raw)
unfolding normalize_organization_name
normalize_organization_name-Invalid raw =
    on_text-Invalid _ raw λ t. Raises-bind Invalid _ _ (normalize_name-Invalid t) λ name. tt

pub validate_bool-Invalid : (raw : Json) → Raises Invalid (validate_bool raw)
unfolding validate_bool
validate_bool-Invalid null = tt
validate_bool-Invalid (boolean b) = tt
validate_bool-Invalid float = refl
validate_bool-Invalid (text t) = refl
validate_bool-Invalid (natural n) = refl
validate_bool-Invalid (negative n) = refl
validate_bool-Invalid (array xs) = refl
validate_bool-Invalid (dict fs) = refl

module _ (u : Unicode) where
  pub validate_password-Invalid : (raw : Json) → Raises Invalid (validate_password u raw)
  unfolding validate_password
  validate_password-Invalid raw = on_text-Invalid _ raw λ t. then_ok _ _ λ _. then_ok _ _ λ _. tt

  pub clean-Invalid :
      (min_len max_len : ℕ) (t : List ℕ) → Raises Invalid (clean u min_len max_len t)
  unfolding clean
  clean-Invalid min_len max_len t = then_ok _ _ λ _. then_ok _ _ λ _. then_ok _ _ λ _. tt

  pub cleaned-Invalid :
      (min_len max_len : ℕ) (raw : Json) → Raises Invalid (cleaned u min_len max_len raw)
  unfolding cleaned
  cleaned-Invalid min_len max_len raw =
      on_text-Invalid _ raw
        λ t. Raises-bind Invalid _ _ (clean-Invalid min_len max_len t) λ stripped. tt

  pub optional_text-Invalid :
      (min_len max_len : ℕ) (raw : Json) → Raises Invalid (optional (cleaned u min_len max_len) raw)
  optional_text-Invalid min_len max_len raw =
      optional-Invalid _ raw (cleaned-Invalid min_len max_len)
