-- ===== src/Errors.antt =====
-- The stable error codes of the API (synapse/errors.py) and the result of an operation that may
-- raise. The message of an error is informative only and is left out. A failed `assert` and a
-- violated SQL constraint end as `internal_error` (the safety net of Service.process).
use synapse_messenger.Prelude.{
  not, Bool, true, false, Option, none, some, ◌≡◌, refl, ap, if◌then◌else◌, arith,
}
use mathlib.Core.Path.{subst}

pub data ErrorCode : Type 0 where
  auth_failed access_denied invalid_argument unknown_command username_already_exists : ErrorCode
  user_not_found recipient_not_found message_not_found conversation_not_found : ErrorCode
  message_already_exists policy_denied task_not_found task_state_invalid : ErrorCode
  task_dependency_not_met quota_exceeded group_not_found internal_error : ErrorCode

pub data Result {ℓ} (A : Type ℓ) : Type ℓ where
  ok : A → Result A
  err : ErrorCode → Result A

-- The next step runs on what the step before it returned; an exception skips it.
infixl 5 ◌>>=◌ ◌>>◌
unfoldable pub ◌>>=◌ {ℓ κ} : {X : Type ℓ} {Y : Type κ} (m : Result X) → (X → Result Y) → Result Y
err code >>= next = err code
ok x >>= next = next x

-- A check, and then the next step.
abbrev pub ◌>>◌ {κ} : {Y : Type κ} (check : Result (Unit {0})) → Result Y → Result Y
check >> next = check >>= λ _. next

-- if c: raise ApiError(e)
unfoldable pub raise_if : Bool → ErrorCode → Result (Unit {0})
raise_if true e = err e
raise_if false e = ok tt

-- the value, or ApiError(e) for None
unfoldable pub or_raise {ℓ} : {A : Type ℓ} → Option A → ErrorCode → Result A
or_raise none e = err e
or_raise (some a) e = ok a

-- `r` raises, or returns a value that satisfies `P`.
pub record Ensures {ℓ κ} {A : Type ℓ} (P : A → Type κ) (r : Result A) : Type (ℓ ⊔ κ) where
  pub returns : (a : A) → r ≡ ok a → P a

module _ {ℓ κ} {A : Type ℓ} {P : A → Type κ} where
  pub Ensures-ok : (a : A) → P a → Ensures P (ok a)
  Ensures-ok a p = record { returns = λ b e. subst P (ok-injective e) p }
    where
      value : Result A → A
      value (ok b) = b
      value (err e) = a

      ok-injective : {b c : A} → ok b ≡ ok c → b ≡ c
      ok-injective e = ap value e

  pub Ensures-err : (e : ErrorCode) → Ensures P (err e)
  Ensures-err e = record { returns = λ b h. cc }

  pub Ensures-if :
      (b : Bool) (m n : Result A)
      → (b ≡ true → Ensures P m)
      → (b ≡ false → Ensures P n)
      → Ensures P (if b then m else n)
  Ensures-if true m n hm hn = hm refl
  Ensures-if false m n hm hn = hn refl

-- The rest of a block may use what the step before it returned.
pub Ensures-bind {ℓ κ μ} :
    {A : Type ℓ} {B : Type κ} {P : B → Type μ} (m : Result A) (f : A → Result B)
    → ((a : A) → m ≡ ok a → Ensures P (f a))
    → Ensures P (m >>= f)
unfolding ◌>>=◌
Ensures-bind (ok a) f h = h a refl
Ensures-bind (err e) f h = Ensures-err e

-- The rest of a block may use what the step before it ensures.
pub Ensures-then {ℓ κ μ ν} :
    {A : Type ℓ} {B : Type κ} {Q : A → Type μ} {P : B → Type ν} (m : Result A) (f : A → Result B)
    → Ensures Q m
    → ((a : A) → Q a → Ensures P (f a))
    → Ensures P (m >>= f)
Ensures-then m f q h = Ensures-bind m f λ a e. h a (q.returns a e)

pub Ensures-map {ℓ κ μ} :
    {A : Type ℓ} {Q : A → Type κ} {P : A → Type μ} (r : Result A)
    → Ensures Q r
    → ((a : A) → Q a → P a)
    → Ensures P r
Ensures-map r q h = record { returns = λ a e. h a (q.returns a e) }

pub raise_if_passed : (b : Bool) (e : ErrorCode) {t : Unit {0}} → raise_if b e ≡ ok t → b ≡ false
unfolding raise_if
raise_if_passed b e h = ground arith

pub raise_unless_passed :
    (b : Bool) (e : ErrorCode) {t : Unit {0}} → raise_if (not b) e ≡ ok t → b ≡ true
unfolding raise_if
raise_unless_passed b e h = ground arith

pub or_raise_found {ℓ} :
    {A : Type ℓ} (o : Option A) (e : ErrorCode) {a : A} → or_raise o e ≡ ok a → o ≡ some a
unfolding or_raise
or_raise_found none e h = cc
or_raise_found (some b) e h = cc

-- The code of every exception of `r` satisfies `P`.
abbrev pub Raises {ℓ} : {A : Type ℓ} → (ErrorCode → Type 0) → Result A → Type 0
Raises P (ok a) = Unit
Raises P (err code) = P code

abbrev pub Is : ErrorCode → ErrorCode → Type 0
Is e code = code ≡ e

-- What holds of one code holds of both.
pub Raises-weaken {ℓ} :
    {A : Type ℓ} {P Q : ErrorCode → Type 0} (r : Result A)
    → ((e : ErrorCode) → P e → Q e)
    → Raises P r
    → Raises Q r
Raises-weaken (ok a) f h = tt
Raises-weaken (err e) f h = f e h

module _ (P : ErrorCode → Type 0) where
  pub Raises-bind {ℓ κ} :
      {A : Type ℓ} {B : Type κ} (m : Result A) (f : A → Result B)
      → Raises P m
      → ((a : A) → Raises P (f a))
      → Raises P (m >>= f)
  unfolding ◌>>=◌
  Raises-bind (ok a) f h k = k a
  Raises-bind (err code) f h k = h

  -- The rest may use what the step before it returned.
  pub Raises-step {ℓ κ} :
      {A : Type ℓ} {B : Type κ} (m : Result A) (f : A → Result B)
      → Raises P m
      → ((a : A) → m ≡ ok a → Raises P (f a))
      → Raises P (m >>= f)
  unfolding ◌>>=◌
  Raises-step (ok a) f h k = k a refl
  Raises-step (err code) f h k = h

  pub Raises-found {ℓ} :
      {A : Type ℓ} (o : Option A) (e : ErrorCode) {a : A} → o ≡ some a → Raises P (or_raise o e)
  unfolding or_raise
  Raises-found o e h = rw h tt

  pub Raises-raise_if : (b : Bool) (e : ErrorCode) → P e → Raises P (raise_if b e)
  unfolding raise_if
  Raises-raise_if true e h = h
  Raises-raise_if false e h = tt

  pub Raises-or_raise {ℓ} :
      {A : Type ℓ} (o : Option A) (e : ErrorCode) → P e → Raises P (or_raise o e)
  unfolding or_raise
  Raises-or_raise none e h = h
  Raises-or_raise (some a) e h = tt

  pub Raises-if {ℓ} :
      {A : Type ℓ} (b : Bool) (m n : Result A)
      → Raises P m
      → Raises P n
      → Raises P (if b then m else n)
  Raises-if true m n h k = h
  Raises-if false m n h k = k
