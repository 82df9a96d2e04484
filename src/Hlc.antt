-- ===== src/Hlc.antt =====
-- The hybrid logical clock (synapse/hlc.py): the fixed-width text of an (l, c) pair, and the clock's
-- update rules. A text is its list of code points. Python's Unicode digit table, which the regex
-- `\d` and `int` consult, is the parameter `Digits`.
pub mod Text
pub mod Order
pub mod Rules
pub mod Trace
use synapse_messenger.Prelude.{
  ℕ, zero, suc, ◌+◌, ◌*◌, ◌/◌, ◌%◌, ◌^◌, ◌<◌, ◌≡◌, Bool, true, false, not, ◌&&◌, Option, none, some,
  List, [], ◌∷◌, ◌++◌, ltb, leb, ◌==◌, if◌then◌else◌, is_some,
}

-- _MAX_L and _MAX_C
abbrev pub max_l : ℕ
max_l = 9_999_999_999_999

abbrev pub max_c : ℕ
max_c = 999_999

-- What the code uses of Python's table of decimal digits (`str.isdecimal`, `int`).
pub record Digits : Type 0 where
  pub value : ℕ → Option ℕ
  pub ascii : (d : ℕ) → d < 10 → value (d + 48) ≡ some d
  pub dot : value 46 ≡ none

-- ValueError, or the value
pub data Checked {ℓ} (A : Type ℓ) : Type ℓ where
  ok : A → Checked A
  value_error : Checked A

-- f"{n:0{w}d}" for n below 10 ^ w, the only numbers that `encode` formats
unfoldable pub padded : ℕ → ℕ → List ℕ
padded zero n = []
padded (suc w) n = (n / 10 ^ w + 48) ∷ padded w (n % 10 ^ w)

unfoldable pub encode : ℕ → ℕ → Checked (List ℕ)
encode l c =
    if not (leb l max_l)
    then value_error
    else if not (leb c max_c)
    then value_error
    else ok (padded 13 l ++ 46 ∷ padded 6 c)

-- the two parts of s.split("."), for a text with one dot
pub before_dot : List ℕ → List ℕ
before_dot [] = []
before_dot (c ∷ s) = if c == 46 then [] else c ∷ before_dot s

pub after_dot : List ℕ → List ℕ
after_dot [] = []
after_dot (c ∷ s) = let rest = after_dot s in if c == 46 then s else rest

abbrev pub digit_or : Option ℕ → ℕ → ℕ
digit_or none acc = acc
digit_or (some d) acc = acc * 10 + d

abbrev pub at_end : List ℕ → Bool
at_end [] = true
at_end (c ∷ s) = false

pub dot_then : (List ℕ → Bool) → List ℕ → Bool
dot_then rest [] = false
dot_then rest (c ∷ s) = c == 46 && rest s

module _ (u : Digits) where
  -- int(s), for a text of digits
  pub int_from : ℕ → List ℕ → ℕ
  int_from acc [] = acc
  int_from acc (c ∷ s) = int_from (digit_or (u.value c) acc) s

  -- \d{n} and then the rest of the pattern
  unfoldable pub digits_then : ℕ → (List ℕ → Bool) → List ℕ → Bool
  digits_then zero rest s = rest s
  digits_then (suc n) rest [] = false
  digits_then (suc n) rest (c ∷ s) = is_some (u.value c) && digits_then n rest s

  unfoldable pub is_valid : List ℕ → Bool
  unfolding digits_then dot_then
  is_valid s = digits_then 13 (dot_then (digits_then 6 at_end)) s

  unfoldable pub decode : List ℕ → Checked (ℕ × ℕ)
  decode s =
      if not (is_valid s)
      then value_error
      else ok (int_from 0 (before_dot s), int_from 0 (after_dot s))

-- class HLC: the fields _l and _c. The lock serialises the methods, so each is one step.
pub record Clock : Type 0 where
  pub l : ℕ
  pub c : ℕ

-- HLC.__init__
unfoldable pub init : Digits → Option (List ℕ) → Checked Clock
init u none = ok (record { l = 0; c = 0 })
init u (some initial) = elim (decode u initial) [
  | ok (l, c) ↦ ok (record { l = l; c = c })
  | value_error ↦ value_error
]

-- The new state of HLC.stamp, at the physical time `pt`. It is committed before `encode` may raise.
unfoldable pub tick : ℕ → Clock → Clock
tick pt k =
    let l = if ltb pt k.l then k.l else pt in record { l = l; c = if l == k.l then k.c + 1 else 0 }

unfoldable pub stamp : ℕ → Clock → Checked (List ℕ) × Clock
stamp pt k = (encode (tick pt k).l (tick pt k).c, tick pt k)

-- The merge rule of HLC.observe, for a decoded remote pair.
unfoldable pub merge : ℕ → ℕ → Clock → Clock
merge l_r c_r k =
    let l = if ltb l_r k.l then k.l else l_r in
    record {
      l = l;
      c =
          if k.l == l_r && l_r == l
          then (if ltb c_r k.c then k.c else c_r) + 1
          else if k.l == l
          then k.c + 1
          else if l_r == l
          then c_r + 1
          else 0;
    }

unfoldable pub observe : Digits → List ℕ → Clock → Checked (Unit {0}) × Clock
observe u remote k = elim (decode u remote) [
  | ok (l_r, c_r) ↦ (ok tt, merge l_r c_r k)
  | value_error ↦ (value_error, k)
]

unfoldable pub peek : Clock → Checked (List ℕ)
peek k = encode k.l k.c
