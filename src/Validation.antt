-- ===== src/Validation.antt =====
-- Strict validation of the parameters of a request (synapse/validation.py). A text is the list of its
-- code points. The Unicode tables, NFC and SHA-256 are parameters.
pub mod Names
pub mod NamesLaws
pub mod UuidForm
pub mod Uuids
pub mod DependsOn
pub mod Texts
pub mod Identifiers
pub mod Numbers
pub mod Words
pub mod Cards
pub mod Keys
pub mod Params
pub mod Commands
pub mod Invalid
pub mod InvalidWords
pub mod InvalidKeys
pub mod Duplicates
pub mod NullItems
pub mod Envelope
use Prim.Native.Char.{code}
use Prim.Native.String
use synapse_messenger.Prelude.{
  ℕ, zero, suc, ◌+◌, Bool, true, false, not, ◌&&◌, ◌||◌, Option, none, some, List, [], ◌∷◌, ◌++◌,
  String, any, all, leb, ◌==◌, if◌then◌else◌,
}
use synapse_messenger.Errors.{Result, ok, err, invalid_argument}
use synapse_messenger.Hlc.{Digits}

-- A decoded JSON value. The integer n is `natural n`, and -n - 1 is `negative n`; a number that is not
-- an integer is only told apart from the others.
mutual
  pub data Json : Type 0 where
    null float : Json
    boolean : Bool → Json
    natural negative : ℕ → Json
    text : List ℕ → Json
    array : Items → Json
    dict : Fields → Json

  -- the elements of a list
  pub data Items : Type 0 where
    no_items : Items
    item : Json → Items → Items

  -- the keys and values of a dict, whose keys are distinct
  pub data Fields : Type 0 where
    no_fields : Fields
    field : List ℕ → Json → Fields → Fields

-- What the rules take from Python's library: its digits, the whitespace that `strip` removes, the two
-- letters of a general category, NFC, casefold, and the hexadecimal SHA-256.
pub record Unicode : Type 0 where
  pub digits : Digits
  pub is_space : ℕ → Bool
  pub category : ℕ → ℕ × ℕ
  pub nfc : List ℕ → List ℕ
  pub casefold : List ℕ → List ℕ
  pub sha256_hex : List ℕ → List ℕ

-- the code points of a literal
abbrev pub points : String → List ℕ
points String.[] = []
points (String.◌∷◌ c s) = code c ∷ points s

abbrev pub same_text : List ℕ → List ℕ → Bool
same_text [] [] = true
same_text [] (d ∷ t) = false
same_text (c ∷ s) [] = false
same_text (c ∷ s) (d ∷ t) = c == d && same_text s t

-- text in texts
abbrev pub is_in : List ℕ → List (List ℕ) → Bool
is_in t texts = any (same_text t) texts

-- `text` is one of the words.
abbrev pub one_of : List ℕ → List String → Bool
one_of t [] = false
one_of t (word ∷ words) = same_text t (points word) || one_of t words

abbrev pub between : ℕ → ℕ → ℕ → Bool
between low high c = leb low c && leb c high

-- [A-Z], [a-z], [0-9]
abbrev pub is_upper : ℕ → Bool
is_upper c = between 65 90 c

abbrev pub is_lower : ℕ → Bool
is_lower c = between 97 122 c

abbrev pub is_digit : ℕ → Bool
is_digit c = between 48 57 c

-- str.lower on an ASCII text
abbrev pub lower_char : ℕ → ℕ
lower_char c = if is_upper c then c + 32 else c

abbrev pub lower : List ℕ → List ℕ
lower [] = []
lower (c ∷ t) = lower_char c ∷ lower t

module _ (u : Unicode) where
  abbrev pub lstrip : List ℕ → List ℕ
  lstrip [] = []
  lstrip (c ∷ t) = let rest = lstrip t in if u.is_space c then rest else c ∷ t

  abbrev pub rstrip : List ℕ → List ℕ
  rstrip [] = []
  rstrip (c ∷ t) = if all u.is_space (c ∷ t) then [] else c ∷ rstrip t

  -- str.strip
  abbrev pub strip : List ℕ → List ℕ
  strip t = rstrip (lstrip t)

abbrev pub elements : Items → List Json
elements no_items = []
elements (item x xs) = x ∷ elements xs

abbrev pub entries : Fields → List (List ℕ × Json)
entries no_fields = []
entries (field key x xs) = (key, x) ∷ entries xs

abbrev pub as_items : List (List ℕ) → Items
as_items [] = no_items
as_items (t ∷ texts) = item (text t) (as_items texts)

-- raise _invalid(...)
abbrev pub invalid {ℓ} : {A : Type ℓ} → Result A
invalid = err invalid_argument
