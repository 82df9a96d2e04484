-- ===== src/Tests/Codec.antt =====
-- A small JSON, base64 and HMAC for the cursors, and the Unicode tables of ASCII.
use mathlib.Core.List.{append_assoc, append-nil}
use synapse_messenger.Prelude.{
  ℕ, zero, suc, ◌+◌, ◌-◌, ◌%◌, ◌≡◌, ◌≢◌, refl, ap, ◌∙◌, Bool, true, false, not, ◌&&◌, Option, none,
  some, List, [], ◌∷◌, ◌++◌, all, length, length-append, ltb, ◌==◌, if◌then◌else◌, arith,
}
use mathlib.Core.Bool.{true≢false}
use synapse_messenger.Errors.{Result, ok, err, or_raise}
use synapse_messenger.Cursor.{unb64url, Codec, Payload, Filters, Loaded, not_json, object, repeat}
use synapse_messenger.Validation.{Unicode}
use synapse_messenger.Tests.Data.{digits}

-- A text for each value, from which it can be read back in front of any rest.
record Format (A : Type 0) : Type 0 where
  put : A → List ℕ
  get : List ℕ → Option (A × List ℕ)
  get-put : (a : A) (rest : List ℕ) → get (put a ++ rest) ≡ some (a, rest)

abbrev number : Format ℕ
number = record {
  put = λ n. n ∷ [];
  get = λ s. elim s [ [] ↦ none | n ∷ rest ↦ some (n, rest) ];
  get-put = λ n rest. refl;
}

module _ {A B : Type 0} (f : Format A) (g : Format B) where
  abbrev get_pair : List ℕ → Option ((A × B) × List ℕ)
  get_pair s = elim (f.get s) [
    | none ↦ none
    | some (a, rest) ↦ (elim (g.get rest) [ none ↦ none | some (b, last) ↦ some ((a, b), last) ])
  ]

  get-pair :
      (x : A × B) (rest : List ℕ) → get_pair ((f.put x.0 ++ g.put x.1) ++ rest) ≡ some (x, rest)
  get-pair (a, b) rest =
      rw
        (
          append_assoc (f.put a) (g.put b) rest,
          get_pair,
          f.get-put a (g.put b ++ rest),
          g.get-put b rest,
        )
        refl

  abbrev pair : Format (A × B)
  pair = record { put = λ x. f.put x.0 ++ g.put x.1; get = get_pair; get-put = get-pair }

module _ {A : Type 0} (f : Format A) where
  abbrev put_option : Option A → List ℕ
  put_option none = 0 ∷ []
  put_option (some a) = 1 ∷ f.put a

  abbrev get_option : List ℕ → Option (Option A × List ℕ)
  get_option [] = none
  get_option (zero ∷ s) = some (none, s)
  get_option (suc n ∷ s) = elim (f.get s) [ none ↦ none | some (a, rest) ↦ some (some a, rest) ]

  get-option : (o : Option A) (rest : List ℕ) → get_option (put_option o ++ rest) ≡ some (o, rest)
  get-option none rest = refl
  get-option (some a) rest = rw (f.get-put a rest) refl

  abbrev option : Format (Option A)
  option = record { put = put_option; get = get_option; get-put = get-option }

  abbrev put_all : List A → List ℕ
  put_all [] = []
  put_all (x ∷ xs) = f.put x ++ put_all xs

  abbrev get_all : ℕ → List ℕ → Option (List A × List ℕ)
  get_all zero s = some ([], s)
  get_all (suc n) s = elim (f.get s) [
    | none ↦ none
    | some (x, rest) ↦ (elim (get_all n rest) [
      | none ↦ none
      | some (xs, last) ↦ some (x ∷ xs, last)
    ])
  ]

  get_all-put_all :
      (xs : List A) (rest : List ℕ) → get_all (length xs) (put_all xs ++ rest) ≡ some (xs, rest)
  get_all-put_all [] rest = refl
  get_all-put_all (x ∷ xs) rest =
      rw
        (
          append_assoc (f.put x) (put_all xs) rest,
          f.get-put x (put_all xs ++ rest),
          get_all-put_all xs rest,
        )
        refl

  abbrev get_list : List ℕ → Option (List A × List ℕ)
  get_list [] = none
  get_list (n ∷ s) = get_all n s

  abbrev list : Format (List A)
  list = record { put = λ xs. length xs ∷ put_all xs; get = get_list; get-put = get_all-put_all }

abbrev filters : Format Filters
filters = list (pair (list number) (option number))

abbrev fields : Format (
    (Option ℕ × Option (List ℕ))
    × ((Option ℕ × Option ℕ) × (Option (List ℕ) × (Option Filters × Option (List ℕ)))))
fields = pair (pair (option number) (option (list number))) (
    pair (pair (option number) (option number))
      (pair (option (list number)) (pair (option filters) (option (list number)))))

abbrev to_fields :
    Payload
    → (Option ℕ × Option (List ℕ))
      × ((Option ℕ × Option ℕ) × (Option (List ℕ) × (Option Filters × Option (List ℕ))))
to_fields p = ((p.v, p.cmd), ((p.user, p.boundary), (p.sort, (p.filters, p.last))))

abbrev load : List ℕ → Loaded
load s = elim (fields.get s) [
  | none ↦ not_json
  | some (((v, cmd), ((user, boundary), (sort, (filters, last)))), rest) ↦ object (record {
    v = v;
    cmd = cmd;
    user = user;
    boundary = boundary;
    sort = sort;
    filters = filters;
    last = last;
  })
]

abbrev dump : Payload → List ℕ
dump p = fields.put (to_fields p) ++ []

load-dump : (p : Payload) → load (dump p) ≡ object p
load-dump p = rw (fields.get-put (to_fields p) []) refl

-- n is n times "A", closed by a "B".
abbrev unary : List ℕ → List ℕ
unary [] = []
unary (n ∷ xs) = repeat n 65 ++ 66 ∷ unary xs

-- filled up to groups of four with "C"
abbrev core : List ℕ → List ℕ
core xs = unary xs ++ repeat ((4 - length (unary xs) % 4) % 4) 67

abbrev scan : ℕ → List ℕ → List ℕ
scan acc [] = []
scan acc (c ∷ s) =
    let more = scan (suc acc) s in
    let next = scan 0 s in if c == 65 then more else if c == 66 then acc ∷ next else []

scan-repeat : (n acc : ℕ) (s : List ℕ) → scan acc (repeat n 65 ++ 66 ∷ s) ≡ (acc + n) ∷ scan 0 s
scan-repeat zero acc s = ap (λ k. k ∷ scan 0 s) (omega arith)
scan-repeat (suc n) acc s = scan-repeat n (suc acc) s ∙ ap (λ k. k ∷ scan 0 s) (omega arith)

scan-fill : (n : ℕ) → scan 0 (repeat n 67) ≡ []
scan-fill zero = refl
scan-fill (suc n) = refl

scan-unary : (xs : List ℕ) (n : ℕ) → scan 0 (unary xs ++ repeat n 67) ≡ xs
scan-unary [] n = scan-fill n
scan-unary (x ∷ xs) n =
    ap (scan 0) (append_assoc (repeat x 65) (66 ∷ unary xs) (repeat n 67))
    ∙ scan-repeat x 0 (unary xs ++ repeat n 67)
    ∙ ap (λ ys. (0 + x) ∷ ys) (scan-unary xs n)
    ∙ ap (λ k. k ∷ xs) (omega arith)

length-repeat : (n c : ℕ) → length (repeat n c) ≡ n
length-repeat zero c = refl
length-repeat (suc n) c = ap suc (length-repeat n c)

fill_up : (n : ℕ) → (n + (4 - n % 4) % 4 + 0) % 4 ≡ 0
fill_up n = omega arith

abbrev is_plain : ℕ → Bool
is_plain c = ltb c 128 && (not (c == 46) && not (c == 61))

all-append :
    (p : ℕ → Bool) (xs ys : List ℕ) → all p xs ≡ true → all p ys ≡ true → all p (xs ++ ys) ≡ true
all-append p [] ys h k = k
all-append p (x ∷ xs) ys h k = ground (arith, all-append p xs ys)

all-repeat : (p : ℕ → Bool) (n c : ℕ) → p c ≡ true → all p (repeat n c) ≡ true
all-repeat p zero c h = refl
all-repeat p (suc n) c h = rw h (all-repeat p n c h)

plain-unary : (xs : List ℕ) → all is_plain (unary xs) ≡ true
plain-unary [] = refl
plain-unary (x ∷ xs) =
    all-append is_plain (repeat x 65) (66 ∷ unary xs) (all-repeat is_plain x 65 refl)
      (plain-unary xs)

core-decodes : (xs : List ℕ) → some (scan 0 (core xs ++ [])) ≡ some xs
core-decodes xs = ap some (ap (scan 0) (append-nil (core xs)) ∙ scan-unary xs _)

core-groups : (xs : List ℕ) → (length (core xs) + 0) % 4 ≡ 0
core-groups xs =
    rw
      (
        length-append (unary xs) (repeat ((4 - length (unary xs) % 4) % 4) 67),
        length-repeat ((4 - length (unary xs) % 4) % 4) 67,
      )
      (fill_up (length (unary xs)))

-- The signature is the text itself, behind the key 7.
pub codec : Codec
codec = record {
  base64_core = core;
  base64_pad = λ xs. 0;
  urlsafe_b64decode = λ s. some (scan 0 s);
  dumps = dump;
  loads = load;
  hmac = λ s. 7 ∷ s;
  pad_bound = λ xs. omega arith;
  whole_groups = core-groups;
  alphabet = λ xs.
      all-append is_plain (unary xs) _ (plain-unary xs)
        (all-repeat is_plain ((4 - length (unary xs) % 4) % 4) 67 refl);
  decodes = core-decodes;
  loads-dumps = load-dump;
}

-- ASCII: letters are "Ll", the control characters "Cc", and nothing is composed.
abbrev pub unicode : Unicode
unicode = record {
  digits = digits;
  is_space = λ c. c == 32;
  category = λ c. if ltb c 32 then (67, 99) else (76, 108);
  nfc = λ t. t;
  casefold = λ t. t;
  sha256_hex = λ t. t;
}

abbrev is_empty : Result (List ℕ) → Bool
is_empty (ok []) = true
is_empty (ok (x ∷ xs)) = false
is_empty (err e) = true

-- "A" is not the signature of "A".
pub forged : unb64url codec (65 ∷ []) ≢ ok (codec.hmac (65 ∷ []))
unfolding codec unb64url or_raise
forged = λ h. true≢false (ap is_empty h)
