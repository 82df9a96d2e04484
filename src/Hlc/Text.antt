-- ===== src/Hlc/Text.antt =====
-- The text of a timestamp and back (synapse/hlc.py: encode, decode, is_valid).
use native.Mathlib.Nat.{pow-suc, mod-lt, div-add-mod'}
use synapse_messenger.Prelude.{
  ℕ, zero, suc, ◌+◌, ◌*◌, ◌/◌, ◌%◌, ◌^◌, ◌≤◌, ◌<◌, ◌≡◌, refl, sym, ap, ◌∙◌, Bool, true, List, [],
  ◌∷◌, ◌++◌, arith, le→leb, some, none, ◌==◌, ==_iff, false, Bool-cases, inl, inr,
}
use synapse_messenger.Hlc.{
  Digits, digit_or, ok, max_l, max_c, padded, encode, int_from, digits_then, at_end, is_valid,
  before_dot, after_dot, decode,
}

pow_pos : (w : ℕ) → 0 < 10 ^ w
pow_pos zero = omega arith
pow_pos (suc w) = rw pow-suc (omega (arith, pow_pos w))

-- The leading digit of a number of suc w digits is a digit, and the rest has w digits.
pub rest_digits : (w n : ℕ) → n % 10 ^ w < 10 ^ w
rest_digits w n = mod-lt n (pow_pos w)

pub split_digits : (w n : ℕ) → n / 10 ^ w * 10 ^ w + n % 10 ^ w ≡ n
split_digits w n = div-add-mod' n (10 ^ w)

lead_bound : (q r b : ℕ) → q * b + r < b * 10 → q < 10
lead_bound q r b h = grind arith

pub lead_digit : (w n : ℕ) → n < 10 ^ suc w → n / 10 ^ w < 10
lead_digit w n h =
    lead_bound (n / 10 ^ w) (n % 10 ^ w) (10 ^ w) (omega (arith, split_digits w n, pow-suc 10 w))

regroup : (acc q b r : ℕ) → (acc * 10 + q) * b + r ≡ acc * (b * 10) + (q * b + r)
regroup acc q b r = grind arith

module _ (u : Digits) where
  -- `int` reads back what `encode` printed.
  pub int_from-padded : (w n acc : ℕ) → n < 10 ^ w → int_from u acc (padded w n) ≡ acc * 10 ^ w + n
  unfolding int_from padded
  int_from-padded zero n acc h = omega arith
  int_from-padded (suc w) n acc h =
      rw (u.ascii (n / 10 ^ w) (lead_digit w n h), int_from)
        (int_from-padded w (n % 10 ^ w) (acc * 10 + n / 10 ^ w) (rest_digits w n)
          ∙ regroup acc (n / 10 ^ w) (10 ^ w) (n % 10 ^ w)
          ∙ ap (λ k. acc * (10 ^ w * 10) + k) (split_digits w n)
          ∙ ap (λ k. acc * k + n) (sym (pow-suc 10 w)))

  int-padded : (w n : ℕ) → n < 10 ^ w → int_from u 0 (padded w n) ≡ n
  int-padded w n h = int_from-padded w n 0 h ∙ omega arith

  digits_then-padded :
      (w n : ℕ) (rest : List ℕ → Bool) (t : List ℕ)
      → n < 10 ^ w
      → digits_then u w rest (padded w n ++ t) ≡ rest t
  unfolding digits_then padded
  digits_then-padded zero n rest t h = refl
  digits_then-padded (suc w) n rest t h =
      rw (u.ascii (n / 10 ^ w) (lead_digit w n h))
        (digits_then-padded w (n % 10 ^ w) rest t (rest_digits w n))

before_dot-padded :
    (w n : ℕ) (t : List ℕ) → n < 10 ^ w → before_dot (padded w n ++ 46 ∷ t) ≡ padded w n
unfolding before_dot padded
before_dot-padded zero n t h = refl
before_dot-padded (suc w) n t h =
    ground (arith, before_dot-padded w (n % 10 ^ w) t (rest_digits w n))

after_dot-padded : (w n : ℕ) (t : List ℕ) → n < 10 ^ w → after_dot (padded w n ++ 46 ∷ t) ≡ t
unfolding after_dot padded
after_dot-padded zero n t h = refl
after_dot-padded (suc w) n t h = ground (arith, after_dot-padded w (n % 10 ^ w) t (rest_digits w n))

-- The canonical text of a pair.
abbrev pub text : ℕ → ℕ → List ℕ
text l c = padded 13 l ++ 46 ∷ padded 6 c

pub encode-eq-text : (l c : ℕ) → l ≤ max_l → c ≤ max_c → encode l c ≡ ok (text l c)
unfolding encode
encode-eq-text l c hl hc = rw (le→leb _ _ hl, le→leb _ _ hc)

-- What a successful `encode` says.
pub encode_ok :
    (l c : ℕ) {s : List ℕ} → encode l c ≡ ok s → (s ≡ text l c) × (l ≤ max_l) × (c ≤ max_c)
unfolding encode
encode_ok l c h = ground arith

module _ (u : Digits) where
  append-nil_padded :
      (w n : ℕ) (rest : List ℕ → Bool) → n < 10 ^ w → digits_then u w rest (padded w n) ≡ rest []
  unfolding digits_then padded
  append-nil_padded zero n rest h = refl
  append-nil_padded (suc w) n rest h =
      rw (u.ascii (n / 10 ^ w) (lead_digit w n h))
        (append-nil_padded w (n % 10 ^ w) rest (rest_digits w n))

  pub is_valid-text : (l c : ℕ) → l ≤ max_l → c ≤ max_c → is_valid u (text l c) ≡ true
  unfolding is_valid
  is_valid-text l c hl hc =
      digits_then-padded u 13 l _ (46 ∷ padded 6 c) (omega arith)
      ∙ append-nil_padded 6 c at_end (omega arith)

  pub decode-text : (l c : ℕ) → l ≤ max_l → c ≤ max_c → decode u (text l c) ≡ ok (l, c)
  unfolding decode
  decode-text l c hl hc = rw (
    is_valid-text l c hl hc,
    before_dot-padded 13 l (padded 6 c) (omega arith),
    after_dot-padded 13 l (padded 6 c) (omega arith),
    int-padded u 13 l (omega arith),
    int-padded u 6 c (omega arith),
  )

-- Within the fixed widths `encode` returns a text that `is_valid` accepts and that decodes to the
-- pair that was printed.
pub decode-encode :
    (u : Digits) (l c : ℕ)
    → l ≤ max_l
    → c ≤ max_c
    → (s : List ℕ) × (encode l c ≡ ok s) × (is_valid u s ≡ true) × (decode u s ≡ ok (l, c))
decode-encode u l c hl hc =
    (text l c, encode-eq-text l c hl hc, is_valid-text u l c hl hc, decode-text u l c hl hc)

not_dot : (u : Digits) (c d : ℕ) → u.value c ≡ some d → (c == 46) ≡ false
not_dot u c d e = elim (Bool-cases (c == 46)) [
  | inl same ↦ absurd (some≢none (sym e ∙ ap u.value ((==_iff c 46).0 same) ∙ u.dot))
  | inr other ↦ other
]
  where
    some≢none : some d ≡ none → ⊥
    some≢none h = cc

int_from-digit :
    (u : Digits) (c d acc : ℕ) (s : List ℕ)
    → d < 10
    → u.value c ≡ some d
    → int_from u acc (c ∷ s) ≡ int_from u acc ((d + 48) ∷ s)
unfolding int_from
int_from-digit u c d acc s h e = ap (λ o. int_from u (digit_or o acc) s) (e ∙ sym (u.ascii d h))

-- The regex `\d` and `int` read every decimal digit of the Unicode table: a text that begins with
-- any code point worth d is accepted, and decodes, as the one that begins with the ASCII digit d.
decode_any_digit :
    (u : Digits) (c d : ℕ) (s : List ℕ)
    → d < 10
    → u.value c ≡ some d
    → (is_valid u (c ∷ s) ≡ is_valid u ((d + 48) ∷ s))
      × (decode u (c ∷ s) ≡ decode u ((d + 48) ∷ s))
unfolding decode is_valid digits_then before_dot after_dot
decode_any_digit u c d s h e = (
  rw (e, u.ascii d h) refl,
  rw (e, u.ascii d h, not_dot u c d e, not_dot u (d + 48) d (u.ascii d h))
      (rw (int_from-digit u c d 0 (before_dot s) h e) refl),
)
