-- ===== src/Hlc/Order.antt =====
-- SQLite compares the hlc column as text, byte by byte; the text order is the causal order of pairs
-- (synapse/hlc.py: encode; synapse/db.py: max_hlc).
use mathlib.Core.Path.{ap₂}
use mathlib.Core.List.{append-nil}
use synapse_messenger.Prelude.{
  ℕ, zero, suc, ◌+◌, ◌*◌, ◌/◌, ◌%◌, ◌^◌, ◌≤◌, ◌<◌, ◌≡◌, sym, ap, ◌∙◌, Bool, true, false, List, [],
  ◌∷◌, ◌++◌, arith, ltb, ◌==◌, if◌then◌else◌,
}
use synapse_messenger.Hlc.{max_l, max_c, padded, encode, ok}
use synapse_messenger.Hlc.Text.{rest_digits, split_digits, text, encode_ok}

-- a < b in the BINARY collation
pub text_ltb : List ℕ → List ℕ → Bool
text_ltb [] [] = false
text_ltb [] (y ∷ ys) = true
text_ltb (x ∷ xs) [] = false
text_ltb (x ∷ xs) (y ∷ ys) =
    let rest = text_ltb xs ys in if ltb x y then true else if x == y then rest else false

-- (l, c) before (l', c')
abbrev pub lex : ℕ → ℕ → Bool → Bool
lex n m rest = if ltb n m then true else if n == m then rest else false

scale_lt : (q q' b : ℕ) → q < q' → (q + 1) * b ≤ q' * b
scale_lt q q' b h = grind arith

lex_digits :
    (q r q' r' b : ℕ) (rest : Bool)
    → r < b
    → r' < b
    → lex q q' (lex r r' rest) ≡ lex (q * b + r) (q' * b + r') rest
lex_digits q r q' r' b rest h h' = ground (arith, scale_lt q q' b, scale_lt q' q b)

lex-shift : (q q' : ℕ) (rest : Bool) → lex (q + 48) (q' + 48) rest ≡ lex q q' rest
lex-shift q q' rest = ground arith

lex-nil : (n m : ℕ) (rest : Bool) → n < 1 → m < 1 → rest ≡ lex n m rest
lex-nil n m rest hn hm = ground arith

text_ltb-padded :
    (w n m : ℕ) (s t : List ℕ)
    → n < 10 ^ w
    → m < 10 ^ w
    → text_ltb (padded w n ++ s) (padded w m ++ t) ≡ lex n m (text_ltb s t)
unfolding text_ltb padded
text_ltb-padded zero n m s t hn hm = lex-nil n m (text_ltb s t) hn hm
text_ltb-padded (suc w) n m s t hn hm =
    lex-shift (n / 10 ^ w) (m / 10 ^ w)
      (text_ltb (padded w (n % 10 ^ w) ++ s) (padded w (m % 10 ^ w) ++ t))
    ∙ ap (lex (n / 10 ^ w) (m / 10 ^ w))
        (text_ltb-padded w (n % 10 ^ w) (m % 10 ^ w) s t (rest_digits w n) (rest_digits w m))
    ∙ lex_digits (n / 10 ^ w) (n % 10 ^ w) (m / 10 ^ w) (m % 10 ^ w) (10 ^ w) (text_ltb s t)
        (rest_digits w n) (rest_digits w m)
    ∙ (λ i. lex (split_digits w n i) (split_digits w m i) (text_ltb s t))

-- Without a rest: the last component ends the text.
text_ltb-padded_end :
    (w n m : ℕ) → n < 10 ^ w → m < 10 ^ w → text_ltb (padded w n) (padded w m) ≡ ltb n m
text_ltb-padded_end w n m hn hm =
    ap₂ text_ltb (sym (append-nil (padded w n))) (sym (append-nil (padded w m)))
    ∙ text_ltb-padded w n m [] [] hn hm
    ∙ (unfold text_ltb in ground arith)

pub text_ltb-text :
    (l c l' c' : ℕ)
    → l ≤ max_l
    → c ≤ max_c
    → l' ≤ max_l
    → c' ≤ max_c
    → text_ltb (text l c) (text l' c') ≡ lex l l' (ltb c c')
unfolding text_ltb
text_ltb-text l c l' c' hl hc hl' hc' =
    text_ltb-padded 13 l l' (46 ∷ padded 6 c) (46 ∷ padded 6 c') (omega arith) (omega arith)
    ∙ ap (lex l l') (text_ltb-padded_end 6 c c' (omega arith) (omega arith))

-- On two encoded timestamps, SQLite's byte order of the texts is the order of the pairs.
pub text_ltb-encode :
    (l c l' c' : ℕ) {s t : List ℕ}
    → encode l c ≡ ok s
    → encode l' c' ≡ ok t
    → text_ltb s t ≡ (if ltb l l' then true else if l == l' then ltb c c' else false)
text_ltb-encode l c l' c' es et =
    let (es', hl, hc) = encode_ok l c es in
    let (et', hl', hc') = encode_ok l' c' et in
    ap₂ text_ltb es' et' ∙ text_ltb-text l c l' c' hl hc hl' hc'
