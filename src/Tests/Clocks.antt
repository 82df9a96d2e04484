-- ===== src/Tests/Clocks.antt =====
-- The clock on concrete readings and texts.
use synapse_messenger.Prelude.{
  ℕ, ◌≡◌, true, false, List, [], ◌∷◌, map, arith, ltb, ◌==◌, if◌then◌else◌,
}
use synapse_messenger.Hlc.{ok, max_l, max_c, encode, decode, is_valid}
use synapse_messenger.Hlc.Text.{text, encode-eq-text, decode-text, decode-encode}
use synapse_messenger.Hlc.Order.{text_ltb, text_ltb-encode}
use synapse_messenger.Hlc.Trace.{
  Call, stamp_at, receive, stamps, Increasing, stamps-Increasing, stamps_after_max,
}
use synapse_messenger.Tests.Data.{digits, noon}

abbrev remote : List ℕ
remote = text 5000 7

remote-decodes : decode digits remote ≡ ok (5000, 7)
remote-decodes = decode-text digits 5000 7 (omega arith) (omega arith)

decode-encode_example :
    (s : List ℕ) × (encode 1700000000000 42 ≡ ok s)
    × (is_valid digits s ≡ true)
    × (decode digits s ≡ ok (1700000000000, 42))
decode-encode_example = decode-encode digits 1700000000000 42 (omega arith) (omega arith)

text_ltb-encode_example :
    text_ltb (text 999 1) (text 1000 0)
    ≡ (if ltb 999 1000 then true else if 999 == 1000 then ltb 1 0 else false)
text_ltb-encode_example =
    text_ltb-encode 999 1 1000 0 (encode-eq-text 999 1 (omega arith) (omega arith))
      (encode-eq-text 1000 0 (omega arith) (omega arith))

abbrev calls : List Call
calls = stamp_at 400 ∷ receive (text 5000 7) ∷ stamp_at 2000 ∷ stamp_at 6000 ∷ []

stamps-Increasing_example : Increasing (stamps digits calls noon)
stamps-Increasing_example = stamps-Increasing digits calls noon

stamps_after_max_example :
    stamps digits (receive (text max_l max_c) ∷ map stamp_at (2000 ∷ 3000 ∷ [])) noon ≡ []
stamps_after_max_example =
    stamps_after_max digits (text max_l max_c) (2000 ∷ 3000 ∷ []) noon
      (decode-text digits max_l max_c (omega arith) (omega arith)) (omega arith, (omega arith, tt))
      (omega arith)
