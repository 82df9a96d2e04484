-- ===== src/Hlc/Trace.antt =====
-- Whole runs of one clock (synapse/hlc.py, class HLC): any sequence of stamps and received remotes.
use synapse_messenger.Prelude.{
  ℕ, ◌≤◌, ◌<◌, ◌≡◌, refl, ap, ◌∙◌, map, ◌⊎◌, inl, inr, true, List, [], ◌∷◌, arith, All, All-map,
  max,
}
use synapse_messenger.Hlc.{
  Digits, Checked, ok, value_error, Clock, max_l, max_c, encode, decode, tick, stamp, merge,
  observe,
}
use synapse_messenger.Hlc.Rules.{◌≺◌, stamp_advances, observe_merges, observe_malformed}
use synapse_messenger.Hlc.Order.{text_ltb, text_ltb-encode}

-- A call of a method: `stamp` at a physical time, or `observe` of a remote text.
pub data Call : Type 0 where
  stamp_at : ℕ → Call
  receive : List ℕ → Call

abbrev after : Digits → Call → Clock → Clock
after u (stamp_at pt) k = (stamp pt k).1
after u (receive remote) k = (observe u remote k).1

abbrev emit : Checked (List ℕ) → List (List ℕ) → List (List ℕ)
emit (ok s) rest = s ∷ rest
emit value_error rest = rest

-- The stamps that a run of calls hands out, in order; a call that raises hands out none.
pub stamps : Digits → List Call → Clock → List (List ℕ)
stamps u [] k = []
stamps u (stamp_at pt ∷ calls) k = emit (stamp pt k).0 (stamps u calls (stamp pt k).1)
stamps u (receive remote ∷ calls) k = stamps u calls (observe u remote k).1

-- The clock after a run of calls.
pub run_calls : Digits → List Call → Clock → Clock
run_calls u [] k = k
run_calls u (call ∷ calls) k = run_calls u calls (after u call k)

-- The texts come in strictly increasing byte order.
abbrev pub Increasing : List (List ℕ) → Type 0
Increasing [] = Unit
Increasing (s ∷ rest) = All (λ t. text_ltb s t ≡ true) rest × Increasing rest

-- Every stamp of a run that starts at or after `j` is text-greater than `j`'s own text.
abbrev Exceeds : Clock → List ℕ → Type 0
Exceeds j t = (s : List ℕ) → encode j.l j.c ≡ ok s → text_ltb s t ≡ true

infix 50 ◌≼◌
abbrev ◌≼◌ : Clock → Clock → Type 0
a ≼ b = (a.l < b.l) ⊎ ((a.l ≡ b.l) × (a.c ≤ b.c))

≼≺_trans : (a b c : Clock) → a ≼ b → b ≺ c → a ≺ c
≼≺_trans a b c h k = ground arith

≺_weaken : (a b : Clock) → a ≺ b → a ≼ b
≺_weaken a b h = ground arith

exceeds : (j k : Clock) {t : List ℕ} → j ≺ k → encode k.l k.c ≡ ok t → Exceeds j t
exceeds j k h e s es = text_ltb-encode j.l j.c k.l k.c es e ∙ ground arith

stamp_keeps : (pt : ℕ) (j k : Clock) → j ≼ k → j ≺ (stamp pt k).1
stamp_keeps pt j k h = ≼≺_trans j k (stamp pt k).1 h (stamp_advances pt k).0

Checked-cases {ℓ} : {A : Type ℓ} (r : Checked A) → ((a : A) × (r ≡ ok a)) ⊎ (r ≡ value_error)
Checked-cases (ok a) = inl (a, refl)
Checked-cases value_error = inr refl

observe_keeps : (u : Digits) (remote : List ℕ) (j k : Clock) → j ≼ k → j ≼ (observe u remote k).1
observe_keeps u remote j k h = elim (Checked-cases (decode u remote)) [
  | inl (p, e) ↦
      ≺_weaken j (observe u remote k).1
        (≼≺_trans j k (observe u remote k).1 h (observe_merges u remote k p.0 p.1 e).1)
  | inr e ↦ rw (observe_malformed u remote k e) h
]

emit-All :
    {P : List ℕ → Type 0} (r : Checked (List ℕ)) (rest : List (List ℕ))
    → ((t : List ℕ) → r ≡ ok t → P t)
    → All P rest
    → All P (emit r rest)
emit-All (ok s) rest h hs = (h s refl, hs)
emit-All value_error rest h hs = hs

stamps_exceed :
    (u : Digits) (calls : List Call) (j k : Clock) → j ≼ k → All (Exceeds j) (stamps u calls k)
unfolding stamps
stamps_exceed u [] j k h = tt
stamps_exceed u (stamp_at pt ∷ calls) j k h =
    emit-All (stamp pt k).0 (stamps u calls (stamp pt k).1)
      (λ t e. exceeds j (stamp pt k).1 (stamp_keeps pt j k h) (unfold stamp in e))
      (stamps_exceed u calls j (stamp pt k).1 (≺_weaken j (stamp pt k).1 (stamp_keeps pt j k h)))
stamps_exceed u (receive remote ∷ calls) j k h =
    stamps_exceed u calls j (observe u remote k).1 (observe_keeps u remote j k h)

emit-Increasing :
    (r : Checked (List ℕ)) (rest : List (List ℕ))
    → ((s : List ℕ) → r ≡ ok s → All (λ t. text_ltb s t ≡ true) rest)
    → Increasing rest
    → Increasing (emit r rest)
emit-Increasing (ok s) rest h hs = (h s refl, hs)
emit-Increasing value_error rest h hs = hs

-- Along any run, whatever the physical clock does and whatever remote texts arrive, the stamps that
-- are handed out come in strictly increasing byte order.
pub stamps-Increasing : (u : Digits) (calls : List Call) (k : Clock) → Increasing (stamps u calls k)
unfolding stamps
stamps-Increasing u [] k = tt
stamps-Increasing u (stamp_at pt ∷ calls) k =
    emit-Increasing (stamp pt k).0 (stamps u calls (stamp pt k).1)
      (λ s e.
        All-map (stamps u calls (stamp pt k).1) (λ t f. f s (unfold stamp in e))
          (stamps_exceed u calls (stamp pt k).1 (stamp pt k).1 (ground arith)))
      (stamps-Increasing u calls (stamp pt k).1)
stamps-Increasing u (receive remote ∷ calls) k = stamps-Increasing u calls (observe u remote k).1

-- Whatever was received: after a remote text that decodes, every later stamp is greater than it.
pub stamps_after_receive :
    (u : Digits) (remote : List ℕ) (l_r c_r : ℕ) (calls : List Call) (k : Clock)
    → decode u remote ≡ ok (l_r, c_r)
    → encode l_r c_r ≡ ok remote
    → All (λ t. text_ltb remote t ≡ true) (stamps u (receive remote ∷ calls) k)
unfolding stamps
stamps_after_receive u remote l_r c_r calls k d e =
    All-map (stamps u calls (observe u remote k).1) (λ t f. f remote e)
      (stamps_exceed u calls (record { l = l_r; c = c_r }) (observe u remote k).1
        (≺_weaken (record { l = l_r; c = c_r }) (observe u remote k).1
          (observe_merges u remote k l_r c_r d).2))

-- The latest physical time that a run was given, by its own clock or by a remote one.
pub latest : Digits → List Call → ℕ → ℕ
latest u [] m = m
latest u (stamp_at pt ∷ calls) m = latest u calls (max m pt)
latest u (receive remote ∷ calls) m =
    latest u calls (elim (decode u remote) [ ok (l_r, c_r) ↦ max m l_r | value_error ↦ m ])

-- The clock tracks physical time: its physical component is the greatest physical time that the run
-- has been given, by the local clock, by a remote text that decodes, or at the start.
run_tracks :
    (u : Digits) (calls : List Call) (k : Clock) → (run_calls u calls k).l ≡ latest u calls k.l
unfolding run_calls latest
run_tracks u [] k = refl
run_tracks u (stamp_at pt ∷ calls) k =
    run_tracks u calls (stamp pt k).1 ∙ ap (latest u calls) ((stamp_advances pt k).2 ∙ ground arith)
run_tracks u (receive remote ∷ calls) k = elim (Checked-cases (decode u remote)) [
  | inl (p, e) ↦
      run_tracks u calls (observe u remote k).1
      ∙ ap (latest u calls) ((observe_merges u remote k p.0 p.1 e).3 ∙ (rw e (ground arith)))
  | inr e ↦
      run_tracks u calls (observe u remote k).1
      ∙ ap (latest u calls) (ap (λ r. r.1.l) (observe_malformed u remote k e) ∙ (rw e refl))
]

abbrev IsStuck : Clock → Type 0
IsStuck k = (k.l ≡ max_l) × (max_c ≤ k.c)

stamp-IsStuck :
    (pt : ℕ) (k : Clock)
    → pt ≤ max_l
    → IsStuck k
    → ((stamp pt k).0 ≡ value_error) × IsStuck (stamp pt k).1
unfolding stamp tick encode
stamp-IsStuck pt k hp h = (ground arith, ground arith)

stuck_stamps :
    (u : Digits) (pts : List ℕ) (k : Clock)
    → All (λ pt. pt ≤ max_l) pts
    → IsStuck k
    → stamps u (map stamp_at pts) k ≡ []
unfolding stamps
stuck_stamps u [] k hp h = refl
stuck_stamps u (pt ∷ pts) k hp h =
    rw (stamp-IsStuck pt k hp.0 h).0
      (stuck_stamps u pts (stamp pt k).1 hp.1 (stamp-IsStuck pt k hp.0 h).1)

merge_max : (k : Clock) → k.l ≤ max_l → IsStuck (merge max_l max_c k)
unfolding merge
merge_max k h = (ground arith, ground arith)

-- Where a clock whose physical part is at most the greatest of the fixed width receives the greatest
-- well-formed remote text, and only calls of `stamp` follow, at physical times that fit the width,
-- every one of them raises: none hands out a stamp.
pub stamps_after_max :
    (u : Digits) (remote : List ℕ) (pts : List ℕ) (k : Clock)
    → decode u remote ≡ ok (max_l, max_c)
    → All (λ pt. pt ≤ max_l) pts
    → k.l ≤ max_l
    → stamps u (receive remote ∷ map stamp_at pts) k ≡ []
unfolding stamps
stamps_after_max u remote pts k d hp hk =
    stuck_stamps u pts (observe u remote k).1 hp
      (unfold observe in rw (d, observe) (merge_max k hk))
