-- ===== src/Hlc/Rules.antt =====
-- What one step of the clock does (synapse/hlc.py: stamp, observe).
use synapse_messenger.Prelude.{ℕ, ◌≤◌, ◌<◌, ◌≡◌, refl, ◌⊎◌, List, arith, ltb, if◌then◌else◌}
use synapse_messenger.Hlc.{Digits, ok, value_error, Clock, decode, tick, stamp, merge, observe}

infix 50 ◌≺◌
-- The causal order of (l, c) pairs.
abbrev pub ◌≺◌ : Clock → Clock → Type 0
a ≺ b = (a.l < b.l) ⊎ ((a.l ≡ b.l) × (a.c < b.c))

pub ≺_trans : (a b c : Clock) → a ≺ b → b ≺ c → a ≺ c
≺_trans a b c h k = ground arith

-- A local event moves the clock strictly forward, never behind the physical time, to the later of
-- the two physical components.
pub stamp_advances :
    (pt : ℕ) (k : Clock)
    → (k ≺ (stamp pt k).1)
      × (pt ≤ (stamp pt k).1.l)
      × ((stamp pt k).1.l ≡ (if ltb pt k.l then k.l else pt))
unfolding stamp tick
stamp_advances pt k = (ground arith, ground arith, refl)

merge_forward : (l_r c_r : ℕ) (k : Clock) → k ≺ merge l_r c_r k
unfolding merge
merge_forward l_r c_r k = ground arith

merge_absorbs : (l_r c_r : ℕ) (k : Clock) → record { l = l_r; c = c_r } ≺ merge l_r c_r k
unfolding merge
merge_absorbs l_r c_r k = ground arith

merge_l : (l_r c_r : ℕ) (k : Clock) → (merge l_r c_r k).l ≡ (if ltb l_r k.l then k.l else l_r)
unfolding merge
merge_l l_r c_r k = refl

-- Receiving a timestamp that decodes puts the clock strictly after both itself and the remote pair,
-- at the later of the two physical components, and does not raise.
pub observe_merges :
    (u : Digits) (remote : List ℕ) (k : Clock) (l_r c_r : ℕ)
    → decode u remote ≡ ok (l_r, c_r)
    → ((observe u remote k).0 ≡ ok tt)
      × (k ≺ (observe u remote k).1)
      × (record { l = l_r; c = c_r } ≺ (observe u remote k).1)
      × ((observe u remote k).1.l ≡ (if ltb l_r k.l then k.l else l_r))
unfolding observe
observe_merges u remote k l_r c_r e =
    rw (e, observe) (refl, merge_forward l_r c_r k, merge_absorbs l_r c_r k, merge_l l_r c_r k)

-- A malformed remote timestamp raises and leaves the clock as it was.
pub observe_malformed :
    (u : Digits) (remote : List ℕ) (k : Clock)
    → decode u remote ≡ value_error
    → observe u remote k ≡ (value_error, k)
unfolding observe
observe_malformed u remote k e = rw (e, observe) refl
