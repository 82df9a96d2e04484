-- ===== src/Validation/DependsOn.antt =====
-- The dependency list of a task (synapse/validation.py: validate_depends_on).
use mathlib.Core.List.{append_assoc, append-nil}
use synapse_messenger.Prelude.{
  ℕ, suc, ◌+◌, ◌≤◌, ◌≡◌, refl, sym, ap, ◌∙◌, Bool, true, false, not, ◌&&◌, ◌||◌, List, [], ◌∷◌,
  ◌++◌, All, ltb, length, length-append, if◌then◌else◌, both, arith,
}
use synapse_messenger.Errors.{
  ok, ◌>>=◌, raise_if, Ensures, Ensures-bind, Ensures-then, Ensures-ok, Ensures-map, Ensures-err,
  raise_if_passed, invalid_argument,
}
use synapse_messenger.Validation.{
  Json, null, float, boolean, natural, negative, text, array, dict, is_in, same_text, elements,
  as_items,
}
use synapse_messenger.Validation.Identifiers.{uuid_of, add_new, collect_uuids, validate_depends_on}
use synapse_messenger.Validation.Uuids.{IsUuid, uuid_of-IsUuid}

-- No text is listed twice.
abbrev pub distinct : List (List ℕ) → Bool
distinct [] = true
distinct (t ∷ texts) = not (is_in t texts) && distinct texts

-- At most `bound` UUIDs, none twice
pub record IsDependencies (bound : ℕ) (ids : List (List ℕ)) : Type 0 where
  pub few : length ids ≤ bound
  pub once : distinct ids ≡ true
  pub uuids : All IsUuid ids

same_text_sym : (s t : List ℕ) → same_text s t ≡ same_text t s
same_text_sym [] [] = refl
same_text_sym [] (d ∷ t) = refl
same_text_sym (c ∷ s) [] = refl
same_text_sym (c ∷ s) (d ∷ t) = ground (arith, same_text_sym s t)

is_in-append :
    (t : List ℕ) (texts : List (List ℕ)) (v : List ℕ)
    → is_in t (texts ++ v ∷ []) ≡ (is_in t texts || same_text t v)
is_in-append t [] v = ground arith
is_in-append t (s ∷ texts) v = ground (arith, is_in-append t texts v)

pub distinct-append :
    (texts : List (List ℕ)) (v : List ℕ)
    → distinct texts ≡ true
    → is_in v texts ≡ false
    → distinct (texts ++ v ∷ []) ≡ true
distinct-append [] v d n = refl
distinct-append (t ∷ texts) v d n =
    ground (arith, is_in-append t texts v, same_text_sym t v, distinct-append texts v)

All-append :
    (texts : List (List ℕ)) (v : List ℕ)
    → All IsUuid texts
    → IsUuid v
    → All IsUuid (texts ++ v ∷ [])
All-append [] v h u = (u, tt)
All-append (t ∷ texts) v (k, h) u = (k, All-append texts v h u)

add_new-IsDependencies :
    (n : ℕ) (out : List (List ℕ)) (v : List ℕ)
    → IsDependencies n out
    → IsUuid v
    → IsDependencies (suc n) (add_new out v)
add_new-IsDependencies n out v h u = at (is_in v out) refl
  where
    at : (b : Bool) → is_in v out ≡ b → IsDependencies (suc n) (if b then out else out ++ v ∷ [])
    at true e = record { few = omega (arith, h.few); once = h.once; uuids = h.uuids }
    at false e = record {
      few = omega (arith, h.few, length-append out (v ∷ []));
      once = distinct-append out v h.once e;
      uuids = All-append out v h.uuids u;
    }

weaken : (m n : ℕ) (ids : List (List ℕ)) → m ≤ n → IsDependencies m ids → IsDependencies n ids
weaken m n ids le h = record { few = omega (arith, h.few, le); once = h.once; uuids = h.uuids }

collect_uuids-IsDependencies :
    (xs : List Json) (n : ℕ) (out : List (List ℕ))
    → IsDependencies n out
    → Ensures (IsDependencies (length xs + n)) (collect_uuids xs out)
unfolding collect_uuids
collect_uuids-IsDependencies [] n out h = Ensures-ok out (weaken n (0 + n) out (omega arith) h)
collect_uuids-IsDependencies (x ∷ xs) n out h = Ensures-then (uuid_of x) _ (uuid_of-IsUuid x) λ v u.
    Ensures-map _
      (collect_uuids-IsDependencies xs (suc n) (add_new out v) (add_new-IsDependencies n out v h u))
      λ ids k. weaken _ _ ids (omega arith) k

-- A dependency list that validate_depends_on accepts has at most 20 identifiers, none twice, each a
-- UUIDv4 in lower case: five groups of hexadecimal digits, the version digit 4 and a variant digit of 8,
-- 9, a or b.
pub validate_depends_on-IsDependencies :
    (raw : Json) → Ensures (IsDependencies 20) (validate_depends_on raw)
unfolding validate_depends_on
validate_depends_on-IsDependencies null =
    Ensures-ok [] (record { few = omega arith; once = refl; uuids = tt })
validate_depends_on-IsDependencies (array xs) =
    Ensures-bind (raise_if (ltb 20 (length (elements xs))) invalid_argument) _ λ t few.
      Ensures-map _
        (collect_uuids-IsDependencies (elements xs) 0 []
          (record { few = omega arith; once = refl; uuids = tt }))
        λ ids k. weaken _ _ ids (bound (length (elements xs)) (raise_if_passed _ _ few)) k
  where
    bound : (n : ℕ) → ltb 20 n ≡ false → n + 0 ≤ 20
    bound n h = ground arith
validate_depends_on-IsDependencies float = Ensures-err invalid_argument
validate_depends_on-IsDependencies (boolean b) = Ensures-err invalid_argument
validate_depends_on-IsDependencies (natural n) = Ensures-err invalid_argument
validate_depends_on-IsDependencies (negative n) = Ensures-err invalid_argument
validate_depends_on-IsDependencies (text t) = Ensures-err invalid_argument
validate_depends_on-IsDependencies (dict fs) = Ensures-err invalid_argument

-- An element is not among those in front of it.
pub distinct-before :
    (out : List (List ℕ)) (v : List ℕ) (ids : List (List ℕ))
    → distinct (out ++ v ∷ ids) ≡ true
    → is_in v out ≡ false
distinct-before [] v ids h = refl
distinct-before (t ∷ out) v ids h =
    let (first, rest) = both (not (is_in t (out ++ v ∷ ids))) (distinct (out ++ v ∷ ids)) h in
    ground (arith, same_text_sym v t, apart out first, distinct-before out v ids rest)
  where
    apart : (out : List (List ℕ)) → not (is_in t (out ++ v ∷ ids)) ≡ true → same_text t v ≡ false
    apart [] h = ground (arith, h)
    apart (s ∷ out) h = apart out (ground (arith, h))

collect_uuids-fixed :
    (ids out : List (List ℕ))
    → All IsUuid ids
    → distinct (out ++ ids) ≡ true
    → collect_uuids (elements (as_items ids)) out ≡ ok (out ++ ids)
unfolding collect_uuids ◌>>=◌
collect_uuids-fixed [] out h d = ap ok (sym (append-nil out))
collect_uuids-fixed (v ∷ ids) out (u, h) d =
    rw (u.accepted, distinct-before out v ids d)
      (collect_uuids-fixed ids (out ++ v ∷ []) h (ap distinct (append_assoc out (v ∷ []) ids) ∙ d)
        ∙ ap ok (append_assoc out (v ∷ []) ids))

length-as_items : (ids : List (List ℕ)) → length (elements (as_items ids)) ≡ length ids
length-as_items [] = refl
length-as_items (v ∷ ids) = ap suc (length-as_items ids)

-- A list of at most 20 normalised UUIDs, none twice, is accepted unchanged.
pub validate_depends_on-fixed :
    (ids : List (List ℕ))
    → IsDependencies 20 ids
    → validate_depends_on (array (as_items ids)) ≡ ok ids
unfolding validate_depends_on raise_if ◌>>=◌
validate_depends_on-fixed ids h =
    rw (few (length (elements (as_items ids))) (omega (arith, length-as_items ids, h.few)))
      (collect_uuids-fixed ids [] h.uuids h.once)
  where
    few : (n : ℕ) → n ≤ 20 → ltb 20 n ≡ false
    few n k = ground arith
