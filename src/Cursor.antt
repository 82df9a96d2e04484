-- ===== src/Cursor.antt =====
-- Opaque, signed pagination cursors (synapse/cursor.py), and the two ends of Service that use them:
-- `_pagination` and `_next_cursor` of synapse/service.py. A text is the list of its code points, a
-- byte string the list of its bytes. base64, json and hmac are parameters.
pub mod Base64
pub mod Roundtrip
pub mod Binding
use synapse_messenger.Validation.{same_text}
use synapse_messenger.Prelude.{
  ℕ, zero, suc, ◌+◌, ◌-◌, ◌*◌, ◌%◌, ◌<◌, ◌≡◌, Bool, true, false, not, ◌&&◌, Option, none, some,
  List, [], ◌∷◌, ◌++◌, length, all, any, ltb, ◌==◌, if◌then◌else◌,
}
use synapse_messenger.Errors.{
  Result, ok, err, ◌>>=◌, ◌>>◌, raise_if, or_raise, invalid_argument, internal_error,
}

-- The filters of a request: the keys and values of the dict, in the order of the keys.
abbrev pub Filters : Type 0
Filters = List (List ℕ × Option ℕ)

-- A JSON object, by the keys that the code reads; `none` is a missing key. The names of
-- accounts, the boundary and the positions are texts that are only compared.
pub record Payload : Type 0 where
  pub v : Option ℕ
  pub cmd : Option (List ℕ)
  pub user : Option ℕ
  pub boundary : Option ℕ
  pub sort : Option (List ℕ)
  pub filters : Option Filters
  pub last : Option (List ℕ)

-- What `json.loads` yields: a ValueError, another value, or an object.
pub data Loaded : Type 0 where
  not_json not_object : Loaded
  object : Payload → Loaded

abbrev pub repeat : ℕ → ℕ → List ℕ
repeat zero c = []
repeat (suc n) c = c ∷ repeat n c

-- The libraries: base64's URL-safe alphabet, json and HMAC-SHA256 under the service's secret. The
-- laws are RFC 4648's (whole groups of four, at most two "=" and only at the end, no "." in the
-- alphabet, decoding is the inverse of encoding) and json's (a printed object reads back).
pub record Codec : Type 0 where
  pub base64_core : List ℕ → List ℕ
  pub base64_pad : List ℕ → ℕ
  pub urlsafe_b64decode : List ℕ → Option (List ℕ)
  pub dumps : Payload → List ℕ
  pub loads : List ℕ → Loaded
  pub hmac : List ℕ → List ℕ
  pub pad_bound : (bytes : List ℕ) → base64_pad bytes < 3
  pub whole_groups : (bytes : List ℕ) → (length (base64_core bytes) + base64_pad bytes) % 4 ≡ 0
  pub alphabet :
      (bytes : List ℕ)
      → all (λ c. ltb c 128 && (not (c == 46) && not (c == 61))) (base64_core bytes) ≡ true
  pub decodes :
      (bytes : List ℕ)
      → urlsafe_b64decode (base64_core bytes ++ repeat (base64_pad bytes) 61) ≡ some bytes
  pub loads-dumps : (p : Payload) → loads (dumps p) ≡ object p

-- text.rstrip("=")
abbrev pub rstrip : List ℕ → List ℕ
rstrip [] = []
rstrip (c ∷ text) = if all (λ d. d == 61) (c ∷ text) then [] else c ∷ rstrip text

-- cursor.split(".", 1); `none` is the ValueError of the unpacking
abbrev pub split_dot : List ℕ → Option (List ℕ × List ℕ)
split_dot [] = none
split_dot (c ∷ text) =
    let rest = split_dot text in
    if c == 46 then some ([], text) else elim rest [ none ↦ none | some (a, b) ↦ some (c ∷ a, b) ]

-- text.encode("ascii"); its UnicodeEncodeError ends as INTERNAL_ERROR
abbrev pub encode_ascii : List ℕ → Result (List ℕ)
encode_ascii text = if all (λ c. ltb c 128) text then ok text else err internal_error

-- hmac.compare_digest
abbrev pub compare_digest : List ℕ → List ℕ → Bool
compare_digest [] [] = true
compare_digest [] (b ∷ bs) = false
compare_digest (a ∷ xs) [] = false
compare_digest (a ∷ xs) (b ∷ ys) = a == b && compare_digest xs ys

-- payload.get(key) == value
abbrev pub is_value : Option ℕ → ℕ → Bool
is_value none value = false
is_value (some found) value = found == value

abbrev pub is_text : Option (List ℕ) → List ℕ → Bool
is_text none value = false
is_text (some found) value = same_text found value

abbrev pub same_option : Option ℕ → Option ℕ → Bool
same_option none none = true
same_option none (some b) = false
same_option (some a) none = false
same_option (some a) (some b) = a == b

abbrev pub same_filters : Filters → Filters → Bool
same_filters [] [] = true
same_filters [] (g ∷ gs) = false
same_filters (f ∷ fs) [] = false
same_filters ((k, x) ∷ fs) ((l, y) ∷ gs) = same_text k l && (same_option x y && same_filters fs gs)

abbrev pub are_filters : Option Filters → Filters → Bool
are_filters none value = false
are_filters (some found) value = same_filters found value

abbrev pub as_object : Loaded → Result Payload
as_object not_json = err invalid_argument
as_object not_object = err invalid_argument
as_object (object p) = ok p

module _ (u : Codec) where
  -- _b64url
  unfoldable pub b64url : List ℕ → List ℕ
  b64url bytes = rstrip (u.base64_core bytes ++ repeat (u.base64_pad bytes) 61)

  -- _unb64url: the padding is "=" * (-len(token) % 4)
  unfoldable pub unb64url : List ℕ → Result (List ℕ)
  unb64url token =
      or_raise (u.urlsafe_b64decode (token ++ repeat ((4 - length token % 4) % 4) 61))
        invalid_argument

  -- encode_cursor
  unfoldable pub encode_cursor : Payload → List ℕ
  encode_cursor payload = let body = b64url (u.dumps payload) in body ++ 46 ∷ b64url (u.hmac body)

  -- The cursor after the split: signature, JSON, version.
  unfoldable pub decode_parts : List ℕ × List ℕ → Result Payload
  decode_parts (body, signature) = do
    ascii ← encode_ascii body
    provided ← unb64url signature
    raise_if (not (compare_digest (u.hmac ascii) provided)) invalid_argument
    bytes ← unb64url body
    payload ← as_object (u.loads bytes)
    raise_if (not (is_value payload.v 1)) invalid_argument
    ok payload

  -- decode_cursor
  unfoldable pub decode_cursor : List ℕ → Result Payload
  decode_cursor cursor = or_raise (split_dot cursor) invalid_argument >>= decode_parts

-- build_payload, with both optional parts given
unfoldable pub build_payload : List ℕ → ℕ → ℕ → List ℕ → List ℕ → Filters → Payload
build_payload command username boundary sort last filters = record {
  v = some 1;
  cmd = some command;
  user = some username;
  boundary = some boundary;
  sort = some sort;
  filters = some filters;
  last = some last;
}

-- validate_cursor_binding
unfoldable pub validate_cursor_binding : Payload → List ℕ → ℕ → List ℕ → Filters → Result (Unit {0})
validate_cursor_binding payload command username sort filters = do
  raise_if (not (is_text payload.cmd command)) invalid_argument
  raise_if (not (is_value payload.user username)) invalid_argument
  raise_if (not (is_text payload.sort sort)) invalid_argument
  raise_if (not (are_filters payload.filters filters)) invalid_argument

-- tuple(last_value) if last_value else None
abbrev pub truthy : Option (List ℕ) → Option (List ℕ)
truthy none = none
truthy (some []) = none
truthy (some (x ∷ xs)) = some (x ∷ xs)

-- The request that a cursor is bound to.
pub record Request : Type 0 where
  pub username : ℕ
  pub command : List ℕ
  pub sort : List ℕ
  pub filters : Filters

module _ (u : Codec) where
  abbrev pub resume : Request → List ℕ → Result (Option (List ℕ) × ℕ)
  resume r cursor = do
    payload ← decode_cursor u cursor
    validate_cursor_binding payload r.command r.username r.sort r.filters
    boundary ← or_raise payload.boundary internal_error
    ok (truthy payload.last, boundary)

  -- Service._pagination, where the clock reads `now`
  unfoldable pub pagination : ℕ → Request → Option (List ℕ) → Result (Option (List ℕ) × ℕ)
  pagination now r none = ok (none, now)
  pagination now r (some cursor) = resume r cursor

  -- Service._next_cursor
  unfoldable pub next_cursor : Request → ℕ → List ℕ → List ℕ
  next_cursor r boundary last =
      encode_cursor u (build_payload r.command r.username boundary r.sort last r.filters)
