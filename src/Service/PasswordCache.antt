-- ===== src/Service/PasswordCache.antt =====
-- The cache of passwords (synapse/service.py: _cached_password_ok, _prune_auth_cache).
use synapse_messenger.Prelude.{
  ℕ, ◌+◌, ◌≡◌, refl, sym, ap, ◌∙◌, Option, none, some, Bool, true, false, List, [], ◌∷◌, All, find,
  select, length, arith, ltb, leb, if◌then◌else◌, Bool-cases, inl, inr,
}
use mathlib.Core.Path.{subst}
use synapse_messenger.Db.{AuthKey}
use synapse_messenger.Store.AuthFailures.{same_key}
use synapse_messenger.Service.Auth.{
  Secrets, Attempt, CacheEntry, max_auth_cache_entries, prune_auth_cache, put, is_hit,
  cached_password_ok,
}

-- An entry was made for a password that verified against its hash.
abbrev pub IsEarned : Secrets → CacheEntry → Type 0
IsEarned secrets e =
    (password : ℕ) × (e.digest ≡ secrets.digest password)
    × (secrets.verify_password e.password_hash password ≡ true)

abbrev pub IsSound : Secrets → List CacheEntry → Type 0
IsSound secrets cache = All (IsEarned secrets) cache

pub select-IsSound :
    (secrets : Secrets) (p : CacheEntry → Bool) (es : List CacheEntry)
    → IsSound secrets es
    → IsSound secrets (select p es)
select-IsSound secrets p [] h = tt
select-IsSound secrets p (x ∷ xs) (h, hs) = elim (Bool-cases (p x)) [
  | inl e ↦ rw e (h, select-IsSound secrets p xs hs)
  | inr e ↦ rw e (select-IsSound secrets p xs hs)
]

pub found_IsEarned :
    (secrets : Secrets) (p : CacheEntry → Bool) (es : List CacheEntry) {x : CacheEntry}
    → IsSound secrets es
    → find p es ≡ some x
    → IsEarned secrets x
found_IsEarned secrets p [] h e = cc
found_IsEarned secrets p (y ∷ ys) (h, hs) e = elim (Bool-cases (p y)) [
  | inl pass ↦
      subst (IsEarned secrets)
        (entry_injective (ap (λ b. if b then some y else find p ys) (sym pass) ∙ e)) h
  | inr fail ↦
      found_IsEarned secrets p ys hs (ap (λ b. if b then some y else find p ys) (sym fail) ∙ e)
]
  where
    entry_injective : {a b : CacheEntry} → some a ≡ some b → a ≡ b
    entry_injective q = cc

module _ (secrets : Secrets) (at : Attempt) (key : AuthKey) (hash password : ℕ) where
  pub hit_verifies :
      ((a b : ℕ) → secrets.digest a ≡ secrets.digest b → a ≡ b)
      → (o : Option CacheEntry) (cache : List CacheEntry) → IsSound secrets cache
      → find (λ e. same_key e.key key) cache ≡ o
      → is_hit secrets at.monotonic hash password o ≡ true
      → secrets.verify_password hash password ≡ true
  hit_verifies no_collision none cache sound e hit = cc
  hit_verifies no_collision (some entry) cache sound e hit =
      let (earned, made, verified) =
        found_IsEarned secrets (λ c. same_key c.key key) cache sound e in
      let same_hash : entry.password_hash ≡ hash = ground (arith, hit) in
      let same_digest : entry.digest ≡ secrets.digest password = ground (arith, hit) in
      let same : earned ≡ password = no_collision earned password (sym made ∙ same_digest) in
      cc (verified, same_hash, same)

  pub earned :
      (cache : List CacheEntry)
      → IsSound secrets cache
      → secrets.verify_password hash password ≡ true
      → IsSound secrets (
          put
            (record {
              key = key;
              password_hash = hash;
              digest = secrets.digest password;
              expires = at.monotonic + at.auth_cache_ttl;
            })
            (if leb max_auth_cache_entries (length cache)
              then prune_auth_cache at.monotonic cache
              else cache))
  unfolding put prune_auth_cache
  earned cache sound pass = (
    (password, refl, pass),
    select-IsSound secrets _ _ (kept (leb max_auth_cache_entries (length cache))),
  )
    where
      kept :
          (b : Bool)
          → IsSound secrets (if b then select (λ e. ltb at.monotonic e.expires) cache else cache)
      kept true = select-IsSound secrets _ cache sound
      kept false = sound

-- Where SHA-256 tells the passwords apart, the cache does not change the answer: a password passes
-- exactly when Argon2 verifies it against the hash that is given, and every entry of the cache still
-- stands for a password that verified.
pub cache_agrees :
    (secrets : Secrets) (at : Attempt) (key : AuthKey) (hash password : ℕ) (cache : List CacheEntry)
    → ((a b : ℕ) → secrets.digest a ≡ secrets.digest b → a ≡ b)
    → IsSound secrets cache
    → ((cached_password_ok secrets at key hash password cache).0
        ≡ secrets.verify_password hash password)
      × IsSound secrets (cached_password_ok secrets at key hash password cache).1
unfolding cached_password_ok
cache_agrees secrets at key hash password cache no_collision sound =
    elim (Bool-cases
      (is_hit secrets at.monotonic hash password (find (λ e. same_key e.key key) cache))) [
        | inl hit ↦ rw hit (
          sym (hit_verifies secrets at key hash password no_collision _ cache sound refl hit),
          sound,
        )
        | inr miss ↦ elim (Bool-cases (secrets.verify_password hash password)) [
          | inl pass ↦ rw (miss, pass) (refl, earned secrets at key hash password cache sound pass)
          | inr fail ↦ rw (miss, fail) (refl, sound)
        ]
      ]
