-- ===== src/Service/Answered.antt =====
-- The answer of a complete request (synapse/service.py: Service.process).
use synapse_messenger.Prelude.{ℕ, ◌+◌, ◌≡◌, refl, ap, Option, false, List, ◌⊎◌, inl, inr}
use synapse_messenger.Errors.{Result, ok, err, ◌>>=◌}
use synapse_messenger.Validation.{Json, Unicode}
use synapse_messenger.Validation.Envelope.{validate_envelope}
use synapse_messenger.Service.Targets.{Params}
use synapse_messenger.Service.Auth.{Secrets}
use synapse_messenger.Service.PasswordCache.{IsSound}
use synapse_messenger.Service.Dispatch.{Route}
use synapse_messenger.Service.Accepted.{IsAccepted, Guarded, dispatch-Guarded}
use synapse_messenger.Service.Process.{
  Handlers, Server, Context, proceed, serve_route, dispatch, process, Response, respond,
}

module _ {A : Type 0} (secrets : Secrets) (handlers : Handlers A) (c : Context) (u : Unicode)
    (parse : List ℕ → Result Json) (raw : List ℕ) (s : Server) where
  -- The request is valid, its credentials are accepted, and the handler of its route gives `x`.
  abbrev pub Accepted : Response A × Server → Type 0
  Accepted x =
      (request : Json) × (command : List ℕ) × (params : Params) × (t : Route) × (actor : ℕ)
      × (org : Option ℕ) × (s1 : Server) × (parse raw ≡ ok request)
      × (validate_envelope u request ≡ ok (command, params))
      × IsAccepted secrets c s.service.db command params t actor org
      × (s1.service ≡ s.service)
      × (x ≡ respond (serve_route secrets handlers c t command params actor org s1))

  -- Either an error that leaves the clock and the tables but auth_failures, or the answer of an accepted request.
  abbrev pub Answered : Response A × Server → Type 0
  Answered x = ((x.1.service ≡ s.service) × (x.0.success ≡ false)) ⊎ Accepted x

  abbrev counted : Server
  counted = record s { requests_total = s.requests_total + 1 }

  respond-Answered :
      (request : Json) (command : List ℕ) (params : Params) (x : Result A × Server)
      → parse raw ≡ ok request
      → validate_envelope u request ≡ ok (command, params)
      → Guarded secrets handlers c command params counted x
      → Answered (respond x)
  respond-Answered request command params (ok a, s') e f (inl (same, (code, h))) = cc
  respond-Answered request command params (err code, s') e f (inl (same, h)) = inl (same, refl)
  respond-Answered request command params x e f (inr (t, actor, org, s1, accepted, same, ran)) =
      inr (request, command, params, t, actor, org, s1, e, f, accepted, same, ap respond ran)

-- Every request is answered so, where SHA-256 tells passwords apart and the cache is sound.
pub process-Answered :
    {A : Type 0} (secrets : Secrets) (handlers : Handlers A) (c : Context) (u : Unicode)
    (parse : List ℕ → Result Json) (raw : List ℕ) (s : Server)
    → ((a b : ℕ) → secrets.digest a ≡ secrets.digest b → a ≡ b)
    → IsSound secrets s.auth.cache
    → Answered secrets handlers c u parse raw s (process secrets handlers c u parse raw s)
unfolding process ◌>>=◌
process-Answered {A = A} secrets handlers c u parse raw s no_collision sound =
    parsed (parse raw) refl
  where
    after : Result (List ℕ × Params) → Response A × Server
    after r = respond (
        proceed (r, counted secrets handlers c u parse raw s)
          λ valid s1. dispatch secrets handlers c valid.0 valid.1 s1)

    validated :
        (request : Json) (r : Result (List ℕ × Params))
        → parse raw ≡ ok request
        → validate_envelope u request ≡ r
        → Answered secrets handlers c u parse raw s (after r)
    validated request (err e) p f = inl (refl, refl)
    validated request (ok (command, params)) p f =
        respond-Answered secrets handlers c u parse raw s request command params _ p f (
          dispatch-Guarded secrets handlers c command params
            (counted secrets handlers c u parse raw s) (no_collision, sound))

    parsed :
        (m : Result Json)
        → parse raw ≡ m
        → Answered secrets handlers c u parse raw s
            (after (m >>= λ request. validate_envelope u request))
    parsed (err e) p = inl (refl, refl)
    parsed (ok request) p = validated request (validate_envelope u request) p refl
