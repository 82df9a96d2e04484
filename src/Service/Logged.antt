-- ===== src/Service/Logged.antt =====
-- The line of the audit of a complete request (synapse/service.py: Service.process,
-- Service._audit_action).
use synapse_messenger.Prelude.{
  ℕ, ◌≡◌, refl, sym, ap, ◌∙◌, Option, none, some, Bool, true, false, List, inl, inr, if◌then◌else◌,
}
use mathlib.Core.Path.{subst}
use mathlib.Core.Bool.{true≢false}
use synapse_messenger.Errors.{Result, ok, err}
use synapse_messenger.Hlc.{Clock, Checked, tick}
use synapse_messenger.Db.{Db}
use synapse_messenger.Validation.{Json, Unicode}
use synapse_messenger.Validation.Envelope.{validate_envelope}
use synapse_messenger.Service.Targets.{Params}
use synapse_messenger.Service.Transaction.{State, stamped, write}
use synapse_messenger.Service.Auth.{Secrets}
use synapse_messenger.Service.PasswordCache.{IsSound}
use synapse_messenger.Service.Dispatch.{Route, is_audited}
use synapse_messenger.Service.Accepted.{IsAccepted}
use synapse_messenger.Service.Process.{
  Handlers, Server, Context, proceed, serve_route, handle_route, audit_line, audit_action, finish,
  with_service, process, Response, respond,
}
use synapse_messenger.Service.Answered.{process-Answered}

-- The line of the audit that an accepted call leaves, where its route is audited: after what its
-- handler wrote, under the actor and its organization, at the next stamp.
abbrev pub IsLogged : Context → List ℕ → Params → Route → ℕ → Option ℕ → State → State → Type 0
IsLogged c command params t actor org st st' =
    if is_audited t command
    then ((o : ℕ) × (org ≡ some o)
        × (st'.db ≡ audit_line c command params actor o (tick c.env.physical st.clock) st.db))
    else st' ≡ st

module _ {A : Type 0} (secrets : Secrets) (handlers : Handlers A) (c : Context) (command : List ℕ)
    (params : Params) (t : Route) (actor : ℕ) where
  audit-IsLogged :
      (org : Option ℕ) (st : State) (done : Unit {0})
      → (audit_action c command params actor org st).0 ≡ ok done
      → (o : ℕ) × (org ≡ some o)
        × ((audit_action c command params actor org st).1.db
            ≡ audit_line c command params actor o (tick c.env.physical st.clock) st.db)
  unfolding audit_action write
  audit-IsLogged none st done h = cc
  audit-IsLogged (some o) st done h = (o, refl, committed _ h)
    where
      k : Clock
      k = tick c.env.physical st.clock

      body : Clock → Db → Result (Unit {0} × Db)
      body hlc d = ok (tt, audit_line c command params actor o hlc d)

      committed :
          (m : Checked (List ℕ))
          → (stamped k st.db body m).0 ≡ ok done
          → (stamped k st.db body m).1.db ≡ audit_line c command params actor o k st.db
      committed (Checked.ok digits) h = refl
      committed Checked.value_error h = cc

  serve_route-IsLogged :
      (org : Option ℕ) (s : Server) (answer : A)
      → (serve_route secrets handlers c t command params actor org s).0 ≡ ok answer
      → (st : State) × (handle_route secrets handlers c t command params actor s.service
          ≡ (ok answer, st))
        × IsLogged c command params t actor org st
            (serve_route secrets handlers c t command params actor org s).1.service
  unfolding serve_route
  serve_route-IsLogged org s answer h =
      handled (handle_route secrets handlers c t command params actor s.service) refl h
    where
      rest : A → Server → Result A × Server
      rest a s1 =
          finish secrets handlers c (is_audited t command) a
            (with_service s1 (audit_action c command params actor org s1.service)) s1

      Handled : State → Type 0
      Handled st =
          handle_route secrets handlers c t command params actor s.service ≡ (ok answer, st)

      injective : {x y : A} → ok x ≡ ok y → x ≡ y
      injective q = cc

      named :
          (a : A) (st : State)
          → handle_route secrets handlers c t command params actor s.service ≡ (ok a, st)
          → ok a ≡ ok answer
          → Handled st
      named a st ran same = ran ∙ ap (λ x. (ok x, st)) (injective same)

      audited :
          (a : A) (st : State) (x : Result (Unit {0}) × State)
          → audit_action c command params actor org st ≡ x
          → (finish secrets handlers c true a
              (with_service (record s { service = st }) x)
              (record s { service = st })).0
            ≡ ok answer
          → (ok a ≡ ok answer)
            × ((o : ℕ) × (org ≡ some o)
                × ((finish secrets handlers c true a
                      (with_service (record s { service = st }) x)
                      (record s { service = st })).1.service.db
                    ≡ audit_line c command params actor o (tick c.env.physical st.clock) st.db))
      audited a st (err e, st') wrote h = cc
      audited a st (ok done, st') wrote h =
          let (o, own, line) = audit-IsLogged org st done (ap (λ x. x.0) wrote) in
          (h, (o, own, ap (λ x. x.1.db) (sym wrote) ∙ line))

      finished :
          (b : Bool) (a : A) (st : State)
          → (finish secrets handlers c b a
              (with_service
                (record s { service = st })
                (audit_action c command params actor org st))
              (record s { service = st })).0
            ≡ ok answer
          → (ok a ≡ ok answer)
            × (if b
                then ((o : ℕ) × (org ≡ some o)
                    × ((finish secrets handlers c b a
                          (with_service
                            (record s { service = st })
                            (audit_action c command params actor org st))
                          (record s { service = st })).1.service.db
                        ≡ audit_line c command params actor o (tick c.env.physical st.clock) st.db))
                else (finish secrets handlers c b a
                    (with_service
                      (record s { service = st })
                      (audit_action c command params actor org st))
                    (record s { service = st })).1.service
                  ≡ st)
      finished false a st h = (h, refl)
      finished true a st h = audited a st _ refl h

      handled :
          (x : Result A × State)
          → handle_route secrets handlers c t command params actor s.service ≡ x
          → (proceed (with_service s x) rest).0 ≡ ok answer
          → (st : State) × (handle_route secrets handlers c t command params actor s.service
              ≡ (ok answer, st))
            × IsLogged c command params t actor org st (proceed (with_service s x) rest).1.service
      handled (err e, st) ran h = cc
      handled (ok a, st) ran h =
          let (same, line) = finished (is_audited t command) a st h in
          (st, named a st ran same, line)

module _ {A : Type 0} (secrets : Secrets) (handlers : Handlers A) (c : Context) (u : Unicode)
    (parse : List ℕ → Result Json) (raw : List ℕ) (s : Server) where
  -- The answer is the handler's, and the audit of an audited route has one more line.
  abbrev pub Logged : Response A × Server → Type 0
  Logged x =
      (request : Json) × (command : List ℕ) × (params : Params) × (t : Route) × (actor : ℕ)
      × (org : Option ℕ) × (answer : A) × (st : State) × (parse raw ≡ ok request)
      × (validate_envelope u request ≡ ok (command, params))
      × IsAccepted secrets c s.service.db command params t actor org
      × (handle_route secrets handlers c t command params actor s.service ≡ (ok answer, st))
      × (x.0.data_of ≡ some answer)
      × IsLogged c command params t actor org st x.1.service

-- Every success is logged so, where SHA-256 tells passwords apart and the cache is sound.
pub process-Logged :
    {A : Type 0} (secrets : Secrets) (handlers : Handlers A) (c : Context) (u : Unicode)
    (parse : List ℕ → Result Json) (raw : List ℕ) (s : Server)
    → ((a b : ℕ) → secrets.digest a ≡ secrets.digest b → a ≡ b)
    → IsSound secrets s.auth.cache
    → (process secrets handlers c u parse raw s).0.success ≡ true
    → Logged secrets handlers c u parse raw s (process secrets handlers c u parse raw s)
process-Logged {A = A} secrets handlers c u parse raw s no_collision sound succeeded =
    elim (process-Answered secrets handlers c u parse raw s no_collision sound) [
      | inl (same, failed) ↦ absurd (true≢false (sym succeeded ∙ failed))
      | inr (request, command, params, t, actor, org, s1, e, f, accepted, same, ran) ↦
          let (answer, gave, shown, kept) =
            answered (serve_route secrets handlers c t command params actor org s1)
              (sym (ap (λ x. x.0.success) ran) ∙ succeeded) in
          let (st, handled, line) =
            serve_route-IsLogged secrets handlers c command params t actor org s1 answer gave in
          (
            request,
            command,
            params,
            t,
            actor,
            org,
            answer,
            st,
            e,
            f,
            accepted,
            ap (handle_route secrets handlers c t command params actor) (sym same) ∙ handled,
            ap (λ x. x.0.data_of) ran ∙ shown,
            subst (IsLogged c command params t actor org st)
                (sym (ap (λ x. x.1.service) ran ∙ kept)) line,
          )
    ]
  where
    answered :
        (x : Result A × Server)
        → (respond x).0.success ≡ true
        → (answer : A) × (x.0 ≡ ok answer)
          × ((respond x).0.data_of ≡ some answer)
          × ((respond x).1.service ≡ x.1.service)
    answered (ok a, s') h = (a, refl, refl, refl)
    answered (err e, s') h = absurd (true≢false (sym h))
