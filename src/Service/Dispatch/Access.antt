-- ===== src/Service/Dispatch/Access.antt =====
-- Who may run what (synapse/service.py: Service._dispatch), over the declared commands of
-- synapse/validation.py.
use mathlib.Core.Bool.{true≢false}
use synapse_messenger.Prelude.{
  ℕ, ◌≡◌, refl, sym, ap, ◌∙◌, Bool, true, false, not, ◌&&◌, ◌||◌, Option, some, List, [], ◌∷◌, all,
  if◌then◌else◌, both, arith,
}
use synapse_messenger.Errors.{Result, ok, err, Raises, Raises-if, Is, access_denied, internal_error}
use synapse_messenger.Db.{Account}
use synapse_messenger.Validation.{is_in, same_text}
use synapse_messenger.Validation.Params.{Spec}
use synapse_messenger.Validation.Commands.{command_specs}
use synapse_messenger.Validation.Envelope.{spec_of}
use synapse_messenger.Validation.Envelope.Errors.{find-all, same_text_eq}
use synapse_messenger.Service.Dispatch.{
  org_handlers, human_handlers, agent_handlers, audited_commands, observer_read_commands,
  is_command, is_observer, is_human, Route, human_handler, agent_handler, list_orgs, create_org,
  route, route_principal, is_audited,
}

-- The command has a handler in the table that its declaration points to.
abbrev has_handler : Bool → List ℕ → Bool
has_handler true command = is_in command org_handlers
has_handler false command =
    is_command "list_orgs" command || (is_in command human_handlers || is_in command agent_handlers)

denied :
    {A : Type 0} (b : Bool) (rest : Result A)
    → Raises (Is access_denied) rest
    → Raises (Is access_denied) (if b then err access_denied else rest)
denied b rest h = Raises-if (Is access_denied) b (err access_denied) rest refl h

every_command : all (λ s. has_handler s.org s.name) command_specs ≡ true
every_command = refl

-- The tests of _dispatch: l for list_orgs, w for the local web identity, h and ag for the tables, r for
-- a read command, o for an observer, c for a human account, n for create_org.
principal-Raises :
    (l w h ag r o c n : Bool)
    → (l || (h || ag)) ≡ true
    → Raises (Is access_denied) (
        if o && not r
        then err access_denied
        else if l
        then (if not w && not c then err access_denied else ok (list_orgs w))
        else if w
        then (if n then ok create_org else err access_denied)
        else if h
        then (if not c then err access_denied else ok human_handler)
        else if ag
        then ok agent_handler
        else err internal_error)
principal-Raises true w h ag r o c n e = denied (o && not r) _ (denied (not w && not c) _ tt)
principal-Raises false true h ag r o c n e =
    denied (o && not r) _
      (Raises-if (Is access_denied) n (ok create_org) (err access_denied) tt refl)
principal-Raises false false true ag r o c n e = denied (o && not r) _ (denied (not c) _ tt)
principal-Raises false false false true r o c n e = denied (o && not r) _ tt
principal-Raises false false false false r o c n e = absurd (true≢false (sym e))

-- A declared command always has a handler: whoever asks, the only refusal of the dispatch is
-- ACCESS_DENIED.
pub route-Raises :
    (command : List ℕ) (s : Spec) (web_local : Bool) (row : Option Account)
    → spec_of command ≡ some s
    → Raises (Is access_denied) (route s.org command web_local row)
unfolding route route_principal spec_of
route-Raises command s web_local row found =
    let (named, handled) =
      find-all (λ s. same_text command s.name) (λ s. has_handler s.org s.name) command_specs s
        every_command found in
    at s.org (ap (has_handler s.org) (same_text_eq command s.name named) ∙ handled)
  where
    at :
        (org : Bool)
        → has_handler org command ≡ true
        → Raises (Is access_denied) (route org command web_local row)
    at true h = rw h tt
    at false h =
        principal-Raises (is_command "list_orgs" command) web_local (is_in command human_handlers)
          (is_in command agent_handlers) (is_in command observer_read_commands) (is_observer row)
          (is_human row) (is_command "create_org" command) h

-- A read command of observers is an agent command: it is neither reserved for humans or for the web,
-- nor audited.
abbrev is_plain_read : List ℕ → Bool
is_plain_read c =
    is_in c agent_handlers
    && (not (is_in c human_handlers)
        && (not (is_command "list_orgs" c)
            && (not (is_command "create_org" c) && not (is_in c audited_commands))))

reads_are_plain : all is_plain_read observer_read_commands ≡ true
reads_are_plain = refl

all-is_in :
    (q : List ℕ → Bool) (texts : List (List ℕ)) (t : List ℕ)
    → all q texts ≡ true
    → is_in t texts ≡ true
    → q t ≡ true
all-is_in q [] t h m = absurd (true≢false (sym m))
all-is_in q (s ∷ texts) t h m = at (same_text t s) refl m (all-is_in q texts t)
  where
    at :
        (b : Bool)
        → same_text t s ≡ b
        → (if b then true else is_in t texts) ≡ true
        → (all q texts ≡ true → is_in t texts ≡ true → q t ≡ true)
        → q t ≡ true
    at true e m ih = ap q (same_text_eq t s e) ∙ (both (q s) (all q texts) h).0
    at false e m ih = ih (both (q s) (all q texts) h).1 m

plain_parts :
    (l h ag n au : Bool)
    → (ag && (not h && (not l && (not n && not au)))) ≡ true
    → (ag ≡ true) × (h ≡ false) × (l ≡ false) × (n ≡ false) × (au ≡ false)
plain_parts l h ag n au e = ground arith

plain_route :
    (l w h ag c n : Bool) (t : Route)
    → ag ≡ true
    → h ≡ false
    → l ≡ false
    → n ≡ false
    → (if l
        then (if not w && not c then err access_denied else ok (list_orgs w))
        else if w
        then (if n then ok create_org else err access_denied)
        else if h
        then (if not c then err access_denied else ok human_handler)
        else if ag
        then ok agent_handler
        else err internal_error)
      ≡ ok t
    → t ≡ agent_handler
plain_route true w h ag c n t p q r s f = cc
plain_route false true h ag c true t p q r s f = cc
plain_route false true h ag c false t p q r s f = cc
plain_route false false true ag c n t p q r s f = cc
plain_route false false false true c n t p q r s f = cc
plain_route false false false false c n t p q r s f = cc

observer_route :
    (o r l w h ag c n au : Bool) (t : Route)
    → o ≡ true
    → (r ≡ true → (ag && (not h && (not l && (not n && not au)))) ≡ true)
    → (if o && not r
        then err access_denied
        else if l
        then (if not w && not c then err access_denied else ok (list_orgs w))
        else if w
        then (if n then ok create_org else err access_denied)
        else if h
        then (if not c then err access_denied else ok human_handler)
        else if ag
        then ok agent_handler
        else err internal_error)
      ≡ ok t
    → (r ≡ true) × (t ≡ agent_handler) × (au ≡ false)
observer_route false r l w h ag c n au t q p f = absurd (true≢false (sym q))
observer_route true false l w h ag c n au t q p f = cc
observer_route true true l w h ag c n au t q p f =
    let (is_agent, not_human, not_list, not_create, plain) = plain_parts l h ag n au (p refl) in
    (refl, plain_route l w h ag c n t is_agent not_human not_list not_create f, plain)

-- A command that is dispatched for an observer account is one of the read commands of observers, runs
-- the handler of the agents' table, and is not audited.
pub observer_reads :
    (command : List ℕ) (web_local : Bool) (row : Option Account) (t : Route)
    → is_observer row ≡ true
    → route false command web_local row ≡ ok t
    → (is_in command observer_read_commands ≡ true)
      × (t ≡ agent_handler)
      × (is_audited t command ≡ false)
unfolding route route_principal is_audited
observer_reads command web_local row t o e =
    let (read, agents, plain) =
      observer_route (is_observer row) (is_in command observer_read_commands)
        (is_command "list_orgs" command) web_local (is_in command human_handlers)
        (is_in command agent_handlers) (is_human row) (is_command "create_org" command)
        (is_in command audited_commands) t o
        (all-is_in is_plain_read observer_read_commands command reads_are_plain) e in
    (read, agents, ap (λ r. is_audited r command) agents ∙ plain)
