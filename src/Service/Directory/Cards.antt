-- ===== src/Service/Directory/Cards.antt =====
-- The validation of agent cards (synapse/service.py: _agent_set_agent_card, _org_approve_agent_card).
use synapse_messenger.Prelude.{
  ℕ, ◌≡◌, refl, ap, ◌∙◌, Bool, true, false, not, ◌&&◌, Option, none, some, List, [], ◌∷◌, all, any,
  update, is_some, both, ◌==◌, ==_iff, if◌then◌else◌,
}
use synapse_messenger.Errors.{
  Result, ok, err, Ensures, Ensures-ok, Ensures-err, Ensures-bind, Ensures-then, Ensures-if,
}
use synapse_messenger.Db.{Db, Account, AgentCard, ValidationState, pending, validated}
use synapse_messenger.Store.Accounts
use synapse_messenger.Store.Cards.{
  NewCard, submitted_card, approved_card, upsert_card, approve_card,
}
use synapse_messenger.Service.Common.{Env}
use synapse_messenger.Service.Organizations.{member_of, org_require_member}
use synapse_messenger.Service.Directory.{agent_set_agent_card, org_approve_agent_card}

-- The commands that change cards
pub data CardRequest : Type 0 where
  set_card : NewCard → ℕ → CardRequest
  approve : ℕ → ℕ → CardRequest

abbrev second : {A : Type 0} → Result (A × Db) → Result Db
second (ok (a, d)) = ok d
second (err e) = err e

unfoldable pub run_card_request : Env → CardRequest → Db → Result Db
run_card_request env (set_card p me) d = second (agent_set_agent_card env p me d)
run_card_request env (approve username org_name) d =
    second (org_approve_agent_card env username org_name d)

abbrev is_organization : ℕ → Option Account → Bool
is_organization org_name none = false
is_organization org_name (some a) = a.organization_name == org_name

abbrev approver_owns : Option Account → Option ℕ → Bool
approver_owns owner none = false
approver_owns owner (some org_name) = is_organization org_name owner

-- A pending card names no approver; a validated one names the organization of its agent.
abbrev pub card_owned : ValidationState → Option Account → Option ℕ → Bool
card_owned pending owner approved_by = not (is_some approved_by)
card_owned validated owner approved_by = approver_owns owner approved_by

abbrev pub is_owned : Db → AgentCard → Bool
is_owned d c = card_owned c.validation_state (Accounts.get d c.username) c.approved_by

abbrev pub cards_owned : Db → Bool
cards_owned d = all (is_owned d) d.agent_cards

all-update :
    (q p : AgentCard → Bool) (f : AgentCard → AgentCard) (cards : List AgentCard)
    → all q cards ≡ true
    → ((c : AgentCard) → p c ≡ true → q (f c) ≡ true)
    → all q (update p f cards) ≡ true
all-update q p f [] h k = refl
all-update q p f (c ∷ cards) h k =
    at (p c) refl (both (q c) (all q cards) h).0
      (all-update q p f cards (both (q c) (all q cards) h).1 k)
  where
    at :
        (b : Bool)
        → p c ≡ b
        → q c ≡ true
        → all q (update p f cards) ≡ true
        → (q (if b then f c else c) && all q (update p f cards)) ≡ true
    at true e h rest = rw (k c e) rest
    at false e h rest = rw h rest

owner_found :
    (username org_name : ℕ) (o : Option Account)
    → Ensures (λ row. is_organization org_name o ≡ true) (member_of org_name o)
owner_found username org_name none = Ensures-err _
owner_found username org_name (some a) =
    Ensures-if (a.organization_name == org_name) (ok a) _ (λ e. Ensures-ok a e) (λ e. Ensures-err _)

upserted :
    (d : Db) (p : NewCard) (me now : ℕ)
    → cards_owned d ≡ true
    → cards_owned (upsert_card me p now d) ≡ true
unfolding upsert_card Accounts.get
upserted d p me now h = at (any (λ c. c.username == me) d.agent_cards)
  where
    at :
        (b : Bool)
        → all (is_owned d) (
            if b
            then update (λ c. c.username == me) (λ c. submitted_card me p now) d.agent_cards
            else submitted_card me p now ∷ d.agent_cards)
          ≡ true
    at true =
        all-update (is_owned d) (λ c. c.username == me) (λ c. submitted_card me p now) d.agent_cards
          h (λ c e. refl)
    at false = h

approved :
    (d : Db) (username org_name now : ℕ)
    → is_organization org_name (Accounts.get d username) ≡ true
    → cards_owned d ≡ true
    → cards_owned (approve_card username org_name now d) ≡ true
unfolding approve_card Accounts.get
approved d username org_name now owns h =
    all-update (is_owned d) (λ c. c.username == username) (approved_card org_name now) d.agent_cards
      h
      λ c e.
        ap (λ name. is_organization org_name (Accounts.get d name))
          ((==_iff c.username username).0 e)
        ∙ owns

Ensures-second :
    {A : Type 0} {P : Db → Type 0} (r : Result (A × Db))
    → Ensures (λ x. P x.1) r
    → Ensures P (second r)
Ensures-second (ok (a, d)) h = Ensures-ok d (h.returns (a, d) refl)
Ensures-second (err e) h = Ensures-err e

-- Where every card is pending without an approver or validated by its agent's own organization, it is so
-- after any submission and any approval that succeeds.
pub run_card_request-cards_owned :
    (env : Env) (r : CardRequest) (d : Db)
    → cards_owned d ≡ true
    → Ensures (λ d'. cards_owned d' ≡ true) (run_card_request env r d)
unfolding run_card_request agent_set_agent_card org_approve_agent_card org_require_member
run_card_request-cards_owned env (set_card p me) d h =
    Ensures-second (agent_set_agent_card env p me d)
      (Ensures-bind _ _ λ row found. Ensures-ok _ (upserted d p me env.now h))
run_card_request-cards_owned env (approve username org_name) d h =
    Ensures-second (org_approve_agent_card env username org_name d) (
      Ensures-then (member_of org_name (Accounts.get d username)) _
        (owner_found username org_name (Accounts.get d username))
        λ member owns.
          Ensures-bind _ _ λ card found. Ensures-ok _ (approved d username org_name env.now owns h))
