-- ===== src/Store/Cards.antt =====
-- Agent cards (synapse/store/cards.py). SQLite's LIKE and the JSON text of a list are parameters.
use synapse_messenger.Prelude.{
  ℕ, Bool, true, false, ◌&&◌, Option, none, some, List, ◌∷◌, find, select, update, any, ◌==◌,
  if◌then◌else◌, String,
}
use synapse_messenger.Db.{Db, AgentCard, pending, validated, Account}
use synapse_messenger.Store.Accounts
use synapse_messenger.Store.Accounts.{is_active}
use synapse_messenger.Store.Paging.{by_number, fetch}

-- cards.get
unfoldable pub get_card : Db → ℕ → Option AgentCard
get_card d username = find (λ c. c.username == username) d.agent_cards

-- What set_agent_card submits
pub record NewCard : Type 0 where
  pub capabilities : List String
  pub domain : Option String
  pub model : Option String
  pub tools : List String
  pub sla : Option String
  pub limits : Option String
  pub estimated_cost : Option String

-- The row of the INSERT, and of the DO UPDATE
abbrev pub submitted_card : ℕ → NewCard → ℕ → AgentCard
submitted_card username p updated_at = record {
  username = username;
  capabilities = p.capabilities;
  domain = p.domain;
  model = p.model;
  tools = p.tools;
  sla = p.sla;
  limits = p.limits;
  estimated_cost = p.estimated_cost;
  validation_state = pending;
  approved_by = none;
  approved_at = none;
  updated_at = updated_at;
}

-- cards.upsert
unfoldable pub upsert_card : ℕ → NewCard → ℕ → Db → Db
upsert_card username p updated_at d = record d {
  agent_cards =
      if any (λ c. c.username == username) d.agent_cards
      then update (λ c. c.username == username) (λ c. submitted_card username p updated_at)
          d.agent_cards
      else submitted_card username p updated_at ∷ d.agent_cards;
}

abbrev pub approved_card : ℕ → ℕ → AgentCard → AgentCard
approved_card approved_by approved_at c = record c {
  validation_state = validated;
  approved_by = some approved_by;
  approved_at = some approved_at;
}

-- cards.approve
unfoldable pub approve_card : ℕ → ℕ → ℕ → Db → Db
approve_card username approved_by approved_at d = record d {
  agent_cards =
      update (λ c. c.username == username) (approved_card approved_by approved_at) d.agent_cards;
}

-- The patterns of LIKE, on the JSON text of a list, on a text and on a username.
pub record Like : Type 0 where
  pub in_list : String → List String → Bool
  pub in_text : String → String → Bool
  pub in_name : String → ℕ → Bool

pub record CardFilters : Type 0 where
  pub capability : Option String
  pub domain : Option String
  pub name_contains : Option String

abbrev pub when_given : {A : Type 0} → (String → A → Bool) → Option String → A → Bool
when_given like none value = true
when_given like (some pattern) value = like pattern value

-- a NULL column is LIKE nothing
abbrev pub in_column : (String → String → Bool) → String → Option String → Bool
in_column like pattern none = false
in_column like pattern (some t) = like pattern t

abbrev pub in_organization : ℕ → Option Account → Bool
in_organization org_name none = false
in_organization org_name (some a) = a.organization_name == org_name && is_active a.status

abbrev pub is_found : Like → Db → ℕ → CardFilters → AgentCard → Bool
is_found like d org_name f c =
    in_organization org_name (Accounts.get d c.username)
    && (when_given like.in_list f.capability c.capabilities
        && (when_given (in_column like.in_text) f.domain c.domain
            && when_given like.in_name f.name_contains c.username))

-- cards.search, which does not read the boundary that it is given
unfoldable pub search : Like → Db → ℕ → CardFilters → Option ℕ → ℕ → List AgentCard
search like d org_name f last_username limit =
    fetch by_number (λ c. c.username) (select (is_found like d org_name f) d.agent_cards)
      last_username limit
