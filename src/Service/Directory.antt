-- ===== src/Service/Directory.antt =====
-- The cards and the directory of an organization (synapse/service.py: _agent_set_agent_card,
-- _org_approve_agent_card, _agent_find_agents, _list_org_agents, _get_my_organization and
-- _get_agent_description; synapse/store/accounts.py: list_by_org).
pub mod Cards
use synapse_messenger.Prelude.{
  ℕ, Bool, true, false, not, ◌&&◌, Option, none, some, List, [], ◌∷◌, map, select, ◌==◌, leb,
  if◌then◌else◌, String,
}
use synapse_messenger.Errors.{
  Result, ok, err, ◌>>=◌, ◌>>◌, raise_if, or_raise, access_denied, user_not_found, internal_error,
}
use synapse_messenger.Db.{Db, Account, AgentCard, PrincipalType, human, agent}
use synapse_messenger.Cursor.{Codec, Request, pagination, next_cursor}
use synapse_messenger.Validation.{points}
use synapse_messenger.Store.Accounts
use synapse_messenger.Store.Accounts.{is_active, get_organization}
use synapse_messenger.Store.Cards.{
  NewCard, Like, CardFilters, get_card, upsert_card, approve_card, search,
}
use synapse_messenger.Store.Paging.{by_number, fetch, cut}
use synapse_messenger.Service.Common.{Env}
use synapse_messenger.Service.Organizations.{is_human, org_require_member}

-- _agent_set_agent_card
unfoldable pub agent_set_agent_card : Env → NewCard → ℕ → Db → Result (AgentCard × Db)
agent_set_agent_card env p me d = do
  let d1 = upsert_card me p env.now d
  row ← or_raise (get_card d1 me) internal_error
  ok (row, d1)

-- _org_approve_agent_card
unfoldable pub org_approve_agent_card : Env → ℕ → ℕ → Db → Result (ℕ × Db)
org_approve_agent_card env username org_name d = do
  member ← org_require_member d username org_name
  card ← or_raise (get_card d username) user_not_found
  ok (username, approve_card username org_name env.now d)

-- _get_my_organization: the name and the two policies
unfoldable pub get_my_organization : ℕ → Db → Result (ℕ × Bool × Bool)
get_my_organization me d = do
  row ← or_raise (Accounts.get d me) internal_error
  org ← or_raise (get_organization d row.organization_name) internal_error
  ok (row.organization_name, org.allow_incoming_external, org.allow_outgoing_external)

-- _get_agent_description: the organization and the description
unfoldable pub get_agent_description : ℕ → Db → Result (ℕ × String)
get_agent_description username d = do
  row ← or_raise (Accounts.get d username) user_not_found
  ok (row.organization_name, row.description)

-- The clauses of list_by_org but for the position
abbrev pub is_listed : ℕ → ℕ → Bool → Bool → Account → Bool
is_listed organization_name boundary active_only include_humans a =
    a.organization_name == organization_name
    && ((if include_humans then true else not (is_human a.principal_type))
        && (leb a.created_at boundary && (if active_only then is_active a.status else true)))

-- list_by_org with a boundary, for limit + 1 rows
unfoldable pub list_by_org : Db → ℕ → Option ℕ → ℕ → Bool → Bool → ℕ → List Account
list_by_org d organization_name after_username boundary active_only include_humans limit =
    fetch by_number (λ a. a.username)
      (select (is_listed organization_name boundary active_only include_humans) d.accounts)
      after_username limit

-- last[0] if last else None
abbrev pub first_of : Option (List ℕ) → Option ℕ
first_of none = none
first_of (some []) = none
first_of (some (x ∷ rest)) = some x

-- (username, ""), the empty text as 0
abbrev pub name_cursor : Codec → Request → ℕ → Option ℕ → Option (List ℕ)
name_cursor u r boundary none = none
name_cursor u r boundary (some username) = some (next_cursor u r boundary (username ∷ 0 ∷ []))

abbrev pub usernames_of : Codec → Request → ℕ → List Account × Option ℕ → List ℕ × Option (List ℕ)
usernames_of u r boundary (rows, next) = (map (λ a. a.username) rows, name_cursor u r boundary next)

abbrev pub list_org_agents_request : ℕ → Request
list_org_agents_request me = record {
  username = me;
  command = points "list_org_agents";
  sort = points "username_asc";
  filters = [];
}

module _ (u : Codec) where
  -- _list_org_agents
  unfoldable pub list_org_agents :
      ℕ → ℕ → Option (List ℕ) → ℕ → Db → Result (List ℕ × Option (List ℕ))
  list_org_agents now limit cursor me d = do
    (last, boundary) ← pagination u now (list_org_agents_request me) cursor
    row ← or_raise (Accounts.get d me) internal_error
    raise_if (not row.can_see_org_agents) access_denied
    ok (
        usernames_of u (list_org_agents_request me) boundary (
          cut by_number (λ a. a.username) limit
            (list_by_org d row.organization_name (first_of last) boundary true false limit)))

-- The request of find_agents, whose filters are texts numbered by `text_number`.
abbrev pub find_agents_request : (String → ℕ) → CardFilters → ℕ → Request
find_agents_request text_number f me = record {
  username = me;
  command = points "find_agents";
  sort = points "username_asc";
  filters =
      (points "capability", numbered f.capability)
      ∷ (points "domain", numbered f.domain)
      ∷ (points "name_contains", numbered f.name_contains)
      ∷ [];
}
  where
    numbered : Option String → Option ℕ
    numbered none = none
    numbered (some t) = some (text_number t)

abbrev pub cards_of :
    Codec → Request → ℕ → List AgentCard × Option ℕ → List AgentCard × Option (List ℕ)
cards_of u r boundary (rows, next) = (rows, name_cursor u r boundary next)

module _ (u : Codec) (like : Like) (text_number : String → ℕ) where
  -- _agent_find_agents
  unfoldable pub agent_find_agents :
      ℕ → ℕ → CardFilters → Option (List ℕ) → ℕ → Db → Result (List AgentCard × Option (List ℕ))
  agent_find_agents now limit f cursor me d = do
    (last, boundary) ← pagination u now (find_agents_request text_number f me) cursor
    row ← or_raise (Accounts.get d me) internal_error
    raise_if (not row.can_see_org_agents) access_denied
    ok (
        cards_of u (find_agents_request text_number f me) boundary (
          cut by_number (λ c. c.username) limit
            (search like d row.organization_name f (first_of last) limit)))
