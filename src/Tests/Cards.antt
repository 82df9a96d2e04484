-- ===== src/Tests/Cards.antt =====
-- A card that its organization validates.
use synapse_messenger.Prelude.{◌≡◌, refl, true, none, [], ◌∷◌}
use synapse_messenger.Errors.{Ensures}
use synapse_messenger.Db.{Db}
use synapse_messenger.Store.Accounts
use synapse_messenger.Store.Cards.{NewCard, submitted_card}
use synapse_messenger.Service.Directory.Cards.{
  approve, run_card_request, cards_owned, run_card_request-cards_owned,
}
use synapse_messenger.Tests.Data.{db, env}

abbrev new_card : NewCard
new_card = record {
  capabilities = "review" ∷ [];
  domain = none;
  model = none;
  tools = [];
  sla = none;
  limits = none;
  estimated_cost = none;
}

abbrev with_card : Db
with_card = record db { agent_cards = submitted_card 2 new_card 1000 ∷ [] }

with_card-owned : cards_owned with_card ≡ true
unfolding Accounts.get
with_card-owned = refl

run_card_request-cards_owned_example :
    Ensures (λ d. cards_owned d ≡ true) (run_card_request env (approve 2 10) with_card)
run_card_request-cards_owned_example =
    run_card_request-cards_owned env (approve 2 10) with_card with_card-owned
