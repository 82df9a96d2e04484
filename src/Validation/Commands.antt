-- ===== src/Validation/Commands.antt =====
-- COMMAND_SPECS (synapse/validation.py), in its order.
mod Organizations
mod Messaging
mod Cards
mod Tasks
mod Structure
mod Groups
mod Humans
use synapse_messenger.Prelude.{ℕ, List, [], ◌∷◌, ◌++◌, map}
use synapse_messenger.Validation.Params.{Spec}
use Organizations.{organization_commands}
use Messaging.{messaging_commands}
use Cards.{card_commands}
use Tasks.{task_commands}
use Structure.{structure_commands}
use Groups.{group_commands}
use Humans.{human_commands}

abbrev pub command_specs : List Spec
command_specs =
    organization_commands ++ messaging_commands ++ card_commands ++ task_commands
    ++ structure_commands ++ group_commands ++ human_commands

abbrev pub command_names : List (List ℕ)
command_names = map (λ s. s.name) command_specs
