-- ===== src/Tests/Structure.antt =====
-- The departments of the small server: agent 2 moves from one to another.
use synapse_messenger.Prelude.{ℕ, ◌≡◌, refl, [], ◌∷◌}
use synapse_messenger.Errors.{ok, ◌>>=◌, raise_if}
use synapse_messenger.Db.{Db, Department, manager, employee}
use synapse_messenger.Store.Accounts
use synapse_messenger.Service.Organizations.{org_require_member}
use synapse_messenger.Service.Structure.{
  has_department, put_membership, org_set_agent_department, org_get_org_structure,
  structure_by_department,
}
use synapse_messenger.Service.Tenancy.{set_agent_department, run_org_request}
use synapse_messenger.Service.Placed.{IsStructured}
use synapse_messenger.Service.Placement.{org_command-IsStructured}
use synapse_messenger.Tests.Data.{db, env, account, result_of}

abbrev department : ℕ → Department
department name = record { organization_name = 10; department_name = name; created_at = 5 }

abbrev placed : Db
placed = record db {
  departments = department 81 ∷ department 80 ∷ [];
  memberships =
      record {
        username = 2;
        organization_name = 10;
        department_name = 80;
        role = employee;
        created_at = 6;
      }
      ∷ [];
}

placed-IsStructured : IsStructured placed
unfolding Accounts.get has_department
placed-IsStructured = (((account 2 10, refl, refl), refl), tt)

abbrev moved : ℕ × Db
moved = result_of (0, db) (run_org_request env 10 (set_agent_department 2 81 manager) placed)

org_command-IsStructured_example : IsStructured moved.1
unfolding run_org_request org_set_agent_department org_require_member has_department put_membership
    Accounts.get ◌>>=◌ raise_if
org_command-IsStructured_example =
    org_command-IsStructured env 10 (set_agent_department 2 81 manager) placed placed-IsStructured
      refl

-- Agent 2 is the manager of department 81, and agent 1 is in none.
structure_moved :
    org_get_org_structure 10 moved.1
    ≡ ok (
      (80, [])
          ∷ (
            81,
            record {
              username = 2;
              organization_name = 10;
              department_name = 81;
              role = manager;
              created_at = 2000;
            }
                ∷ [],
          )
          ∷ [],
      1 ∷ [],
    )
unfolding org_get_org_structure structure_by_department run_org_request org_set_agent_department
    org_require_member has_department put_membership Accounts.get ◌>>=◌ raise_if
structure_moved = refl
