-- ===== src/Service/Budgets.antt =====
-- The limits that an organization sets for an agent (synapse/service.py: _org_set_agent_budget).
use synapse_messenger.Prelude.{
  ℕ, ◌≡◌, refl, Option, none, some, Bool, true, false, not, ◌||◌, List, [], ◌∷◌, find, select, any,
  update, is_some, arith, ◌==◌, ==_iff, if◌then◌else◌, Bool-cases, inl, inr,
}
use synapse_messenger.Hlc.{Clock}
use synapse_messenger.Errors.{ok, Ensures, Ensures-ok, Ensures-bind}
use synapse_messenger.Db.{Db, AgentBudget}
use synapse_messenger.Store.Audit
use synapse_messenger.Store.Keys.{insert_or_update}
use synapse_messenger.Service.Common.{Env}
use synapse_messenger.Service.Guards.{budget_of, max_active_tasks, max_messages}
use synapse_messenger.Service.Settings.{
  NewBudget, coalesce, put_budget, delete_budget, org_set_agent_budget,
}

-- The stored row holds the limits given, the old ones where none was given.
abbrev pub IsMerged : NewBudget → Option AgentBudget → Option AgentBudget → Type 0
IsMerged p old new =
    (max_active_tasks new ≡ coalesce p.max_active_tasks (max_active_tasks old))
    × (max_messages new ≡ coalesce p.max_messages_per_hour (max_messages old))

module _ (p : NewBudget) where
  abbrev own_budget : AgentBudget → Bool
  own_budget b = b.username == p.username

  abbrev merge_limits : AgentBudget → AgentBudget
  merge_limits b = record b {
    max_active_tasks = coalesce p.max_active_tasks b.max_active_tasks;
    max_messages_per_hour = coalesce p.max_messages_per_hour b.max_messages_per_hour;
  }

  find-merge_limits :
      (rows : List AgentBudget)
      → any own_budget rows ≡ true
      → IsMerged p (find own_budget rows) (find own_budget (update own_budget merge_limits rows))
  find-merge_limits [] h = ground (arith, h)
  find-merge_limits (b ∷ rows) h = elim (Bool-cases (own_budget b)) [
    | inl same ↦ rw same (rw same (refl, refl))
    | inr differs ↦ rw differs (rw differs (find-merge_limits rows (ground (arith, h, differs))))
  ]

  find-absent :
      (rows : List AgentBudget) → any own_budget rows ≡ false → find own_budget rows ≡ none
  find-absent [] h = refl
  find-absent (b ∷ rows) h = ground (arith, find-absent rows, h)

  find-deleted :
      (rows : List AgentBudget) → find own_budget (select (λ b. not (own_budget b)) rows) ≡ none
  find-deleted [] = refl
  find-deleted (b ∷ rows) = ground (arith, find-deleted rows)

  abbrev given_budget : AgentBudget
  given_budget = record {
    username = p.username;
    max_active_tasks = p.max_active_tasks;
    max_messages_per_hour = p.max_messages_per_hour;
  }

  insert_or_update-IsMerged :
      (rows : List AgentBudget)
      → IsMerged p
          (find own_budget rows)
          (find own_budget (insert_or_update own_budget merge_limits given_budget rows))
  insert_or_update-IsMerged rows = elim (Bool-cases (any own_budget rows)) [
    | inl there ↦ rw there (find-merge_limits rows there)
    | inr absent ↦ rw absent (
        rw ((==_iff p.username p.username).1 refl)
          (rw (find-absent rows absent) (coalesce_none _, coalesce_none _)))
  ]
    where
      coalesce_none : (n : Option ℕ) → n ≡ coalesce n none
      coalesce_none none = refl
      coalesce_none (some n) = refl

-- Where both limits are null the row is gone; otherwise a limit given is stored and the other one
-- is kept, and the command answers with the stored row.
pub agent_budget-IsMerged :
    (env : Env) (p : NewBudget) (org_name : ℕ) (hlc : Clock) (d : Db) {a : Option AgentBudget × Db}
    → org_set_agent_budget env p org_name hlc d ≡ ok a
    → (a.0 ≡ budget_of a.1 p.username)
      × (if is_some p.max_active_tasks || is_some p.max_messages_per_hour
          then IsMerged p (budget_of d p.username) a.0
          else a.0 ≡ none)
unfolding org_set_agent_budget budget_of put_budget delete_budget Audit.append
agent_budget-IsMerged env p org_name hlc d {a} ran = answer.returns a ran
  where
    chosen :
        (x y : Bool)
        → (if x || y
            then IsMerged p (budget_of d p.username) (
                find
                  (own_budget p)
                  (if x
                    then put_budget p d
                    else if y
                    then put_budget p d
                    else delete_budget p.username d).agent_budgets)
            else find
                (own_budget p)
                (if x
                  then put_budget p d
                  else if y
                  then put_budget p d
                  else delete_budget p.username d).agent_budgets
              ≡ none)
    chosen true y = insert_or_update-IsMerged p d.agent_budgets
    chosen false true = insert_or_update-IsMerged p d.agent_budgets
    chosen false false = find-deleted p d.agent_budgets

    answer :
        Ensures
          (λ a.
            (a.0 ≡ budget_of a.1 p.username)
            × (if is_some p.max_active_tasks || is_some p.max_messages_per_hour
                then IsMerged p (budget_of d p.username) a.0
                else a.0 ≡ none))
          (org_set_agent_budget env p org_name hlc d)
    answer = Ensures-bind _ _ λ _ _.
        Ensures-ok _ (refl, chosen (is_some p.max_active_tasks) (is_some p.max_messages_per_hour))
