-- ===== src/Service/Delegations.antt =====
-- The delegation of a task (synapse/service.py, F17): what a grant opens and what a revocation closes.
use synapse_messenger.Prelude.{
  ℕ, ◌<◌, ◌≡◌, refl, sym, ap, ◌∙◌, Option, none, some, Bool, true, false, not, ◌&&◌, ◌||◌, List, [],
  ◌∷◌, arith, ◌==◌, ==_iff, ltb, lt→ltb, leb, if◌then◌else◌,
}
use synapse_messenger.Hlc.{Clock}
use synapse_messenger.Errors.{
  ok, Ensures, Ensures-ok, Ensures-bind, raise_if_passed, raise_unless_passed,
}
use synapse_messenger.Db.{Db, Task, Delegation}
use synapse_messenger.Store.Audit
use synapse_messenger.Store.Tasks
use synapse_messenger.Service.Common.{Env}
use synapse_messenger.Service.Guards.{task_visible_or_404, has_delegation, external_comm_allowed}
use synapse_messenger.Service.Organizations.{agent_create_delegation}
use synapse_messenger.Service.Tracked.{visible_found}
use synapse_messenger.Service.Approval.{visible_party}

abbrev pub is_party_of : ℕ → Task → Bool
is_party_of me row = row.creator_username == me || row.assignee_username == me

-- What a grant has been checked for, and that it opens the task to the delegatee.
abbrev pub Granted : Env → ℕ → ℕ → ℕ → ℕ → ℕ → Db → Db → Type 0
Granted env k u expires me now d d' =
    (row : Task) × (Tasks.get d k ≡ some row)
    × (is_party_of me row ≡ true)
    × (external_comm_allowed d me u ≡ true)
    × (env.at < expires)
    × (task_visible_or_404 d' now k u true ≡ ok (row, not (is_party_of u row)))

opened :
    (d d' : Db) (now k u : ℕ) (row : Task)
    → Tasks.get d' k ≡ some row
    → row.task_id ≡ k
    → has_delegation d' now u k ≡ true
    → task_visible_or_404 d' now k u true ≡ ok (row, not (is_party_of u row))
unfolding task_visible_or_404
opened d d' now k u row g same has = rw (g, same, has) (ground arith)

get-id : (d : Db) (k : ℕ) (row : Task) → Tasks.get d k ≡ some row → row.task_id ≡ k
unfolding Tasks.get
get-id d k row g = found d.tasks g
  where
    found :
        (ts : List Task)
        → synapse_messenger.Prelude.find (λ t. t.task_id == k) ts ≡ some row
        → row.task_id ≡ k
    found [] e = cc
    found (t ∷ ts) e = ground (arith, e, found ts)

in_future : (a b : ℕ) → leb b a ≡ false → a < b
in_future a b e = ground arith

grants :
    (env : Env) (k u expires me now : ℕ) (h : Clock) (d : Db)
    → now < expires
    → Ensures
        (λ a. Granted env k u expires me now d a.1)
        (agent_create_delegation env k u expires me h d)
unfolding agent_create_delegation Tasks.get has_delegation Audit.append
grants env k u expires me now h d soon = Ensures-bind _ _ λ row seen. Ensures-bind _ _ λ _ _.
    Ensures-bind _ _ λ _ allowed. Ensures-bind _ _ λ _ future. Ensures-bind _ _ λ org _.
      let g = visible_found d env.now k me false row seen in
      Ensures-ok _ (
        row.0,
        g,
        visible_party d env.now k me row seen,
        raise_unless_passed _ _ allowed,
        in_future _ _ (raise_if_passed _ _ future),
        opened d _ now k u row.0 g (get-id d k row.0 g)
            (rw ((==_iff u u).1 refl, (==_iff k k).1 refl, lt→ltb now expires soon) refl),
      )

-- A delegation that is granted comes from the creator or the assignee of the task, to an agent that
-- the policies let it reach, and expires in the future; until it expires the delegatee sees the task,
-- through the delegation unless it is a party of the task itself.
pub delegation_grants :
    (env : Env) (k u expires me now : ℕ) (h : Clock) (d : Db) {a : ℕ × Db}
    → now < expires
    → agent_create_delegation env k u expires me h d ≡ ok a
    → Granted env k u expires me now d a.1
delegation_grants env k u expires me now h d {a} soon granted =
    (grants env k u expires me now h d soon).returns a granted

-- A delegation of the task to `u`, not by `me`, that has not expired
abbrev pub is_other : ℕ → ℕ → ℕ → ℕ → Delegation → Bool
is_other me now u k r =
    not (r.delegator_username == me)
    && (r.delegatee_username == u && r.task_id == k && ltb now r.expires_at)
