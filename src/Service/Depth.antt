-- ===== src/Service/Depth.antt =====
-- The guard on the depth of dependency chains (synapse/service.py: _dependency_depth).
use synapse_messenger.Prelude.{
  ℕ, zero, suc, ◌+◌, ◌≤◌, ◌≡◌, refl, ap, true, not, List, [], ◌∷◌, ◌++◌, All, select, map, arith,
}
use synapse_messenger.Db.{Db, TaskDependency}
use synapse_messenger.Service.Guards.{contains, next_frontier, depth_loop, dependency_depth}

-- The loop adds at most one for each round that it is given.
depth_loop_bound :
    (rows : List TaskDependency) (rounds : ℕ) (seen frontier : List ℕ) (depth : ℕ)
    → (depth ≤ depth_loop rows rounds seen frontier depth)
      × (depth_loop rows rounds seen frontier depth ≤ depth + rounds)
unfolding depth_loop
depth_loop_bound rows zero seen frontier depth = (omega arith, omega arith)
depth_loop_bound rows (suc rounds) seen [] depth = (omega arith, omega arith)
depth_loop_bound rows (suc rounds) seen (t ∷ ts) depth =
    let next = next_frontier rows seen (t ∷ ts) in
    let ih = depth_loop_bound rows rounds (next ++ seen) next (depth + 1) in
    (omega (arith, ih.0), omega (arith, ih.1))

-- Every dependency of a listed task is listed.
abbrev pub IsClosed : List TaskDependency → List ℕ → Type 0
IsClosed rows ids =
    All (λ r. contains ids r.depends_on_task_id ≡ true) (select (λ r. contains ids r.task_id) rows)

none_new :
    (ids : List ℕ) (rows : List TaskDependency)
    → All (λ r. contains ids r.depends_on_task_id ≡ true) rows
    → select (λ t. not (contains ids t)) (map (λ r. r.depends_on_task_id) rows) ≡ []
none_new ids [] h = refl
none_new ids (r ∷ rs) (p, h) = rw p (none_new ids rs h)

-- The measured depth never exceeds the limit by more than one: the search stops by itself.
dependency_depth_bound :
    (d : Db) (ids : List ℕ) (max_depth : ℕ) → dependency_depth d ids max_depth ≤ suc max_depth
unfolding dependency_depth
dependency_depth_bound d ids max_depth =
    omega (arith, (depth_loop_bound d.task_dependencies (suc max_depth) ids ids 0).1)

-- A list that contains the dependencies of its own members is measured as depth 1, however long the
-- chains between its members are.
pub dependency_depth-closed :
    (d : Db) (t : ℕ) (ts : List ℕ) (max_depth : ℕ)
    → IsClosed d.task_dependencies (t ∷ ts)
    → dependency_depth d (t ∷ ts) (suc max_depth) ≡ 1
unfolding dependency_depth depth_loop next_frontier
dependency_depth-closed d t ts max_depth h =
    ap (λ next. depth_loop d.task_dependencies (suc max_depth) (next ++ t ∷ ts) next 1)
      (none_new (t ∷ ts) (select (λ r. contains (t ∷ ts) r.task_id) d.task_dependencies) h)
