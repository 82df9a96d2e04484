-- ===== src/Service/Membership.antt =====
-- Membership of groups and the messages to them (synapse/service.py, F15).
use synapse_messenger.Prelude.{
  ℕ, ◌≡◌, ◌≢◌, refl, sym, ◌∙◌, Option, none, some, Bool, true, false, not, ◌&&◌, List, [], ◌∷◌,
  select, any, arith, ◌==◌, ==_iff, if◌then◌else◌, Bool-cases, inl, inr, String,
}
use synapse_messenger.Hlc.{Clock}
use synapse_messenger.Errors.{Result, ok, err, Ensures, Ensures-ok, Ensures-bind, raise_if_passed}
use synapse_messenger.Db.{Db, Group, GroupMember, GroupMessage}
use synapse_messenger.Store.Audit
use synapse_messenger.Service.Common.{Env}
use synapse_messenger.Service.Groups.{
  get_group, is_membership, is_member, member_only, group_require_member, insert_member,
  delete_member, agent_create_group, agent_add_group_member, agent_remove_group_member,
  NewGroupMessage, find_group_message, group_send_new, group_send_by_key, agent_send_group_message,
}

pub data GroupRequest : Type 0 where
  create_group : String → GroupRequest
  add_group_member remove_group_member : ℕ → ℕ → GroupRequest
  send_group_message : NewGroupMessage → GroupRequest

abbrev database {ℓ} : {A : Type ℓ} → Result (A × Db) → Result Db
database (ok a) = ok a.1
database (err e) = err e

-- The database after a group command that returns.
unfoldable pub run_group_request : Env → ℕ → GroupRequest → Clock → Db → Result Db
run_group_request env me (create_group group_name) h d =
    database (agent_create_group env group_name me h d)
run_group_request env me (add_group_member group_id username) h d =
    database (agent_add_group_member env group_id username me h d)
run_group_request env me (remove_group_member group_id username) h d =
    database (agent_remove_group_member env group_id username me h d)
run_group_request env me (send_group_message p) h d =
    database (agent_send_group_message env p me h d)

-- `username` is still in the group.
record IsKept (group_id username : ℕ) (d : Db) : Type 0 where
  member : is_member d group_id username ≡ true

any-select :
    (k u g v : ℕ) (rows : List GroupMember)
    → (k == g && u == v) ≡ false
    → any (is_membership k u) (select (λ r. not (is_membership g v r)) rows)
      ≡ any (is_membership k u) rows
any-select k u g v [] other = refl
any-select k u g v (r ∷ rs) other = ground (arith, other, any-select k u g v rs other)

database-Ensures {ℓ} :
    {A : Type ℓ} (k u : ℕ) (r : Result (A × Db))
    → Ensures (λ a. IsKept k u a.1) r
    → Ensures (IsKept k u) (database r)
database-Ensures k u (ok a) h = Ensures-ok _ (h.returns a refl)
database-Ensures k u (err e) h = record { returns = λ a q. cc }

IsKept-insert : (k u : ℕ) (r : GroupMember) (d : Db) → IsKept k u d → IsKept k u (insert_member r d)
unfolding is_member insert_member
IsKept-insert k u r d h = record { member = ground (arith, h.member) }

IsKept-delete :
    (k u g v : ℕ) (d : Db)
    → (k == g && u == v) ≡ false
    → IsKept k u d
    → IsKept k u (delete_member g v d)
unfolding is_member delete_member
IsKept-delete k u g v d other h = record {
  member = any-select k u g v d.group_members other ∙ h.member;
}

IsKept-same :
    (k u : ℕ) (d d' : Db) → d'.group_members ≡ d.group_members → IsKept k u d → IsKept k u d'
unfolding is_member
IsKept-same k u d d' e h = record { member = rw e h.member }

require_found :
    (d : Db) (g me : ℕ) (row : Group)
    → group_require_member d g me ≡ ok row
    → get_group d g ≡ some row
unfolding group_require_member
require_found d g me row e = passed _ _ e
  where
    passed : (b : Bool) (o : Option Group) → member_only b o ≡ ok row → o ≡ some row
    passed b none q = cc
    passed true (some a) q = cc
    passed false (some a) q = cc

module _ (env : Env) (me : ℕ) (h : Clock) (d : Db) (k u : ℕ) (kept : IsKept k u d) where
  create-Kept :
      (group_name : String)
      → Ensures (λ a. IsKept k u a.1) (agent_create_group env group_name me h d)
  unfolding agent_create_group Audit.append
  create-Kept group_name = Ensures-bind _ _ λ _ _. Ensures-bind _ _ λ _ _. Ensures-bind _ _ λ org _.
      Ensures-ok _
        (IsKept-same k u _ _ refl (IsKept-insert k u _ _ (IsKept-same k u d _ refl kept)))

  add-Kept : (g v : ℕ) → Ensures (λ a. IsKept k u a.1) (agent_add_group_member env g v me h d)
  unfolding agent_add_group_member Audit.append
  add-Kept g v = Ensures-bind _ _ λ _ _. Ensures-bind _ _ λ _ _. Ensures-bind _ _ λ _ _.
      Ensures-bind _ _ λ org _. Ensures-ok _ (IsKept-same k u _ _ refl (ignore (is_member d g v)))
    where
      ignore :
          (b : Bool)
          → IsKept k u (
              if b
              then d
              else insert_member
                  (record { group_id = g; username = v; added_by = me; added_at = env.at })
                  d)
      ignore true = kept
      ignore false = IsKept-insert k u _ d kept

  send-Kept :
      (p : NewGroupMessage) → Ensures (λ a. IsKept k u a.1) (agent_send_group_message env p me h d)
  unfolding agent_send_group_message group_send_new Audit.append
  send-Kept p = Ensures-bind _ _ λ _ _. by_key (find_group_message d me p.client_message_id)
    where
      by_key :
          (o : Option GroupMessage)
          → Ensures (λ a. IsKept k u a.1) (group_send_by_key env p me h d o)
      by_key none = Ensures-bind _ _ λ _ _. Ensures-bind _ _ λ _ _.
          Ensures-bind _ _
            λ _ _. Ensures-bind _ _ λ org _. Ensures-ok _ (IsKept-same k u d _ refl kept)
      by_key (some m) = Ensures-bind _ _ λ row _. Ensures-ok _ kept

  remove-Kept :
      (g v : ℕ) (group : Group)
      → get_group d k ≡ some group
      → u ≢ me
      → group.created_by ≢ me
      → Ensures (λ a. IsKept k u a.1) (agent_remove_group_member env g v me h d)
  unfolding agent_remove_group_member Audit.append
  remove-Kept g v group found other foreign = Ensures-bind _ _ λ row member.
      Ensures-bind _ _ λ _ allowed. Ensures-bind _ _ λ org _. Ensures-ok _ (
        IsKept-same k u _ _ refl
          (IsKept-delete k u g v d (spared row member (raise_if_passed _ _ allowed)) kept))
    where
      spared :
          (row : Group)
          → group_require_member d g me ≡ ok row
          → (not (me == row.created_by) && not (me == v)) ≡ false
          → (k == g && u == v) ≡ false
      spared row member allowed = elim (Bool-cases (k == g)) [
        | inl e ↦ rw e (
            own row
              (founded row group (require_found d g me row member)
                (rw (sym ((==_iff k g).0 e)) found))
              allowed)
        | inr e ↦ rw e refl
      ]
        where
          founded : (a b : Group) → get_group d g ≡ some a → get_group d g ≡ some b → a ≡ b
          founded a b ea eb = cc

          own :
              (a : Group)
              → a ≡ group
              → (not (me == a.created_by) && not (me == v)) ≡ false
              → (u == v) ≡ false
          own a same allowed = ground (arith, same, other, foreign, allowed)

-- A group command of another member than the group's creator ends nobody's membership but the
-- caller's own: who was in the group, and is not the caller, is in it after any command that returns.
pub membership_is_kept :
    (env : Env) (me : ℕ) (request : GroupRequest) (h : Clock) (d : Db) (k u : ℕ) (group : Group)
    {d' : Db}
    → is_member d k u ≡ true
    → get_group d k ≡ some group
    → u ≢ me
    → group.created_by ≢ me
    → run_group_request env me request h d ≡ ok d'
    → is_member d' k u ≡ true
unfolding run_group_request
membership_is_kept env me request h d k u group {d'} member found other foreign ran =
    ((kept request).returns d' ran).member
  where
    before : IsKept k u d
    before = record { member = member }

    kept : (r : GroupRequest) → Ensures (IsKept k u) (run_group_request env me r h d)
    kept (create_group s) = database-Ensures k u _ (create-Kept env me h d k u before s)
    kept (add_group_member g v) = database-Ensures k u _ (add-Kept env me h d k u before g v)
    kept (remove_group_member g v) =
        database-Ensures k u _ (remove-Kept env me h d k u before g v group found other foreign)
    kept (send_group_message p) = database-Ensures k u _ (send-Kept env me h d k u before p)
