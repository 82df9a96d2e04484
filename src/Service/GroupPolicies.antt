-- ===== src/Service/GroupPolicies.antt =====
-- Who a group message reaches (synapse/service.py: _agent_send_group_message).
use synapse_messenger.Prelude.{
  ℕ, ◌≡◌, refl, Option, none, some, Bool, true, false, ◌&&◌, ◌||◌, List, [], ◌∷◌, all, All, ◌==◌,
  ==_iff, ◌⊎◌, inl, inr, arith, if◌then◌else◌,
}
use synapse_messenger.Hlc.{Clock}
use synapse_messenger.Errors.{ok, Ensures, Ensures-ok, Ensures-bind, raise_unless_passed}
use synapse_messenger.Db.{Db, Account, Organization, Group, GroupMessage}
use synapse_messenger.Store.Accounts
use synapse_messenger.Service.Guards.{external_comm_allowed, allowed_between}
use synapse_messenger.Store.Audit
use synapse_messenger.Service.Common.{Env}
use synapse_messenger.Service.Groups.{
  is_member, member_only, group_require_member, NewGroupMessage, find_group_message, members,
  may_send_to, group_send_new, group_send_by_key, agent_send_group_message,
}

member_required :
    (d : Db) (g me : ℕ) (row : Group)
    → group_require_member d g me ≡ ok row
    → is_member d g me ≡ true
unfolding group_require_member
member_required d g me row h = passed _ _ h
  where
    passed : (b : Bool) (o : Option Group) → member_only b o ≡ ok row → b ≡ true
    passed true o h = refl
    passed false none h = cc
    passed false (some a) h = cc

-- The policies let `me` reach the member `u`: both have an account, of the same organization, or the
-- sender's organization allows outgoing messages and the member's allows incoming ones.
abbrev pub Reachable : Db → ℕ → ℕ → Type 0
Reachable d me u =
    (sender member : Account) × (Accounts.get d me ≡ some sender)
    × (Accounts.get d u ≡ some member)
    × ((sender.organization_name ≡ member.organization_name)
        ⊎ ((sender_org member_org : Organization) × (Accounts.get_organization d
                sender.organization_name
              ≡ some sender_org)
            × (Accounts.get_organization d member.organization_name ≡ some member_org)
            × (sender_org.allow_outgoing_external ≡ true)
            × (member_org.allow_incoming_external ≡ true)))

-- What the policies between two organizations come to, where both are found.
abbrev between : Option Organization → Option Organization → Bool
between none ro = false
between (some a) none = false
between (some a) (some b) = a.allow_outgoing_external && b.allow_incoming_external

between_open :
    (so ro : Option Organization)
    → between so ro ≡ true
    → (a b : Organization) × (so ≡ some a)
      × (ro ≡ some b)
      × (a.allow_outgoing_external ≡ true)
      × (b.allow_incoming_external ≡ true)
between_open none ro h = cc
between_open (some a) none h = cc
between_open (some a) (some b) h = (a, b, refl, refl, ground arith, ground arith)

allowed_open :
    (d : Db) (s r : Account)
    → allowed_between d (some s) (some r) ≡ true
    → (s.organization_name ≡ r.organization_name)
      ⊎ (between
            (Accounts.get_organization d s.organization_name)
            (Accounts.get_organization d r.organization_name)
          ≡ true)
allowed_open d s r h =
    split (s.organization_name == r.organization_name) refl
      (Accounts.get_organization d s.organization_name)
      (Accounts.get_organization d r.organization_name) h
  where
    split :
        (b : Bool)
        → (s.organization_name == r.organization_name) ≡ b
        → (so ro : Option Organization)
        → (if b then true else elim so [
          | none ↦ false
          | some me_org ↦ elim ro [
            | none ↦ false
            | some other_org ↦ me_org.allow_outgoing_external && other_org.allow_incoming_external
          ]
        ])
          ≡ true
        → (s.organization_name ≡ r.organization_name) ⊎ (between so ro ≡ true)
    split true e so ro h = inl ((==_iff _ _).0 e)
    split false e none ro h = cc
    split false e (some a) none h = cc
    split false e (some a) (some b) h = inr h

allowed-Reachable : (d : Db) (me u : ℕ) → external_comm_allowed d me u ≡ true → Reachable d me u
unfolding external_comm_allowed
allowed-Reachable d me u h = accounts (Accounts.get d me) refl (Accounts.get d u) refl h
  where
    accounts :
        (m : Option Account)
        → Accounts.get d me ≡ m
        → (o : Option Account) → Accounts.get d u ≡ o
        → allowed_between d m o ≡ true
        → Reachable d me u
    accounts none em o eo a = cc
    accounts (some s) em none eo a = cc
    accounts (some s) em (some r) eo a = (
      s,
      r,
      em,
      eo,
      elim (allowed_open d s r a) [ inl same ↦ inl same | inr o ↦ inr (between_open _ _ o) ],
    )

all_reach :
    (d : Db) (me : ℕ) (us : List ℕ)
    → all (may_send_to d me) us ≡ true
    → All (λ u. (u ≡ me) ⊎ Reachable d me u) us
all_reach d me [] h = tt
all_reach d me (u ∷ us) h = (member (u == me) refl (ground arith), all_reach d me us (ground arith))
  where
    member :
        (b : Bool)
        → (u == me) ≡ b
        → (b || external_comm_allowed d me u) ≡ true
        → (u ≡ me) ⊎ Reachable d me u
    member true e a = inl ((==_iff _ _).0 e)
    member false e a = inr (allowed-Reachable d me u a)

-- What a group message under a new key has been checked for, and what it leaves.
abbrev pub GroupSent : NewGroupMessage → ℕ → Db → GroupMessage × Db → Type 0
GroupSent p me d (m, d') =
    (is_member d p.group_id me ≡ true)
    × All (λ u. (u ≡ me) ⊎ Reachable d me u) (members d p.group_id)
    × (d'.group_messages ≡ m ∷ d.group_messages)
    × (m.group_id ≡ p.group_id)
    × (m.sender_username ≡ me)
    × (m.content ≡ p.content)

group_sends :
    (env : Env) (p : NewGroupMessage) (me : ℕ) (h : Clock) (d : Db)
    → find_group_message d me p.client_message_id ≡ none
    → Ensures (GroupSent p me d) (agent_send_group_message env p me h d)
unfolding agent_send_group_message group_send_new Audit.append
group_sends env p me h d free =
    Ensures-bind _ _ λ g member. by_key (member_required d p.group_id me g member) _ free
  where
    by_key :
        is_member d p.group_id me ≡ true
        → (o : Option GroupMessage) → o ≡ none
        → Ensures (GroupSent p me d) (group_send_by_key env p me h d o)
    by_key member none e = Ensures-bind _ _ λ _ _. Ensures-bind _ _ λ _ reach.
        Ensures-bind _ _ λ _ _. Ensures-bind _ _ λ org _.
          Ensures-ok _
            (member, all_reach d me _ (raise_unless_passed _ _ reach), refl, refl, refl, refl)
    by_key member (some m) e = cc

-- A group message under a new key comes from a member of the group. Every other member of the group
-- has an account of the sender's organization, or the sender's organization allows outgoing messages
-- and that member's allows incoming ones. The message is stored in front of the others, with the
-- sender, the group and the content of the request.
pub group_send_respects_policies :
    (env : Env) (p : NewGroupMessage) (me : ℕ) (h : Clock) (d : Db) {a : GroupMessage × Db}
    → find_group_message d me p.client_message_id ≡ none
    → agent_send_group_message env p me h d ≡ ok a
    → GroupSent p me d a
group_send_respects_policies env p me h d {a} free sent =
    (group_sends env p me h d free).returns a sent
