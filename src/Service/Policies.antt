-- ===== src/Service/Policies.antt =====
-- Who may send to whom (synapse/service.py: _send_message, sections 6.2 and 6.3 of the specification).
use synapse_messenger.Prelude.{
  ℕ, ◌≡◌, ◌≢◌, refl, sym, ◌∙◌, Option, none, some, Bool, true, false, not, ◌&&◌, arith, ◌==◌, ◌⊎◌,
}
use synapse_messenger.Errors.{err, policy_denied, ◌>>=◌, raise_if, or_raise}
use synapse_messenger.Db.{Db, Account, Organization}
use synapse_messenger.Store.Accounts
use synapse_messenger.Store.Accounts.{is_active}
use synapse_messenger.Store.Messages
use synapse_messenger.Store.Messages.{MessageView, row_to_message}
use synapse_messenger.Service.Common.{Env}
use synapse_messenger.Service.Guards.{check_message_budget}
use synapse_messenger.Service.Sending.{Delivered}
use synapse_messenger.Service.Messages.{
  NewMessage, can_receive, check_recipient, send_new, send_message,
}

-- What a delivery to an account of another organization has been checked for.
abbrev pub PoliciesAgree : Organization → Account → Organization → Account → Type 0
PoliciesAgree sender_org sender recip_org recip =
    (recip.organization_name ≡ sender.organization_name)
    ⊎ ((sender_org.allow_outgoing_external ≡ true) × (recip_org.allow_incoming_external ≡ true))

-- The ends of a delivery: who sends, who receives, and that the policies let it pass.
abbrev pub MayReach : Db → ℕ → ℕ → Type 0
MayReach d me to =
    (sender recip : Account) × (sender_org recip_org : Organization) × (Accounts.get d me
      ≡ some sender)
    × (Accounts.get_organization d sender.organization_name ≡ some sender_org)
    × (Accounts.get d to ≡ some recip)
    × (Accounts.get_organization d recip.organization_name ≡ some recip_org)
    × (is_active recip.status ≡ true)
    × (recip_org.enabled ≡ true)
    × PoliciesAgree sender_org sender recip_org recip

-- What a send under a new key has been checked for, and what it leaves.
abbrev pub Sent : Env → NewMessage → ℕ → Db → MessageView × Db → Type 0
Sent env p me d a =
    (p.recipient_username ≢ me) × MayReach d me p.recipient_username × Delivered env p me d a

-- No account that receives within the organization: it is absent, disabled, frozen or elsewhere.
abbrev pub is_outside : Db → ℕ → Option Account → Bool
is_outside d org none = true
is_outside d org (some r) = not (can_receive d r && r.organization_name == org)

closed_to :
    (d : Db) (s : Account) (o : Organization) (m : Option Account)
    → o.allow_outgoing_external ≡ false
    → is_outside d s.organization_name m ≡ true
    → check_recipient d s o m ≡ err policy_denied
closed_to d s o none closed out = rw closed refl
closed_to d s o (some r) closed out = rw closed (ground (arith, out))

denied :
    (env : Env) (p : NewMessage) (me : ℕ) (d : Db) (s : Account) (o : Organization)
    → p.recipient_username ≢ me
    → Accounts.get d me ≡ some s
    → Accounts.get_organization d s.organization_name ≡ some o
    → o.allow_outgoing_external ≡ false
    → Messages.find_message_by_client_id d me p.client_message_id ≡ none
    → is_outside d s.organization_name (Accounts.get d p.recipient_username) ≡ true
    → send_message env p me d ≡ (check_message_budget d env.now me >>= λ _. err policy_denied)
unfolding send_message send_new raise_if or_raise ◌>>=◌
denied env p me d s o other es eo closed free out =
    rw (not_same, es, eo, free, closed_to d s o (Accounts.get d p.recipient_username) closed out)
      refl
  where
    not_same : (p.recipient_username == me) ≡ false
    not_same = ground (arith, other)

-- An organization that is closed to the outside learns nothing of it: under a free idempotency key, a
-- send to any name without an active account inside the organization (absent, disabled, of a disabled
-- organization or of another one) gives one and the same answer.
pub closed_reveals_nothing :
    (env : Env) (p p' : NewMessage) (me : ℕ) (d : Db) (s : Account) (o : Organization)
    → p.recipient_username ≢ me
    → p'.recipient_username ≢ me
    → Accounts.get d me ≡ some s
    → Accounts.get_organization d s.organization_name ≡ some o
    → o.allow_outgoing_external ≡ false
    → Messages.find_message_by_client_id d me p.client_message_id ≡ none
    → Messages.find_message_by_client_id d me p'.client_message_id ≡ none
    → is_outside d s.organization_name (Accounts.get d p.recipient_username) ≡ true
    → is_outside d s.organization_name (Accounts.get d p'.recipient_username) ≡ true
    → send_message env p me d ≡ send_message env p' me d
closed_reveals_nothing env p p' me d s o other other' es eo closed free free' out out' =
    denied env p me d s o other es eo closed free out
    ∙ sym (denied env p' me d s o other' es eo closed free' out')
