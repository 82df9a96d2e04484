-- ===== src/Store/Audit.antt =====
-- The audit journal (synapse/store/audit.py).
use synapse_messenger.Prelude.{◌∷◌}
use synapse_messenger.Db.{Db, AuditEntry}

-- audit.append
unfoldable pub append : AuditEntry → Db → Db
append entry d = record d { audit_log = entry ∷ d.audit_log }
