-- ===== src/Service/Lockout.antt =====
-- The limit on failed attempts to authenticate (synapse/service.py: _authenticate).
use synapse_messenger.Db.{Db}
