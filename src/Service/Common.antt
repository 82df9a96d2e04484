-- ===== src/Service/Common.antt =====
-- What a handler is given besides its parameters: the readings of the clock, the identifier that
-- `new_uuid` returns, and the server's configuration.
use synapse_messenger.Prelude.{ℕ}

pub record Env : Type 0 where
  -- `at`, read before the transaction
  pub at : ℕ
  -- the clock as it is read again inside the transaction
  pub now : ℕ
  -- the physical time that the hybrid clock reads
  pub physical : ℕ
  -- the identifier of the row that a handler inserts
  pub uuid : ℕ
  -- the identifier of the conversation, where one is created
  pub conversation_uuid : ℕ
  pub event_retention_days : ℕ
