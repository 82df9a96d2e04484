-- ===== src/Service/Transaction.antt =====
-- A write transaction: Service._stamp and db.begin_immediate. The clock is in memory, so a rollback
-- leaves it where the stamp has put it.
use synapse_messenger.Prelude.{ℕ, List}
use synapse_messenger.Hlc.{Clock, Checked, tick, encode}
use synapse_messenger.Errors.{Result, ok, err, internal_error}
use synapse_messenger.Db.{Db}
use synapse_messenger.Service.Common.{Env}

-- The service between two requests.
pub record State : Type 0 where
  pub db : Db
  pub clock : Clock

-- COMMIT or ROLLBACK, at the clock after the stamp
abbrev pub settle : {A : Type 0} → Clock → Db → Result (A × Db) → Result A × State
settle k d (ok (a, d')) = (ok a, record { db = d'; clock = k })
settle k d (err e) = (err e, record { db = d; clock = k })

abbrev pub stamped :
    {A : Type 0} → Clock → Db → (Clock → Db → Result (A × Db)) → Checked (List ℕ) → Result A × State
stamped k d body (Checked.ok text) = settle k d (body k d)
stamped k d body Checked.value_error = (err internal_error, record { db = d; clock = k })

-- with db.begin_immediate(conn): hlc = service._stamp(); ...
unfoldable pub write :
    {A : Type 0} → Env → (Clock → Db → Result (A × Db)) → State → Result A × State
write env body s = let k = tick env.physical s.clock in stamped k s.db body (encode k.l k.c)
