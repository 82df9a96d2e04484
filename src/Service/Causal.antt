-- ===== src/Service/Causal.antt =====
-- Timestamps across the task commands (synapse/hlc.py: invariant I4; synapse/service.py): a journal
-- row written later never has an earlier stamp.
use synapse_messenger.Prelude.{ℕ, refl, List, [], ◌∷◌, arith}
use synapse_messenger.Hlc.{Clock, Checked, tick, encode}
use synapse_messenger.Errors.{Result, ok, err}
use synapse_messenger.Db.{Db}
use synapse_messenger.Store.Causal.{◌≼◌, IsCausal-mono, IsCausal}
use synapse_messenger.Service.Common.{Env}
use synapse_messenger.Service.Transaction.{State, settle, stamped, write}
use synapse_messenger.Service.Requests.{run_request, Call, handle, serve}
use synapse_messenger.Service.CausalCommands.{Returns, request-keeps}

settle-IsCausal :
    {A : Type 0} (k h : Clock) (d : Db) (r : Result (A × Db))
    → h ≼ k
    → IsCausal h d
    → Returns k r
    → IsCausal (settle k d r).1.clock (settle k d r).1.db
settle-IsCausal k h d (ok (a, d')) le c e = e.returns (a, d') refl
settle-IsCausal k h d (err x) le c e = IsCausal-mono h k d le c

stamped-IsCausal :
    {A : Type 0} (k h : Clock) (d : Db) (body : Clock → Db → Result (A × Db)) (r : Checked (List ℕ))
    → h ≼ k
    → IsCausal h d
    → Returns k (body k d)
    → IsCausal (stamped k d body r).1.clock (stamped k d body r).1.db
stamped-IsCausal k h d body (Checked.ok text) le c e = settle-IsCausal k h d (body k d) le c e
stamped-IsCausal k h d body Checked.value_error le c e = IsCausal-mono h k d le c

tick-forward : (pt : ℕ) (k : Clock) → k ≼ tick pt k
unfolding tick
tick-forward pt k = ground arith

write-IsCausal :
    {A : Type 0} (env : Env) (body : Clock → Db → Result (A × Db)) (s : State)
    → ((h : Clock) (d : Db) → IsCausal h d → Returns h (body h d))
    → IsCausal s.clock s.db
    → IsCausal (write env body s).1.clock (write env body s).1.db
unfolding write
write-IsCausal env body s keep c =
    let k = tick env.physical s.clock in
    let le = tick-forward env.physical s.clock in
    stamped-IsCausal k s.clock s.db body (encode k.l k.c) le c
      (keep k s.db (IsCausal-mono s.clock k s.db le c))

-- Whatever task commands are served, by whom, at whatever readings of the clocks, failing or not:
-- the journals of events, of task events and of the audit stay in causal order, each row stamped at
-- or after the rows that were written before it, and none after the clock.
pub serve-IsCausal :
    (calls : List Call) (s : State)
    → IsCausal s.clock s.db
    → IsCausal (serve calls s).clock (serve calls s).db
unfolding serve
serve-IsCausal [] s c = c
serve-IsCausal (call ∷ calls) s c = serve-IsCausal calls (handle call s).1 (
    unfold handle in
    write-IsCausal call.env (run_request call.env call.me call.request) s
      (λ h d k. request-keeps call.env h call.me call.request d k) c)
