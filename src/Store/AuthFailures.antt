-- ===== src/Store/AuthFailures.antt =====
-- The journal of authentication failures (synapse/store/authfail.py). A key is a username, or the
-- `org:` key of an organization; `cutoff` is `now_utc_offset(window_seconds)`.
use synapse_messenger.Prelude.{ℕ, Bool, false, List, ◌∷◌, select, count, not, ◌&&◌, ◌==◌, leb, ltb}
use synapse_messenger.Db.{AuthFailure, AuthKey, of_user, of_org}

abbrev pub same_key : AuthKey → AuthKey → Bool
same_key (of_user a) (of_user b) = a == b
same_key (of_user a) (of_org b) = false
same_key (of_org a) (of_user b) = false
same_key (of_org a) (of_org b) = a == b

-- prune
unfoldable pub prune : ℕ → List AuthFailure → List AuthFailure
prune cutoff rows = select (λ r. not (ltb r.attempted_at cutoff)) rows

-- count_recent
unfoldable pub count_recent : AuthKey → ℕ → List AuthFailure → ℕ
count_recent key cutoff rows =
    count (λ r. same_key r.username key && leb cutoff r.attempted_at) rows

-- record
unfoldable pub record_failure : AuthKey → ℕ → List AuthFailure → List AuthFailure
record_failure key now rows = record { username = key; attempted_at = now } ∷ rows

-- clear
unfoldable pub clear : AuthKey → List AuthFailure → List AuthFailure
clear key rows = select (λ r. not (same_key r.username key)) rows
