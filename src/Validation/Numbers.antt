-- ===== src/Validation/Numbers.antt =====
-- Numeric parameters (synapse/validation.py: validate_budget, validate_retention_days,
-- validate_positive_seconds and _validate_limit).
use synapse_messenger.Prelude.{ltb, if◌then◌else◌}
use synapse_messenger.Errors.{Result, ok, err}
use synapse_messenger.Validation.{Json, null, natural, between, invalid}

-- validate_budget
unfoldable pub validate_budget : Json → Result Json
validate_budget null = ok null
validate_budget (natural n) = if ltb n 1 then invalid else ok (natural n)
validate_budget other = invalid

abbrev pub at_most_3650 : Json → Result Json
at_most_3650 (natural n) = if ltb 3650 n then invalid else ok (natural n)
at_most_3650 other = invalid

abbrev pub of_budget : Result Json → Result Json
of_budget (ok value) = at_most_3650 value
of_budget (err e) = err e

-- validate_retention_days
unfoldable pub validate_retention_days : Json → Result Json
unfolding validate_budget
validate_retention_days raw = of_budget (validate_budget raw)

-- validate_positive_seconds
unfoldable pub validate_positive_seconds : Json → Result Json
validate_positive_seconds (natural n) = if ltb n 1 then invalid else ok (natural n)
validate_positive_seconds other = invalid

-- _validate_limit: DEFAULT_LIMIT, and MIN_LIMIT to MAX_LIMIT
unfoldable pub validate_limit : Json → Result Json
validate_limit null = ok (natural 50)
validate_limit (natural n) = if between 1 100 n then ok (natural n) else invalid
validate_limit other = invalid
