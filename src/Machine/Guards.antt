-- ===== src/Machine/Guards.antt =====
-- The guard helpers of state_machine.py.
use moisture_loop.Base.{ℕ, ◌+◌, ◌-◌, Bool, true, false, ◌&&◌, Option, none, some, [], leb}
use moisture_loop.Model.Enums.{MoistureClassification}
use moisture_loop.Model.Observation.{seconds, is_fresh}
use moisture_loop.Model.Session.{SessionContext}
use moisture_loop.Model.Decision.{TransitionInput, Decision, decision}

abbrev pub is_valid : MoistureClassification → Bool
is_valid MoistureClassification.valid = true
is_valid _ = false

-- G-FRESH: the observation is VALID and fresh; equality is fresh.
unfoldable pub fresh_valid : TransitionInput → Bool
unfolding is_fresh
fresh_valid inp =
    is_valid inp.observation.classification
    && is_fresh inp.observation inp.now_utc inp.config.sensor_max_age_s

-- G-INT: `now_utc - last_session_end_utc >= interval`, with the difference moved over.
unfoldable pub interval_elapsed : TransitionInput → Bool
interval_elapsed inp = elim inp.last_session_end_utc [
  | none ↦ true
  | some ended ↦ leb (ended + seconds inp.config.min_session_interval_s) inp.now_utc
]

-- G-ACT.
unfoldable pub actuator_ready : TransitionInput → Bool
actuator_ready inp = inp.actuator.available && inp.actuator.proven_off

-- G-DAY.
unfoldable pub daily_fits : TransitionInput → Bool
daily_fits inp =
    leb (inp.daily_runtime_s + seconds inp.config.pulse_duration_s)
      (seconds inp.config.max_daily_runtime_s)

-- G-SESS.
unfoldable pub session_fits : TransitionInput → SessionContext → Bool
session_fits inp session =
    leb (session.session_runtime_s + seconds inp.config.pulse_duration_s)
      (seconds inp.config.max_session_runtime_s)

-- The comparison at the end of `_post_qualifies`. A fresh observation has a report time, so the
-- source's `assert` of it cannot fail.
abbrev reported_from : Option ℕ → Option ℕ → Bool
reported_from (some at) (some not_before) = leb not_before at
reported_from (some at) none = false
reported_from none _ = false

-- G-POST.
unfoldable pub post_qualifies : TransitionInput → Bool
unfolding fresh_valid
post_qualifies inp = elim inp.session [
  | none ↦ false
  | some session ↦
      fresh_valid inp
      && reported_from inp.observation.reported_at_utc session.recheck_not_before_utc
]

-- What is left of the day, 0 where the limit is passed: the source compares the difference with
-- 0 and uses it only where it is positive.
unfoldable pub daily_remaining : TransitionInput → ℕ
daily_remaining inp = seconds inp.config.max_daily_runtime_s - inp.daily_runtime_s

abbrev pub no_op : Decision
no_op = record (decision none none []) { no_op = true }
