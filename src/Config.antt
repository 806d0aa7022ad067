-- ===== src/Config.antt =====
-- models.py: the bounds of a zone's configuration, and its normalized copy in an applied shadow.
pub mod Settings
use Prim.Native.String.{len, slice, count}
use text.Mathlib.Text.{◌==◌ as str_eq, find?}
use moisture_loop.Base.{
  ℕ, ◌+◌, ◌*◌, Bool, true, false, ◌&&◌, ◌||◌, not, none, some, List, [], ◌∷◌, String, ltb, leb,
  is_empty, if◌then◌else◌,
}
use moisture_loop.Model.Observation.{ZoneConfig, percent}

-- `entity_id.partition(".")`, with both halves there; the domain, or the empty text.
unfoldable pub entity_domain : String → String
entity_domain entity_id = elim (find? entity_id ".") [
  | none ↦ ""
  | some i ↦
      if str_eq (slice entity_id 0 i) "" || str_eq (slice entity_id (i + 1) (len entity_id)) ""
      then ""
      else slice entity_id 0 i
]

abbrev pub is_actuator_domain : String → Bool
is_actuator_domain domain = str_eq domain "switch" || str_eq domain "valve"

-- The errors of `validation_errors`, one for each message.
pub data ConfigError : Type 0 where
  name moisture_sensor actuator start_threshold target_threshold threshold_order pulse_duration
        soak_duration max_cycles max_session_runtime max_daily_runtime min_session_interval
        sensor_max_age actuator_confirm_timeout manual_max_duration :
      ConfigError

abbrev pub within : ℕ → ℕ → ℕ → Bool
within low high value = leb low value && leb value high

-- `if not test: errors.append(error)`, above the rest.
abbrev pub demand : Bool → ConfigError → List ConfigError → List ConfigError
demand test error rest = if test then rest else error ∷ rest

unfoldable pub validation_errors : ZoneConfig → List ConfigError
unfolding entity_domain
validation_errors c = demand (within 1 64 (count c.name)) ConfigError.name (
    demand (str_eq (entity_domain c.moisture_sensor) "sensor") ConfigError.moisture_sensor (
      demand (is_actuator_domain (entity_domain c.actuator)) ConfigError.actuator (
        demand (within (percent 1) (percent 99) c.start_threshold) ConfigError.start_threshold (
          demand (within (percent 2) (percent 100) c.target_threshold) ConfigError.target_threshold
            (demand (ltb c.start_threshold c.target_threshold) ConfigError.threshold_order (
              demand (within 30 3600 c.pulse_duration_s) ConfigError.pulse_duration (
                demand (within 60 14400 c.soak_duration_s) ConfigError.soak_duration (
                  demand (within 1 20 c.max_cycles) ConfigError.max_cycles (
                    demand (within c.pulse_duration_s 14400 c.max_session_runtime_s)
                      ConfigError.max_session_runtime
                      (demand (within c.pulse_duration_s 43200 c.max_daily_runtime_s)
                        ConfigError.max_daily_runtime
                        (demand (within 900 604800 c.min_session_interval_s)
                          ConfigError.min_session_interval
                          (demand (within 300 86400 c.sensor_max_age_s) ConfigError.sensor_max_age (
                            demand (within 5 300 c.actuator_confirm_timeout_s)
                              ConfigError.actuator_confirm_timeout
                              (demand (within 60 7200 c.manual_max_duration_s)
                                ConfigError.manual_max_duration []))))))))))))))

-- Whether `ZoneConfig.validate` returns; it raises a ValueError otherwise.
abbrev pub config_ok : ZoneConfig → Bool
config_ok c = is_empty (validation_errors c)
