-- ===== src/Config/Settings.antt =====
-- models.py: `NormalizedZoneSettings`, the copy of a configuration without its entity ids.
use moisture_loop.Base.{
  ℕ, Bool, ◌≡◌, refl, true, String, Result, ok, raised, value_error, Returns, if◌then◌else◌,
  Bool-cases, inl, inr, arith,
}
use moisture_loop.Model.Observation.{ZoneConfig}
use moisture_loop.Config.{config_ok}

pub record NormalizedZoneSettings : Type 0 where
  pub name : String
  pub start_threshold : ℕ
  pub target_threshold : ℕ
  pub pulse_duration_s : ℕ
  pub soak_duration_s : ℕ
  pub max_cycles : ℕ
  pub max_session_runtime_s : ℕ
  pub max_daily_runtime_s : ℕ
  pub min_session_interval_s : ℕ
  pub sensor_max_age_s : ℕ
  pub actuator_confirm_timeout_s : ℕ
  pub manual_max_duration_s : ℕ

unfoldable pub from_config : ZoneConfig → Result NormalizedZoneSettings
from_config c =
    if config_ok c
    then ok (record {
      name = c.name;
      start_threshold = c.start_threshold;
      target_threshold = c.target_threshold;
      pulse_duration_s = c.pulse_duration_s;
      soak_duration_s = c.soak_duration_s;
      max_cycles = c.max_cycles;
      max_session_runtime_s = c.max_session_runtime_s;
      max_daily_runtime_s = c.max_daily_runtime_s;
      min_session_interval_s = c.min_session_interval_s;
      sensor_max_age_s = c.sensor_max_age_s;
      actuator_confirm_timeout_s = c.actuator_confirm_timeout_s;
      manual_max_duration_s = c.manual_max_duration_s;
    })
    else raised value_error

-- The configuration that `validate` and `_config_from_shadow` build of the settings.
unfoldable pub settings_config : NormalizedZoneSettings → String → String → ZoneConfig
settings_config s sensor actuator = record {
  name = s.name;
  moisture_sensor = sensor;
  actuator = actuator;
  start_threshold = s.start_threshold;
  target_threshold = s.target_threshold;
  pulse_duration_s = s.pulse_duration_s;
  soak_duration_s = s.soak_duration_s;
  max_cycles = s.max_cycles;
  max_session_runtime_s = s.max_session_runtime_s;
  max_daily_runtime_s = s.max_daily_runtime_s;
  min_session_interval_s = s.min_session_interval_s;
  sensor_max_age_s = s.sensor_max_age_s;
  actuator_confirm_timeout_s = s.actuator_confirm_timeout_s;
  manual_max_duration_s = s.manual_max_duration_s;
}

-- Whether `NormalizedZoneSettings.validate` returns.
abbrev pub settings_ok : NormalizedZoneSettings → String → String → Bool
settings_ok s sensor actuator = config_ok (settings_config s sensor actuator)

-- A configuration within its bounds is normalized without an error, and its settings with its two
-- entity ids give the configuration back, which validates again.
pub settings_round_trip :
    (c : ZoneConfig)
    → config_ok c ≡ true
    → Returns
        (λ s.
          (settings_config s c.moisture_sensor c.actuator ≡ c)
          × (settings_ok s c.moisture_sensor c.actuator ≡ true))
        (from_config c)
unfolding from_config settings_config
settings_round_trip c h = elim (Bool-cases (config_ok c)) [
  | inl e ↦ simp e (refl, e)
  | inr e ↦ absurd (ground (arith, e, h))
]
