-- ===== src/Tests/ConfigTests.antt =====
-- Runs of receiver/opcua/config.go and of the severity tables.
use opentelemetry_collector.Common.{
  ◌≤◌, ◌<◌, ◌≡◌, ◌↔◌, refl, inl, [], pos, lit, text_eq, has_prefix, arith,
}
use opentelemetry_collector.Config.{
  validate, valid, invalid, contains, create_default_config, endpoint_scheme, missing_credentials,
  bad_severity,
}
use opentelemetry_collector.Config.Valid.{IsValid, validate_iff}
use opentelemetry_collector.Severity.{map_severity, severity_to_text, get_min_severity_value}
use opentelemetry_collector.Severity.Order.{
  number, level_name, severity_to_text-map_severity, map_severity_mono,
}
use opentelemetry_collector.Severity.Threshold.{own_level_below_threshold}

-- The default configuration is valid.
default_valid : validate create_default_config ≡ valid
unfolding validate create_default_config contains has_prefix text_eq lit
default_valid = refl

-- `Emergency`, which receiver/opcua/README.md offers as a `min_severity`, is refused.
emergency_refused :
    validate (record create_default_config {
      filter = record { min_severity = lit "Emergency"; max_log_records = pos 10 };
    })
    ≡ invalid bad_severity
unfolding validate create_default_config contains has_prefix text_eq lit
emergency_refused = refl

credentials_needed :
    validate (record create_default_config {
      auth = record { auth_type = lit "username_password"; username = lit "u"; password = [] };
    })
    ≡ invalid missing_credentials
unfolding validate create_default_config contains has_prefix text_eq lit
credentials_needed = refl

scheme_needed :
    validate (record create_default_config { endpoint = lit "http://localhost" })
    ≡ invalid endpoint_scheme
unfolding validate create_default_config contains has_prefix text_eq lit
scheme_needed = refl

-- The thresholds of the two lowest levels are in the wrong order.
trace_above_debug :
    get_min_severity_value (record create_default_config {
      filter = record { min_severity = lit "Trace"; max_log_records = pos 10 };
    })
    ≡ 51
unfolding get_min_severity_value text_eq lit
trace_above_debug = refl

validate_iff_example : (validate create_default_config ≡ valid) ↔ IsValid create_default_config
validate_iff_example = validate_iff create_default_config

severity_to_text-map_severity_example : severity_to_text 275 ≡ level_name (map_severity 275)
severity_to_text-map_severity_example = severity_to_text-map_severity 275

map_severity_mono_example :
    (0 < number (map_severity 75)) × (number (map_severity 75) ≤ number (map_severity 500))
map_severity_mono_example = map_severity_mono 75 500 (omega arith) (omega arith) (omega arith)

own_level_below_threshold_example : 75 < get_min_severity_value create_default_config
unfolding create_default_config map_severity
own_level_below_threshold_example =
    own_level_below_threshold create_default_config 75 (inl (refl, refl))
