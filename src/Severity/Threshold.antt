-- ===== src/Severity/Threshold.antt =====
-- The severity threshold of receiver/opcua/get_records.go against the table by which
-- receiver/opcua/transformer.go reports a record.
use opentelemetry_collector.Common.{ℕ, ◌≤◌, ◌<◌, ◌≡◌, ◌⊎◌, inl, inr, Text, lit, text_eq, arith}
use opentelemetry_collector.Config.{Config}
use opentelemetry_collector.Severity.{
  SeverityNumber, info, warn, error, error2, map_severity, get_min_severity_value,
}

-- The record is reported at the level that the configuration names.
abbrev pub ReportedAt : Text → SeverityNumber → Type 0
ReportedAt name n =
    ((name ≡ lit "Info") × (n ≡ info))
    ⊎ ((name ≡ lit "Warn") × (n ≡ warn))
    ⊎ ((name ≡ lit "Error") × ((n ≡ error) ⊎ (n ≡ error2)))

-- With `min_severity` Info, Warn or Error, every record that is reported at that very level (Info
-- as Info, Warn as Warn, Error as Error or Error2) lies below the threshold asked of the server.
pub own_level_below_threshold :
    (cfg : Config) (s : ℕ)
    → ReportedAt cfg.filter.min_severity (map_severity s)
    → s < get_min_severity_value cfg
unfolding get_min_severity_value map_severity text_eq lit
own_level_below_threshold cfg s (inl (name, e)) = rw (name, get_min_severity_value) (ground arith)
own_level_below_threshold cfg s (inr (inl (name, e))) =
    rw (name, get_min_severity_value) (ground arith)
own_level_below_threshold cfg s (inr (inr (name, e))) =
    rw (name, get_min_severity_value) (ground arith)

threshold_cases :
    (cfg : Config)
    → (get_min_severity_value cfg ≡ 1)
      ⊎ (get_min_severity_value cfg ≡ 51)
      ⊎ (get_min_severity_value cfg ≡ 101)
      ⊎ (get_min_severity_value cfg ≡ 201)
      ⊎ (get_min_severity_value cfg ≡ 301)
      ⊎ (get_min_severity_value cfg ≡ 401)
unfolding get_min_severity_value
threshold_cases cfg = ground arith

-- The threshold is a severity of the range 1 to 1000, and so fits a uint16, for every spelling of
-- `min_severity`.
pub get_min_severity_value_range :
    (cfg : Config) → (1 ≤ get_min_severity_value cfg) × (get_min_severity_value cfg ≤ 401)
get_min_severity_value_range cfg = ground (arith, threshold_cases cfg)
