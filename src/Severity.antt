-- ===== src/Severity.antt =====
-- The severity tables: `mapSeverity` and `severityToText` of receiver/opcua/transformer.go, and
-- `getMinSeverityValue` of receiver/opcua/get_records.go. A severity is a uint16.
pub mod Order
pub mod Threshold
use opentelemetry_collector.Common.{ℕ, Bool, ◌&&◌, ◌||◌, leb, Text, lit, text_eq, if◌then◌else◌}
use opentelemetry_collector.Config.{Config}

-- The OpenTelemetry severity numbers that the code uses.
pub data SeverityNumber : Type 0 where
  unspecified debug info info4 warn error error2 error3 fatal : SeverityNumber

abbrev within : ℕ → ℕ → ℕ → Bool
within lo hi s = leb lo s && leb s hi

-- `(*Transformer).mapSeverity`
unfoldable pub map_severity : ℕ → SeverityNumber
map_severity s =
    if within 1 50 s
    then debug
    else if within 51 100 s
    then info
    else if within 101 150 s
    then info4
    else if within 151 200 s
    then warn
    else if within 201 250 s
    then error
    else if within 251 300 s
    then error2
    else if within 301 400 s
    then error3
    else if within 401 1000 s
    then fatal
    else unspecified

-- `severityToText`
unfoldable pub severity_to_text : ℕ → Text
severity_to_text s =
    if within 1 50 s
    then lit "Debug"
    else if within 51 100 s
    then lit "Information"
    else if within 101 150 s
    then lit "Notice"
    else if within 151 200 s
    then lit "Warning"
    else if within 201 250 s
    then lit "Error"
    else if within 251 300 s
    then lit "Critical"
    else if within 301 400 s
    then lit "Alert"
    else if within 401 1000 s
    then lit "Emergency"
    else lit "Unspecified"

-- `(*opcuaClient).getMinSeverityValue`
unfoldable pub get_min_severity_value : Config → ℕ
get_min_severity_value cfg =
    let name = cfg.filter.min_severity in
    if text_eq name (lit "Trace")
    then 51
    else if text_eq name (lit "Debug")
    then 1
    else if text_eq name (lit "Info")
    then 101
    else if text_eq name (lit "Warn") || text_eq name (lit "Warning")
    then 201
    else if text_eq name (lit "Error")
    then 301
    else if text_eq name (lit "Fatal") || text_eq name (lit "Emergency")
    then 401
    else 101
