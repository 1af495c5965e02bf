-- ===== src/Severity/Order.antt =====
-- The two severity tables of receiver/opcua/transformer.go agree, and keep the order.
use opentelemetry_collector.Common.{ℕ, ◌≤◌, ◌<◌, ◌≡◌, ◌↔◌, ◌⊎◌, Text, lit, arith}
use opentelemetry_collector.Severity.{
  SeverityNumber, unspecified, debug, info, info4, warn, error, error2, error3, fatal, map_severity,
  severity_to_text,
}

-- The OpenTelemetry numbers of the severities.
abbrev pub number : SeverityNumber → ℕ
number unspecified = 0
number debug = 5
number info = 9
number info4 = 12
number warn = 13
number error = 17
number error2 = 18
number error3 = 19
number fatal = 21

-- The OPC UA level that a severity number stands for.
abbrev pub level_name : SeverityNumber → Text
level_name unspecified = lit "Unspecified"
level_name debug = lit "Debug"
level_name info = lit "Information"
level_name info4 = lit "Notice"
level_name warn = lit "Warning"
level_name error = lit "Error"
level_name error2 = lit "Critical"
level_name error3 = lit "Alert"
level_name fatal = lit "Emergency"

-- The text of every severity is the name of the level that its number stands for.
pub severity_to_text-map_severity : (s : ℕ) → severity_to_text s ≡ level_name (map_severity s)
unfolding severity_to_text map_severity
severity_to_text-map_severity s = ground arith

-- The least and the greatest severity of a level.
abbrev lowest : SeverityNumber → ℕ
lowest unspecified = 1001
lowest debug = 1
lowest info = 51
lowest info4 = 101
lowest warn = 151
lowest error = 201
lowest error2 = 251
lowest error3 = 301
lowest fatal = 401

abbrev highest : SeverityNumber → ℕ
highest unspecified = 0
highest debug = 50
highest info = 100
highest info4 = 150
highest warn = 200
highest error = 250
highest error2 = 300
highest error3 = 400
highest fatal = 1000

map_severity_bounds :
    (s : ℕ) → 1 ≤ s → s ≤ 1000 → (lowest (map_severity s) ≤ s) × (s ≤ highest (map_severity s))
unfolding map_severity
map_severity_bounds s h j = ground arith

number_mono :
    (x y : SeverityNumber) (a b : ℕ)
    → lowest x ≤ a
    → a ≤ highest x
    → lowest y ≤ b
    → b ≤ highest y
    → a ≤ b
    → (0 < number x) × (number x ≤ number y)
number_mono x y a b h i j k l = ground arith

-- Of two severities in the range 1 to 1000 the higher never gets the lower number, and the lower
-- one gets a number other than 0.
pub map_severity_mono :
    (a b : ℕ)
    → 1 ≤ a
    → a ≤ b
    → b ≤ 1000
    → (0 < number (map_severity a)) × (number (map_severity a) ≤ number (map_severity b))
map_severity_mono a b h i j =
    let (la, ha) = map_severity_bounds a h (omega arith) in
    let (lb, hb) = map_severity_bounds b (omega arith) j in
    number_mono (map_severity a) (map_severity b) a b la ha lb hb i

-- Exactly the severities outside 1 to 1000 are unspecified.
map_severity-unspecified_iff : (s : ℕ) → (map_severity s ≡ unspecified) ↔ ((s < 1) ⊎ (1000 < s))
unfolding map_severity
map_severity-unspecified_iff s = ground arith
