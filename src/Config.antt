-- ===== src/Config.antt =====
-- receiver/opcua/config.go and the default configuration of receiver/opcua/factory.go.
pub mod Valid
use opentelemetry_collector.Common.{
  ℕ, ◌*◌, ◌^◌, Bool, true, false, not, ◌&&◌, ◌||◌, List, [], ◌∷◌, ℤ, pos, ltb_ℤ, Text, lit, text_eq,
  is_empty, has_prefix, is_nil, if◌then◌else◌,
}

pub record AuthConfig : Type 0 where
  pub auth_type : Text
  pub username : Text
  pub password : Text

pub record FilterConfig : Type 0 where
  pub min_severity : Text
  pub max_log_records : ℤ

pub record ResourceConfig : Type 0 where
  pub service_name : Text
  pub service_namespace : Text

pub record TlsConfig : Type 0 where
  pub cert_file : Text
  pub key_file : Text
  pub ca_file : Text
  pub insecure_skip_verify : Bool

-- Durations are counts of nanoseconds.
pub record Config : Type 0 where
  pub endpoint : Text
  pub security_policy : Text
  pub security_mode : Text
  pub auth : AuthConfig
  pub log_object_paths : List Text
  pub collection_interval : ℤ
  pub max_records_per_call : ℤ
  pub filter : FilterConfig
  pub connection_timeout : ℤ
  pub request_timeout : ℤ
  pub tls : TlsConfig
  pub resource : ResourceConfig

-- The errors of `Validate`, in the order of its tests.
pub data ConfigError : Type 0 where
  endpoint_missing endpoint_scheme interval_too_short records_out_of_range : ConfigError
  bad_policy bad_mode bad_auth_type missing_credentials missing_certificate : ConfigError
  bad_severity negative_limit no_log_object_path : ConfigError

pub data Verdict : Type 0 where
  valid : Verdict
  invalid : ConfigError → Verdict

-- `contains`
unfoldable pub contains : List Text → Text → Bool
contains [] item = false
contains (s ∷ slice) item = text_eq s item || contains slice item

abbrev pub second : ℕ
second = 10 ^ 9

abbrev pub valid_security_policies : List Text
valid_security_policies =
    lit "None"
    ∷ lit "Basic256"
    ∷ lit "Basic256Sha256"
    ∷ lit "Aes128_Sha256_RsaOaep"
    ∷ lit "Aes256_Sha256_RsaPss"
    ∷ []

abbrev pub valid_security_modes : List Text
valid_security_modes = lit "None" ∷ lit "Sign" ∷ lit "SignAndEncrypt" ∷ []

abbrev pub valid_auth_types : List Text
valid_auth_types = lit "anonymous" ∷ lit "username_password" ∷ lit "certificate" ∷ []

abbrev pub valid_severities : List Text
valid_severities =
    lit "Trace" ∷ lit "Debug" ∷ lit "Info" ∷ lit "Warn" ∷ lit "Error" ∷ lit "Fatal" ∷ lit "" ∷ []

-- `(*Config).Validate`: the tests in their order, and the first that fails decides.
unfoldable pub validate : Config → Verdict
validate cfg =
    if is_empty cfg.endpoint
    then invalid endpoint_missing
    else if not (has_prefix cfg.endpoint (lit "opc.tcp://"))
    then invalid endpoint_scheme
    else if ltb_ℤ cfg.collection_interval (pos second)
    then invalid interval_too_short
    else if ltb_ℤ cfg.max_records_per_call (pos 1) || ltb_ℤ (pos 10000) cfg.max_records_per_call
    then invalid records_out_of_range
    else if not (contains valid_security_policies cfg.security_policy)
    then invalid bad_policy
    else if not (contains valid_security_modes cfg.security_mode)
    then invalid bad_mode
    else if not (contains valid_auth_types cfg.auth.auth_type)
    then invalid bad_auth_type
    else if text_eq cfg.auth.auth_type (lit "username_password")
        && (is_empty cfg.auth.username || is_empty cfg.auth.password)
    then invalid missing_credentials
    else if text_eq cfg.auth.auth_type (lit "certificate")
        && (is_empty cfg.tls.cert_file || is_empty cfg.tls.key_file)
    then invalid missing_certificate
    else if not (contains valid_severities cfg.filter.min_severity)
    then invalid bad_severity
    else if ltb_ℤ cfg.filter.max_log_records (pos 0)
    then invalid negative_limit
    else if is_nil cfg.log_object_paths
    then invalid no_log_object_path
    else valid

-- `createDefaultConfig`
unfoldable pub create_default_config : Config
create_default_config = record {
  endpoint = lit "opc.tcp://localhost:4840";
  security_policy = lit "None";
  security_mode = lit "None";
  auth = record { auth_type = lit "anonymous"; username = []; password = [] };
  log_object_paths = lit "Objects/ServerLog" ∷ [];
  collection_interval = pos (30 * second);
  max_records_per_call = pos 1000;
  filter = record { min_severity = lit "Info"; max_log_records = pos 10000 };
  connection_timeout = pos (30 * second);
  request_timeout = pos (10 * second);
  tls = record { cert_file = []; key_file = []; ca_file = []; insecure_skip_verify = false };
  resource = record { service_name = lit "opcua-server"; service_namespace = [] };
}
