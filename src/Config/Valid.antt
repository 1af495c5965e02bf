-- ===== src/Config/Valid.antt =====
-- What `Validate` of receiver/opcua/config.go accepts, stated without its tests.
use opentelemetry_collector.Common.{
  ◌≡◌, refl, ◌≢◌, ◌↔◌, ◌⊎◌, inl, inr, Bool, true, false, Bool-cases, ◌&&◌, ◌||◌, List, [], ◌∷◌,
  ◌++◌, ℤ, pos, ◌≤ℤ◌, Text, lit, text_eq, text_eq_iff, has_prefix, is_empty, is_nil, ltb_ℤ, arith,
}
use opentelemetry_collector.Config.{
  Config, validate, valid, contains, second, valid_security_policies, valid_security_modes,
  valid_auth_types, valid_severities,
}

-- The text is one of the list.
abbrev pub Among : Text → List Text → Type 0
Among item [] = ⊥
Among item (s ∷ slice) = (s ≡ item) ⊎ Among item slice

pub contains_iff :
    (slice : List Text) (item : Text) → (contains slice item ≡ true) ↔ Among item slice
unfolding contains
contains_iff [] item = ground arith
contains_iff (s ∷ slice) item = ground (arith, text_eq_iff s item, contains_iff slice item)

-- The text begins with the prefix.
abbrev pub Begins : Text → Text → Type 0
Begins s prefix = (rest : Text) × (s ≡ prefix ++ rest)

has_prefix→Begins : (s prefix : Text) → has_prefix s prefix ≡ true → Begins s prefix
unfolding has_prefix
has_prefix→Begins s [] h = (s, refl)
has_prefix→Begins [] (p ∷ prefix) h = cc
has_prefix→Begins (c ∷ s) (p ∷ prefix) h =
    let (rest, e) = has_prefix→Begins s prefix (ground arith) in (rest, ground arith)

has_prefix-append : (prefix rest : Text) → has_prefix (prefix ++ rest) prefix ≡ true
unfolding has_prefix
has_prefix-append [] rest = refl
has_prefix-append (p ∷ prefix) rest = ground (arith, has_prefix-append prefix rest)

-- What a configuration must satisfy.
pub record IsValid (cfg : Config) : Type 0 where
  pub scheme : Begins cfg.endpoint (lit "opc.tcp://")
  pub interval : pos second ≤ℤ cfg.collection_interval
  pub records_low : pos 1 ≤ℤ cfg.max_records_per_call
  pub records_high : cfg.max_records_per_call ≤ℤ pos 10000
  pub policy : Among cfg.security_policy valid_security_policies
  pub mode : Among cfg.security_mode valid_security_modes
  pub auth_type : Among cfg.auth.auth_type valid_auth_types
  pub credentials :
      cfg.auth.auth_type ≡ lit "username_password"
      → (cfg.auth.username ≢ []) × (cfg.auth.password ≢ [])
  pub certificate :
      cfg.auth.auth_type ≡ lit "certificate" → (cfg.tls.cert_file ≢ []) × (cfg.tls.key_file ≢ [])
  pub severity : Among cfg.filter.min_severity valid_severities
  pub limit : pos 0 ≤ℤ cfg.filter.max_log_records
  pub paths : cfg.log_object_paths ≢ []

-- The tests of `validate`, each with the answer that lets a configuration pass.
record Passes (cfg : Config) : Type 0 where
  nonempty : is_empty cfg.endpoint ≡ false
  scheme : has_prefix cfg.endpoint (lit "opc.tcp://") ≡ true
  interval : ltb_ℤ cfg.collection_interval (pos second) ≡ false
  records :
      (ltb_ℤ cfg.max_records_per_call (pos 1) || ltb_ℤ (pos 10000) cfg.max_records_per_call) ≡ false
  policy : contains valid_security_policies cfg.security_policy ≡ true
  mode : contains valid_security_modes cfg.security_mode ≡ true
  auth_type : contains valid_auth_types cfg.auth.auth_type ≡ true
  credentials :
      (text_eq cfg.auth.auth_type (lit "username_password")
        && (is_empty cfg.auth.username || is_empty cfg.auth.password))
      ≡ false
  certificate :
      (text_eq cfg.auth.auth_type (lit "certificate")
        && (is_empty cfg.tls.cert_file || is_empty cfg.tls.key_file))
      ≡ false
  severity : contains valid_severities cfg.filter.min_severity ≡ true
  limit : ltb_ℤ cfg.filter.max_log_records (pos 0) ≡ false
  paths : is_nil cfg.log_object_paths ≡ false

validate→Passes : (cfg : Config) → validate cfg ≡ valid → Passes cfg
unfolding validate
validate→Passes cfg h = ground arith

Passes→validate : (cfg : Config) → Passes cfg → validate cfg ≡ valid
unfolding validate
Passes→validate cfg p = rw (
  p.nonempty, p.scheme, p.interval, p.records, p.policy, p.mode, p.auth_type, p.credentials,
  p.certificate, p.severity, p.limit, p.paths,
)

is_nil_iff {ℓ} : {A : Type ℓ} (xs : List A) → (is_nil xs ≡ false) ↔ (xs ≢ [])
is_nil_iff [] = ground arith
is_nil_iff (x ∷ xs) = ground arith

ltb_ℤ-false_iff : (a b : ℤ) → (ltb_ℤ a b ≡ false) ↔ (b ≤ℤ a)
ltb_ℤ-false_iff a b = ground arith

or-false : (a b : Bool) → (a || b) ≡ false → (a ≡ false) × (b ≡ false)
or-false a b h = ground arith

-- A test for two texts that one authentication type requires.
required_iff :
    (kind wanted a b : Text)
    → ((text_eq kind wanted && (is_empty a || is_empty b)) ≡ false)
      ↔ (kind ≡ wanted → (a ≢ []) × (b ≢ []))
required_iff kind wanted a b = (
  λ h e. ground (arith, text_eq_iff kind wanted),
  λ h. elim (Bool-cases (text_eq kind wanted)) [
    | inl same ↦
        let (ha, hb) = h ((text_eq_iff kind wanted).0 same) in
        ground (arith, (is_nil_iff a).1 ha, (is_nil_iff b).1 hb)
    | inr other ↦ rw other
  ],
)

nonempty_of_Begins : (s : Text) → Begins s (lit "opc.tcp://") → is_empty s ≡ false
unfolding lit
nonempty_of_Begins s (rest, e) = rw e

records_range :
    (cfg : Config)
    → Passes cfg
    → (ltb_ℤ cfg.max_records_per_call (pos 1) ≡ false)
      × (ltb_ℤ (pos 10000) cfg.max_records_per_call ≡ false)
records_range cfg p = or-false _ (ltb_ℤ (pos 10000) cfg.max_records_per_call) p.records

Passes→IsValid : (cfg : Config) → Passes cfg → IsValid cfg
Passes→IsValid cfg p = record {
  scheme = has_prefix→Begins _ _ p.scheme;
  interval = (ltb_ℤ-false_iff cfg.collection_interval (pos second)).0 p.interval;
  records_low = (ltb_ℤ-false_iff cfg.max_records_per_call (pos 1)).0 (records_range cfg p).0;
  records_high = (ltb_ℤ-false_iff (pos 10000) cfg.max_records_per_call).0 (records_range cfg p).1;
  policy = (contains_iff _ _).0 p.policy;
  mode = (contains_iff _ _).0 p.mode;
  auth_type = (contains_iff _ _).0 p.auth_type;
  credentials = (required_iff _ _ _ _).0 p.credentials;
  certificate = (required_iff _ _ _ _).0 p.certificate;
  severity = (contains_iff _ _).0 p.severity;
  limit = (ltb_ℤ-false_iff cfg.filter.max_log_records (pos 0)).0 p.limit;
  paths = (is_nil_iff _).0 p.paths;
}

IsValid→Passes : (cfg : Config) → IsValid cfg → Passes cfg
IsValid→Passes cfg v = record {
  nonempty = nonempty_of_Begins _ v.scheme;
  scheme = rw v.scheme.1 (has_prefix-append _ v.scheme.0);
  interval = (ltb_ℤ-false_iff cfg.collection_interval (pos second)).1 v.interval;
  records =
      rw ((ltb_ℤ-false_iff cfg.max_records_per_call (pos 1)).1 v.records_low)
        ((ltb_ℤ-false_iff (pos 10000) cfg.max_records_per_call).1 v.records_high);
  policy = (contains_iff _ _).1 v.policy;
  mode = (contains_iff _ _).1 v.mode;
  auth_type = (contains_iff _ _).1 v.auth_type;
  credentials = (required_iff _ _ _ _).1 v.credentials;
  certificate = (required_iff _ _ _ _).1 v.certificate;
  severity = (contains_iff _ _).1 v.severity;
  limit = (ltb_ℤ-false_iff cfg.filter.max_log_records (pos 0)).1 v.limit;
  paths = (is_nil_iff _).1 v.paths;
}

-- `validate` accepts a configuration exactly when it satisfies `IsValid`.
pub validate_iff : (cfg : Config) → (validate cfg ≡ valid) ↔ IsValid cfg
validate_iff cfg = (
  λ h. Passes→IsValid cfg (validate→Passes cfg h),
  λ v. Passes→validate cfg (IsValid→Passes cfg v),
)
