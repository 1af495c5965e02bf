-- ===== src/Client/Endpoints.antt =====
-- `(*opcuaClient).selectEndpoint` of receiver/opcua/client.go.
pub mod Choice
use opentelemetry_collector.Common.{
  ℕ, Bool, true, false, ◌&&◌, List, [], ◌∷◌, Option, none, some, if◌then◌else◌, Text, lit, text_eq,
}
use opentelemetry_collector.Config.{Config}

-- The values of `ua.MessageSecurityMode`.
pub data SecurityMode : Type 0 where
  invalid no_security sign sign_and_encrypt : SecurityMode

-- `ua.EndpointDescription`, as far as it is read.
pub record Endpoint : Type 0 where
  pub security_policy_uri : Text
  pub security_mode : SecurityMode

abbrev pub policy_none : Text
policy_none = lit "http://opcfoundation.org/UA/SecurityPolicy#None"

abbrev pub policy_basic256 : Text
policy_basic256 = lit "http://opcfoundation.org/UA/SecurityPolicy#Basic256"

abbrev pub policy_basic256_sha256 : Text
policy_basic256_sha256 = lit "http://opcfoundation.org/UA/SecurityPolicy#Basic256Sha256"

-- The URI that a configured policy asks for, by the switch and its default.
unfoldable pub wanted_policy : Text → Text
wanted_policy policy =
    if text_eq policy (lit "None")
    then policy_none
    else if text_eq policy (lit "Basic256")
    then policy_basic256
    else if text_eq policy (lit "Basic256Sha256")
    then policy_basic256_sha256
    else policy_none

unfoldable pub wanted_mode : Text → SecurityMode
wanted_mode mode =
    if text_eq mode (lit "None")
    then no_security
    else if text_eq mode (lit "Sign")
    then sign
    else if text_eq mode (lit "SignAndEncrypt")
    then sign_and_encrypt
    else no_security

unfoldable pub same_mode : SecurityMode → SecurityMode → Bool
same_mode invalid invalid = true
same_mode no_security no_security = true
same_mode sign sign = true
same_mode sign_and_encrypt sign_and_encrypt = true
same_mode _ _ = false

-- `policyMatch && modeMatch`
unfoldable pub matches : Config → Endpoint → Bool
matches cfg ep =
    text_eq ep.security_policy_uri (wanted_policy cfg.security_policy)
    && same_mode ep.security_mode (wanted_mode cfg.security_mode)

-- The first element that passes a test.
unfoldable pub first_with : (Endpoint → Bool) → List Endpoint → Option Endpoint
first_with test [] = none
first_with test (ep ∷ eps) = let rest = first_with test eps in if test ep then some ep else rest

-- The test of the second loop.
unfoldable pub falls_back : Config → Endpoint → Bool
falls_back cfg ep = text_eq cfg.security_mode (lit "None") && same_mode ep.security_mode no_security

first_of : List Endpoint → Option Endpoint
first_of [] = none
first_of (ep ∷ eps) = some ep

or_next : Option Endpoint → Option Endpoint → Option Endpoint
or_next (some ep) next = some ep
or_next none next = next

-- `selectEndpoint`; `none` is nil.
unfoldable pub select_endpoint : Config → List Endpoint → Option Endpoint
unfolding or_next first_of
select_endpoint cfg eps =
    or_next (first_with (matches cfg) eps)
      (or_next (first_with (falls_back cfg) eps) (first_of eps))
