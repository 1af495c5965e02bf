-- ===== src/Transformer/Resource.antt =====
-- The resource attributes that receiver/opcua/transformer.go sets.
use opentelemetry_collector.Common.{
  ℕ, ◌≡◌, refl, ap, ◌∙◌, Bool-cases, Option-cases, not, ◌&&◌, inl, inr, Option, none, some,
  is_empty, if◌then◌else◌, Text, lit, text_eq, arith,
}
use opentelemetry_collector.Pdata.{Attribute, PdataApi}
use opentelemetry_collector.Transformer.{
  Transformer, StdApi, set_resource_attributes, put_endpoint, put_server, put_port,
}

module _ (pdata : PdataApi) (std : StdApi) where
  open pdata use {Map, get, put_str, new_map}

  -- An entry that was there stays where nothing new is told of its key.
  abbrev or_old : Option Attribute → Option Attribute → Option Attribute
  or_old (some a) old = some a
  or_old none old = old

  -- The address and the port of the server, as far as the endpoint tells them: a host that does not
  -- split is the address as it stands, and a port that is no number is left out.
  abbrev port_attribute : Option ℕ → Text → Option Attribute
  port_attribute none k = none
  port_attribute (some port) k =
      if text_eq (lit "server.port") k then some (Attribute.int port) else none

  abbrev server_attribute : Text → Option (Text × Text) → Text → Option Attribute
  server_attribute host none k =
      if text_eq (lit "server.address") k then some (Attribute.str host) else none
  server_attribute host (some (name, port)) k =
      or_old (port_attribute (std.parse_int port) k)
        (if text_eq (lit "server.address") k then some (Attribute.str name) else none)

  abbrev endpoint_attribute : Option Text → Text → Option Attribute
  endpoint_attribute none k = none
  endpoint_attribute (some host) k =
      if is_empty host then none else server_attribute host (std.split_host_port host) k

  abbrev service_attribute : Transformer → Text → Option Attribute
  service_attribute t k =
      if text_eq (lit "service.namespace") k && not (is_empty t.service_namespace)
      then some (Attribute.str t.service_namespace)
      else if text_eq (lit "service.name") k
      then some (Attribute.str t.service_name)
      else none

  -- What stands under a key of the resource attributes.
  unfoldable pub resource_attribute : Transformer → Text → Option Attribute
  resource_attribute t k =
      or_old (endpoint_attribute (std.parse_host t.server_endpoint) k) (service_attribute t k)

  get-put_port :
      (m : Map) (port : Option ℕ) (k : Text)
      → get (put_port pdata std m port) k ≡ or_old (port_attribute port k) (get m k)
  unfolding put_port
  get-put_port m none k = refl
  get-put_port m (some port) k = rw pdata.get-put_int (ground arith)

  get-put_server :
      (m : Map) (host : Text) (o : Option (Text × Text)) (k : Text)
      → get (put_server pdata std m host o) k ≡ or_old (server_attribute host o k) (get m k)
  unfolding put_server
  get-put_server m host none k = rw pdata.get-put_str (ground arith)
  get-put_server m host (some (name, port)) k =
      get-put_port (put_str m (lit "server.address") name) (std.parse_int port) k
      ∙ elim (Option-cases (std.parse_int port)) [
        | inl e ↦ rw (e, pdata.get-put_str) (ground arith)
        | inr (n, e) ↦ rw (e, pdata.get-put_str) (ground arith)
      ]

  get-put_endpoint :
      (m : Map) (o : Option Text) (k : Text)
      → get (put_endpoint pdata std m o) k ≡ or_old (endpoint_attribute o k) (get m k)
  unfolding put_endpoint
  get-put_endpoint m none k = refl
  get-put_endpoint m (some host) k = elim (Bool-cases (is_empty host)) [
    | inl no_host ↦ rw no_host
    | inr there ↦ rw there (get-put_server m host (std.split_host_port host) k)
  ]

  -- Under every key the resource attributes hold what the endpoint tells of the server's address
  -- and port, the namespace if there is one, and the name of the service; and nothing under any
  -- other key.
  pub get-set_resource_attributes :
      (t : Transformer) (k : Text)
      → get (set_resource_attributes pdata std t new_map) k ≡ resource_attribute t k
  unfolding set_resource_attributes resource_attribute
  get-set_resource_attributes t k = elim (Bool-cases (is_empty t.service_namespace)) [
    | inl no_namespace ↦ rw no_namespace (
        get-put_endpoint _ (std.parse_host t.server_endpoint) k
        ∙ ap (or_old (endpoint_attribute (std.parse_host t.server_endpoint) k))
            (simp (pdata.get-put_str, pdata.get-new_map) (ground arith)))
    | inr namespace ↦ rw namespace (
        get-put_endpoint _ (std.parse_host t.server_endpoint) k
        ∙ ap (or_old (endpoint_attribute (std.parse_host t.server_endpoint) k))
            (simp (pdata.get-put_str, pdata.get-new_map) (ground arith)))
  ]
