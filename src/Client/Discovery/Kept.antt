-- ===== src/Client/Discovery/Kept.antt =====
-- What `Connect` and `Disconnect` of receiver/opcua/client.go keep of the LogObject nodes.
use opentelemetry_collector.Common.{
  ◌≢◌, Bool, true, false, Bool-cases, inl, inr, List, [], ◌∷◌, Option, none, some, is_nil,
}
use opentelemetry_collector.Client.Endpoints.{Endpoint}
use opentelemetry_collector.Client.Discovery.{
  Services, OpcuaClient, verify_node_exists, settle, discover_log_objects, try_default_server_log,
  confirm, with_fallback, discover_connected, connect_made, connect_to, choose, connect, disconnect,
}
use opentelemetry_collector.Ua.NodeIds.{NodeIdApi}

-- A client that has found nodes.
abbrev pub HasNodes : {NodeId : Type 0} → OpcuaClient NodeId → Type 0
HasNodes c = c.log_object_ids ≢ []

module _ (ua : NodeIdApi) (services : Services (ua.NodeId)) where
  open ua use {NodeId}
  open services use {World}

  settle-HasNodes :
      (c : OpcuaClient NodeId) (found : List NodeId × World)
      → HasNodes c
      → HasNodes (settle ua services c found).1
  unfolding settle
  settle-HasNodes c ([], w) h = h
  settle-HasNodes c (n ∷ found, w) h = λ e. cc

  discover-HasNodes :
      (c : OpcuaClient NodeId) (w : World)
      → HasNodes c
      → HasNodes (discover_log_objects ua services c w).1
  unfolding discover_log_objects
  discover-HasNodes c w h = elim (Bool-cases (is_nil c.config.log_object_paths)) [
    | inl empty ↦ simp empty h
    | inr some_paths ↦ simp some_paths (settle-HasNodes c _ h)
  ]

  default-HasNodes :
      (c : OpcuaClient NodeId) (w : World)
      → HasNodes c
      → HasNodes (try_default_server_log ua services c w).1
  unfolding try_default_server_log
  default-HasNodes c w h =
      elim (Bool-cases (verify_node_exists ua services (ua.new_numeric 0 2042) w).0) [
        | inl ok ↦ simp ok (λ e. cc)
        | inr failed ↦ simp failed h
      ]

  confirm-HasNodes :
      (b : Bool) (c : OpcuaClient NodeId) (w : World)
      → HasNodes c
      → HasNodes (confirm ua services (b, c, w)).1
  unfolding confirm
  confirm-HasNodes true c w h = h
  confirm-HasNodes false c w h = h

  with_fallback-HasNodes :
      (b : Bool) (c : OpcuaClient NodeId) (w : World)
      → HasNodes c
      → HasNodes (with_fallback ua services (b, c, w)).1
  unfolding with_fallback
  with_fallback-HasNodes true c w h = confirm-HasNodes true c w h
  with_fallback-HasNodes false c w h = confirm-HasNodes _ _ _ (default-HasNodes c w h)

  connected-HasNodes :
      (b : Bool) (c : OpcuaClient NodeId) (w : World)
      → HasNodes c
      → HasNodes (discover_connected ua services c (b, w)).1
  unfolding discover_connected
  connected-HasNodes true c w h = with_fallback-HasNodes _ _ _ (discover-HasNodes c w h)
  connected-HasNodes false c w h = h

  made-HasNodes :
      (b : Bool) (c : OpcuaClient NodeId) (w : World)
      → HasNodes c
      → HasNodes (connect_made ua services c (b, w)).1
  unfolding connect_made
  made-HasNodes true c w h = connected-HasNodes _ (record c { has_client = true }) _ h
  made-HasNodes false c w h = h

  connect_to-HasNodes :
      (o : Option Endpoint) (c : OpcuaClient NodeId) (w : World)
      → HasNodes c
      → HasNodes (connect_to ua services c o w).1
  unfolding connect_to
  connect_to-HasNodes none c w h = h
  connect_to-HasNodes (some ep) c w h = made-HasNodes _ c _ h

  choose-HasNodes :
      (o : Option (List Endpoint)) (c : OpcuaClient NodeId) (w : World)
      → HasNodes c
      → HasNodes (choose ua services c (o, w)).1
  unfolding choose
  choose-HasNodes none c w h = h
  choose-HasNodes (some []) c w h = h
  choose-HasNodes (some (ep ∷ eps)) c w h = connect_to-HasNodes _ c _ h

  -- `Connect` never takes the nodes from a client that has some, and neither does `Disconnect`.
  pub connect-HasNodes :
      (c : OpcuaClient NodeId) (w : World) → HasNodes c → HasNodes (connect ua services c w).1
  unfolding connect
  connect-HasNodes c w h = choose-HasNodes _ c _ h

  pub disconnect-HasNodes :
      (c : OpcuaClient NodeId) (w : World) → HasNodes c → HasNodes (disconnect ua services c w).1
  unfolding disconnect
  disconnect-HasNodes c w h = elim (Bool-cases c.has_client) [
    | inl there ↦ elim (Bool-cases (services.close_client w).0) [
      | inl ok ↦ simp (there, ok) h
      | inr failed ↦ simp (there, failed) h
    ]
    | inr gone ↦ simp gone h
  ]
