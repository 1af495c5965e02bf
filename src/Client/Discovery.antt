-- ===== src/Client/Discovery.antt =====
-- The discovery of LogObject nodes in receiver/opcua/client.go, and `Connect`, which it is part of.
pub mod Found
pub mod Kept
use opentelemetry_collector.Common.{
  ℕ, ◌==◌, ◌&&◌, ◌||◌, Bool, true, false, not, List, [], ◌∷◌, Option, none, some, is_nil,
  if◌then◌else◌, Text, lit, text_eq,
}
use opentelemetry_collector.Client.Endpoints.{Endpoint, select_endpoint}
use opentelemetry_collector.Config.{Config}
use opentelemetry_collector.Ua.NodeIds.{NodeIdApi}

-- The services of a server as gopcua gives them, with a state of their own.
pub record Services (NodeId : Type 0) : Type 1 where
  pub World : Type 0
  -- `opcua.GetEndpoints`; `none` is an error.
  pub get_endpoints : Text → World → Option (List Endpoint) × World
  -- `opcua.NewClient` with the options that the endpoint and the configuration make.
  pub new_client : Config → Endpoint → World → Bool × World
  pub connect_client : World → Bool × World
  pub close_client : World → Bool × World
  -- `State() == opcua.Connected`
  pub is_up : World → Bool × World
  -- `Read` of a node's class: an error, or the results' status codes.
  pub read_node_class : NodeId → World → Option (List ℕ) × World

-- `opcuaClient`; `has_client` tells whether `client` is not nil.
pub record OpcuaClient (NodeId : Type 0) : Type 0 where
  pub config : Config
  pub has_client : Bool
  pub log_object_ids : List NodeId

-- `newOPCUAClient`
unfoldable pub new_opcua_client : (NodeId : Type 0) → Config → OpcuaClient NodeId
new_opcua_client NodeId config = record { config = config; has_client = false; log_object_ids = [] }

-- The keys of `knownPaths`.
unfoldable pub is_known_path : Text → Bool
is_known_path path =
    text_eq path (lit "Objects/ServerLog")
    || text_eq path (lit "Objects/Server/ServerLog")
    || text_eq path (lit "ServerLog")
    || text_eq path (lit "Objects/Server/ServerDiagnostics/ServerLog")

module _ (ua : NodeIdApi) where
  open ua use {NodeId, new_numeric, parse}

  -- `resolveBrowsePath`
  unfoldable pub resolve_browse_path : Text → Option NodeId
  resolve_browse_path path = if is_known_path path then some (new_numeric 0 2042) else none

  parsed_or_known : Text → Option NodeId → Option NodeId
  parsed_or_known path (some n) = some n
  parsed_or_known path none = resolve_browse_path path

  -- `translateBrowsePathToNodeID`; `none` is its error.
  unfoldable pub translate_browse_path_to_node_id : Text → Option NodeId
  unfolding parsed_or_known
  translate_browse_path_to_node_id path = parsed_or_known path (parse path)

module _ (ua : NodeIdApi) (services : Services (ua.NodeId)) where
  open ua use {NodeId, new_numeric}
  open services use {
    World, get_endpoints, new_client, connect_client, close_client, is_up, read_node_class,
  }

  -- A status code of 0 is `ua.StatusOK`.
  abbrev is_accessible : Option (List ℕ) → Bool
  is_accessible none = false
  is_accessible (some []) = false
  is_accessible (some (status ∷ statuses)) = status == 0

  -- `verifyNodeExists`
  unfoldable pub verify_node_exists : NodeId → World → Bool × World
  verify_node_exists n w = let (results, w') = read_node_class n w in (is_accessible results, w')

  keep_if : Bool → NodeId → List NodeId → List NodeId
  keep_if true n found = n ∷ found
  keep_if false n found = found

  -- The loop of `discoverLogObjects` over the paths: the nodes found, in the order of the paths.
  unfoldable pub discover_paths : List Text → World → List NodeId × World
  unfolding keep_if
  discover_paths [] w = ([], w)
  discover_paths (path ∷ paths) w = elim (translate_browse_path_to_node_id ua path) [
    | none ↦ discover_paths paths w
    | some n ↦
        let (ok, w') = verify_node_exists n w in
        let (found, w'') = discover_paths paths w' in (keep_if ok n found, w'')
  ]

  -- The nodes are kept only if there are any.
  settle : OpcuaClient NodeId → List NodeId × World → Bool × OpcuaClient NodeId × World
  settle c ([], w) = (false, c, w)
  settle c (n ∷ found, w) = (true, record c { log_object_ids = n ∷ found }, w)

  -- `discoverLogObjects`
  unfoldable pub discover_log_objects :
      OpcuaClient NodeId → World → Bool × OpcuaClient NodeId × World
  unfolding settle
  discover_log_objects c w =
      if is_nil c.config.log_object_paths
      then (false, c, w)
      else settle c (discover_paths c.config.log_object_paths w)

  -- `tryDefaultServerLog`
  unfoldable pub try_default_server_log :
      OpcuaClient NodeId → World → Bool × OpcuaClient NodeId × World
  try_default_server_log c w =
      let (ok, w') = verify_node_exists (new_numeric 0 2042) w in
      (ok, (if ok then record c { log_object_ids = new_numeric 0 2042 ∷ [] } else c), w')

  -- The last test of `Connect`.
  confirm : Bool × OpcuaClient NodeId × World → Bool × OpcuaClient NodeId × World
  confirm (true, c, w) = (not (is_nil c.log_object_ids), c, w)
  confirm (false, c, w) = (false, c, w)

  with_fallback : Bool × OpcuaClient NodeId × World → Bool × OpcuaClient NodeId × World
  with_fallback (true, c, w) = confirm (true, c, w)
  with_fallback (false, c, w) = confirm (try_default_server_log c w)

  discover_connected : OpcuaClient NodeId → Bool × World → Bool × OpcuaClient NodeId × World
  discover_connected c (true, w) = with_fallback (discover_log_objects c w)
  discover_connected c (false, w) = (false, c, w)

  -- A client that has been made is kept, whether or not it connects.
  connect_made : OpcuaClient NodeId → Bool × World → Bool × OpcuaClient NodeId × World
  connect_made c (true, w) = discover_connected (record c { has_client = true }) (connect_client w)
  connect_made c (false, w) = (false, c, w)

  connect_to : OpcuaClient NodeId → Option Endpoint → World → Bool × OpcuaClient NodeId × World
  connect_to c none w = (false, c, w)
  connect_to c (some ep) w = connect_made c (new_client c.config ep w)

  choose : OpcuaClient NodeId → Option (List Endpoint) × World → Bool × OpcuaClient NodeId × World
  choose c (none, w) = (false, c, w)
  choose c (some eps, w) =
      if is_nil eps then (false, c, w) else connect_to c (select_endpoint c.config eps) w

  -- `Connect`: whether it returned nil, and the client and the server behind it.
  unfoldable pub connect : OpcuaClient NodeId → World → Bool × OpcuaClient NodeId × World
  unfolding choose connect_to connect_made discover_connected with_fallback confirm
  connect c w = choose c (get_endpoints c.config.endpoint w)

  -- `Disconnect`: the client is kept if closing fails.
  unfoldable pub disconnect : OpcuaClient NodeId → World → Bool × OpcuaClient NodeId × World
  disconnect c w =
      if c.has_client
      then (let (ok, w') = close_client w in
          (ok, (if ok then record c { has_client = false } else c), w'))
      else (true, c, w)

  -- `IsConnected`
  unfoldable pub is_connected : OpcuaClient NodeId → World → Bool × World
  is_connected c w = if c.has_client then is_up w else (false, w)
