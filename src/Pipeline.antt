-- ===== src/Pipeline.antt =====
-- The receiver of receiver/opcua/receiver.go and scraper.go over its own client: the environment of
-- the scraper that `newOPCUAClient` of receiver/opcua/client.go makes.
pub mod Answered
pub mod Collected
pub mod Healthy
pub mod Attributes
pub mod Order
pub mod Traced
use opentelemetry_collector.Common.{ℕ, ◌+◌, Bool, List, Option, none, some, length, ℤ, Text}
use opentelemetry_collector.Client.Calls.{
  CallServices, BrowseResult, CallRequest, CallResult, get_records,
}
use opentelemetry_collector.Client.Discovery.{
  Services, OpcuaClient, connect, disconnect, is_connected,
}
use opentelemetry_collector.Client.Endpoints.{Endpoint}
use opentelemetry_collector.Client.Paging.{share}
use opentelemetry_collector.Config.{Config}
use opentelemetry_collector.Scraper.{Env}
use opentelemetry_collector.Ua.Buffers.{BufferApi}
use opentelemetry_collector.Ua.NodeIds.{NodeIdApi}
use opentelemetry_collector.Value.{Time, OpcuaLogRecord}

-- All that the client uses of gopcua and of the server behind it, with one state.
pub record Gopcua (NodeId : Type 0) : Type 1 where
  pub World : Type 0
  pub get_endpoints : Text → World → Option (List Endpoint) × World
  pub new_client : Config → Endpoint → World → Bool × World
  pub connect_client : World → Bool × World
  pub close_client : World → Bool × World
  pub is_up : World → Bool × World
  pub read_node_class : NodeId → World → Option (List ℕ) × World
  pub browse : NodeId → Bool → World → Option (List (BrowseResult NodeId)) × World
  pub call : CallRequest NodeId → World → Option (CallResult NodeId) × World

abbrev pub services_of : {NodeId : Type 0} → Gopcua NodeId → Services NodeId
services_of g = record {
  World = g.World;
  get_endpoints = g.get_endpoints;
  new_client = g.new_client;
  connect_client = g.connect_client;
  close_client = g.close_client;
  is_up = g.is_up;
  read_node_class = g.read_node_class;
}

abbrev pub calls_of : {NodeId : Type 0} → Gopcua NodeId → CallServices NodeId
calls_of g = record { World = g.World; browse = g.browse; call = g.call }

-- The next consumer and the clock.
pub record Outside (Logs : Type 0) : Type 1 where
  pub World : Type 0
  pub now : World → Time × World
  pub readings : World → (ℕ → Time) × World
  pub consume_logs : Logs → World → Bool × World

module _ (ua : NodeIdApi) (bufs : BufferApi) (g : Gopcua (ua.NodeId)) {Logs : Type 0}
    (outside : Outside Logs) where
  open ua use {NodeId}

  -- The client, the server, and what is outside.
  abbrev pub Whole : Type 0
  Whole = OpcuaClient NodeId × g.World × outside.World

  abbrev pub rejoin : {A : Type 0} → outside.World → A × OpcuaClient NodeId × g.World → A × Whole
  rejoin o (a, c, w) = (a, (c, w, o))

  -- A `GetRecords` that has used up its fuel counts as an error.
  abbrev pub end_of_call :
      Whole → Option (Option (List OpcuaLogRecord) × g.World) → Option (List OpcuaLogRecord) × Whole
  end_of_call (c, w, o) none = (none, (c, w, o))
  end_of_call (c, w, o) (some (result, w')) = (result, (c, w', o))

  -- The methods of `OPCUAClient` are those of `opcuaClient`. The fuel is one more than the share
  -- of each node.
  abbrev pub client_env : Env Logs
  client_env = record {
    World = Whole;
    connect = λ (c, w, o). rejoin o (connect ua (services_of g) c w);
    disconnect = λ (c, w, o). rejoin o (disconnect ua (services_of g) c w);
    is_connected =
        λ (c, w, o). let (up, w') = is_connected ua (services_of g) c w in (up, (c, w', o));
    get_records = λ start_time end_time max_records (c, w, o).
        let fuel = share max_records (length c.log_object_ids) + 1 in
        end_of_call (c, w, o)
          (get_records ua bufs (calls_of g) fuel c start_time end_time max_records w);
    now = λ (c, w, o). let (t, o') = outside.now o in (t, (c, w, o'));
    readings = λ (c, w, o). let (clock, o') = outside.readings o in (clock, (c, w, o'));
    consume_logs = λ logs (c, w, o). let (ok, o') = outside.consume_logs logs o in (ok, (c, w, o'));
  }
