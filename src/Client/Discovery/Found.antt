-- ===== src/Client/Discovery/Found.antt =====
-- What `discoverLogObjects` and `Connect` of receiver/opcua/client.go leave in the client.
use opentelemetry_collector.Common.{
  ◌≡◌, ◌≢◌, refl, ◌∙◌, ap, Bool, true, false, Bool-cases, inl, inr, List, [], ◌∷◌, Option, none,
  some, Option-cases, is_nil, not, if◌then◌else◌, Text, arith,
}
use opentelemetry_collector.Client.Endpoints.{Endpoint}
use opentelemetry_collector.Client.Discovery.{
  Services, OpcuaClient, translate_browse_path_to_node_id, verify_node_exists, keep_if,
  discover_paths, settle, discover_log_objects, try_default_server_log, confirm, with_fallback,
  discover_connected, connect_made, connect_to, choose, connect,
}
use opentelemetry_collector.Ua.NodeIds.{NodeIdApi}

module _ {A B : Type 0} where
  -- The results of a partial function, without those that a test refuses.
  unfoldable pub results_of : (A → Option B) → (B → Bool) → List A → List B
  results_of f test [] = []
  results_of f test (a ∷ l) = elim (f a) [
    | none ↦ results_of f test l
    | some b ↦ if test b then b ∷ results_of f test l else results_of f test l
  ]

module _ (ua : NodeIdApi) (services : Services (ua.NodeId)) where
  open ua use {NodeId}
  open services use {World}

  kept :
      (b : Bool) (n : NodeId) (found expected : List NodeId)
      → found ≡ expected
      → keep_if ua services b n found ≡ (if b then n ∷ expected else expected)
  unfolding keep_if
  kept true n found expected h = ap (λ (ns : List NodeId). n ∷ ns) h
  kept false n found expected h = h

  -- If the server always gives the same answer about a node, the nodes that the loop finds are
  -- those of the configured paths that resolve and that the server confirms, in the order of the
  -- paths.
  pub discover_paths-results_of :
      (confirms : NodeId → Bool)
      → ((n : NodeId) (w : World) → (verify_node_exists ua services n w).0 ≡ confirms n)
      → (paths : List Text) (w : World)
      → (discover_paths ua services paths w).0
        ≡ results_of (translate_browse_path_to_node_id ua) confirms paths
  unfolding discover_paths results_of
  discover_paths-results_of confirms h [] w = refl
  discover_paths-results_of confirms h (path ∷ paths) w =
      elim (Option-cases (translate_browse_path_to_node_id ua path)) [
        | inl e ↦ rw (e, discover_paths, results_of) (discover_paths-results_of confirms h paths w)
        | inr (n, e) ↦
            rw (e, discover_paths, results_of, h n w)
              (kept (confirms n) n _ _ (discover_paths-results_of confirms h paths _))
      ]

  -- A client whose `GetRecords` has something to ask.
  abbrev pub IsReady : OpcuaClient NodeId → Type 0
  IsReady c = (c.has_client ≡ true) × (c.log_object_ids ≢ [])

  -- What holds if an operation returned nil.
  abbrev pub Then : (OpcuaClient NodeId → Type 0) → Bool × OpcuaClient NodeId × World → Type 0
  Then P (true, c, w) = P c
  Then P (false, c, w) = Unit

  not_nil : (ns : List NodeId) → is_nil ns ≡ false → ns ≢ []
  not_nil [] h e = cc
  not_nil (n ∷ ns) h e = cc

  has_client-settle :
      (c : OpcuaClient NodeId) (found : List NodeId × World)
      → (settle ua services c found).1.has_client ≡ c.has_client
  unfolding settle
  has_client-settle c ([], w) = refl
  has_client-settle c (n ∷ found, w) = refl

  has_client-discover :
      (c : OpcuaClient NodeId) (w : World)
      → (discover_log_objects ua services c w).1.has_client ≡ c.has_client
  unfolding discover_log_objects
  has_client-discover c w = elim (Bool-cases (is_nil c.config.log_object_paths)) [
    | inl empty ↦ simp empty
    | inr some_paths ↦ simp some_paths (has_client-settle c _)
  ]

  has_client-default :
      (c : OpcuaClient NodeId) (w : World)
      → (try_default_server_log ua services c w).1.has_client ≡ c.has_client
  unfolding try_default_server_log
  has_client-default c w =
      elim (Bool-cases (verify_node_exists ua services (ua.new_numeric 0 2042) w).0) [
        | inl ok ↦ simp ok
        | inr failed ↦ simp failed
      ]

  nodes_present :
      (c : OpcuaClient NodeId) (w : World) (b : Bool)
      → not (is_nil c.log_object_ids) ≡ b
      → c.has_client ≡ true
      → Then IsReady (b, c, w)
  nodes_present c w true e h = (h, not_nil c.log_object_ids (ground arith))
  nodes_present c w false e h = tt

  confirm-IsReady :
      (b : Bool) (c : OpcuaClient NodeId) (w : World)
      → c.has_client ≡ true
      → Then IsReady (confirm ua services (b, c, w))
  unfolding confirm
  confirm-IsReady true c w h = nodes_present c w _ refl h
  confirm-IsReady false c w h = tt

  with_fallback-IsReady :
      (b : Bool) (c : OpcuaClient NodeId) (w : World)
      → c.has_client ≡ true
      → Then IsReady (with_fallback ua services (b, c, w))
  unfolding with_fallback
  with_fallback-IsReady true c w h = confirm-IsReady true c w h
  with_fallback-IsReady false c w h = confirm-IsReady _ _ _ (has_client-default c w ∙ h)

  discover_connected-IsReady :
      (c : OpcuaClient NodeId) (b : Bool) (w : World)
      → c.has_client ≡ true
      → Then IsReady (discover_connected ua services c (b, w))
  unfolding discover_connected
  discover_connected-IsReady c true w h = with_fallback-IsReady _ _ _ (has_client-discover c w ∙ h)
  discover_connected-IsReady c false w h = tt

  connect_made-IsReady :
      (c : OpcuaClient NodeId) (b : Bool) (w : World)
      → Then IsReady (connect_made ua services c (b, w))
  unfolding connect_made
  connect_made-IsReady c true w =
      discover_connected-IsReady (record c { has_client = true }) _ _ refl
  connect_made-IsReady c false w = tt

  connect_to-IsReady :
      (c : OpcuaClient NodeId) (o : Option Endpoint) (w : World)
      → Then IsReady (connect_to ua services c o w)
  unfolding connect_to
  connect_to-IsReady c none w = tt
  connect_to-IsReady c (some ep) w = connect_made-IsReady c _ _

  choose-IsReady :
      (c : OpcuaClient NodeId) (o : Option (List Endpoint)) (w : World)
      → Then IsReady (choose ua services c (o, w))
  unfolding choose
  choose-IsReady c none w = tt
  choose-IsReady c (some []) w = tt
  choose-IsReady c (some (ep ∷ eps)) w = connect_to-IsReady c _ w

  -- Whatever the server answers, a `Connect` that returns nil leaves the client with a connection
  -- and at least one LogObject node, so that neither error of `GetRecords` can follow.
  pub connect-IsReady :
      (c : OpcuaClient NodeId) (w : World) → Then IsReady (connect ua services c w)
  unfolding connect
  connect-IsReady c w = choose-IsReady c _ _
