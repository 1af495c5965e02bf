-- ===== src/Client/Paging.antt =====
-- The loops of `(*opcuaClient).GetRecords` in receiver/opcua/client.go, over any function that
-- fetches one page, as `callGetRecordsMethod` does.
mod Steps
pub mod Termination
pub mod Bounds
pub mod Complete
pub mod Restart
pub mod Keeps
use opentelemetry_collector.Common.{
  ℕ, zero, suc, ◌+◌, ◌-◌, ◌/◌, ◌%◌, ◌^◌, ◌||◌, List, [], ◌∷◌, ◌++◌, Option, none, some, length,
  is_nil, leb, ltb, if◌then◌else◌, ℤ, quot_ℕ, pos, pos_part, ltb_ℤ,
}

-- One page: an error, or its records and the next continuation point.
pub data Page (R : Type 0) : Type 0 where
  failed : Page R
  page : List R → List ℕ → Page R

-- `recordsPerNode`: an equal share of the limit for each node, and at least 1.
unfoldable pub share : ℤ → ℕ → ℕ
share max_records nodes =
    let each = quot_ℕ max_records nodes in if ltb_ℤ each (pos 1) then 1 else pos_part each

-- `World` is the state of everything behind the client: the connection and the server.
module _ {World R : Type 0} where
  -- The loop over the pages of one node. `fetch` takes the number of records asked for, a uint32,
  -- and the continuation point. The result is what has been collected and the world behind it;
  -- `none` means that the fuel ran out.
  unfoldable pub page_loop :
      ℕ
      → (ℕ → List ℕ → World → Page R × World)
      → (limit node_records : ℕ) (point : List ℕ) → List R
      → World
      → Option (List R × World)
  page_loop zero fetch limit node_records point all w = none
  page_loop (suc fuel) fetch limit node_records point all w =
      let answer = fetch ((limit - node_records) % 2 ^ 32) point w in
      elim answer.0 [
        | failed ↦ some (all, answer.1)
        | page records next ↦
            let got = node_records + length records in
            let more = page_loop fuel fetch limit got next (all ++ records) answer.1 in
            if is_nil next || leb limit got then some (all ++ records, answer.1) else more
      ]

  -- The loop over the nodes; each starts with no continuation point and nothing counted.
  unfoldable pub node_loop :
      {Node : Type 0}
      → ℕ
      → (Node → ℕ → List ℕ → World → Page R × World)
      → ℕ
      → List Node
      → List R
      → World
      → Option (List R × World)
  node_loop fuel fetch limit [] all w = some (all, w)
  node_loop fuel fetch limit (node ∷ nodes) all w =
      elim (page_loop fuel (fetch node) limit 0 [] all w) [
        | none ↦ none
        | some (all', w') ↦ node_loop fuel fetch limit nodes all' w'
      ]
