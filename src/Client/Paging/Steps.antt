-- ===== src/Client/Paging/Steps.antt =====
-- One round of the page loop of `GetRecords` in receiver/opcua/client.go, case by case.
use opentelemetry_collector.Common.{
  ℕ, suc, ◌+◌, ◌-◌, ◌%◌, ◌^◌, ◌≡◌, ◌⊎◌, refl, true, false, ◌||◌, inl, inr, List, [], ◌∷◌, ◌++◌,
  some, length, is_nil, leb,
}
use opentelemetry_collector.Client.Paging.{Page, failed, page, page_loop, node_loop}

pub Page-cases :
    {R : Type 0} (p : Page R)
    → (p ≡ failed) ⊎ ((records : List R) × (next : List ℕ) × (p ≡ page records next))
Page-cases failed = inl refl
Page-cases (page records next) = inr (records, next, refl)

module _ {World R : Type 0} (fetch : ℕ → List ℕ → World → Page R × World) where
  module _ (fuel limit n : ℕ) (point : List ℕ) (all : List R) (w : World) where
    -- What the round asks for.
    abbrev pub answer : Page R × World
    answer = fetch ((limit - n) % 2 ^ 32) point w

    pub page_loop_failed :
        answer.0 ≡ failed → page_loop (suc fuel) fetch limit n point all w ≡ some (all, answer.1)
    unfolding page_loop
    page_loop_failed e = rw (e, page_loop)

    module _ (records : List R) (next : List ℕ) (e : answer.0 ≡ page records next) where
      pub page_loop_last :
          (is_nil next || leb limit (n + length records)) ≡ true
          → page_loop (suc fuel) fetch limit n point all w ≡ some (all ++ records, answer.1)
      unfolding page_loop
      page_loop_last h = rw (e, page_loop) (rw h)

      pub page_loop_more :
          (is_nil next || leb limit (n + length records)) ≡ false
          → page_loop (suc fuel) fetch limit n point all w
            ≡ page_loop fuel fetch limit (n + length records) next (all ++ records) answer.1
      unfolding page_loop
      page_loop_more h = rw (e, page_loop) (rw h)

module _ {World R Node : Type 0} (fetch : Node → ℕ → List ℕ → World → Page R × World) where
  pub node_loop_next :
      (fuel limit : ℕ) (node : Node) (nodes : List Node) (all all' : List R) (w w' : World)
      → page_loop fuel (fetch node) limit 0 [] all w ≡ some (all', w')
      → node_loop fuel fetch limit (node ∷ nodes) all w ≡ node_loop fuel fetch limit nodes all' w'
  unfolding node_loop
  node_loop_next fuel limit node nodes all all' w w' e = rw (e, node_loop)
