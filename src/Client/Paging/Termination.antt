-- ===== src/Client/Paging/Termination.antt =====
-- When the loops of `GetRecords` in receiver/opcua/client.go end.
use opentelemetry_collector.Common.{
  ℕ, zero, suc, ◌+◌, ◌-◌, ◌%◌, ◌^◌, ◌<◌, ◌≡◌, ◌≢◌, refl, ◌∙◌, ◌||◌, Bool-cases, inl, inr, List, [],
  ◌∷◌, ◌++◌, none, some, length, is_nil, leb, arith,
}
use opentelemetry_collector.Client.Paging.{Page, page, page_loop, node_loop}
use opentelemetry_collector.Client.Paging.Steps.{
  Page-cases, answer, page_loop_failed, page_loop_last, page_loop_more,
}

module _ {World R : Type 0} where
  -- If a record is asked for, a page that has a continuation point has at least one.
  abbrev pub Progresses : (ℕ → List ℕ → World → Page R × World) → Type 0
  Progresses fetch =
      (asked : ℕ) (point : List ℕ) (w : World) (records : List R) (next : List ℕ)
      → (fetch asked point w).0 ≡ page records next
      → next ≢ []
      → 0 < asked
      → 0 < length records

  -- Every page is empty and has a continuation point.
  abbrev pub Stalls : (ℕ → List ℕ → World → Page R × World) → Type 0
  Stalls fetch =
      (asked : ℕ) (point : List ℕ) (w : World)
      → (next : List ℕ) × ((fetch asked point w).0 ≡ page [] next) × (next ≢ [])

pub asked_pos : {limit n : ℕ} → limit < 2 ^ 32 → n < limit → 0 < (limit - n) % 2 ^ 32
asked_pos u h = omega arith

module _ {World R : Type 0} (fetch : ℕ → List ℕ → World → Page R × World) (limit : ℕ) where
  page_loop_total :
      Progresses fetch
      → limit < 2 ^ 32
      → (fuel n : ℕ) (point : List ℕ) (all : List R) (w : World) → n < limit
      → limit < n + fuel
      → (r : List R × World) × (page_loop fuel fetch limit n point all w ≡ some r)
  page_loop_total p u zero n point all w h k = absurd (omega arith)
  page_loop_total p u (suc fuel) n point all w h k =
      elim (Page-cases (answer fetch fuel limit n point all w).0) [
        | inl e ↦ (_, page_loop_failed fetch fuel limit n point all w e)
        | inr (records, next, e) ↦
            elim (Bool-cases (is_nil next || leb limit (n + length records))) [
              | inl stop ↦ (_, page_loop_last fetch fuel limit n point all w records next e stop)
              | inr more ↦
                  let some_records = p _ point w records next e (ground arith) (asked_pos u h) in
                  let (r, got) =
                    page_loop_total p u fuel (n + length records) next (all ++ records)
                      (answer fetch fuel limit n point all w).1 (ground arith) (omega arith) in
                  (r, page_loop_more fetch fuel limit n point all w records next e more ∙ got)
            ]
      ]

  -- If every page is empty and has a continuation point, the loop never ends.
  page_loop-Stalls :
      Stalls fetch
      → (fuel n : ℕ) (point : List ℕ) (all : List R) (w : World) → n < limit
      → page_loop fuel fetch limit n point all w ≡ none
  page_loop-Stalls s zero n point all w h = unfold page_loop in refl
  page_loop-Stalls s (suc fuel) n point all w h =
      let (next, e, ne) = s _ point w in
      page_loop_more fetch fuel limit n point all w [] next e (ground arith)
      ∙ page_loop-Stalls s fuel (n + 0) next (all ++ []) _ (omega arith)

module _ {World R Node : Type 0} (fetch : Node → ℕ → List ℕ → World → Page R × World) where
  -- If every page that has a continuation point has a record, and the limit is not 0 and fits a
  -- uint32, the loops over the nodes and their pages end, with fuel for one page more than the
  -- number of records asked of each node.
  pub node_loop_total :
      (limit : ℕ)
      → 0 < limit
      → limit < 2 ^ 32
      → ((node : Node) → Progresses (fetch node))
      → (nodes : List Node) (all : List R) (w : World)
      → (r : List R × World) × (node_loop (limit + 1) fetch limit nodes all w ≡ some r)
  unfolding node_loop
  node_loop_total limit h u p [] all w = ((all, w), refl)
  node_loop_total limit h u p (node ∷ nodes) all w =
      let ((all', w'), e) =
        page_loop_total (fetch node) limit (p node) u (limit + 1) 0 [] all w h (omega arith) in
      let (r, got) = node_loop_total limit h u p nodes all' w' in (r, rw (e, node_loop) got)

  -- If the pages of the first node are all empty and all have a continuation point, and the limit
  -- is not 0, no fuel is enough: the loop over its pages never ends.
  pub node_loop-Stalls :
      (limit : ℕ)
      → 0 < limit
      → (node : Node) → Stalls (fetch node)
      → (fuel : ℕ) (nodes : List Node) (all : List R) (w : World)
      → node_loop fuel fetch limit (node ∷ nodes) all w ≡ none
  unfolding node_loop
  node_loop-Stalls limit h node s fuel nodes all w =
      rw (page_loop-Stalls (fetch node) limit s fuel 0 [] all w h, node_loop)
