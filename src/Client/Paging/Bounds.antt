-- ===== src/Client/Paging/Bounds.antt =====
-- How many records `GetRecords` of receiver/opcua/client.go collects from a server that never
-- sends more than it is asked for.
use opentelemetry_collector.Common.{
  ℕ, zero, suc, ◌+◌, ◌-◌, ◌*◌, ◌^◌, ◌≤◌, ◌<◌, ◌≡◌, ◌⊎◌, sym, ◌∙◌, ◌||◌, Bool-cases, Option-cases,
  inl, inr, List, [], ◌∷◌, ◌++◌, some, length, length-append, is_nil, leb, ℤ, pos, negsuc, pos_part,
  arith,
}
use native.Mathlib.Nat.{mul-suc, mod-le, div-mul-le_self, div-le_self}
use opentelemetry_collector.Client.Paging.{Page, page, share, page_loop, node_loop}
use opentelemetry_collector.Client.Paging.Steps.{
  Page-cases, answer, page_loop_failed, page_loop_last, page_loop_more, node_loop_next,
}
use opentelemetry_collector.Client.Paging.Termination.{Progresses, asked_pos, node_loop_total}

module _ {World R : Type 0} where
  -- If a record is asked for, no page has more records than were asked for.
  abbrev pub Obeys : (ℕ → List ℕ → World → Page R × World) → Type 0
  Obeys fetch =
      (asked : ℕ) (point : List ℕ) (w : World) (records : List R) (next : List ℕ)
      → (fetch asked point w).0 ≡ page records next
      → 0 < asked
      → length records ≤ asked

module _ {World R : Type 0} (fetch : ℕ → List ℕ → World → Page R × World) (limit : ℕ) where
  -- Whatever has been collected stays in front, and at most what is still missing is added.
  page_loop_bound :
      Obeys fetch
      → limit < 2 ^ 32
      → (fuel n : ℕ) (point : List ℕ) (all : List R) (w : World) (r : List R × World) → n < limit
      → page_loop fuel fetch limit n point all w ≡ some r
      → length r.0 + n ≤ length all + limit
  page_loop_bound o u zero n point all w r h e = unfold page_loop in cc
  page_loop_bound o u (suc fuel) n point all w r h e =
      elim (Page-cases (answer fetch fuel limit n point all w).0) [
        | inl f ↦ ground (arith, page_loop_failed fetch fuel limit n point all w f)
        | inr (records, next, g) ↦
            let few = o _ point w records next g (asked_pos u h) in
            let asked = mod-le (limit - n) (2 ^ 32) in
            elim (Bool-cases (is_nil next || leb limit (n + length records))) [
              | inl stop ↦ ground (
                arith,
                page_loop_last fetch fuel limit n point all w records next g stop,
                length-append all records,
              )
              | inr more ↦
                  let step = page_loop_more fetch fuel limit n point all w records next g more in
                  let bound =
                    page_loop_bound o u fuel (n + length records) next (all ++ records)
                      (answer fetch fuel limit n point all w).1 r (ground arith) (sym step ∙ e) in
                  omega (arith, bound, length-append all records)
            ]
      ]

-- Of a positive limit no more is shared out than the limit, or one record for each node.
share-mul :
    (max_records : ℤ) (nodes : ℕ)
    → (share max_records nodes * nodes ≤ pos_part max_records) ⊎ (share max_records nodes ≡ 1)
unfolding share
share-mul (pos m) nodes = ground (arith, div-mul-le_self m nodes)
share-mul (negsuc m) nodes = ground arith

pub share-lt :
    (max_records : ℤ) (nodes : ℕ) → pos_part max_records < 2 ^ 32 → share max_records nodes < 2 ^ 32
unfolding share
share-lt (pos m) nodes h = ground (arith, div-le_self m nodes)
share-lt (negsuc m) nodes h = ground arith

pub share_pos : (max_records : ℤ) (nodes : ℕ) → 0 < share max_records nodes
unfolding share
share_pos max_records nodes = ground arith

module _ {World R Node : Type 0} (fetch : Node → ℕ → List ℕ → World → Page R × World) where
  node_loop_bound :
      (fuel limit : ℕ)
      → 0 < limit
      → limit < 2 ^ 32
      → ((node : Node) → Obeys (fetch node))
      → (nodes : List Node) (all : List R) (w : World) (r : List R × World)
      → node_loop fuel fetch limit nodes all w ≡ some r
      → length r.0 ≤ length all + limit * length nodes
  unfolding node_loop
  node_loop_bound fuel limit h u o [] all w r e = ground arith
  node_loop_bound fuel limit h u o (node ∷ nodes) all w r e =
      elim (Option-cases (page_loop fuel (fetch node) limit 0 [] all w)) [
        | inl out ↦ cc (rw (out, node_loop) at e)
        | inr ((all', w'), got) ↦
            let first = page_loop_bound (fetch node) limit (o node) u fuel 0 [] all w _ h got in
            let later =
              node_loop_bound fuel limit h u o nodes all' w' r
                (sym (node_loop_next fetch fuel limit node nodes all all' w w' got) ∙ e) in
            omega (arith, first, later, mul-suc limit (length nodes))
      ]

  -- For a limit below 2 ^ 32, and a server whose pages progress and have no more records than were
  -- asked for, the loops with an equal share for each node end, and collect at most the limit, or
  -- at most one record for each node where the limit has less.
  pub node_loop-share :
      ((node : Node) → Progresses (fetch node))
      → ((node : Node) → Obeys (fetch node))
      → (max_records : ℤ) (nodes : List Node) (w : World) → pos_part max_records < 2 ^ 32
      → let limit = share max_records (length nodes) in
        (r : List R × World) × (node_loop (limit + 1) fetch limit nodes [] w ≡ some r)
        × ((length r.0 ≤ pos_part max_records) ⊎ (length r.0 ≤ length nodes))
  node_loop-share p o max_records nodes w u =
      let n = length nodes in
      let limit = share max_records n in
      let fits = share-lt max_records n u in
      let (r, e) = node_loop_total fetch limit (share_pos max_records n) fits p nodes [] w in
      let bound =
        node_loop_bound (limit + 1) limit (share_pos max_records n) fits o nodes [] w r e in
      (r, e, ground (arith, bound, share-mul max_records n))
