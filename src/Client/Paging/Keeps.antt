-- ===== src/Client/Paging/Keeps.antt =====
-- What the loops of `GetRecords` in receiver/opcua/client.go keep of the world behind the client.
use opentelemetry_collector.Common.{
  ℕ, zero, suc, ◌+◌, ◌-◌, ◌%◌, ◌^◌, ◌≤◌, ◌<◌, ◌≡◌, refl, sym, ◌∙◌, ◌||◌, Bool-cases, Option-cases,
  inl, inr, List, [], ◌∷◌, ◌++◌, Option, none, some, All, length, is_nil, leb, arith,
}
use mathlib.Core.Path.{subst}
use opentelemetry_collector.Client.Paging.{Page, page_loop, node_loop}
use opentelemetry_collector.Client.Paging.Steps.{
  Page-cases, answer, page_loop_failed, page_loop_last, page_loop_more, node_loop_next,
}
use opentelemetry_collector.Client.Paging.Termination.{asked_pos}

result_same : {A : Type 0} {a b : A} (o : Option A) → o ≡ some a → o ≡ some b → a ≡ b
result_same o h k = cc

none_not_some : {A : Type 0} {a : A} (o : Option A) → o ≡ none → o ≡ some a → ⊥
none_not_some o h k = cc

page_loop_no_fuel :
    {World R : Type 0} (fetch : ℕ → List ℕ → World → Page R × World) (limit n : ℕ) (point : List ℕ)
    (all : List R) (w : World)
    → page_loop zero fetch limit n point all w ≡ none
unfolding page_loop
page_loop_no_fuel fetch limit n point all w = refl

module _ {World R Node : Type 0} (fetch : Node → ℕ → List ℕ → World → Page R × World)
    (fuel limit : ℕ) where
  node_loop_nil : (all : List R) (w : World) → node_loop fuel fetch limit [] all w ≡ some (all, w)
  unfolding node_loop
  node_loop_nil all w = refl

  node_loop_out :
      (node : Node) (nodes : List Node) (all : List R) (w : World)
      → page_loop fuel (fetch node) limit 0 [] all w ≡ none
      → node_loop fuel fetch limit (node ∷ nodes) all w ≡ none
  unfolding node_loop
  node_loop_out node nodes all w e = rw (e, node_loop)

module _ {World R : Type 0} (I : World → Type 0) (limit : ℕ) (u : limit < 2 ^ 32) where
  -- A request for at least one record and at most `limit` keeps the world in `I`.
  abbrev pub Keeps : (ℕ → List ℕ → World → Page R × World) → Type 0
  Keeps fetch =
      (asked : ℕ) (point : List ℕ) (w : World)
      → 0 < asked
      → asked ≤ limit
      → I w
      → I (fetch asked point w).1

  abbrev EndsIn : List R × World → Type 0
  EndsIn r = I r.1

  page_loop-Keeps :
      (fetch : ℕ → List ℕ → World → Page R × World)
      → Keeps fetch
      → (fuel n : ℕ) (point : List ℕ) (all : List R) (w : World) → n < limit
      → I w
      → (r : List R × World) → page_loop fuel fetch limit n point all w ≡ some r
      → EndsIn r
  page_loop-Keeps fetch k zero n point all w h i r e =
      absurd (none_not_some _ (page_loop_no_fuel fetch limit n point all w) e)
  page_loop-Keeps fetch k (suc fuel) n point all w h i r e =
      let got = answer fetch fuel limit n point all w in
      let kept = k ((limit - n) % 2 ^ 32) point w (asked_pos u h) (omega arith) i in
      elim (Page-cases got.0) [
        | inl failed ↦
            subst EndsIn (result_same _ (page_loop_failed fetch fuel limit n point all w failed) e)
              kept
        | inr (records, next, came) ↦
            elim (Bool-cases (is_nil next || leb limit (n + length records))) [
              | inl stop ↦
                  subst EndsIn
                    (result_same _
                      (page_loop_last fetch fuel limit n point all w records next came stop) e)
                    kept
              | inr more ↦
                  page_loop-Keeps fetch k fuel (n + length records) next (all ++ records) got.1
                    (ground arith) kept r
                    (sym (page_loop_more fetch fuel limit n point all w records next came more) ∙ e)
            ]
      ]

  pub node_loop-Keeps :
      {Node : Type 0} (fetch : Node → ℕ → List ℕ → World → Page R × World)
      → 0 < limit
      → (fuel : ℕ) (nodes : List Node) (all : List R) (w : World) → All (λ n. Keeps (fetch n)) nodes
      → I w
      → (r : List R × World) → node_loop fuel fetch limit nodes all w ≡ some r
      → EndsIn r
  node_loop-Keeps fetch h fuel [] all w k i r e =
      subst EndsIn (result_same _ (node_loop_nil fetch fuel limit all w) e) i
  node_loop-Keeps fetch h fuel (node ∷ nodes) all w (k, ks) i r e =
      elim (Option-cases (page_loop fuel (fetch node) limit 0 [] all w)) [
        | inl out ↦ absurd (none_not_some _ (node_loop_out fetch fuel limit node nodes all w out) e)
        | inr ((all', w'), first) ↦
            node_loop-Keeps fetch h fuel nodes all' w' ks
              (page_loop-Keeps (fetch node) k fuel 0 [] all w h i (all', w') first) r
              (sym (node_loop_next fetch fuel limit node nodes all all' w w' first) ∙ e)
      ]
