-- ===== src/Client/Paging/Complete.antt =====
-- What `GetRecords` of receiver/opcua/client.go collects from one node of a server that hands out
-- a list of records page by page.
use opentelemetry_collector.Common.{
  ℕ, zero, suc, ◌+◌, ◌-◌, ◌%◌, ◌^◌, ◌≤◌, ◌<◌, ◌≡◌, ◌≢◌, ◌⊎◌, refl, sym, ap, ◌∙◌, false, inl, inr,
  List, [], ◌∷◌, ◌++◌, some, length, take, drop, length-take_of_le, length-drop, drop-drop,
  take-of_length_le, is_nil, arith,
}
use mathlib.Core.List.{append-nil, append_assoc}
use native.Mathlib.Nat.{sub-zero}
use native.Mathlib.Decide.{dec_lt}
use opentelemetry_collector.Client.Paging.{Page, page, page_loop, node_loop}
use opentelemetry_collector.Client.Paging.Termination.{asked_pos}
use opentelemetry_collector.Client.Paging.Steps.{
  answer, page_loop_last, page_loop_more, node_loop_next,
}

module _ {World R : Type 0} where
  -- The answer to a request for `asked` records behind the first `n` of a list: at least one and
  -- at most that many of those that follow, with a continuation point that stands for the place
  -- behind them; or, where no more follow than were asked for, perhaps all of them with none.
  pub record Answers (records : List R) (At : List ℕ → World → ℕ → Type 0) (asked n : ℕ)
      (got : Page R × World) : Type 0 where
    pub size : ℕ
    pub next : List ℕ
    pub is : got.0 ≡ page (take size (drop n records)) next
    pub few : size ≤ asked
    pub place :
        ((next ≡ []) × (length (drop n records) ≤ size))
        ⊎ ((next ≢ []) × (0 < size) × (n + size ≤ length records) × At next got.1 (n + size))

  -- In a world where the continuation point stands for a place, every request is so answered.
  abbrev pub Serves :
      List R → (List ℕ → World → ℕ → Type 0) → (ℕ → List ℕ → World → Page R × World) → Type 0
  Serves records At fetch =
      (asked n : ℕ) (point : List ℕ) (w : World)
      → At point w n
      → 0 < asked
      → Answers records At asked n (fetch asked point w)

take-nil {ℓ} : {A : Type ℓ} (n : ℕ) → take n (let e : List A = [] in e) ≡ []
take-nil zero = refl
take-nil (suc n) = refl

take_split {ℓ} :
    {A : Type ℓ} (a b : ℕ) (xs : List A) → take a xs ++ take b (drop a xs) ≡ take (a + b) xs
take_split zero b xs = ap (λ (k : ℕ). take k xs) (omega arith)
take_split (suc a) b [] = take-nil b ∙ sym (take-nil (suc a + b))
take_split (suc a) b (x ∷ xs) =
    ap (λ (l : List _). x ∷ l) (take_split a b xs) ∙ ap (λ (k : ℕ). take k (x ∷ xs)) suc_add
  where
    suc_add : suc (a + b) ≡ suc a + b
    suc_add = omega arith

is_nil-false : (next : List ℕ) → next ≢ [] → is_nil next ≡ false
is_nil-false [] h = absurd (h refl)
is_nil-false (x ∷ next) h = refl

module _ {World R : Type 0} (fetch : ℕ → List ℕ → World → Page R × World) (records : List R)
    (At : List ℕ → World → ℕ → Type 0) (limit : ℕ) (u : limit < 2 ^ 32)
    (serves : Serves records At fetch) where
  module _ (fuel n : ℕ) (point : List ℕ) (all : List R) (w : World) (h : n < limit) where
    abbrev rest : List R
    rest = drop n records

    -- All that is left has come, with no continuation point.
    collects_last :
        (size : ℕ)
        → (answer fetch fuel limit n point all w).0 ≡ page (take size rest) []
        → size ≤ limit - n
        → length rest ≤ size
        → page_loop (suc fuel) fetch limit n point all w
          ≡ some (all ++ take (limit - n) rest, (answer fetch fuel limit n point all w).1)
    collects_last size e few left =
        page_loop_last fetch fuel limit n point all w (take size rest) [] e refl
        ∙ rw (take-of_length_le size rest left, take-of_length_le (limit - n) rest (omega arith))

    module _ (size : ℕ) (next : List ℕ)
        (e : (answer fetch fuel limit n point all w).0 ≡ page (take size rest) next)
        (len : length (take size rest) ≡ size) where
      -- As many as were asked for have come.
      collects_full :
          size ≤ limit - n
          → limit ≤ n + size
          → page_loop (suc fuel) fetch limit n point all w
            ≡ some (all ++ take (limit - n) rest, (answer fetch fuel limit n point all w).1)
      collects_full few full =
          let same : size ≡ limit - n = omega arith in
          page_loop_last fetch fuel limit n point all w (take size rest) next e
            (ground (arith, len))
          ∙ rw same

      -- There are more to come.
      collects_more :
          next ≢ []
          → n + size < limit
          → (w' : World)
          → page_loop fuel fetch limit
              (n + size)
              next
              (all ++ take size rest)
              (answer fetch fuel limit n point all w).1
            ≡ some
                ((all ++ take size rest) ++ take (limit - (n + size)) (drop (n + size) records), w')
          → page_loop (suc fuel) fetch limit n point all w ≡ some (all ++ take (limit - n) rest, w')
      collects_more ne more w' later =
          let size_left : size + (limit - (n + size)) ≡ limit - n = omega arith in
          page_loop_more fetch fuel limit n point all w (take size rest) next e
            (ground (arith, len, is_nil-false next ne))
          ∙ ap
              (λ (k : ℕ).
                page_loop fuel fetch limit (n + k) next (all ++ take size rest)
                  (answer fetch fuel limit n point all w).1)
              len
          ∙ later
          ∙ (rw (
            append_assoc all (take size rest) (take (limit - (n + size)) (drop (n + size) records)),
            ← drop-drop n size records,
            take_split size (limit - (n + size)) rest,
            size_left,
          ))

  page_loop_collects :
      (fuel n : ℕ) (point : List ℕ) (all : List R) (w : World)
      → At point w n
      → n < limit
      → limit < n + fuel
      → (w' : World) × (page_loop fuel fetch limit n point all w
          ≡ some (all ++ take (limit - n) (drop n records), w'))
  page_loop_collects zero n point all w at h k = absurd (omega arith)
  page_loop_collects (suc fuel) n point all w at h k =
      let a = serves ((limit - n) % 2 ^ 32) n point w at (asked_pos u h) in
      let w' = (answer fetch fuel limit n point all w).1 in
      let few : a.size ≤ limit - n = omega (arith, a.few) in
      elim a.place [
        | inl (last, left) ↦
            (w', collects_last fuel n point all w h a.size (rw last at a.is) few left)
        | inr (ne, some_records, room, at') ↦
            let len : length (take a.size (drop n records)) ≡ a.size =
              length-take_of_le a.size (drop n records) (omega (arith, length-drop n records)) in
            elim (dec_lt (n + a.size) limit) [
              | yes more ↦
                  let (w'', later) =
                    page_loop_collects fuel (n + a.size) a.next
                      (all ++ take a.size (drop n records)) w' at' more (omega arith) in
                  (w'', collects_more fuel n point all w h a.size a.next a.is len ne more w'' later)
              | no full ↦
                  (w', collects_full fuel n point all w h a.size a.next a.is len few (omega arith))
            ]
      ]

-- The first `limit` records of each node, node after node.
abbrev pub first_of_each : {Node R : Type 0} → (Node → List R) → ℕ → List Node → List R
first_of_each records limit [] = []
first_of_each records limit (node ∷ nodes) =
    take limit (records node) ++ first_of_each records limit nodes

module _ {World R Node : Type 0} (fetch : Node → ℕ → List ℕ → World → Page R × World)
    (records : Node → List R) (At : Node → List ℕ → World → ℕ → Type 0)
    (starts : (node : Node) (w : World) → At node [] w 0)
    (serves : (node : Node) → Serves (records node) (At node) (fetch node)) where
  node_loop_collects :
      (limit : ℕ)
      → limit < 2 ^ 32
      → 0 < limit
      → (nodes : List Node) (all : List R) (w : World)
      → (w' : World) × (node_loop (limit + 1) fetch limit nodes all w
          ≡ some (all ++ first_of_each records limit nodes, w'))
  node_loop_collects limit u h [] all w =
      (w, unfold node_loop in ap some (ap (λ (l : List R). (l, w)) (sym (append-nil all))))
  node_loop_collects limit u h (node ∷ nodes) all w =
      let (w1, first) =
        page_loop_collects (fetch node) (records node) (At node) limit u (serves node) (limit + 1) 0
          [] all w (starts node w) h (omega arith) in
      let (w2, later) =
        node_loop_collects limit u h nodes (all ++ take (limit - 0) (records node)) w1 in
      (
        w2,
        node_loop_next fetch (limit + 1) limit node nodes all _ w w1 first
            ∙ later
            ∙ ap (λ (l : List R). some (l, w2))
                (append_assoc all (take (limit - 0) (records node))
                    (first_of_each records limit nodes)
                  ∙ ap
                      (λ (k : ℕ).
                        all ++ (take k (records node) ++ first_of_each records limit nodes))
                      (sub-zero limit)),
      )

  -- Where the server of every node hands out a list of records page by page, and the limit is not
  -- 0 and fits a uint32, the loops end, and collect the first `limit` records of each node, in
  -- their order and each once.
  pub node_loop-first_of_each :
      (limit : ℕ)
      → limit < 2 ^ 32
      → 0 < limit
      → (nodes : List Node) (w : World)
      → (w' : World) × (node_loop (limit + 1) fetch limit nodes [] w
          ≡ some (first_of_each records limit nodes, w'))
  node_loop-first_of_each limit u h nodes w = node_loop_collects limit u h nodes [] w
