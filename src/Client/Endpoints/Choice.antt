-- ===== src/Client/Endpoints/Choice.antt =====
-- What `selectEndpoint` of receiver/opcua/client.go chooses.
use opentelemetry_collector.Common.{
  ◌≡◌, ◌↔◌, ◌⊎◌, inl, inr, ap, Bool, true, false, Bool-cases, List, [], ◌∷◌, ◌++◌, none, some,
  Option-cases, All, arith,
}
use mathlib.Core.Path.{subst}
use opentelemetry_collector.Config.{Config}
use opentelemetry_collector.Client.Endpoints.{
  Endpoint, matches, first_with, falls_back, first_of, or_next, select_endpoint,
}

-- The endpoint is the first of the list that passes the test.
abbrev pub IsFirst : (Endpoint → Bool) → Endpoint → List Endpoint → Type 0
IsFirst test ep eps =
    (before : List Endpoint) × (after : List Endpoint) × (eps ≡ before ++ (ep ∷ after))
    × All (λ e. test e ≡ false) before
    × (test ep ≡ true)

first_with-IsFirst :
    (test : Endpoint → Bool) (ep : Endpoint) (eps : List Endpoint)
    → first_with test eps ≡ some ep
    → IsFirst test ep eps
unfolding first_with
first_with-IsFirst test ep [] h = cc
first_with-IsFirst test ep (e ∷ eps) h = elim (Bool-cases (test e)) [
  | inl is ↦
      let same : e ≡ ep = ground arith in
      ([], eps, ap (λ (x : Endpoint). x ∷ eps) same, tt, subst (λ x. test x ≡ true) same is)
  | inr isnt ↦
      let (before, after, split, others, here) = first_with-IsFirst test ep eps (ground arith) in
      (e ∷ before, after, ap (λ (x : List Endpoint). e ∷ x) split, (isnt, others), here)
]

first_with-none :
    (test : Endpoint → Bool) (eps : List Endpoint)
    → first_with test eps ≡ none
    → All (λ e. test e ≡ false) eps
unfolding first_with
first_with-none test [] h = tt
first_with-none test (e ∷ eps) h = (ground arith, first_with-none test eps (ground arith))

-- How the endpoint is chosen: the first that has the wanted policy and mode; if there is none, the
-- first that the second loop accepts; if there is none of these either, the first of the list.
abbrev pub Chosen : Config → Endpoint → List Endpoint → Type 0
Chosen cfg ep eps =
    IsFirst (matches cfg) ep eps
    ⊎ (All (λ e. matches cfg e ≡ false) eps
        × (IsFirst (falls_back cfg) ep eps
            ⊎ (All (λ e. falls_back cfg e ≡ false) eps
                × (rest : List Endpoint) × (eps ≡ ep ∷ rest))))

first_of-split :
    (ep : Endpoint) (eps : List Endpoint)
    → first_of eps ≡ some ep
    → (rest : List Endpoint) × (eps ≡ ep ∷ rest)
unfolding first_of
first_of-split ep [] h = cc
first_of-split ep (e ∷ eps) h = let same : e ≡ ep = cc in (eps, ap (λ (x : Endpoint). x ∷ eps) same)

-- An endpoint that `selectEndpoint` returns is chosen in one of these three ways.
pub select_endpoint-Chosen :
    (cfg : Config) (eps : List Endpoint) (ep : Endpoint)
    → select_endpoint cfg eps ≡ some ep
    → Chosen cfg ep eps
unfolding select_endpoint or_next
select_endpoint-Chosen cfg eps ep h = elim (Option-cases (first_with (matches cfg) eps)) [
  | inr (e, is) ↦ inl (first_with-IsFirst (matches cfg) ep eps (ground arith))
  | inl none_matches ↦ inr (
    first_with-none (matches cfg) eps none_matches,
    elim (Option-cases (first_with (falls_back cfg) eps)) [
      | inr (e, is) ↦ inl (first_with-IsFirst (falls_back cfg) ep eps (ground arith))
      | inl none_falls ↦
          let (rest, split) = first_of-split ep eps (ground arith) in
          inr (first_with-none (falls_back cfg) eps none_falls, rest, split)
    ],
  )
]

-- `selectEndpoint` returns nil for no list but the empty one.
pub select_endpoint-none_iff :
    (cfg : Config) (eps : List Endpoint) → (select_endpoint cfg eps ≡ none) ↔ (eps ≡ [])
unfolding select_endpoint or_next first_of first_with
select_endpoint-none_iff cfg [] = ground arith
select_endpoint-none_iff cfg (ep ∷ eps) = ground (
  arith,
  Option-cases (first_with (matches cfg) eps),
  Option-cases (first_with (falls_back cfg) eps),
)
