-- ===== src/Client/Paging/Restart.antt =====
-- The loop over the pages of a node in receiver/opcua/client.go, where every request comes back with
-- the same page.
use opentelemetry_collector.Common.{
  ℕ, zero, suc, ◌+◌, ◌*◌, ◌≤◌, ◌<◌, ◌≡◌, ◌≢◌, refl, sym, ap, ◌∙◌, Bool-cases, ◌||◌, true, inl, inr,
  List, [], ◌∷◌, ◌++◌, Option, some, length, is_nil, leb, arith,
}
use mathlib.Core.List.{append_assoc, append-nil}
use native.Mathlib.Nat.{suc-mul}
use opentelemetry_collector.Client.Paging.{Page, page, page_loop}
use opentelemetry_collector.Client.Paging.Steps.{answer, page_loop_last, page_loop_more}

-- A list, so many times one after the other.
unfoldable pub copies : {A : Type 0} → ℕ → List A → List A
copies zero xs = []
copies (suc m) xs = xs ++ copies m xs

-- What the loop has collected at its end: the records of the page over and over, until the limit
-- is reached.
pub record Repeated {World R : Type 0} (records : List R) (limit n : ℕ) (all : List R)
    (result : Option (List R × World)) : Type 0 where
  pub times : ℕ
  pub behind : World
  pub is : result ≡ some (all ++ copies times records, behind)
  pub enough : limit ≤ n + times * length records

one : {A : Type 0} (xs : List A) → xs ≡ copies 1 xs
unfolding copies
one xs = sym (append-nil xs)

more_copies : {A : Type 0} (m : ℕ) (xs : List A) → xs ++ copies m xs ≡ copies (suc m) xs
unfolding copies
more_copies m xs = refl

limit_reached :
    (next : List ℕ) (limit m : ℕ) → next ≢ [] → (is_nil next || leb limit m) ≡ true → limit ≤ m
limit_reached [] limit m h e = absurd (h refl)
limit_reached (c ∷ next) limit m h e = ground arith

module _ {World R : Type 0} (fetch : ℕ → List ℕ → World → Page R × World) (records : List R)
    (next : List ℕ)
    (same : (asked : ℕ) (point : List ℕ) (w : World) → (fetch asked point w).0 ≡ page records next)
    (some_records : 0 < length records) (goes_on : next ≢ []) (limit : ℕ) where
  pub page_loop-Repeated :
      (fuel n : ℕ) (point : List ℕ) (all : List R) (w : World)
      → n < limit
      → limit < n + fuel
      → Repeated records limit n all (page_loop fuel fetch limit n point all w)
  page_loop-Repeated zero n point all w h k = absurd (omega arith)
  page_loop-Repeated (suc fuel) n point all w h k =
      elim (Bool-cases (is_nil next || leb limit (n + length records))) [
        | inl last ↦ record {
          times = 1;
          behind = (answer fetch fuel limit n point all w).1;
          is =
              page_loop_last fetch fuel limit n point all w records next (same _ point w) last
              ∙ ap (λ (l : List R). some (all ++ l, (answer fetch fuel limit n point all w).1))
                  (one records);
          enough = omega (arith, limit_reached next limit (n + length records) goes_on last);
        }
        | inr more ↦
            let w' = (answer fetch fuel limit n point all w).1 in
            let rest =
              page_loop-Repeated fuel (n + length records) next (all ++ records) w' (ground arith)
                (omega arith) in
            record {
              times = suc rest.times;
              behind = rest.behind;
              is =
                  page_loop_more fetch fuel limit n point all w records next (same _ point w) more
                  ∙ rest.is
                  ∙ ap (λ (l : List R). some (l, rest.behind))
                      (append_assoc all records (copies rest.times records)
                        ∙ ap (λ (l : List R). all ++ l) (more_copies rest.times records));
              enough = omega (arith, rest.enough, suc-mul rest.times (length records));
            }
      ]
