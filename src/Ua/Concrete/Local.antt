-- ===== src/Ua/Concrete/Local.antt =====
-- The reads of the concrete buffers when the bytes are cut short.
use opentelemetry_collector.Common.{
  ℕ, zero, suc, ◌≡◌, ◌≢◌, ◌⊎◌, refl, ap, ◌∙◌, inl, inr, List, [], ◌∷◌, ◌++◌, Option, none, some,
}
use opentelemetry_collector.LogRecord.Hex.{get_little}
use opentelemetry_collector.Ua.Buffers.{IsLocal, LocalReads}
use opentelemetry_collector.Ua.Concrete.{
  MemoryBuffer, take_exact, give, front_of, read_with, read_text, buffers,
}

take_exact-local :
    (n : ℕ) (xs rest : List ℕ)
    → (take_exact n xs ≡ none)
      ⊎ ((front left : List ℕ) × (take_exact n xs ≡ some (front, left))
          × (take_exact n (xs ++ rest) ≡ some (front, left ++ rest)))
unfolding take_exact
take_exact-local zero xs rest = inr ([], xs, refl, refl)
take_exact-local (suc n) [] rest = inl refl
take_exact-local (suc n) (x ∷ xs) rest = elim (take_exact-local n xs rest) [
  | inl e ↦ inl (rw e)
  | inr (front, left, e, e') ↦ inr (x ∷ front, left, rw e, rw e')
]

-- A read of the first bytes next to the same read of the whole.
abbrev Ends : {V : Type 0} → V × MemoryBuffer → V × MemoryBuffer → List ℕ → Type 0
Ends r whole rest =
    (r.1.failed ≢ none)
    ⊎ ((r.0 ≡ whole.0)
        × (r.1.failed ≡ none)
        × (whole.1.failed ≡ none)
        × (whole.1.rest ≡ r.1.rest ++ rest))

module _ {V : Type 0} (n : ℕ) (from : List ℕ → V) where
  keeps_give :
      (b : MemoryBuffer) (f : Option (Unit {0}))
      → f ≢ none
      → (give n from b (front_of n b.rest f)).1.failed ≢ none
  unfolding give front_of
  keeps_give b none h = absurd (h refl)
  keeps_give b (some e) h = λ k. cc

  local_give :
      (b whole : MemoryBuffer) (rest : List ℕ) (o o' : Option (List ℕ × List ℕ))
      → b.failed ≡ none
      → whole.failed ≡ none
      → (o ≡ none)
        ⊎ ((front left : List ℕ) × (o ≡ some (front, left)) × (o' ≡ some (front, left ++ rest)))
      → Ends (give n from b o) (give n from whole o') rest
  unfolding give
  local_give b whole rest o o' ok ok' (inl e) = rw e (inl (λ k. cc))
  local_give b whole rest o o' ok ok' (inr (front, left, e, e')) =
      rw (e, e') (inr (refl, ok, ok', refl))

  pub read_with-Local :
      IsLocal MemoryBuffer (Unit {0}) (λ b. b.rest) (λ b. b.failed) (read_with n from)
  unfolding read_with
  read_with-Local = record {
    keeps = λ b h. keeps_give b b.failed h;
    local = λ b whole rest ok ok' e.
        let front' : front_of n whole.rest whole.failed ≡ take_exact n (b.rest ++ rest) =
          ap (front_of n whole.rest) ok' ∙ ap (take_exact n) e in
        let front : front_of n b.rest b.failed ≡ take_exact n b.rest = ap (front_of n b.rest) ok in
        local_give b whole rest (front_of n b.rest b.failed) (front_of n whole.rest whole.failed) ok
          ok' (rw (front, front') (take_exact-local n b.rest rest));
  }

read_text-Local : IsLocal MemoryBuffer (Unit {0}) (λ b. b.rest) (λ b. b.failed) read_text
unfolding read_text
read_text-Local = record {
  keeps = λ b h.
      (read_with-Local (read_with 4 get_little b).0 (λ s. s)).keeps _
        ((read_with-Local 4 get_little).keeps b h);
  local = λ b whole rest ok ok' e.
      elim ((read_with-Local 4 get_little).local b whole rest ok ok' e) [
        | inl short ↦ inl ((read_with-Local (read_with 4 get_little b).0 (λ s. s)).keeps _ short)
        | inr (same, ok1, ok1', left) ↦
            rw (← same)
              ((read_with-Local (read_with 4 get_little b).0 (λ s. s)).local _ _ rest ok1 ok1' left)
      ];
}

-- The concrete buffers fail when the bytes run out.
pub buffers-LocalReads : LocalReads buffers
buffers-LocalReads = record {
  local_byte = read_with-Local 1 get_little;
  local_uint16 = read_with-Local 2 get_little;
  local_uint32 = read_with-Local 4 get_little;
  local_int64 = read_with-Local 8 get_little;
  local_float32 = read_with-Local 4 get_little;
  local_float64 = read_with-Local 8 get_little;
  local_string = read_text-Local;
}
