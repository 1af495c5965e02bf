-- ===== src/Ua/Concrete/Typed.antt =====
-- The reads of the concrete buffers on bytes of any kind.
use opentelemetry_collector.Common.{
  ℕ, zero, suc, ◌<◌, ◌^◌, ◌≡◌, ◌⊎◌, refl, inl, inr, List, [], ◌∷◌, Option, none, some, All, length,
  arith, ap,
}
use opentelemetry_collector.LogRecord.Hex.{AreBytes, get_little}
use opentelemetry_collector.LogRecord.TraceId.{get_little-lt}
use opentelemetry_collector.Ua.Buffers.{Yields, TypedReads, IsByte}
use opentelemetry_collector.Ua.Concrete.{take_exact, give, front_of, read_with, read_text, buffers}

-- What a read takes and leaves are bytes.
take_exact-AreBytes :
    (n : ℕ) (xs : List ℕ)
    → AreBytes xs
    → (take_exact n xs ≡ none)
      ⊎ ((front left : List ℕ) × (take_exact n xs ≡ some (front, left))
          × (length front ≡ n)
          × AreBytes front
          × AreBytes left)
unfolding take_exact
take_exact-AreBytes zero xs h = inr ([], xs, refl, refl, tt, h)
take_exact-AreBytes (suc n) [] h = inl refl
take_exact-AreBytes (suc n) (x ∷ xs) h = elim (take_exact-AreBytes n xs h.1) [
  | inl e ↦ inl (rw e)
  | inr (front, left, e, l, hf, hl) ↦ inr (x ∷ front, left, rw e, ap suc l, (h.0, hf), hl)
]

front_of-AreBytes :
    (n : ℕ) (xs : List ℕ) (failed : Option (Unit {0}))
    → AreBytes xs
    → (front_of n xs failed ≡ none)
      ⊎ ((front left : List ℕ) × (front_of n xs failed ≡ some (front, left))
          × (length front ≡ n)
          × AreBytes front
          × AreBytes left)
unfolding front_of
front_of-AreBytes n xs none h = take_exact-AreBytes n xs h
front_of-AreBytes n xs (some e) h = inl refl

module _ {V : Type 0} (P : V → Type 0) (n : ℕ) (from : List ℕ → V) where
  -- A read yields what `from` makes of nothing, or of so many bytes.
  read_with-Yields :
      P (from [])
      → ((front : List ℕ) → length front ≡ n → AreBytes front → P (from front))
      → Yields buffers P (read_with n from)
  unfolding read_with give
  read_with-Yields empty full = record {
    run = λ b are. elim (front_of-AreBytes n b.rest b.failed are) [
      | inl e ↦ rw e (empty, are)
      | inr (front, left, e, l, hf, hl) ↦ rw e (full front l hf, hl)
    ];
  }

read_little-Yields :
    (n : ℕ) → 0 < 256 ^ n → Yields buffers (λ (v : ℕ). v < 256 ^ n) (read_with n get_little)
unfolding get_little
read_little-Yields n h0 =
    read_with-Yields (λ (v : ℕ). v < 256 ^ n) n get_little h0
      (λ front l h. rw l at (get_little-lt front h))

read_text-Yields : Yields buffers (All IsByte) read_text
unfolding read_text
read_text-Yields = record {
  run = λ b are.
      let (h, are') = (read_little-Yields 4 (omega arith)).run b are in
      (read_with-Yields (All IsByte) (read_with 4 get_little b).0 (λ s. s) tt (λ front l h. h)).run
        _ are';
}

-- The concrete buffers read values of the right types.
pub buffers-TypedReads : TypedReads buffers
buffers-TypedReads = record {
  typed_byte = read_little-Yields 1 (omega arith);
  typed_uint16 = read_little-Yields 2 (omega arith);
  typed_uint32 = read_little-Yields 4 (omega arith);
  typed_int64 = read_little-Yields 8 (omega arith);
  typed_float32 = read_little-Yields 4 (omega arith);
  typed_float64 = read_little-Yields 8 (omega arith);
  typed_string = read_text-Yields;
}
