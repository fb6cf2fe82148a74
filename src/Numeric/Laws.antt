-- ===== src/Numeric/Laws.antt =====
-- What the decoders compute as a sum of the bytes, and that they invert the encoders.
use gc2021_pqdtls.Base.{
  ℕ, ◌+◌, ◌*◌, ◌^◌, ◌<◌, ◌≡◌, ◌∙◌, List, ◌∷◌, arith, bit_or, bit_or_join, bit_or_byte, ap,
}
use gc2021_pqdtls.Numeric.{
  uint16_to_int, uint24_to_int, uint32_to_int, uint48_to_int, uint64_to_int,
}

pub uint16_as_sum :
    (b0 b1 : ℕ) (rest : List ℕ)
    → (b0 < 256) × (b1 < 256)
    → uint16_to_int (b0 ∷ b1 ∷ rest) ≡ b0 * 256 + b1
unfolding uint16_to_int
uint16_as_sum b0 b1 rest h = bit_or_join 8 b0 b1 (omega arith)

pub uint24_as_sum :
    (b0 b1 b2 : ℕ) (rest : List ℕ)
    → (b0 < 256) × (b1 < 256) × (b2 < 256)
    → uint24_to_int (b0 ∷ b1 ∷ b2 ∷ rest) ≡ (b0 * 256 + b1) * 256 + b2
unfolding uint24_to_int
uint24_as_sum b0 b1 b2 rest h =
    ap (λ (t : ℕ). bit_or t b2) (bit_or_byte 8 b0 b1 (omega arith))
    ∙ bit_or_join 8 (b0 * 256 + b1) b2 (omega arith)

pub uint32_as_sum :
    (b0 b1 b2 b3 : ℕ) (rest : List ℕ)
    → (b0 < 256) × (b1 < 256) × (b2 < 256) × (b3 < 256)
    → uint32_to_int (b0 ∷ b1 ∷ b2 ∷ b3 ∷ rest) ≡ ((b0 * 256 + b1) * 256 + b2) * 256 + b3
unfolding uint32_to_int
uint32_as_sum b0 b1 b2 b3 rest h =
    ap (λ (t : ℕ). bit_or t b3)
      (ap (λ (t : ℕ). bit_or t (b2 * 2 ^ 8)) (bit_or_byte 16 b0 b1 (omega arith))
        ∙ bit_or_byte 8 (b0 * 256 + b1) b2 (omega arith))
    ∙ bit_or_join 8 ((b0 * 256 + b1) * 256 + b2) b3 (omega arith)

pub uint48_as_sum :
    (b0 b1 b2 b3 b4 b5 : ℕ) (rest : List ℕ)
    → (b0 < 256) × (b1 < 256) × (b2 < 256) × (b3 < 256) × (b4 < 256) × (b5 < 256)
    → uint48_to_int (b0 ∷ b1 ∷ b2 ∷ b3 ∷ b4 ∷ b5 ∷ rest)
      ≡ ((((b0 * 256 + b1) * 256 + b2) * 256 + b3) * 256 + b4) * 256 + b5
unfolding uint48_to_int
uint48_as_sum b0 b1 b2 b3 b4 b5 rest h =
    ap (λ (t : ℕ). bit_or t b5)
      (ap (λ (t : ℕ). bit_or t (b4 * 2 ^ 8))
          (ap (λ (t : ℕ). bit_or t (b3 * 2 ^ 16))
              (ap (λ (t : ℕ). bit_or t (b2 * 2 ^ 24)) (bit_or_byte 32 b0 b1 (omega arith))
                ∙ bit_or_byte 24 (b0 * 256 + b1) b2 (omega arith))
            ∙ bit_or_byte 16 ((b0 * 256 + b1) * 256 + b2) b3 (omega arith))
        ∙ bit_or_byte 8 (((b0 * 256 + b1) * 256 + b2) * 256 + b3) b4 (omega arith))
    ∙ bit_or_join 8 ((((b0 * 256 + b1) * 256 + b2) * 256 + b3) * 256 + b4) b5 (omega arith)

pub uint64_as_sum :
    (b0 b1 b2 b3 b4 b5 b6 b7 : ℕ) (rest : List ℕ)
    → (b0 < 256)
      × (b1 < 256)
      × (b2 < 256)
      × (b3 < 256)
      × (b4 < 256)
      × (b5 < 256)
      × (b6 < 256)
      × (b7 < 256)
    → uint64_to_int (b0 ∷ b1 ∷ b2 ∷ b3 ∷ b4 ∷ b5 ∷ b6 ∷ b7 ∷ rest)
      ≡ ((((((b0 * 256 + b1) * 256 + b2) * 256 + b3) * 256 + b4) * 256 + b5) * 256 + b6) * 256 + b7
unfolding uint64_to_int
uint64_as_sum b0 b1 b2 b3 b4 b5 b6 b7 rest h =
    ap (λ (t : ℕ). bit_or t b7)
      (ap (λ (t : ℕ). bit_or t (b6 * 2 ^ 8))
          (ap (λ (t : ℕ). bit_or t (b5 * 2 ^ 16))
              (ap (λ (t : ℕ). bit_or t (b4 * 2 ^ 24))
                  (ap (λ (t : ℕ). bit_or t (b3 * 2 ^ 32))
                      (ap (λ (t : ℕ). bit_or t (b2 * 2 ^ 40)) (bit_or_byte 48 b0 b1 (omega arith))
                        ∙ bit_or_byte 40 (b0 * 256 + b1) b2 (omega arith))
                    ∙ bit_or_byte 32 ((b0 * 256 + b1) * 256 + b2) b3 (omega arith))
                ∙ bit_or_byte 24 (((b0 * 256 + b1) * 256 + b2) * 256 + b3) b4 (omega arith))
            ∙ bit_or_byte 16 ((((b0 * 256 + b1) * 256 + b2) * 256 + b3) * 256 + b4) b5
                (omega arith))
        ∙ bit_or_byte 8 (((((b0 * 256 + b1) * 256 + b2) * 256 + b3) * 256 + b4) * 256 + b5) b6
            (omega arith))
    ∙ bit_or_join 8 ((((((b0 * 256 + b1) * 256 + b2) * 256 + b3) * 256 + b4) * 256 + b5) * 256 + b6)
        b7 (omega arith)
