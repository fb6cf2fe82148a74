-- ===== src/Numeric/RoundTrip.antt =====
-- Round trips of the codec of dtls-numeric.h, both ways.
use gc2021_pqdtls.Base.{ℕ, ◌/◌, ◌%◌, ◌^◌, ◌<◌, ◌≡◌, ◌∙◌, List, [], ◌∷◌, ◌++◌, arith, refl}
use gc2021_pqdtls.Numeric.{
  int_to_uint8, int_to_uint16, int_to_uint24, int_to_uint32, int_to_uint48, int_to_uint64,
  uint8_to_int, uint16_to_int, uint24_to_int, uint32_to_int, uint48_to_int, uint64_to_int,
}
use gc2021_pqdtls.Numeric.Laws.{
  uint16_as_sum, uint24_as_sum, uint32_as_sum, uint48_as_sum, uint64_as_sum,
}

pub uint8-int_to_uint : (v : ℕ) (rest : List ℕ) → uint8_to_int (int_to_uint8 v ++ rest) ≡ v % 2 ^ 8
unfolding int_to_uint8 uint8_to_int
uint8-int_to_uint v rest = refl

pub uint16-int_to_uint :
    (v : ℕ) (rest : List ℕ) → uint16_to_int (int_to_uint16 v ++ rest) ≡ v % 2 ^ 16
unfolding int_to_uint16
uint16-int_to_uint v rest =
    uint16_as_sum (v / 2 ^ 8 % 2 ^ 8) (v % 2 ^ 8) rest (omega arith) ∙ omega arith

pub uint24-int_to_uint :
    (v : ℕ) (rest : List ℕ) → uint24_to_int (int_to_uint24 v ++ rest) ≡ v % 2 ^ 24
unfolding int_to_uint24
uint24-int_to_uint v rest =
    uint24_as_sum (v / 2 ^ 16 % 2 ^ 8) (v / 2 ^ 8 % 2 ^ 8) (v % 2 ^ 8) rest (omega arith)
    ∙ omega arith

pub uint32-int_to_uint :
    (v : ℕ) (rest : List ℕ) → uint32_to_int (int_to_uint32 v ++ rest) ≡ v % 2 ^ 32
unfolding int_to_uint32
uint32-int_to_uint v rest =
    uint32_as_sum (v / 2 ^ 24 % 2 ^ 8) (v / 2 ^ 16 % 2 ^ 8) (v / 2 ^ 8 % 2 ^ 8) (v % 2 ^ 8) rest
      (omega arith)
    ∙ omega arith

pub uint48-int_to_uint :
    (v : ℕ) (rest : List ℕ) → uint48_to_int (int_to_uint48 v ++ rest) ≡ v % 2 ^ 48
unfolding int_to_uint48
uint48-int_to_uint v rest =
    uint48_as_sum (v / 2 ^ 40 % 2 ^ 8) (v / 2 ^ 32 % 2 ^ 8) (v / 2 ^ 24 % 2 ^ 8)
      (v / 2 ^ 16 % 2 ^ 8) (v / 2 ^ 8 % 2 ^ 8) (v % 2 ^ 8) rest (omega arith)
    ∙ omega arith

pub uint64-int_to_uint :
    (v : ℕ) (rest : List ℕ) → uint64_to_int (int_to_uint64 v ++ rest) ≡ v % 2 ^ 64
unfolding int_to_uint64
uint64-int_to_uint v rest =
    uint64_as_sum (v / 2 ^ 56 % 2 ^ 8) (v / 2 ^ 48 % 2 ^ 8) (v / 2 ^ 40 % 2 ^ 8)
      (v / 2 ^ 32 % 2 ^ 8) (v / 2 ^ 24 % 2 ^ 8) (v / 2 ^ 16 % 2 ^ 8) (v / 2 ^ 8 % 2 ^ 8) (v % 2 ^ 8)
      rest (omega arith)
    ∙ omega arith

-- Each decoder inverts its encoder, up to the width of the integer, whatever follows in the buffer.
pub to_int-int_to :
    (v : ℕ) (rest : List ℕ)
    → (uint8_to_int (int_to_uint8 v ++ rest) ≡ v % 2 ^ 8)
      × (uint16_to_int (int_to_uint16 v ++ rest) ≡ v % 2 ^ 16)
      × (uint24_to_int (int_to_uint24 v ++ rest) ≡ v % 2 ^ 24)
      × (uint32_to_int (int_to_uint32 v ++ rest) ≡ v % 2 ^ 32)
      × (uint48_to_int (int_to_uint48 v ++ rest) ≡ v % 2 ^ 48)
      × (uint64_to_int (int_to_uint64 v ++ rest) ≡ v % 2 ^ 64)
to_int-int_to v rest = (
  uint8-int_to_uint v rest,
  uint16-int_to_uint v rest,
  uint24-int_to_uint v rest,
  uint32-int_to_uint v rest,
  uint48-int_to_uint v rest,
  uint64-int_to_uint v rest,
)

pub int_to_uint16-to_int :
    (b0 b1 : ℕ)
    → (b0 < 256) × (b1 < 256)
    → int_to_uint16 (uint16_to_int (b0 ∷ b1 ∷ [])) ≡ b0 ∷ b1 ∷ []
unfolding int_to_uint16
int_to_uint16-to_int b0 b1 h = rw (uint16_as_sum b0 b1 [] h) (ground arith)

pub int_to_uint24-to_int :
    (b0 b1 b2 : ℕ)
    → (b0 < 256) × (b1 < 256) × (b2 < 256)
    → int_to_uint24 (uint24_to_int (b0 ∷ b1 ∷ b2 ∷ [])) ≡ b0 ∷ b1 ∷ b2 ∷ []
unfolding int_to_uint24
int_to_uint24-to_int b0 b1 b2 h = rw (uint24_as_sum b0 b1 b2 [] h) (ground arith)

pub int_to_uint32-to_int :
    (b0 b1 b2 b3 : ℕ)
    → (b0 < 256) × (b1 < 256) × (b2 < 256) × (b3 < 256)
    → int_to_uint32 (uint32_to_int (b0 ∷ b1 ∷ b2 ∷ b3 ∷ [])) ≡ b0 ∷ b1 ∷ b2 ∷ b3 ∷ []
unfolding int_to_uint32
int_to_uint32-to_int b0 b1 b2 b3 h = rw (uint32_as_sum b0 b1 b2 b3 [] h) (ground arith)

pub int_to_uint48-to_int :
    (b0 b1 b2 b3 b4 b5 : ℕ)
    → (b0 < 256) × (b1 < 256) × (b2 < 256) × (b3 < 256) × (b4 < 256) × (b5 < 256)
    → int_to_uint48 (uint48_to_int (b0 ∷ b1 ∷ b2 ∷ b3 ∷ b4 ∷ b5 ∷ []))
      ≡ b0 ∷ b1 ∷ b2 ∷ b3 ∷ b4 ∷ b5 ∷ []
unfolding int_to_uint48
int_to_uint48-to_int b0 b1 b2 b3 b4 b5 h = rw (uint48_as_sum b0 b1 b2 b3 b4 b5 [] h) (ground arith)

pub int_to_uint64-to_int :
    (b0 b1 b2 b3 b4 b5 b6 b7 : ℕ)
    → (b0 < 256)
      × (b1 < 256)
      × (b2 < 256)
      × (b3 < 256)
      × (b4 < 256)
      × (b5 < 256)
      × (b6 < 256)
      × (b7 < 256)
    → int_to_uint64 (uint64_to_int (b0 ∷ b1 ∷ b2 ∷ b3 ∷ b4 ∷ b5 ∷ b6 ∷ b7 ∷ []))
      ≡ b0 ∷ b1 ∷ b2 ∷ b3 ∷ b4 ∷ b5 ∷ b6 ∷ b7 ∷ []
unfolding int_to_uint64
int_to_uint64-to_int b0 b1 b2 b3 b4 b5 b6 b7 h =
    rw (uint64_as_sum b0 b1 b2 b3 b4 b5 b6 b7 [] h) (ground arith)
