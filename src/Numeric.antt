-- ===== src/Numeric.antt =====
-- dtls-numeric.h: integers written to and read from buffers in network byte order. An encoder
-- returns the bytes that the C function stores at `field`; a decoder reads them at its start.
-- `x >> k` is `x / 2 ^ k` and `x & 0xff` is `x % 2 ^ 8`.
pub mod Laws
pub mod RoundTrip
use gc2021_pqdtls.Base.{ℕ, ◌/◌, ◌%◌, ◌*◌, ◌^◌, bit_or, List, [], ◌∷◌, get_or}

-- `field[i]`
abbrev pub byte_at : List ℕ → ℕ → ℕ
byte_at field i = get_or field i 0

unfoldable pub int_to_uint8 : ℕ → List ℕ
int_to_uint8 value = (value % 2 ^ 8) ∷ []

unfoldable pub int_to_uint16 : ℕ → List ℕ
int_to_uint16 value = (value / 2 ^ 8 % 2 ^ 8) ∷ (value % 2 ^ 8) ∷ []

unfoldable pub int_to_uint24 : ℕ → List ℕ
int_to_uint24 value = (value / 2 ^ 16 % 2 ^ 8) ∷ (value / 2 ^ 8 % 2 ^ 8) ∷ (value % 2 ^ 8) ∷ []

unfoldable pub int_to_uint32 : ℕ → List ℕ
int_to_uint32 value =
    (value / 2 ^ 24 % 2 ^ 8)
    ∷ (value / 2 ^ 16 % 2 ^ 8)
    ∷ (value / 2 ^ 8 % 2 ^ 8)
    ∷ (value % 2 ^ 8)
    ∷ []

unfoldable pub int_to_uint48 : ℕ → List ℕ
int_to_uint48 value =
    (value / 2 ^ 40 % 2 ^ 8)
    ∷ (value / 2 ^ 32 % 2 ^ 8)
    ∷ (value / 2 ^ 24 % 2 ^ 8)
    ∷ (value / 2 ^ 16 % 2 ^ 8)
    ∷ (value / 2 ^ 8 % 2 ^ 8)
    ∷ (value % 2 ^ 8)
    ∷ []

unfoldable pub int_to_uint64 : ℕ → List ℕ
int_to_uint64 value =
    (value / 2 ^ 56 % 2 ^ 8)
    ∷ (value / 2 ^ 48 % 2 ^ 8)
    ∷ (value / 2 ^ 40 % 2 ^ 8)
    ∷ (value / 2 ^ 32 % 2 ^ 8)
    ∷ (value / 2 ^ 24 % 2 ^ 8)
    ∷ (value / 2 ^ 16 % 2 ^ 8)
    ∷ (value / 2 ^ 8 % 2 ^ 8)
    ∷ (value % 2 ^ 8)
    ∷ []

unfoldable pub uint8_to_int : List ℕ → ℕ
uint8_to_int field = byte_at field 0

unfoldable pub uint16_to_int : List ℕ → ℕ
uint16_to_int field = bit_or (byte_at field 0 * 2 ^ 8) (byte_at field 1)

unfoldable pub uint24_to_int : List ℕ → ℕ
uint24_to_int field =
    bit_or (bit_or (byte_at field 0 * 2 ^ 16) (byte_at field 1 * 2 ^ 8)) (byte_at field 2)

unfoldable pub uint32_to_int : List ℕ → ℕ
uint32_to_int field =
    bit_or
      (bit_or (bit_or (byte_at field 0 * 2 ^ 24) (byte_at field 1 * 2 ^ 16))
        (byte_at field 2 * 2 ^ 8))
      (byte_at field 3)

unfoldable pub uint48_to_int : List ℕ → ℕ
uint48_to_int field =
    bit_or
      (bit_or
        (bit_or
          (bit_or (bit_or (byte_at field 0 * 2 ^ 40) (byte_at field 1 * 2 ^ 32))
            (byte_at field 2 * 2 ^ 24))
          (byte_at field 3 * 2 ^ 16))
        (byte_at field 4 * 2 ^ 8))
      (byte_at field 5)

unfoldable pub uint64_to_int : List ℕ → ℕ
uint64_to_int field =
    bit_or
      (bit_or
        (bit_or
          (bit_or
            (bit_or
              (bit_or (bit_or (byte_at field 0 * 2 ^ 56) (byte_at field 1 * 2 ^ 48))
                (byte_at field 2 * 2 ^ 40))
              (byte_at field 3 * 2 ^ 32))
            (byte_at field 4 * 2 ^ 24))
          (byte_at field 5 * 2 ^ 16))
        (byte_at field 6 * 2 ^ 8))
      (byte_at field 7)
