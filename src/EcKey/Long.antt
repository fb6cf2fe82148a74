-- ===== src/EcKey/Long.antt =====
-- The ASN.1 bytes of a number that fills its words.
use mathlib.Core.List.{append_assoc}
use gc2021_pqdtls.Base.{
  ℕ, zero, suc, ◌%◌, ◌/◌, ◌^◌, ◌<◌, ◌≤◌, ◌==◌, if◌then◌else◌, true, false, List, [], ◌∷◌, ◌++◌,
  length, get_or, ◌≡◌, ◌≢◌, refl, arith,
}
use gc2021_pqdtls.Numeric.{int_to_uint32}
use gc2021_pqdtls.EcKey.{
  from_loop, ec_key_from_uint32, word_bytes, asn1_loop, ec_key_from_uint32_asn1,
}
use gc2021_pqdtls.EcKey.Numbers.{AllWords}

-- None of the first words is 0.
abbrev pub IsFull : ℕ → List ℕ → Type 0
IsFull zero ws = Unit {0}
IsFull (suc n) ws = (get_or ws n 0 ≢ 0) × IsFull n ws

-- The zero byte in front of a number whose sign bit is set.
abbrev pub sign_byte : ℕ → List ℕ
sign_byte w = if w / 2 ^ 31 % 2 == 1 then 0 ∷ [] else []

asn1_loop-full : (n : ℕ) (ws : List ℕ) → IsFull n ws → asn1_loop n false ws ≡ from_loop n ws
unfolding asn1_loop from_loop word_bytes
asn1_loop-full zero ws h = refl
asn1_loop-full (suc n) ws (h, hs) = rw (asn1_loop-full n ws hs) (ground arith)

word_bytes-first :
    (w : ℕ) → 2 ^ 23 ≤ w → w < 2 ^ 32 → word_bytes true w ≡ sign_byte w ++ int_to_uint32 w
unfolding word_bytes
word_bytes-first w h k = ground arith

AllWords-get : (n : ℕ) (ws : List ℕ) → AllWords ws → get_or ws n 0 < 2 ^ 32
AllWords-get n [] h = omega arith
AllWords-get zero (w ∷ ws) (h, hs) = h
AllWords-get (suc n) (w ∷ ws) (h, hs) = AllWords-get n ws hs

-- A number of 32 bytes whose highest nine bits are not all 0, and none of whose words is 0.
abbrev pub IsLong : List ℕ → Type 0
IsLong ws = AllWords ws × (IsFull 7 ws × (2 ^ 23 ≤ get_or ws 7 0))

abbrev pub first_byte : List ℕ → List ℕ
first_byte ws = sign_byte (get_or ws 7 0)

asn1_loop-first :
    (n : ℕ) (ws : List ℕ)
    → IsFull n ws
    → 2 ^ 23 ≤ get_or ws n 0
    → get_or ws n 0 < 2 ^ 32
    → asn1_loop (suc n) true ws ≡ sign_byte (get_or ws n 0) ++ from_loop (suc n) ws
unfolding asn1_loop from_loop
asn1_loop-first n ws h low high =
    let w = get_or ws n 0 in
    let z : (w == 0) ≡ false = ground arith in
    rw
      (
        z,
        word_bytes-first w low high,
        asn1_loop-full n ws h,
        append_assoc (sign_byte w) (int_to_uint32 w) (from_loop n ws),
      )
      refl

pub ec_key_from_uint32_asn1-long :
    (ws : List ℕ)
    → IsLong ws
    → ec_key_from_uint32_asn1 ws 32 ≡ first_byte ws ++ ec_key_from_uint32 ws 32
unfolding ec_key_from_uint32_asn1 ec_key_from_uint32
ec_key_from_uint32_asn1-long ws (h, (hs, k)) = asn1_loop-first 7 ws hs k (AllWords-get 7 ws h)

pub length-sign_byte : (w : ℕ) → length (sign_byte w) ≤ 1
length-sign_byte w = ground arith
