-- ===== src/Signature/Written.antt =====
-- What dtls_check_ecdsa_signature_elem finds in the bytes that dtls_add_ecdsa_signature_elem wrote.
use mathlib.Core.List.{append_assoc}
use gc2021_pqdtls.Base.{
  ℕ, suc, ◌+◌, ◌-◌, ◌%◌, ◌/◌, ◌^◌, ◌<◌, ◌≤◌, ltb, false, none, some, List, [], ◌∷◌, ◌++◌, length,
  get_or, take, drop, take-append, drop-append, length-append, ◌≡◌, refl, ap, sym, ◌∙◌, arith,
}
use gc2021_pqdtls.Numeric.{int_to_uint8, int_to_uint16, uint8_to_int, uint16_to_int}
use gc2021_pqdtls.Numeric.RoundTrip.{uint16-int_to_uint}
use gc2021_pqdtls.Alert.{ok, err}
use gc2021_pqdtls.EcKey.{ec_key_from_uint32}
use gc2021_pqdtls.EcKey.Long.{IsLong, first_byte, length-sign_byte, ec_key_from_uint32_asn1-long}
use gc2021_pqdtls.EcKey.Numbers.{length-from_loop}
use gc2021_pqdtls.Extensions.{read_uint8, read_uint16}
use gc2021_pqdtls.Signature.{
  Found, signature_elem, less, check_integer_s, check_ecdsa_signature_elem,
  add_ecdsa_signature_elem,
}

key_at :
    (n : ℕ) (xs key behind : List ℕ)
    → length key ≡ 32
    → length xs ≡ n
    → take 32 (drop n (xs ++ (key ++ behind))) ≡ key
key_at n xs key behind h k =
    rw (drop-append n xs (key ++ behind) k, take-append 32 key behind h) refl

-- What stands in front of r, and from the end of r on.
abbrev header : List ℕ → List ℕ → List ℕ
header r s =
    4
    ∷ 3
    ∷ (length r + length s + 2 + 2 + 2) / 256 % 256
    ∷ (length r + length s + 2 + 2 + 2) % 256
    ∷ 48
    ∷ (length r + length s + 2 + 2) % 256
    ∷ 2
    ∷ length r % 256
    ∷ []

abbrev second : List ℕ → List ℕ → List ℕ
second s rest = 2 ∷ length s % 256 ∷ (s ++ rest)

signature_elem-header :
    (r s rest : List ℕ) → signature_elem r s ++ rest ≡ header r s ++ (r ++ second s rest)
unfolding int_to_uint8 int_to_uint16
signature_elem-header r s rest = rw (append_assoc r (2 ∷ length s % 256 ∷ s) rest) refl

drop-header :
    (r s rest : List ℕ) → drop (8 + length r) (header r s ++ (r ++ second s rest)) ≡ second s rest
drop-header r s rest =
    drop-append (8 + length r) (header r s ++ r) (second s rest) (length-append (header r s) r)

drop_one-header :
    (r s rest : List ℕ)
    → drop (9 + length r) (header r s ++ (r ++ second s rest)) ≡ length s % 256 ∷ (s ++ rest)
drop_one-header r s rest =
    let front : List ℕ = header r s ++ (r ++ (2 ∷ [])) in
    let size : length front ≡ 9 + length r =
      omega (arith, length-append (header r s) (r ++ (2 ∷ [])), length-append r (2 ∷ [])) in
    ap (λ t. drop (9 + length r) (header r s ++ t))
      (sym (append_assoc r (2 ∷ []) (length s % 256 ∷ (s ++ rest))))
    ∙ drop-append (9 + length r) front (length s % 256 ∷ (s ++ rest)) size

read_uint16-pair :
    (v : ℕ) (rest : List ℕ)
    → v < 2 ^ 16
    → read_uint16 (v / 2 ^ 8 % 2 ^ 8 ∷ v % 2 ^ 8 ∷ rest) ≡ some v
unfolding read_uint16 int_to_uint16
read_uint16-pair v rest h =
    let number : uint16_to_int (v / 2 ^ 8 % 2 ^ 8 ∷ v % 2 ^ 8 ∷ rest) ≡ v =
      uint16-int_to_uint v rest ∙ omega arith in
    let room : ltb (suc (suc (length rest))) 2 ≡ false = ground arith in rw (room, number) refl

-- A signature that is in the message is read to its end.
module _ (before r s rest : List ℕ) where
  abbrev at : ℕ
  at = length before

  abbrev packet : List ℕ
  packet = before ++ (header r s ++ (r ++ second s rest))

  here : drop at packet ≡ header r s ++ (r ++ second s rest)
  here = drop-append at before _ refl

  check_integer_s-second :
      (place_r : ℕ)
      → length s < 256
      → 32 ≤ at + (10 + length r + length s)
      → check_integer_s packet at (length r) place_r
        ≡ some (ok (10 + length r + length s, (place_r, at + (10 + length r + length s) - 32)))
  unfolding check_integer_s read_uint8 uint8_to_int
  check_integer_s-second place_r small room =
      let size : length s % 256 ≡ length s = omega arith in
      let fits : ltb (at + (10 + length r + length s)) 32 ≡ false = ground arith in
      rw (here, drop-header r s rest, drop_one-header r s rest, size, fits) refl

  check_ecdsa_signature_elem-header :
      (data_length : ℕ)
      → length r < 100
      → length s < 100
      → 24 ≤ length r
      → 10 + length r + length s ≤ data_length
      → data_length < 2 ^ 64
      → check_ecdsa_signature_elem packet at data_length
        ≡ check_integer_s packet at (length r) (at + (8 + length r) - 32)
  unfolding check_ecdsa_signature_elem read_uint8 uint8_to_int
  check_ecdsa_signature_elem-header data_length small_r small_s long fits bound =
      let size : length r % 256 ≡ length r = omega arith in
      let two : ltb (less data_length 2) (length r + length s + 2 + 2 + 2) ≡ false = ground arith in
      let five : ltb (less data_length 5) (length r + length s + 2 + 2) ≡ false = ground arith in
      let sum : (length r + length s + 2 + 2) % 256 ≡ length r + length s + 2 + 2 = omega arith in
      let fits_place : ltb (at + (8 + length r)) 32 ≡ false = ground arith in
      let pair = read_uint16-pair (length r + length s + 2 + 2 + 2) in
      rw (here, size, sum, pair _ (omega arith), two, five, fits_place) refl

module _ (before sign_r r sign_s s rest : List ℕ) (r32 : length r ≡ 32) (s32 : length s ≡ 32) where
  abbrev all_r : List ℕ
  all_r = sign_r ++ r

  abbrev all_s : List ℕ
  all_s = sign_s ++ s

  place_of_r :
      take 32 (drop (length before + (8 + length all_r) - 32) (packet before all_r all_s rest)) ≡ r
  place_of_r =
      let front : List ℕ = before ++ (header all_r all_s ++ sign_r) in
      let size : length front ≡ length before + (8 + length all_r) - 32 = omega (
        arith,
        length-append before (header all_r all_s ++ sign_r),
        length-append (header all_r all_s) sign_r,
        length-append sign_r r,
      ) in
      let split : packet before all_r all_s rest ≡ front ++ (r ++ second all_s rest) =
        ap (λ t. before ++ (header all_r all_s ++ t)) (append_assoc sign_r r (second all_s rest))
        ∙ sym (append_assoc before (header all_r all_s ++ sign_r) (r ++ second all_s rest)) in
      rw split (key_at _ front r (second all_s rest) r32 size)

  place_of_s :
      take 32 (
        drop
          (length before + (10 + length all_r + length all_s) - 32)
          (packet before all_r all_s rest))
      ≡ s
  place_of_s =
      let middle : List ℕ = 2 ∷ length all_s % 256 ∷ sign_s in
      let front : List ℕ = before ++ (header all_r all_s ++ (all_r ++ middle)) in
      let size : length front ≡ length before + (10 + length all_r + length all_s) - 32 = omega (
        arith,
        length-append before (header all_r all_s ++ (all_r ++ middle)),
        length-append (header all_r all_s) (all_r ++ middle),
        length-append all_r middle,
        length-append sign_s s,
      ) in
      let split : packet before all_r all_s rest ≡ front ++ (s ++ rest) =
        ap (λ t. before ++ (header all_r all_s ++ (all_r ++ (2 ∷ length all_s % 256 ∷ t))))
          (append_assoc sign_s s rest)
        ∙ ap (λ t. before ++ (header all_r all_s ++ t))
            (sym (append_assoc all_r middle (s ++ rest)))
        ∙ sym (append_assoc before (header all_r all_s ++ (all_r ++ middle)) (s ++ rest)) in
      rw split (key_at _ front s rest s32 size)

-- The whole element was read, and both numbers stand where they were found.
abbrev pub Reads : List ℕ → ℕ → List ℕ → List ℕ → Found → Type 0
Reads memory n r s none = ⊥
Reads memory n r s (some (err e)) = ⊥
Reads memory n r s (some (ok (m, (place_r, place_s)))) =
    (m ≡ n)
    × ((take 32 (drop place_r memory) ≡ ec_key_from_uint32 r 32)
        × (take 32 (drop place_s memory) ≡ ec_key_from_uint32 s 32))

length-ec_key_from_uint32 : (ws : List ℕ) → length (ec_key_from_uint32 ws 32) ≡ 32
unfolding ec_key_from_uint32
length-ec_key_from_uint32 ws = length-from_loop 8 ws

length-signature_elem : (r s : List ℕ) → length (signature_elem r s) ≡ 10 + length r + length s
unfolding int_to_uint8 int_to_uint16
length-signature_elem r s = omega (arith, length-append r (2 ∷ length s % 256 ∷ s))

packet-Reads :
    (before sign_r sign_s r s rest : List ℕ) (data_length : ℕ)
    → length sign_r ≤ 1
    → length sign_s ≤ 1
    → let all_r = sign_r ++ ec_key_from_uint32 r 32 in
      let all_s = sign_s ++ ec_key_from_uint32 s 32 in
      let memory = packet before all_r all_s rest in
      10 + length all_r + length all_s ≤ data_length
      → data_length < 2 ^ 64
      → Reads memory
          (10 + length all_r + length all_s)
          r
          s
          (check_ecdsa_signature_elem memory (length before) data_length)
packet-Reads before sign_r sign_s r s rest data_length one_r one_s fits bound =
    let key_r = ec_key_from_uint32 r 32 in
    let key_s = ec_key_from_uint32 s 32 in
    let r32 : length key_r ≡ 32 = length-ec_key_from_uint32 r in
    let s32 : length key_s ≡ 32 = length-ec_key_from_uint32 s in
    let size_r : length (sign_r ++ key_r) ≡ length sign_r + 32 =
      omega (arith, length-append sign_r key_r) in
    let size_s : length (sign_s ++ key_s) ≡ length sign_s + 32 =
      omega (arith, length-append sign_s key_s) in
    let read_r =
      check_ecdsa_signature_elem-header before (sign_r ++ key_r) (sign_s ++ key_s) rest data_length
        (omega arith) (omega arith) (omega arith) fits bound in
    let read_s =
      check_integer_s-second before (sign_r ++ key_r) (sign_s ++ key_s) rest
        (length before + (8 + length (sign_r ++ key_r)) - 32) (omega arith) (omega arith) in
    rw (read_r, read_s)
      (
        refl,
        (
          place_of_r before sign_r key_r sign_s key_s rest r32 s32,
          place_of_s before sign_r key_r sign_s key_s rest r32 s32,
        ),
      )

signature_elem-Reads :
    (before r s rest : List ℕ) (data_length : ℕ)
    → IsLong r
    → IsLong s
    → let m =
        signature_elem
          (first_byte r ++ ec_key_from_uint32 r 32)
          (first_byte s ++ ec_key_from_uint32 s 32) in
      length m ≤ data_length
      → data_length < 2 ^ 64
      → Reads
          (before ++ (m ++ rest))
          (length m)
          r
          s
          (check_ecdsa_signature_elem (before ++ (m ++ rest)) (length before) data_length)
signature_elem-Reads before r s rest data_length long_r long_s fits bound =
    let all_r = first_byte r ++ ec_key_from_uint32 r 32 in
    let all_s = first_byte s ++ ec_key_from_uint32 s 32 in
    let size = length-signature_elem all_r all_s in
    rw (signature_elem-header all_r all_s rest, size)
      (packet-Reads before (first_byte r) (first_byte s) r s rest data_length
        (length-sign_byte (get_or r 7 0)) (length-sign_byte (get_or s 7 0)) (rw size at fits) bound)

-- Whoever verifies a signature reads the numbers that the signer wrote, if none of their words is 0
-- and neither has fewer than 248 bits.
pub check_ecdsa_signature_elem-add_ecdsa_signature_elem :
    (before r s rest : List ℕ) (data_length : ℕ)
    → IsLong r
    → IsLong s
    → length (add_ecdsa_signature_elem r s) ≤ data_length
    → data_length < 2 ^ 64
    → Reads
        (before ++ (add_ecdsa_signature_elem r s ++ rest))
        (length (add_ecdsa_signature_elem r s))
        r
        s
        (check_ecdsa_signature_elem
          (before ++ (add_ecdsa_signature_elem r s ++ rest))
          (length before)
          data_length)
unfolding add_ecdsa_signature_elem
check_ecdsa_signature_elem-add_ecdsa_signature_elem before r s rest data_length long_r long_s fits
      bound =
    let key_r = ec_key_from_uint32_asn1-long r long_r in
    let key_s = ec_key_from_uint32_asn1-long s long_s in
    rw (key_r, key_s)
      (signature_elem-Reads before r s rest data_length long_r long_s (rw (key_r, key_s) at fits)
        bound)
