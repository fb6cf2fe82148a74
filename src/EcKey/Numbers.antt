-- ===== src/EcKey/Numbers.antt =====
-- The bytes and the words of a number, and what they stand for.
use mathlib.Core.List.{append_assoc, append-nil}
use gc2021_pqdtls.Base.{
  ℕ, zero, suc, ◌+◌, ◌*◌, ◌/◌, ◌^◌, ◌<◌, ◌==◌, if◌then◌else◌, Bool, true, false, ◌&&◌, Bool-cases,
  inl, inr, List, [], ◌∷◌, ◌++◌, length, get_or, drop-append, length-append, ◌≡◌, ◌≢◌, refl, ap,
  sym, ◌∙◌, arith,
}
use gc2021_pqdtls.Numeric.{int_to_uint32, uint32_to_int, byte_at}
use gc2021_pqdtls.Numeric.RoundTrip.{uint32-int_to_uint}
use gc2021_pqdtls.EcKey.{
  to_loop, ec_key_to_uint32, from_loop, ec_key_from_uint32, word_bytes, asn1_loop,
  ec_key_from_uint32_asn1,
}

abbrev pub AllWords : List ℕ → Type 0
AllWords [] = Unit {0}
AllWords (w ∷ ws) = (w < 2 ^ 32) × AllWords ws

-- The number that words stand for, the least significant first.
abbrev pub words_value : List ℕ → ℕ
words_value [] = 0
words_value (w ∷ ws) = w + 2 ^ 32 * words_value ws

-- The number that bytes stand for, the most significant first.
abbrev pub bytes_value : ℕ → List ℕ → ℕ
bytes_value acc [] = acc
bytes_value acc (b ∷ bs) = bytes_value (acc * 256 + b) bs

pub length-int_to_uint32 : (w : ℕ) → length (int_to_uint32 w) ≡ 4
unfolding int_to_uint32
length-int_to_uint32 w = refl

-- The least significant word is written last.
from_loop-cons :
    (n : ℕ) (w : ℕ) (ws : List ℕ) → from_loop (suc n) (w ∷ ws) ≡ from_loop n ws ++ int_to_uint32 w
unfolding from_loop int_to_uint32
from_loop-cons zero w ws = refl
from_loop-cons (suc n) w ws =
    rw (from_loop-cons n w ws)
      (sym (append_assoc (int_to_uint32 (get_or ws n 0)) (from_loop n ws) (int_to_uint32 w)))

pub length-from_loop : (n : ℕ) (ws : List ℕ) → length (from_loop n ws) ≡ n * 4
unfolding from_loop
length-from_loop zero ws = refl
length-from_loop (suc n) ws = omega (
  arith,
  length-append (int_to_uint32 (get_or ws n 0)) (from_loop n ws),
  length-int_to_uint32 (get_or ws n 0),
  length-from_loop n ws,
)

to_loop-from_loop :
    (n : ℕ) (ws rest : List ℕ)
    → length ws ≡ n
    → AllWords ws
    → to_loop n (from_loop n ws ++ rest) ≡ ws
unfolding to_loop
to_loop-from_loop zero [] rest h k = refl
to_loop-from_loop zero (w ∷ ws) rest h k = absurd (omega arith)
to_loop-from_loop (suc n) [] rest h k = absurd (omega arith)
to_loop-from_loop (suc n) (w ∷ ws) rest h (k, ks) =
    let last : uint32_to_int (int_to_uint32 w ++ rest) ≡ w =
      uint32-int_to_uint w rest ∙ omega arith in
    rw
      (
        from_loop-cons n w ws,
        append_assoc (from_loop n ws) (int_to_uint32 w) rest,
        drop-append (n * 4) (from_loop n ws) (int_to_uint32 w ++ rest) (length-from_loop n ws),
        last,
        to_loop-from_loop n ws (int_to_uint32 w ++ rest) (omega arith) ks,
      )
      refl

bytes_value-append :
    (acc : ℕ) (xs ys : List ℕ) → bytes_value acc (xs ++ ys) ≡ bytes_value (bytes_value acc xs) ys
bytes_value-append acc [] ys = refl
bytes_value-append acc (x ∷ xs) ys = bytes_value-append (acc * 256 + x) xs ys

bytes_value-word : (acc w : ℕ) → w < 2 ^ 32 → bytes_value acc (int_to_uint32 w) ≡ w + 2 ^ 32 * acc
unfolding int_to_uint32
bytes_value-word acc w h = omega arith

bytes_value-from_loop :
    (n : ℕ) (ws : List ℕ)
    → length ws ≡ n
    → AllWords ws
    → bytes_value 0 (from_loop n ws) ≡ words_value ws
unfolding from_loop
bytes_value-from_loop zero [] h k = refl
bytes_value-from_loop zero (w ∷ ws) h k = absurd (omega arith)
bytes_value-from_loop (suc n) [] h k = absurd (omega arith)
bytes_value-from_loop (suc n) (w ∷ ws) h (k, ks) =
    ap (bytes_value 0) (from_loop-cons n w ws)
    ∙ bytes_value-append 0 (from_loop n ws) (int_to_uint32 w)
    ∙ bytes_value-word (bytes_value 0 (from_loop n ws)) w k
    ∙ ap (λ (v : ℕ). w + 2 ^ 32 * v) (bytes_value-from_loop n ws (omega arith) ks)

-- A key of 32-bit words is written as the bytes of its number, the most significant first, and read
-- back as it was.
pub ec_key_to-from_uint32 :
    (ws : List ℕ)
    → AllWords ws
    → (bytes_value 0 (ec_key_from_uint32 ws (4 * length ws)) ≡ words_value ws)
      × (ec_key_to_uint32 (ec_key_from_uint32 ws (4 * length ws)) (4 * length ws) ≡ ws)
unfolding ec_key_from_uint32 ec_key_to_uint32
ec_key_to-from_uint32 ws h =
    let n : 4 * length ws / 4 ≡ length ws = omega arith in
    (
      rw n (bytes_value-from_loop (length ws) ws refl h),
      rw n (
          ap (to_loop (length ws)) (sym (append-nil (from_loop (length ws) ws)))
          ∙ to_loop-from_loop (length ws) ws [] refl h),
    )

-- The words that are not 0.
abbrev pub nonzero : List ℕ → List ℕ
nonzero [] = []
nonzero (w ∷ ws) = let rest = nonzero ws in if w == 0 then rest else w ∷ rest

-- The first `n` words are 0.
abbrev zeros : ℕ → List ℕ → Bool
zeros zero ws = true
zeros (suc i) ws = let rest = zeros i ws in (get_or ws i 0 == 0) && rest

abbrev last_bytes : Bool → ℕ → List ℕ
last_bytes first w = if w == 0 then [] else word_bytes first w

and_true : (b : Bool) → (b && true) ≡ b
and_true true = refl
and_true false = refl

and_false : (b : Bool) → (b && false) ≡ false
and_false true = refl
and_false false = refl

asn1_loop-cons :
    (n : ℕ) (first : Bool) (w : ℕ) (ws : List ℕ)
    → asn1_loop (suc n) first (w ∷ ws) ≡ asn1_loop n first ws ++ last_bytes (first && zeros n ws) w
unfolding asn1_loop
asn1_loop-cons zero first w ws = rw (and_true first, append-nil (word_bytes first w)) refl
asn1_loop-cons (suc n) first w ws = elim (Bool-cases (get_or ws n 0 == 0)) [
  | inl e ↦ rw e (asn1_loop-cons n first w ws)
  | inr e ↦
      rw (e, and_false first)
        (ap (λ t. word_bytes first (get_or ws n 0) ++ t) (asn1_loop-cons n false w ws)
          ∙ sym (append_assoc (word_bytes first (get_or ws n 0)) (asn1_loop n false ws) _))
]

false-true : false ≢ true
false-true e = ground arith

asn1_loop-zeros : (n : ℕ) (ws : List ℕ) → zeros n ws ≡ true → asn1_loop n true ws ≡ []
unfolding asn1_loop
asn1_loop-zeros zero ws h = refl
asn1_loop-zeros (suc n) ws h = elim (Bool-cases (get_or ws n 0 == 0)) [
  | inl e ↦ rw e (asn1_loop-zeros n ws (rw e at h))
  | inr e ↦ absurd (false-true (rw e at h))
]

bytes_value-first : (w : ℕ) → w < 2 ^ 32 → bytes_value 0 (word_bytes true w) ≡ w
unfolding word_bytes int_to_uint32
bytes_value-first w h = ground arith

bytes_value-later :
    (acc w : ℕ) → w < 2 ^ 32 → bytes_value acc (word_bytes false w) ≡ w + 2 ^ 32 * acc
unfolding word_bytes
bytes_value-later acc w h = bytes_value-word acc w h

asn1_value :
    (ws : List ℕ)
    → AllWords ws
    → bytes_value 0 (asn1_loop (length ws) true ws) ≡ words_value (nonzero ws)
asn1_value [] h = unfold asn1_loop in refl
asn1_value (w ∷ ws) (h, hs) =
    let n = length ws in
    let before = asn1_loop n true ws in
    ap (bytes_value 0) (asn1_loop-cons n true w ws)
    ∙ bytes_value-append 0 before (last_bytes (zeros n ws) w)
    ∙ elim (Bool-cases (w == 0)) [
      | inl e ↦ rw e (asn1_value ws hs)
      | inr e ↦ elim (Bool-cases (zeros n ws)) [
        | inl z ↦
            let none : before ≡ [] = asn1_loop-zeros n ws z in
            let nothing : words_value (nonzero ws) ≡ 0 =
              sym (asn1_value ws hs) ∙ ap (bytes_value 0) none in
            rw (e, z, none, nothing) (bytes_value-first w h ∙ omega arith)
        | inr z ↦
            rw (e, z)
              (bytes_value-later (bytes_value 0 before) w h
                ∙ ap (λ (v : ℕ). w + 2 ^ 32 * v) (asn1_value ws hs))
      ]
    ]

get_or-AllWords : (ws : List ℕ) (i : ℕ) → AllWords ws → get_or ws i 0 < 2 ^ 32
get_or-AllWords [] i h = omega arith
get_or-AllWords (w ∷ ws) zero (h, hs) = h
get_or-AllWords (w ∷ ws) (suc i) (h, hs) = get_or-AllWords ws i hs

-- The first byte of the first word leaves the sign bit clear.
word_bytes_sign : (w : ℕ) (rest : List ℕ) → w < 2 ^ 32 → byte_at (word_bytes true w ++ rest) 0 < 128
unfolding word_bytes int_to_uint32
word_bytes_sign w rest h = ground arith

asn1_sign : (i : ℕ) (ws : List ℕ) → AllWords ws → byte_at (asn1_loop i true ws) 0 < 128
unfolding asn1_loop
asn1_sign zero ws h = omega arith
asn1_sign (suc i) ws h = elim (Bool-cases (get_or ws i 0 == 0)) [
  | inl e ↦ rw e (asn1_sign i ws h)
  | inr e ↦ rw e (word_bytes_sign (get_or ws i 0) (asn1_loop i false ws) (get_or-AllWords ws i h))
]

-- The ASN.1 bytes of a key stand for the number of its words that are not 0, and their sign bit is
-- clear, as an Integer that is not negative needs it.
pub ec_key_from_uint32_asn1-nonzero :
    (ws : List ℕ)
    → AllWords ws
    → (bytes_value 0 (ec_key_from_uint32_asn1 ws (4 * length ws)) ≡ words_value (nonzero ws))
      × (byte_at (ec_key_from_uint32_asn1 ws (4 * length ws)) 0 < 128)
unfolding ec_key_from_uint32_asn1
ec_key_from_uint32_asn1-nonzero ws h =
    let n : 4 * length ws / 4 ≡ length ws = omega arith in
    rw n (asn1_value ws h, asn1_sign (length ws) ws h)
