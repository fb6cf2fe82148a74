-- ===== src/Prf/Psk.antt =====
-- The premaster secret of RFC 4279: N, N zeros, N again, the key of N bytes.
use mathlib.Core.List.{append_assoc}
use gc2021_pqdtls.Base.{
  ℕ, ◌+◌, ◌*◌, ◌^◌, ◌≤◌, ◌<◌, ◌≡◌, refl, sym, ◌↔◌, ap, ◌∙◌, List, ◌++◌, none, some, length, drop,
  replicate, arith, ltb-false, length-append, length-replicate, drop-append,
}
use gc2021_pqdtls.Numeric.{int_to_uint16, uint16_to_int}
use gc2021_pqdtls.Numeric.RoundTrip.{uint16-int_to_uint}
use gc2021_pqdtls.Prf.{psk_pre_master_secret}

-- What a peer reads back from a premaster secret: the length in front, and the key behind it.
pub read_psk : List ℕ → ℕ × List ℕ
read_psk secret = let n = uint16_to_int secret in (n, drop (2 + n + 2) secret)

length-int_to_uint16 : (v : ℕ) → length (int_to_uint16 v) ≡ 2
unfolding int_to_uint16
length-int_to_uint16 v = refl

-- A key of less than 2 ^ 16 bytes that fits gives a secret of exactly 2 * (2 + N) bytes, from which
-- it can be read back.
pub psk_pre_master_secret-read_psk :
    (key : List ℕ) (result_len : ℕ)
    → length key < 2 ^ 16
    → 2 * (2 + length key) ≤ result_len
    → (secret : List ℕ) × (psk_pre_master_secret key result_len ≡ some secret)
      × (length secret ≡ 2 * (2 + length key))
      × (read_psk secret ≡ (length key, key))
unfolding psk_pre_master_secret read_psk
psk_pre_master_secret-read_psk key result_len h fits =
    let n = length key in
    let head = int_to_uint16 n in
    let zeros = replicate {A = ℕ} n 0 in
    let secret = head ++ (zeros ++ (head ++ key)) in
    let front = head ++ (zeros ++ head) in
    let front_length : length front ≡ 2 + n + 2 = omega (
      arith,
      length-append head (zeros ++ head),
      length-append zeros head,
      length-replicate {A = ℕ} n 0,
      length-int_to_uint16 n,
    ) in
    let regroup : secret ≡ front ++ key =
      ap (λ t. head ++ t) (sym (append_assoc zeros head key))
      ∙ sym (append_assoc head (zeros ++ head) key) in
    let len : uint16_to_int secret ≡ n =
      uint16-int_to_uint n (zeros ++ (head ++ key)) ∙ omega arith in
    (
      secret,
      rw (ltb-false result_len (2 * (2 + n)) fits),
      omega (arith, ap length regroup, length-append front key, front_length),
      ap (λ (k : ℕ). (k, drop (2 + k + 2) secret)) len
          ∙ ap (λ t. (n, t))
              (ap (drop (2 + n + 2)) regroup ∙ drop-append (2 + n + 2) front key front_length),
    )

-- Exactly the keys that do not fit are refused.
pub psk_pre_master_secret-none :
    (key : List ℕ) (result_len : ℕ)
    → (psk_pre_master_secret key result_len ≡ none) ↔ (result_len < 2 * (2 + length key))
unfolding psk_pre_master_secret
psk_pre_master_secret-none key result_len = ground arith
