-- ===== src/Cookie/Exchange.antt =====
-- The exchange on a whole Client Hello: a hello without a cookie is answered with the cookie that the
-- same hello must hold.
use mathlib.Core.List.{append_assoc}
use gc2021_pqdtls.Base.{
  ℕ, zero, suc, ◌+◌, ◌-◌, ◌^◌, ◌<◌, ltb, ltb-false, false, some, List, [], ◌∷◌, ◌++◌, length, take,
  drop, take-append, drop-append, take-all, length-append, ◌≡◌, refl, sym, ap, ◌∙◌, arith,
}
use gc2021_pqdtls.Numeric.{
  byte_at, int_to_uint16, int_to_uint24, uint16_to_int, uint8_to_int, uint24_to_int,
}
use gc2021_pqdtls.Numeric.RoundTrip.{uint24-int_to_uint, uint16-int_to_uint}
use gc2021_pqdtls.Alert.{ok}
use gc2021_pqdtls.Hmac.{Hash, hmac_init, hmac_update, hmac_finalize}
use gc2021_pqdtls.Cookie.{
  skip_var_field, get_cookie, cookie_for, create_cookie, verify_peer, check_cookie,
}

byte_at-append : (xs ys : List ℕ) (n : ℕ) → length xs ≡ n → byte_at (xs ++ ys) n ≡ byte_at ys 0
byte_at-append [] ys n h = ap (byte_at ys) (sym h)
byte_at-append (x ∷ xs) ys zero h = absurd (omega arith)
byte_at-append (x ∷ xs) ys (suc n) h = byte_at-append xs ys n (omega arith)

-- The parts of a Client Hello: nine bytes of the handshake header before the fragment length, the
-- version and the random bytes, the session id, and the suites and what follows them.
pub record Hello : Type 0 where
  pub start : List ℕ
  pub random : List ℕ
  pub session_id : List ℕ
  pub suites : List ℕ

abbrev pub fixed : Hello → List ℕ
fixed m = 0xfe ∷ 0xfd ∷ m.random

abbrev pub front : Hello → List ℕ
front m = fixed m ++ (length m.session_id ∷ m.session_id)

abbrev pub body : Hello → List ℕ → List ℕ
body m cookie = front m ++ (length cookie ∷ (cookie ++ m.suites))

-- The bytes of the message, with a cookie.
abbrev pub bytes : Hello → List ℕ → List ℕ
bytes m cookie = (m.start ++ int_to_uint24 (length (body m cookie))) ++ body m cookie

abbrev pub IsHello : Hello → Type 0
IsHello m =
    (length m.start ≡ 9)
    × ((length m.random ≡ 32) × ((length m.session_id < 256) × (length m.suites < 2 ^ 16)))

-- The cookie of the hello: the HMAC over the address, the hello up to its session id, and what follows
-- the cookie.
abbrev pub cookie_of_hello : Hash → List ℕ → List ℕ → Hello → List ℕ
cookie_of_hello h secret address m =
    take 16
      (hmac_finalize h (
        hmac_update h (hmac_update h (hmac_update h (hmac_init h secret) address) (front m))
          m.suites)).0

length-int_to_uint24 : (v : ℕ) → length (int_to_uint24 v) ≡ 3
unfolding int_to_uint24
length-int_to_uint24 v = refl

length-front : (m : Hello) → IsHello m → length (front m) ≡ 35 + length m.session_id
length-front m (a, (b, c)) =
    omega (arith, length-append (fixed m) (length m.session_id ∷ m.session_id))

length-head :
    (m : Hello) (cookie : List ℕ)
    → IsHello m
    → length (m.start ++ int_to_uint24 (length (body m cookie))) ≡ 12
length-head m cookie (a, b) = omega (
  arith,
  length-append m.start (int_to_uint24 (length (body m cookie))),
  length-int_to_uint24 (length (body m cookie)),
)

length-body :
    (m : Hello) (cookie : List ℕ)
    → IsHello m
    → length (body m cookie) ≡ 36 + length m.session_id + length cookie + length m.suites
length-body m cookie w = omega (
  arith,
  length-append (front m) (length cookie ∷ (cookie ++ m.suites)),
  length-append cookie m.suites,
  length-front m w,
)

version :
    (random session after : List ℕ)
    → uint16_to_int (((0xfe ∷ 0xfd ∷ random) ++ session) ++ after) ≡ 0xfefd
unfolding int_to_uint16
version random session after = uint16-int_to_uint 0xfefd ((random ++ session) ++ after)

pub skip_var_field-cons :
    (xs after : List ℕ) → skip_var_field ((length xs ∷ xs) ++ after) ≡ some after
unfolding skip_var_field uint8_to_int
skip_var_field-cons xs after =
    let long : ltb (suc (length (xs ++ after))) (length xs + 1) ≡ false =
      ltb-false (suc (length (xs ++ after))) (length xs + 1)
        (omega (arith, length-append xs after)) in
    rw long (ap some (drop-append (length xs + 1) (length xs ∷ xs) after (omega arith)))

module _ (m : Hello) (cookie : List ℕ) (w : IsHello m) (short : length cookie < 256) where
  drop_head : drop 12 (bytes m cookie) ≡ body m cookie
  drop_head =
      drop-append 12 (m.start ++ int_to_uint24 (length (body m cookie))) (body m cookie)
        (length-head m cookie w)

  length-bytes :
      length (bytes m cookie) ≡ 48 + length m.session_id + length cookie + length m.suites
  length-bytes = omega (
    arith,
    length-append (m.start ++ int_to_uint24 (length (body m cookie))) (body m cookie),
    length-head m cookie w,
    length-body m cookie w,
  )

  -- A byte of the body, at its place in the message.
  byte_at-bytes :
      (before after : List ℕ) (i : ℕ)
      → body m cookie ≡ before ++ after
      → i ≡ 12 + length before
      → byte_at (bytes m cookie) i ≡ byte_at after 0
  byte_at-bytes before after i e h =
      let front = m.start ++ int_to_uint24 (length (body m cookie)) in
      ap (λ x. byte_at (front ++ x) i) e
      ∙ ap (λ x. byte_at x i) (sym (append_assoc front before after))
      ∙ byte_at-append (front ++ before) after i
          (omega (arith, length-append front before, length-head m cookie w))

  session_length : byte_at (bytes m cookie) 46 ≡ length m.session_id
  session_length =
      byte_at-bytes (fixed m) _ 46
        (append_assoc (fixed m) (length m.session_id ∷ m.session_id)
          (length cookie ∷ (cookie ++ m.suites)))
        (omega (arith, w.1.0))

  cookie_length_byte :
      byte_at (bytes m cookie) (12 + (34 + length m.session_id + 1)) ≡ length cookie
  cookie_length_byte =
      byte_at-bytes (front m) (length cookie ∷ (cookie ++ m.suites)) _ refl
        (omega (arith, length-front m w))

  fragment_length : uint24_to_int (drop 9 (bytes m cookie)) ≡ length (body m cookie)
  fragment_length =
      let n = length (body m cookie) in
      ap (λ x. uint24_to_int (drop 9 x)) (append_assoc m.start (int_to_uint24 n) (body m cookie))
      ∙ ap uint24_to_int (drop-append 9 m.start (int_to_uint24 n ++ body m cookie) w.0)
      ∙ uint24-int_to_uint n (body m cookie)
      ∙ omega (arith, length-body m cookie w, w.1.1.0, w.1.1.1)

  -- What stands behind the cookie.
  drop_tail :
      (i : ℕ) → i ≡ 48 + length m.session_id + length cookie → drop i (bytes m cookie) ≡ m.suites
  drop_tail i h =
      let front_bytes = m.start ++ int_to_uint24 (length (body m cookie)) in
      let middle = front m ++ (length cookie ∷ cookie) in
      ap (λ x. drop i (front_bytes ++ x))
        (sym (append_assoc (front m) (length cookie ∷ cookie) m.suites))
      ∙ ap (drop i) (sym (append_assoc front_bytes middle m.suites))
      ∙ drop-append i (front_bytes ++ middle) m.suites (
          omega (
            arith,
            length-append front_bytes middle,
            length-append (front m) (length cookie ∷ cookie),
            length-head m cookie w,
            length-front m w,
          ))

  -- dtls_create_cookie on a whole hello: the cookie does not depend on the one that the hello holds.
  pub create_cookie-bytes :
      (h : Hash) (secret address : List ℕ)
      → create_cookie h secret address (bytes m cookie)
        ≡ some (ok (cookie_of_hello h secret address m))
  unfolding create_cookie cookie_for
  create_cookie-bytes h secret address =
      let ls = length m.session_id in
      let lc = length cookie in
      let n = length (body m cookie) in
      let total = length (bytes m cookie) in
      let e1 = 34 + ls + 1 in
      let e2 = e1 + lc + 1 in
      let whole : n ≡ 36 + ls + lc + length m.suites = length-body m cookie w in
      let size : total ≡ 48 + ls + lc + length m.suites = length-bytes in
      let a : ltb total (e1 + 12) ≡ false = ltb-false total (e1 + 12) (omega arith) in
      let b : ltb total (e2 + 12) ≡ false = ltb-false total (e2 + 12) (omega arith) in
      let c : ltb n e2 ≡ false = ltb-false n e2 (omega arith) in
      let d : ltb total (12 + n) ≡ false = ltb-false total (12 + n) (omega arith) in
      let hello : take e1 (body m cookie) ≡ front m =
        take-append e1 (front m) (lc ∷ (cookie ++ m.suites)) (omega (arith, length-front m w)) in
      let rest : take (n - e2) m.suites ≡ m.suites = take-all (n - e2) m.suites (omega arith) in
      rw
        (
          session_length,
          cookie_length_byte,
          fragment_length,
          a,
          b,
          c,
          d,
          drop_head,
          hello,
          drop_tail (12 + e2) (omega arith),
          rest,
        )
        refl

  drop_session :
      drop 46 (bytes m cookie)
      ≡ (length m.session_id ∷ m.session_id) ++ (length cookie ∷ (cookie ++ m.suites))
  drop_session =
      let front_bytes = m.start ++ int_to_uint24 (length (body m cookie)) in
      let after = (length m.session_id ∷ m.session_id) ++ (length cookie ∷ (cookie ++ m.suites)) in
      ap (λ x. drop 46 (front_bytes ++ x))
        (append_assoc (fixed m) (length m.session_id ∷ m.session_id)
          (length cookie ∷ (cookie ++ m.suites)))
      ∙ ap (drop 46) (sym (append_assoc front_bytes (fixed m) after))
      ∙ drop-append 46 (front_bytes ++ fixed m) after
          (omega (arith, length-append front_bytes (fixed m), length-head m cookie w, w.1.0))

  -- dtls_get_cookie on a whole hello finds its cookie.
  get_cookie-bytes : get_cookie (bytes m cookie) ≡ ok cookie
  unfolding get_cookie
  get_cookie-bytes =
      let total = length (bytes m cookie) in
      let a : ltb total 47 ≡ false = ltb-false total 47 (omega (arith, length-bytes)) in
      let b : ltb (length (length cookie ∷ (cookie ++ m.suites))) (length cookie + 1) ≡ false =
        ltb-false (length (length cookie ∷ (cookie ++ m.suites))) (length cookie + 1)
          (omega (arith, length-append cookie m.suites)) in
      rw
        (
          a,
          drop_head,
          version m.random (length m.session_id ∷ m.session_id)
              (length cookie ∷ (cookie ++ m.suites)),
          drop_session,
          skip_var_field-cons m.session_id (length cookie ∷ (cookie ++ m.suites)),
          b,
          take-append (length cookie) cookie m.suites refl,
        )
        refl

  verified :
      (h : Hash) (secret address : List ℕ)
      → verify_peer h secret address (bytes m cookie)
        ≡ some (ok (check_cookie (cookie_of_hello h secret address m) (ok cookie)))
  unfolding verify_peer
  verified h secret address = rw (create_cookie-bytes h secret address, get_cookie-bytes) refl
