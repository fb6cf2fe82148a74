-- ===== src/Extensions/Parse.antt =====
-- dtls_check_tls_extension on an encoded list of extensions.
use gc2021_pqdtls.Base.{
  ℕ, zero, suc, ◌+◌, ◌-◌, ◌%◌, ◌^◌, ◌<◌, ◌≤◌, ltb, ltb-false, ◌==◌, if◌then◌else◌, Bool, true,
  false, not, ◌&&◌, ◌||◌, ap, Bool-cases, Option-cases, inl, inr, Option, none, some, List, [], ◌∷◌,
  ◌++◌, length, drop, drop-append, length-append, ◌≡◌, refl, ◌∙◌, arith,
}
use gc2021_pqdtls.Numeric.{int_to_uint16, uint16_to_int}
use gc2021_pqdtls.Numeric.RoundTrip.{uint16-int_to_uint}
use gc2021_pqdtls.Alert.{Result, ok, err, alert_create, alert_fatal_create}
use gc2021_pqdtls.Security.{tls_ecdhe_ecdsa_with_aes_128_ccm_8}
use gc2021_pqdtls.Extensions.{
  Seen, nothing_seen, and_then, extension_loop, is_missing, extension_error, check_tls_extension,
}
use gc2021_pqdtls.Extensions.Offers.{
  Extension, curves, client_types, server_types, formats, other, type_of, body_of, encode,
  IsExtension, AllExtensions, acceptable, mark, judge, switch-mark, drop-int_to_uint16,
  length-int_to_uint16, length-uint16s,
}

small : (v : ℕ) → v < 2 ^ 16 → v % 2 ^ 16 ≡ v
small v h = omega arith

type_small : (e : Extension) → IsExtension e → type_of e < 2 ^ 16
type_small (curves cs) h = omega arith
type_small (client_types ts) h = omega arith
type_small (server_types ts) h = omega arith
type_small (formats fs) h = omega arith
type_small (other t body) (h, k) = h

body_small : (e : Extension) → IsExtension e → length (body_of e) < 2 ^ 16
body_small (curves cs) (h, k) = omega (
  arith,
  length-append (int_to_uint16 (length cs + length cs)) _,
  length-int_to_uint16 (length cs + length cs),
  length-uint16s cs,
)
body_small (client_types ts) h = omega arith
body_small (server_types ts) h = omega arith
body_small (formats fs) h = omega arith
body_small (other t body) (h, (k, n)) = k

length-encode :
    (e : Extension) (es : List Extension)
    → length (encode (e ∷ es)) ≡ 4 + (length (body_of e) + length (encode es))
length-encode e es = omega (
  arith,
  length-append (int_to_uint16 (type_of e))
      (int_to_uint16 (length (body_of e)) ++ (body_of e ++ encode es)),
  length-append (int_to_uint16 (length (body_of e))) (body_of e ++ encode es),
  length-append (body_of e) (encode es),
  length-int_to_uint16 (type_of e),
  length-int_to_uint16 (length (body_of e)),
)

drop_head : (t n : ℕ) (rest : List ℕ) → drop 4 (int_to_uint16 t ++ (int_to_uint16 n ++ rest)) ≡ rest
unfolding int_to_uint16
drop_head t n rest = refl

and_then-if :
    (b : Bool) (seen : Seen) (next : Seen → Option (Option Seen)) (o : Option Seen)
    → next seen ≡ some o
    → and_then (some (if b then some seen else none)) next ≡ some (if b then o else none)
and_then-if true seen next o h = h
and_then-if false seen next o h = refl

pub extension_loop-judge :
    (fuel : ℕ) (es : List Extension) (seen : Seen)
    → AllExtensions es
    → length (encode es) ≤ fuel
    → extension_loop fuel true (encode es) (length (encode es)) seen ≡ some (judge es seen)
unfolding extension_loop
extension_loop-judge zero [] seen h k = refl
extension_loop-judge (suc fuel) [] seen h k = refl
extension_loop-judge zero (e ∷ es) seen h k = absurd (omega (arith, length-encode e es))
extension_loop-judge (suc fuel) (e ∷ es) seen (h, hs) k =
    let t = type_of e in
    let n = length (body_of e) in
    let m = length (encode es) in
    let tail = int_to_uint16 n ++ (body_of e ++ encode es) in
    let size = length-encode e es in
    let some_left : (4 + (n + m) == 0) ≡ false = ground arith in
    let long : ltb (4 + (n + m)) 4 ≡ false = ltb-false _ _ (omega arith) in
    let left : 4 + (n + m) - 4 ≡ n + m = omega arith in
    let type_read : uint16_to_int (int_to_uint16 t ++ tail) ≡ t =
      uint16-int_to_uint t tail ∙ small t (type_small e h) in
    let size_read : uint16_to_int tail ≡ n =
      uint16-int_to_uint n (body_of e ++ encode es) ∙ small n (body_small e h) in
    let enough : ltb (n + m) n ≡ false = ltb-false _ _ (omega arith) in
    let later : n + m - n ≡ m = omega arith in
    rw (size, some_left, long, left, drop-int_to_uint16 t tail, type_read, size_read, enough)
      (rw
        (
          drop_head t n (body_of e ++ encode es),
          switch-mark e (encode es) seen h,
          drop-append n (body_of e) (encode es) refl,
          later,
        )
        (and_then-if (acceptable e) (mark e seen) _ (judge es (mark e seen))
          (extension_loop-judge fuel es (mark e seen) hs (omega arith))))

-- There is an extension of this type.
abbrev pub has : ℕ → List Extension → Bool
has t [] = false
has t (e ∷ es) = let rest = has t es in (type_of e == t) || rest

abbrev pub all_acceptable : List Extension → Bool
all_acceptable [] = true
all_acceptable (e ∷ es) = let rest = all_acceptable es in acceptable e && rest

-- What is seen behind the extensions, after what was seen before.
abbrev gathered : List Extension → Seen → Seen
gathered es seen = record {
  elliptic_curve = seen.elliptic_curve || has 10 es;
  client_cert_type = seen.client_cert_type || has 19 es;
  server_cert_type = seen.server_cert_type || has 20 es;
  point_formats = seen.point_formats || has 11 es;
}

or_true : (b : Bool) → (b || true) ≡ true
or_true true = refl
or_true false = refl

or_none : (b : Bool) → (b || false) ≡ b
or_none true = refl
or_none false = refl

or_parts : (a b : Bool) → (a || b) ≡ false → (a ≡ false) × (b ≡ false)
or_parts true b h = absurd (ground arith)
or_parts false b h = (refl, h)

gathered-mark :
    (e : Extension) (es : List Extension) (seen : Seen)
    → IsExtension e
    → gathered es (mark e seen) ≡ gathered (e ∷ es) seen
gathered-mark (curves cs) es seen h = rw (or_true seen.elliptic_curve) refl
gathered-mark (client_types ts) es seen h = rw (or_true seen.client_cert_type) refl
gathered-mark (server_types ts) es seen h = rw (or_true seen.server_cert_type) refl
gathered-mark (formats fs) es seen h = rw (or_true seen.point_formats) refl
gathered-mark (other t body) es seen (h, (k, n)) =
    let (a, n2) = or_parts (t == 10) _ n in
    let (b, n3) = or_parts (t == 19) _ n2 in
    let (c, d) = or_parts (t == 20) (t == 11) n3 in rw (a, b, c, d) refl

judge-gathered :
    (es : List Extension) (seen : Seen)
    → AllExtensions es
    → judge es seen ≡ (if all_acceptable es then some (gathered es seen) else none)
judge-gathered [] seen h =
    rw
      (
        or_none seen.elliptic_curve,
        or_none seen.client_cert_type,
        or_none seen.server_cert_type,
        or_none seen.point_formats,
      )
      refl
judge-gathered (e ∷ es) seen (h, hs) = elim (Bool-cases (acceptable e)) [
  | inl b ↦ rw b (
      judge-gathered es (mark e seen) hs
      ∙ ap (λ g. if all_acceptable es then some g else none) (gathered-mark e es seen h))
  | inr b ↦ rw b refl
]

-- The refusal: a warning no_renegotiation at an end that is connected, else a fatal
-- handshake_failure.
abbrev pub refusal : ℕ → Result ℕ
refusal state = if state == 12 then err (alert_create 1 100) else err (alert_fatal_create 40)

-- The answer to the extensions of a ClientHello: ECDHE needs elliptic_curves (10), both certificate
-- types (19, 20) and ec_point_formats (11).
abbrev pub answer : ℕ → ℕ → List Extension → Result ℕ
answer cipher state es =
    if all_acceptable es
      && (not (cipher == 0xC0AE) || (has 10 es && (has 19 es && (has 20 es && has 11 es))))
    then ok 0
    else refusal state

chosen_answer :
    (ecdhe a b c d : Bool) (refused : Result ℕ)
    → (if ecdhe && (not a || (not b || (not c || not d))) then refused else ok 0)
      ≡ (if not ecdhe || (a && (b && (c && d))) then ok 0 else refused)
chosen_answer false a b c d refused = refl
chosen_answer true false b c d refused = refl
chosen_answer true true false c d refused = refl
chosen_answer true true true false d refused = refl
chosen_answer true true true true false refused = refl
chosen_answer true true true true true refused = refl

-- The code's answer to what was seen.
abbrev seen_answer : ℕ → ℕ → Option Seen → Result ℕ
seen_answer cipher state none = extension_error true state
seen_answer cipher state (some seen) =
    if (cipher == tls_ecdhe_ecdsa_with_aes_128_ccm_8) && is_missing true seen
    then extension_error true state
    else ok 0

seen_answer-gathered :
    (cipher state : ℕ) (es : List Extension) (all : Bool)
    → seen_answer cipher state (if all then some (gathered es nothing_seen) else none) ≡ (
        if all && (not (cipher == 0xC0AE) || (has 10 es && (has 19 es && (has 20 es && has 11 es))))
        then ok 0
        else refusal state)
unfolding is_missing
seen_answer-gathered cipher state es false = refl
seen_answer-gathered cipher state es true =
    chosen_answer (cipher == 0xC0AE) (has 10 es) (has 19 es) (has 20 es) (has 11 es) (refusal state)

judge-answer :
    (cipher state : ℕ) (es : List Extension)
    → AllExtensions es
    → seen_answer cipher state (judge es nothing_seen) ≡ answer cipher state es
judge-answer cipher state es h =
    ap (seen_answer cipher state) (judge-gathered es nothing_seen h)
    ∙ seen_answer-gathered cipher state es (all_acceptable es)

check_tls_extension-judge :
    (cipher state : ℕ) (es : List Extension)
    → AllExtensions es
    → length (encode es) < 2 ^ 16
    → check_tls_extension
        (some cipher)
        state
        (int_to_uint16 (length (encode es)) ++ encode es)
        (length (encode es) + 2)
        true
      ≡ some (seen_answer cipher state (judge es nothing_seen))
unfolding check_tls_extension
check_tls_extension-judge cipher state es h k =
    let n = length (encode es) in
    let long : ltb (n + 2) 2 ≡ false = ltb-false _ _ (omega arith) in
    let left : n + 2 - 2 ≡ n = omega arith in
    let size_read : uint16_to_int (int_to_uint16 n ++ encode es) ≡ n =
      uint16-int_to_uint n (encode es) ∙ small n k in
    let enough : ltb n n ≡ false = ltb-false n n (omega arith) in
    rw
      (
        long,
        left,
        size_read,
        enough,
        drop-int_to_uint16 n (encode es),
        extension_loop-judge (n + 2) es nothing_seen h (omega arith),
      )
      (elim (Option-cases (judge es nothing_seen)) [
        | inl e ↦ rw e refl
        | inr (seen, e) ↦
            let is_ecdhe = cipher == tls_ecdhe_ecdsa_with_aes_128_ccm_8 in
            rw e (elim (Bool-cases (is_ecdhe && is_missing true seen)) [
              | inl f ↦ rw f refl
              | inr f ↦ rw f refl
            ])
      ])

-- The extensions of a ClientHello are accepted exactly if each that the server knows offers the value
-- that it supports and, for the ECDHE suite, none of the four that it needs is missing; a refusal is a
-- fatal handshake_failure, or a warning if the end is connected. The list is shorter than 2 ^ 16
-- bytes.
pub check_tls_extension-answer :
    (cipher state : ℕ) (es : List Extension)
    → AllExtensions es
    → length (encode es) < 2 ^ 16
    → check_tls_extension
        (some cipher)
        state
        (int_to_uint16 (length (encode es)) ++ encode es)
        (length (encode es) + 2)
        true
      ≡ some (answer cipher state es)
check_tls_extension-answer cipher state es h k =
    check_tls_extension-judge cipher state es h k ∙ ap some (judge-answer cipher state es h)
