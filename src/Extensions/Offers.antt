-- ===== src/Extensions/Offers.antt =====
-- The extensions of a ClientHello as a peer means them, and that the code reads them so.
use gc2021_pqdtls.Base.{
  ℕ, suc, ◌+◌, ◌-◌, ◌*◌, ◌^◌, ◌<◌, ltb-false, ◌==◌, ==_refl, if◌then◌else◌, Bool, true, false, ◌||◌,
  Bool-cases, inl, inr, Option, none, some, List, [], ◌∷◌, ◌++◌, length, drop, length-append, ◌≡◌,
  refl, ap, ◌∙◌, arith,
}
use mathlib.Core.List.{append_assoc}
use gc2021_pqdtls.Numeric.{int_to_uint16, uint8_to_int, uint16_to_int}
use gc2021_pqdtls.Numeric.RoundTrip.{uint16-int_to_uint}
use gc2021_pqdtls.Extensions.{
  secp256r1, raw_public_key, uncompressed, ext_elliptic_curves, ext_ec_point_formats,
  ext_client_certificate_type, ext_server_certificate_type, read_uint16, read_uint8, search_step,
  curve_loop, byte_loop, verdict, checked, verify_ext_eliptic_curves, verify_ext_cert_type,
  verify_ext_ec_point_formats, Seen, switch_extension,
}

-- Whether a list has the value.
abbrev pub offers : ℕ → List ℕ → Bool
offers v [] = false
offers v (x ∷ xs) = let rest = offers v xs in if x == v then true else rest

-- The 16-bit numbers one after the other.
abbrev pub uint16s : List ℕ → List ℕ
uint16s [] = []
uint16s (x ∷ xs) = int_to_uint16 x ++ uint16s xs

abbrev pub AllUint16 : List ℕ → Type 0
AllUint16 [] = Unit {0}
AllUint16 (x ∷ xs) = (x < 2 ^ 16) × AllUint16 xs

pub length-uint16s : (xs : List ℕ) → length (uint16s xs) ≡ 2 * length xs
unfolding int_to_uint16
length-uint16s [] = refl
length-uint16s (x ∷ xs) = omega (arith, length-uint16s xs)

pub length-int_to_uint16 : (x : ℕ) → length (int_to_uint16 x) ≡ 2
unfolding int_to_uint16
length-int_to_uint16 x = refl

pub read_uint16-int_to_uint16 :
    (x : ℕ) (rest : List ℕ) → x < 2 ^ 16 → read_uint16 (int_to_uint16 x ++ rest) ≡ some x
unfolding read_uint16 int_to_uint16
read_uint16-int_to_uint16 x rest h =
    rw (ltb-false (suc (suc (length rest))) 2 (omega arith))
      (ap some (uint16-int_to_uint x rest ∙ omega arith))

pub drop-int_to_uint16 : (x : ℕ) (rest : List ℕ) → drop 2 (int_to_uint16 x ++ rest) ≡ rest
unfolding int_to_uint16
drop-int_to_uint16 x rest = refl

step :
    (v x : ℕ) (later : Bool)
    → search_step v (some x) (some later) ≡ some (if x == v then true else later)
step v x later = elim (Bool-cases (x == v)) [ inl e ↦ rw e refl | inr e ↦ rw e refl ]

curve_loop-uint16s :
    (cs rest : List ℕ)
    → AllUint16 cs
    → curve_loop (length cs + length cs) (uint16s cs ++ rest) ≡ some (offers secp256r1 cs)
unfolding curve_loop
curve_loop-uint16s [] rest h = refl
curve_loop-uint16s (x ∷ cs) rest (h, k) =
    let twice : suc (length cs) + suc (length cs) ≡ suc (suc (length cs + length cs)) =
      omega arith in
    rw (twice, append_assoc (int_to_uint16 x) (uint16s cs) rest)
      (rw
        (
          drop-int_to_uint16 x (uint16s cs ++ rest),
          read_uint16-int_to_uint16 x (uint16s cs ++ rest) h,
          curve_loop-uint16s cs rest k,
        )
        (step secp256r1 x (offers secp256r1 cs)))

byte_loop-append :
    (v : ℕ) (ts rest : List ℕ) → byte_loop v (length ts) (ts ++ rest) ≡ some (offers v ts)
unfolding byte_loop read_uint8 uint8_to_int
byte_loop-append v [] rest = refl
byte_loop-append v (t ∷ ts) rest = rw (byte_loop-append v ts rest) (step v t (offers v ts))

-- An extension as it is meant; `other` is one of a type that the code skips.
pub data Extension : Type 0 where
  curves : List ℕ → Extension
  client_types : List ℕ → Extension
  server_types : List ℕ → Extension
  formats : List ℕ → Extension
  other : ℕ → List ℕ → Extension

abbrev pub type_of : Extension → ℕ
type_of (curves cs) = ext_elliptic_curves
type_of (client_types ts) = ext_client_certificate_type
type_of (server_types ts) = ext_server_certificate_type
type_of (formats fs) = ext_ec_point_formats
type_of (other t body) = t

abbrev pub body_of : Extension → List ℕ
body_of (curves cs) = int_to_uint16 (length cs + length cs) ++ uint16s cs
body_of (client_types ts) = length ts ∷ ts
body_of (server_types ts) = length ts ∷ ts
body_of (formats fs) = length fs ∷ fs
body_of (other t body) = body

-- The extensions on the wire.
abbrev pub encode : List Extension → List ℕ
encode [] = []
encode (e ∷ es) =
    int_to_uint16 (type_of e) ++ (int_to_uint16 (length (body_of e)) ++ (body_of e ++ encode es))

abbrev pub is_known : ℕ → Bool
is_known t =
    (t == ext_elliptic_curves)
    || ((t == ext_client_certificate_type)
        || ((t == ext_server_certificate_type) || (t == ext_ec_point_formats)))

abbrev pub IsExtension : Extension → Type 0
IsExtension (curves cs) = AllUint16 cs × (length cs + length cs < 2 ^ 16 - 2)
IsExtension (client_types ts) = length ts < 2 ^ 8
IsExtension (server_types ts) = length ts < 2 ^ 8
IsExtension (formats fs) = length fs < 2 ^ 8
IsExtension (other t body) = (t < 2 ^ 16) × ((length body < 2 ^ 16) × (is_known t ≡ false))

abbrev pub AllExtensions : List Extension → Type 0
AllExtensions [] = Unit {0}
AllExtensions (e ∷ es) = IsExtension e × AllExtensions es

-- What a server asks of an extension: it offers the one value that is supported.
abbrev pub acceptable : Extension → Bool
acceptable (curves cs) = offers secp256r1 cs
acceptable (client_types ts) = offers raw_public_key ts
acceptable (server_types ts) = offers raw_public_key ts
acceptable (formats fs) = offers uncompressed fs
acceptable (other t body) = true

abbrev pub mark : Extension → Seen → Seen
mark (curves cs) seen = record seen { elliptic_curve = true }
mark (client_types ts) seen = record seen { client_cert_type = true }
mark (server_types ts) seen = record seen { server_cert_type = true }
mark (formats fs) seen = record seen { point_formats = true }
mark (other t body) seen = seen

-- All extensions are acceptable: what was seen.
abbrev pub judge : List Extension → Seen → Option Seen
judge [] seen = some seen
judge (e ∷ es) seen = let rest = judge es (mark e seen) in if acceptable e then rest else none

or_false : (a b : Bool) → (a || b) ≡ false → (a ≡ false) × (b ≡ false)
or_false true b h = absurd (ground arith)
or_false false b h = (refl, h)

checked-verdict :
    (seen : Seen) (b : Bool)
    → checked seen (verdict (some b)) ≡ some (if b then some seen else none)
checked-verdict seen true = refl
checked-verdict seen false = refl

one_more : (n : ℕ) → (n + 1 == suc n) ≡ true
one_more n = ground arith

verify_types :
    (ts rest : List ℕ)
    → verify_ext_cert_type (length ts ∷ (ts ++ rest)) (suc (length ts))
      ≡ verdict (some (offers raw_public_key ts))
unfolding verify_ext_cert_type uint8_to_int
verify_types ts rest =
    let back : suc (length ts) - 1 ≡ length ts = omega arith in
    rw (one_more (length ts), back, byte_loop-append raw_public_key ts rest) refl

verify_formats :
    (fs rest : List ℕ)
    → verify_ext_ec_point_formats (length fs ∷ (fs ++ rest)) (suc (length fs))
      ≡ verdict (some (offers uncompressed fs))
unfolding verify_ext_ec_point_formats uint8_to_int
verify_formats fs rest =
    let back : suc (length fs) - 1 ≡ length fs = omega arith in
    rw (one_more (length fs), back, byte_loop-append uncompressed fs rest) refl

verify_curves :
    (cs rest : List ℕ)
    → AllUint16 cs
    → length cs + length cs < 2 ^ 16 - 2
    → verify_ext_eliptic_curves
        (int_to_uint16 (length cs + length cs) ++ uint16s cs ++ rest)
        (length (int_to_uint16 (length cs + length cs) ++ uint16s cs))
      ≡ verdict (some (offers secp256r1 cs))
unfolding verify_ext_eliptic_curves
verify_curves cs rest h k =
    let n = length cs + length cs in
    let size : length (int_to_uint16 n ++ uint16s cs) ≡ n + 2 =
      length-append (int_to_uint16 n) (uint16s cs)
      ∙ omega (arith, length-int_to_uint16 n, length-uint16s cs) in
    let field : uint16_to_int (int_to_uint16 n ++ (uint16s cs ++ rest)) ≡ n =
      uint16-int_to_uint n (uint16s cs ++ rest) ∙ omega arith in
    let same : (n + 2 == n + 2) ≡ true = ==_refl (n + 2) in
    let back : n + 2 - 2 ≡ n = omega arith in
    rw
      (
        size,
        append_assoc (int_to_uint16 n) (uint16s cs) rest,
        field,
        same,
        back,
        drop-int_to_uint16 n (uint16s cs ++ rest),
        curve_loop-uint16s cs rest h,
      )
      refl

pub switch-mark :
    (e : Extension) (rest : List ℕ) (seen : Seen)
    → IsExtension e
    → switch_extension true (type_of e) (length (body_of e)) (body_of e ++ rest) seen
      ≡ some (if acceptable e then some (mark e seen) else none)
unfolding switch_extension
switch-mark (curves cs) rest seen (h, k) =
    rw (verify_curves cs rest h k) (checked-verdict _ (offers secp256r1 cs))
switch-mark (client_types ts) rest seen h =
    rw (verify_types ts rest) (checked-verdict _ (offers raw_public_key ts))
switch-mark (server_types ts) rest seen h =
    rw (verify_types ts rest) (checked-verdict _ (offers raw_public_key ts))
switch-mark (formats fs) rest seen h =
    rw (verify_formats fs rest) (checked-verdict _ (offers uncompressed fs))
switch-mark (other t body) rest seen (h, (k, n)) =
    let (a, n2) = or_false (t == ext_elliptic_curves) _ n in
    let (b, n3) = or_false (t == ext_client_certificate_type) _ n2 in
    let (c, d) = or_false (t == ext_server_certificate_type) (t == ext_ec_point_formats) n3 in
    rw (a, b, c, d) refl
