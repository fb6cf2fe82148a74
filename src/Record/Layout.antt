-- ===== src/Record/Layout.antt =====
-- Where the fields of a prepared record stand, and that is_record accepts it.
use gc2021_pqdtls.Base.{
  ℕ, ◌+◌, ◌%◌, ◌^◌, ◌<◌, ◌≤◌, ltb, ltb-false, ltb-false→le, if◌then◌else◌, Bool, true, false,
  Option, none, some, List, ◌++◌, length, take, drop, ◌≡◌, refl, ap, ◌∙◌, arith,
}
use gc2021_pqdtls.Numeric.{byte_at, int_to_uint8, int_to_uint16, int_to_uint48, uint16_to_int}
use gc2021_pqdtls.Numeric.RoundTrip.{uint16-int_to_uint}
use gc2021_pqdtls.Alert.{Result, ok, err}
use gc2021_pqdtls.Security.{Security, Role}
use gc2021_pqdtls.Record.{
  SetKey, is_content_type, is_record, set_record_header, fragment, prepare_record, with_length,
}

abbrev pub header : ℕ → Option Security → List ℕ
header type s = (set_record_header type s).0

-- The record whose fragment is `body`.
abbrev pub packet : ℕ → Option Security → List ℕ → List ℕ
packet type s body = take 11 (header type s) ++ int_to_uint16 (length body) ++ body

-- Epoch and sequence number.
abbrev pub explicit : Security → List ℕ
explicit s = int_to_uint16 s.epoch ++ int_to_uint48 s.rseq

pub header-explicit :
    (type : ℕ) (s : Security) → take 8 (drop 3 (header type (some s))) ≡ explicit s
unfolding set_record_header int_to_uint8 int_to_uint16 int_to_uint48
header-explicit type s = refl

pub packet-explicit :
    (type : ℕ) (s : Security) (body : List ℕ)
    → take 8 (drop 3 (packet type (some s) body)) ≡ explicit s
unfolding set_record_header int_to_uint8 int_to_uint16 int_to_uint48
packet-explicit type s body = refl

pub packet-type :
    (type : ℕ) (s : Option Security) (body : List ℕ)
    → take 3 (packet type s body) ≡ take 3 (header type s)
unfolding set_record_header int_to_uint8 int_to_uint16 int_to_uint48
packet-type type none body = refl
packet-type type (some s) body = refl

pub drop-packet :
    (type : ℕ) (s : Option Security) (body : List ℕ) → drop 13 (packet type s body) ≡ body
unfolding set_record_header int_to_uint8 int_to_uint16 int_to_uint48
drop-packet type none body = refl
drop-packet type (some s) body = refl

pub length-packet :
    (type : ℕ) (s : Option Security) (body : List ℕ)
    → length (packet type s body) ≡ 13 + length body
unfolding set_record_header int_to_uint8 int_to_uint16 int_to_uint48
length-packet type none body = omega arith
length-packet type (some s) body = omega arith

pub packet-epoch :
    (type : ℕ) (s : Security) (body : List ℕ)
    → uint16_to_int (drop 3 (packet type (some s) body)) ≡ s.epoch % 2 ^ 16
unfolding set_record_header int_to_uint8 int_to_uint16
packet-epoch type s body = uint16-int_to_uint s.epoch _

packet_tail :
    (type : ℕ) (s : Option Security) (body : List ℕ)
    → drop 11 (packet type s body) ≡ int_to_uint16 (length body) ++ body
unfolding set_record_header int_to_uint8 int_to_uint16 int_to_uint48
packet_tail type none body = refl
packet_tail type (some s) body = refl

pub packet_length :
    (type : ℕ) (s : Option Security) (body : List ℕ)
    → uint16_to_int (drop 11 (packet type s body)) ≡ length body % 2 ^ 16
packet_length type s body =
    ap uint16_to_int (packet_tail type s body) ∙ uint16-int_to_uint (length body) body

packet_start :
    (type : ℕ) (s : Option Security) (body : List ℕ)
    → (byte_at (packet type s body) 0 ≡ type % 256)
      × (byte_at (packet type s body) 1 ≡ 0xfe)
      × (byte_at (packet type s body) 2 ≡ 0xfd)
unfolding set_record_header int_to_uint8 int_to_uint16 int_to_uint48
packet_start type none body = (refl, refl, refl)
packet_start type (some s) body = (refl, refl, refl)

is_content_type_known : (c : ℕ) → 20 ≤ c → c ≤ 23 → is_content_type (c % 256) ≡ true
unfolding is_content_type
is_content_type_known c a b = ground arith

pub is_record-packet :
    (type : ℕ) (s : Option Security) (body : List ℕ)
    → 20 ≤ type
    → type ≤ 23
    → length body < 2 ^ 16
    → is_record (packet type s body) ≡ length (packet type s body)
unfolding is_record
is_record-packet type s body a b h =
    let (t, v, w) = packet_start type s body in
    let n = length-packet type s body in
    let enough : ltb (13 + length body) 13 ≡ false =
      ltb-false (13 + length body) 13 (omega arith) in
    let len : length body % 2 ^ 16 ≡ length body = omega arith in
    let whole : ltb (13 + length body) (13 + length body) ≡ false =
      ltb-false (13 + length body) (13 + length body) (omega arith) in
    rw (packet_length type s body, len, n, enough, t, v, w, is_content_type_known type a b, whole)
      refl

with_length-ok :
    (type : ℕ) (s : Option Security) (p : List ℕ) (r : Result (List ℕ))
    → with_length (header type s) r ≡ ok p
    → (body : List ℕ) × (r ≡ ok body) × (p ≡ packet type s body)
with_length-ok type s p (ok body) h = (body, refl, ground arith)
with_length-ok type s p (err n) h = ground arith

chosen :
    (b : Bool) (n : ℕ) (r : Result (List ℕ)) (s t : Option Security) (p : List ℕ)
    → (if◌then◌else◌ {A = Result (List ℕ) × Option Security} b (err n, s) (r, t)).0 ≡ ok p
    → (b ≡ false) × (r ≡ ok p)
chosen true n r s t p h = ground arith
chosen false n r s t p h = (refl, h)

-- A record that was prepared is its header, the length of the fragment and the fragment.
pub prepare_record-ok :
    (set_key : SetKey) (role : Option Role) (s : Option Security) (type : ℕ)
    (payload : List (List ℕ)) (rlen : ℕ) (p : List ℕ)
    → (prepare_record set_key role s type payload rlen).0 ≡ ok p
    → (13 ≤ rlen)
      × ((body : List ℕ) × (fragment set_key role s (header type s) rlen payload ≡ ok body)
          × (p ≡ packet type s body))
unfolding prepare_record
prepare_record-ok set_key role s type payload rlen p h =
    let r = fragment set_key role s (header type s) rlen payload in
    let (long, done) =
      chosen (ltb rlen 13) _ (with_length (header type s) r) s (set_record_header type s).1 p h in
    (ltb-false→le rlen 13 long, with_length-ok type s p r done)

-- A prepared record of a known type passes is_record, which finds its whole length, as long as the
-- length field holds the length of its fragment.
pub is_record-prepare_record :
    (set_key : SetKey) (role : Option Role) (s : Option Security) (type : ℕ)
    (payload : List (List ℕ)) (rlen : ℕ) (p : List ℕ)
    → (prepare_record set_key role s type payload rlen).0 ≡ ok p
    → 20 ≤ type
    → type ≤ 23
    → length p < 13 + 2 ^ 16
    → is_record p ≡ length p
is_record-prepare_record set_key role s type payload rlen p done a b h =
    let (_, (body, _, e)) = prepare_record-ok set_key role s type payload rlen p done in
    let small : length body < 2 ^ 16 = omega (arith, length-packet type s body, ap length e) in
    rw e (is_record-packet type s body a b small)
