-- ===== src/Certificate.antt =====
-- Certificate and CertificateRequest messages of dtls.c: dtls_send_certificate_ecdsa,
-- check_server_certificate, dtls_send_server_certificate_request and check_certificate_request. The
-- callback verify_ecdsa_key is a parameter. The result `none` is a read behind the message. The
-- update of the hash, which each check makes first, is left to its caller.
pub mod Read
use gc2021_pqdtls.Base.{
  ℕ, zero, suc, ◌+◌, ltb, ◌==◌, if◌then◌else◌, Bool, true, false, not, ◌&&◌, ◌||◌, Option, none,
  some, List, [], ◌∷◌, ◌++◌, length, take, drop,
}
use gc2021_pqdtls.Numeric.{int_to_uint8, int_to_uint16, int_to_uint24, byte_at, uint24_to_int}
use gc2021_pqdtls.Buffer.{equals}
use gc2021_pqdtls.Alert.{
  Result, ok, err, alert_fatal_create, decode_error, internal_error, handshake_failure,
}
use gc2021_pqdtls.Cookie.{hs_length}
use gc2021_pqdtls.Extensions.{read_uint8, read_uint16}
use gc2021_pqdtls.Finished.{ec_key_size}
use gc2021_pqdtls.Signature.{algo_sha256, algo_ecdsa}

-- cert_asn1_header
abbrev pub cert_asn1_header : List ℕ
cert_asn1_header =
    0x30 ∷ 0x59 ∷ 0x30 ∷ 0x13 ∷ 0x06 ∷ 0x07 ∷ 0x2A ∷ 0x86 ∷ 0x48 ∷ 0xCE ∷ 0x3D ∷ 0x02 ∷ 0x01 ∷ 0x06
    ∷ 0x08 ∷ 0x2A ∷ 0x86 ∷ 0x48 ∷ 0xCE ∷ 0x3D ∷ 0x03 ∷ 0x01 ∷ 0x07 ∷ 0x03 ∷ 0x42 ∷ 0x00 ∷ 0x04 ∷ []

-- DTLS_EC_SUBJECTPUBLICKEY_SIZE
abbrev pub subjectpublickey_size : ℕ
subjectpublickey_size = ec_key_size + ec_key_size + 27

-- The body of dtls_send_certificate_ecdsa for a key.
unfoldable pub certificate_ecdsa : List ℕ → List ℕ → List ℕ
certificate_ecdsa pub_key_x pub_key_y =
    int_to_uint24 subjectpublickey_size
    ++ (cert_asn1_header ++ (take ec_key_size pub_key_x ++ take ec_key_size pub_key_y))

-- The key of the other end in the handshake parameters.
pub record PublicKey : Type 0 where
  pub other_pub_x : List ℕ
  pub other_pub_y : List ℕ

abbrev pub Found : Type 0
Found = Option (Result ℕ × Option PublicKey)

module _ (verify_ecdsa_key : List ℕ → List ℕ → Result ℕ) where
  abbrev pub verdict : Result ℕ → Result ℕ
  verdict (err n) = err n
  verdict (ok r) = ok 0

  -- The two parts of the key, which are stored before the application is asked.
  unfoldable pub take_key : List ℕ → Found
  take_key rest =
      let x = take ec_key_size rest in
      let y = take ec_key_size (drop ec_key_size rest) in
      if ltb (length rest) (ec_key_size + ec_key_size)
      then none
      else some (verdict (verify_ecdsa_key x y), some (record { other_pub_x = x; other_pub_y = y }))

  -- check_server_certificate; the handshake parameters are `none` for NULL, and their suite, which the
  -- code asserts, is that of ECDHE. The length of the message is not looked at.
  unfoldable pub check_server_certificate : Option PublicKey → List ℕ → Found
  check_server_certificate none msg = some (err (alert_fatal_create internal_error), none)
  check_server_certificate (some key) msg =
      let rest = drop hs_length msg in
      if ltb (length rest) 3
      then none
      else if not (uint24_to_int rest == subjectpublickey_size)
      then some (err (alert_fatal_create decode_error), some key)
      else if ltb (length rest) (3 + 27)
      then none
      else if not (equals (drop 3 rest) cert_asn1_header 27)
      then some (err (alert_fatal_create decode_error), some key)
      else take_key (drop (3 + 27) rest)

-- TLS_CLIENT_CERTIFICATE_TYPE_ECDSA_SIGN
abbrev pub ecdsa_sign : ℕ
ecdsa_sign = 64

-- The body of dtls_send_server_certificate_request.
unfoldable pub certificate_request : List ℕ
certificate_request =
    int_to_uint8 1
    ++ (int_to_uint8 ecdsa_sign
        ++ (int_to_uint16 2
            ++ (int_to_uint8 algo_sha256 ++ (int_to_uint8 algo_ecdsa ++ int_to_uint16 0))))

abbrev or_found : Bool → Option Bool → Option Bool
or_found here none = none
or_found here (some later) = some (here || later)

-- Whether ECDSA is among `i` certificate types.
unfoldable pub type_loop : ℕ → List ℕ → Option Bool
type_loop zero rest = some false
type_loop (suc i) [] = none
type_loop (suc i) (t ∷ rest) = or_found (t == ecdsa_sign) (type_loop i rest)

-- Whether SHA-256 with ECDSA is among the pairs of `i` bytes. From an odd number the counter, which
-- is unsigned, goes past 0, and the loop does not end in the message.
unfoldable pub algorithm_loop : ℕ → List ℕ → Option Bool
algorithm_loop zero rest = some false
algorithm_loop (suc zero) rest = none
algorithm_loop (suc (suc i)) [] = none
algorithm_loop (suc (suc i)) (h ∷ []) = none
algorithm_loop (suc (suc i)) (h ∷ s ∷ rest) =
    or_found ((h == algo_sha256) && (s == algo_ecdsa)) (algorithm_loop i rest)

abbrev pub Answer : Type 0
Answer = Option (Result ℕ × Bool)

abbrev refused : ℕ → Bool → Answer
refused alert auth = some (err (alert_fatal_create alert), auth)

-- The part from the algorithms on; `left` is what the code takes the length of the message for.
unfoldable pub read_algorithms : ℕ → List ℕ → Bool → Answer
read_algorithms left rest auth = by_length (read_uint16 rest)
  where
    by_loop : Option Bool → Answer
    by_loop none = none
    by_loop (some false) = refused handshake_failure auth
    by_loop (some true) = some (ok 0, true)

    by_length : Option ℕ → Answer
    by_length none = none
    by_length (some i) =
        if ltb left (i + 1)
        then refused decode_error auth
        else by_loop (algorithm_loop i (drop 2 rest))

unfoldable pub read_types : ℕ → List ℕ → Bool → Answer
read_types left rest auth = by_length (read_uint8 rest)
  where
    by_loop : ℕ → Option Bool → Answer
    by_loop i none = none
    by_loop i (some false) = refused handshake_failure auth
    by_loop i (some true) = read_algorithms left (drop (1 + i) rest) auth

    by_length : Option ℕ → Answer
    by_length none = none
    by_length (some i) =
        if ltb left (i + 1)
        then refused decode_error auth
        else by_loop i (type_loop i (drop 1 rest))

abbrev kept_auth : Answer → Option (Result ℕ × Option Bool)
kept_auth none = none
kept_auth (some (r, auth)) = some (r, some auth)

-- check_certificate_request: its result and do_client_auth of the handshake parameters, which are
-- `none` for NULL, and whose suite, which the code asserts, is that of ECDHE.
unfoldable pub check_certificate_request : List ℕ → Option Bool → Option (Result ℕ × Option Bool)
check_certificate_request msg none = some (err (alert_fatal_create internal_error), none)
check_certificate_request msg (some auth) =
    if ltb (length msg) (hs_length + 5)
    then some (err (alert_fatal_create decode_error), some auth)
    else kept_auth (read_types (length msg) (drop hs_length msg) auth)
