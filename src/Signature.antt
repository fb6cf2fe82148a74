-- ===== src/Signature.antt =====
-- ECDSA signatures in handshake messages: dtls_add_ecdsa_signature_elem,
-- dtls_check_ecdsa_signature_elem and check_client_certificate_verify of dtls.c, and
-- dtls_ecdsa_verify_sig_hash of dtls-crypto.c. `packet` is the memory that the message is a part of,
-- and `at` where `data` points to in it; the result `none` is an access to or a pointer to the outside of it. Validating a
-- signature on the curve, ecc_ecdsa_validate, is a parameter.
pub mod Authentic
pub mod KeyExchange
pub mod Written
use gc2021_pqdtls.Base.{
  ℕ, ◌+◌, ◌-◌, ◌%◌, ◌^◌, ltb, ◌==◌, ◌||◌, if◌then◌else◌, Option, none, some, List, [], ◌∷◌, ◌++◌,
  length, take, drop,
}
use gc2021_pqdtls.Numeric.{int_to_uint8, int_to_uint16}
use gc2021_pqdtls.Alert.{
  Result, ok, err, alert_fatal_create, handshake_failure, internal_error, decode_error,
}
use gc2021_pqdtls.Hmac.{Hash}
use gc2021_pqdtls.Cookie.{hs_length}
use gc2021_pqdtls.Extensions.{read_uint8, read_uint16}
use gc2021_pqdtls.Finished.{ec_key_size}
use gc2021_pqdtls.EcKey.{ec_key_to_uint32, ec_key_from_uint32_asn1}

-- TLS_EXT_SIG_HASH_ALGO_SHA256, TLS_EXT_SIG_HASH_ALGO_ECDSA
abbrev pub algo_sha256 : ℕ
algo_sha256 = 4

abbrev pub algo_ecdsa : ℕ
algo_ecdsa = 3

-- DTLS_CV_LENGTH
abbrev pub cv_length : ℕ
cv_length = 8 + ec_key_size + 2 + ec_key_size

-- The bytes of r and s, with what stands in front of them.
abbrev pub signature_elem : List ℕ → List ℕ → List ℕ
signature_elem r s =
    int_to_uint8 algo_sha256
    ++ (int_to_uint8 algo_ecdsa
        ++ (int_to_uint16 (length r + length s + 2 + 2 + 2)
            ++ (int_to_uint8 48
                ++ (int_to_uint8 (length r + length s + 2 + 2)
                    ++ (int_to_uint8 2
                        ++ (int_to_uint8 (length r)
                            ++ (r ++ (int_to_uint8 2 ++ (int_to_uint8 (length s) ++ s)))))))))

-- dtls_add_ecdsa_signature_elem: the bytes from `p` on, up to the pointer that it returns.
unfoldable pub add_ecdsa_signature_elem : List ℕ → List ℕ → List ℕ
add_ecdsa_signature_elem point_r point_s =
    signature_elem (ec_key_from_uint32_asn1 point_r ec_key_size)
      (ec_key_from_uint32_asn1 point_s ec_key_size)

-- The bytes that were read, and the places of result_r and result_s.
abbrev pub Found : Type 0
Found = Option (Result (ℕ × (ℕ × ℕ)))

-- A byte that has to be `wanted`.
abbrev pub must : ℕ → ℕ → Option ℕ → Found → Found
must alert wanted none next = none
must alert wanted (some v) next =
    if v == wanted then next else some (err (alert_fatal_create alert))

-- A length that has to be in what is left of the message.
abbrev pub has_room : ℕ → Option ℕ → Found → Found
has_room data_length none next = none
has_room data_length (some v) next =
    if ltb data_length v then some (err (alert_fatal_create decode_error)) else next

abbrev pub with_length : Option ℕ → (ℕ → Found) → Found
with_length none next = none
with_length (some i) next = next i

-- `data + i - DTLS_EC_KEY_SIZE`
abbrev pub key_place : ℕ → (ℕ → Found) → Found
key_place end next = if ltb end ec_key_size then none else next (end - ec_key_size)

-- `data_length - n` of a size_t
abbrev pub less : ℕ → ℕ → ℕ
less data_length n = (data_length + 2 ^ 64 - n) % 2 ^ 64

-- The Integer s of a signature behind the Integer r, which is `i` bytes long.
unfoldable pub check_integer_s : List ℕ → ℕ → ℕ → ℕ → Found
check_integer_s packet at i place_r =
    let here = drop at packet in
    must decode_error 2 (read_uint8 (drop (8 + i) here)) (
      with_length (read_uint8 (drop (9 + i) here)) (λ j.
        key_place (at + (10 + i + j)) (λ place_s. some (ok (10 + i + j, (place_r, place_s))))))

-- dtls_check_ecdsa_signature_elem
unfoldable pub check_ecdsa_signature_elem : List ℕ → ℕ → ℕ → Found
check_ecdsa_signature_elem packet at data_length =
    let here = drop at packet in
    must handshake_failure algo_sha256 (read_uint8 here) (
      must handshake_failure algo_ecdsa (read_uint8 (drop 1 here)) (
        has_room (less data_length 2) (read_uint16 (drop 2 here)) (
          must decode_error 48 (read_uint8 (drop 4 here)) (
            has_room (less data_length 5) (read_uint8 (drop 5 here)) (
              must decode_error 2 (read_uint8 (drop 6 here)) (
                with_length (read_uint8 (drop 7 here))
                  (λ i. key_place (at + (8 + i)) (check_integer_s packet at i))))))))

-- The public key of the peer, and the hash of the handshake so far.
pub record Signed (h : Hash) : Type 0 where
  pub other_pub_x : List ℕ
  pub other_pub_y : List ℕ
  pub hs_hash : h.Ctx

-- ecc_ecdsa_validate of the public key, the hash and the signature, each as words
abbrev pub Validate : Type 0
Validate = List ℕ → List ℕ → List ℕ → List ℕ → List ℕ → Result ℕ

module _ (validate : Validate) where
  -- dtls_ecdsa_verify_sig_hash
  unfoldable pub ecdsa_verify_sig_hash :
      List ℕ → List ℕ → ℕ → List ℕ → ℕ → List ℕ → List ℕ → Result ℕ
  ecdsa_verify_sig_hash pub_key_x pub_key_y key_size sign_hash sign_hash_size result_r result_s =
      validate (ec_key_to_uint32 pub_key_x key_size) (ec_key_to_uint32 pub_key_y key_size)
        (ec_key_to_uint32 sign_hash sign_hash_size) (ec_key_to_uint32 result_r key_size)
        (ec_key_to_uint32 result_s key_size)

  module _ (h : Hash) where
    -- check_client_certificate_verify; the peer's handshake parameters are `none` for NULL, and their
    -- suite, which the code asserts, is that of ECDHE.
    unfoldable pub check_client_certificate_verify :
        Option (Signed h) → List ℕ → ℕ → ℕ → Option (Result ℕ)
    check_client_certificate_verify none packet at data_length =
        some (err (alert_fatal_create internal_error))
    check_client_certificate_verify (some config) packet at data_length =
        if ltb data_length (hs_length + cv_length)
        then some (err (alert_fatal_create decode_error))
        else found (check_ecdsa_signature_elem packet (at + hs_length) data_length)
      where
        verified : Result ℕ → Result ℕ
        verified (ok r) = ok 0
        verified (err n) = err (alert_fatal_create handshake_failure)

        found : Found → Option (Result ℕ)
        found none = none
        found (some (err n)) = some (err n)
        found (some (ok (n, (place_r, place_s)))) =
            if ltb (length packet) (place_r + ec_key_size)
              || ltb (length packet) (place_s + ec_key_size)
            then none
            else some (
                verified (
                  ecdsa_verify_sig_hash config.other_pub_x config.other_pub_y ec_key_size
                    (h.finalize config.hs_hash) 32 (drop place_r packet) (drop place_s packet)))
