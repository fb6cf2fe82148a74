-- ===== src/Signature/KeyExchange.antt =====
-- What a client takes from a ServerKeyExchange: check_server_key_exchange_ecdsa of dtls.c and
-- dtls_ecdsa_verify_sig of dtls-crypto.c. The message of `data_length` bytes is in `packet`, from
-- `at` on.
use gc2021_pqdtls.Base.{
  ℕ, ◌+◌, ◌*◌, ltb, ◌==◌, not, ◌||◌, if◌then◌else◌, Option, none, some, List, length, take, drop,
}
use gc2021_pqdtls.Numeric.{uint8_to_int, uint16_to_int}
use gc2021_pqdtls.Alert.{
  Result, ok, err, alert_fatal_create, handshake_failure, internal_error, decode_error,
}
use gc2021_pqdtls.Hmac.{Hash}
use gc2021_pqdtls.Cookie.{hs_length}
use gc2021_pqdtls.Extensions.{secp256r1}
use gc2021_pqdtls.Finished.{ec_key_size}
use gc2021_pqdtls.Signature.{
  Found, Validate, less, check_ecdsa_signature_elem, ecdsa_verify_sig_hash,
}

-- TLS_EC_CURVE_TYPE_NAMED_CURVE
abbrev pub named_curve : ℕ
named_curve = 3

-- The parameters of the key exchange, and DTLS_SKEXEC_LENGTH
abbrev pub params_length : ℕ
params_length = 1 + 2 + 1 + 1 + 2 * ec_key_size

abbrev pub skexec_length : ℕ
skexec_length = params_length + 1 + 1 + 2 + 70

-- DTLS_RANDOM_LENGTH
abbrev pub random_length : ℕ
random_length = 32

-- The fields of dtls_handshake_parameters_t that are read or stored.
pub record Exchange (h : Hash) : Type 0 where
  pub other_pub_x : List ℕ
  pub other_pub_y : List ℕ
  pub other_eph_pub_x : List ℕ
  pub other_eph_pub_y : List ℕ
  pub tmp : List ℕ
  pub hs_hash : h.Ctx

-- The checks in front of the point.
unfoldable pub check_curve : List ℕ → Result ℕ
check_curve key_params =
    if not (uint8_to_int key_params == named_curve)
    then err (alert_fatal_create handshake_failure)
    else if not (uint16_to_int (drop 1 key_params) == secp256r1)
    then err (alert_fatal_create handshake_failure)
    else if not (uint8_to_int (drop 3 key_params) == 1 + 2 * ec_key_size)
    then err (alert_fatal_create handshake_failure)
    else if not (uint8_to_int (drop 4 key_params) == 4)
    then err (alert_fatal_create decode_error)
    else ok 0

module _ (validate : Validate) (h : Hash) where
  -- dtls_ecdsa_verify_sig
  unfoldable pub ecdsa_verify_sig :
      List ℕ → List ℕ → ℕ → List ℕ → List ℕ → List ℕ → List ℕ → List ℕ → Result ℕ
  ecdsa_verify_sig pub_key_x pub_key_y key_size client_random server_random keyx_params result_r
        result_s =
      let hashed = h.update (h.update (h.update h.init client_random) server_random) keyx_params in
      ecdsa_verify_sig_hash validate pub_key_x pub_key_y key_size (h.finalize hashed) 32 result_r
        result_s

  -- The signature over both random values and the parameters.
  unfoldable pub verify_params : Exchange h → List ℕ → List ℕ → List ℕ → Result ℕ
  verify_params config key_params result_r result_s =
      ecdsa_verify_sig config.other_pub_x config.other_pub_y ec_key_size
        (take random_length config.tmp) (take random_length (drop random_length config.tmp))
        (take params_length key_params) result_r result_s

  -- The ephemeral point of the server.
  unfoldable pub store_point : Exchange h → List ℕ → Exchange h
  store_point config key_params = record config {
    other_eph_pub_x = take ec_key_size (drop 5 key_params);
    other_eph_pub_y = take ec_key_size (drop (5 + ec_key_size) key_params);
  }

  abbrev pub verdict : Result ℕ → Result ℕ
  verdict (ok r) = ok 0
  verdict (err n) = err (alert_fatal_create handshake_failure)

  unfoldable pub verify_found :
      List ℕ → List ℕ → Exchange h → Found → Option (Result ℕ × Exchange h)
  verify_found packet key_params config none = none
  verify_found packet key_params config (some (err n)) = some (err n, config)
  verify_found packet key_params config (some (ok (n, (place_r, place_s)))) =
      if ltb (length packet) (place_r + ec_key_size) || ltb (length packet) (place_s + ec_key_size)
      then none
      else some (
        verdict (verify_params config key_params (drop place_r packet) (drop place_s packet)),
        config,
      )

  abbrev pub if_curve :
      Result ℕ → Exchange h → Option (Result ℕ × Exchange h) → Option (Result ℕ × Exchange h)
  if_curve (err n) config next = some (err n, config)
  if_curve (ok r) config next = next

  -- The part behind the update of the hash.
  unfoldable pub check_exchange : List ℕ → ℕ → ℕ → Exchange h → Option (Result ℕ × Exchange h)
  check_exchange packet at data_length config =
      let key_params = drop (at + hs_length) packet in
      if ltb data_length (hs_length + skexec_length)
      then some (err (alert_fatal_create decode_error), config)
      else if_curve (check_curve key_params) config (
          verify_found packet key_params (store_point config key_params) (
            check_ecdsa_signature_elem packet (at + hs_length + params_length)
              (less data_length params_length)))

  abbrev pub some_exchange :
      Option (Result ℕ × Exchange h) → Option (Result ℕ × Option (Exchange h))
  some_exchange none = none
  some_exchange (some (r, config)) = some (r, some config)

  -- check_server_key_exchange_ecdsa: its result and the handshake parameters, `none` for NULL; their
  -- suite, which the code asserts, is that of ECDHE.
  unfoldable pub check_server_key_exchange_ecdsa :
      Option (Exchange h) → List ℕ → ℕ → ℕ → Option (Result ℕ × Option (Exchange h))
  check_server_key_exchange_ecdsa none packet at data_length =
      some (err (alert_fatal_create internal_error), none)
  check_server_key_exchange_ecdsa (some config) packet at data_length = some_exchange (
      check_exchange packet at data_length
        (record config { hs_hash = h.update config.hs_hash (take data_length (drop at packet)) }))
