-- ===== src/Extensions.antt =====
-- The TLS extensions of a hello in dtls.c: verify_ext_eliptic_curves, verify_ext_cert_type,
-- verify_ext_ec_point_formats and dtls_check_tls_extension. The argument `rest` is the message from
-- the pointer `data` on, and `data_length` what the code believes to be left of it. The result `none`
-- is a read behind the message on whose outcome the code acts; a length that is read there and
-- refused whatever it is reads as 0.
pub mod Offers
pub mod Parse
use gc2021_pqdtls.Base.{
  ℕ, zero, suc, ◌+◌, ◌-◌, ltb, ◌==◌, if◌then◌else◌, Bool, true, false, not, ◌&&◌, ◌||◌, Option,
  none, some, List, [], ◌∷◌, length, drop,
}
use gc2021_pqdtls.Numeric.{uint8_to_int, uint16_to_int}
use gc2021_pqdtls.Alert.{
  Result, ok, err, alert_create, alert_fatal_create, level_warning, handshake_failure,
  internal_error, no_renegotiation,
}
use gc2021_pqdtls.Security.{tls_ecdhe_ecdsa_with_aes_128_ccm_8}

-- TLS_EXT_...
abbrev pub ext_elliptic_curves : ℕ
ext_elliptic_curves = 10

abbrev pub ext_ec_point_formats : ℕ
ext_ec_point_formats = 11

abbrev pub ext_client_certificate_type : ℕ
ext_client_certificate_type = 19

abbrev pub ext_server_certificate_type : ℕ
ext_server_certificate_type = 20

-- TLS_EXT_ELLIPTIC_CURVES_SECP256R1, TLS_CERT_TYPE_RAW_PUBLIC_KEY and
-- TLS_EXT_EC_POINT_FORMATS_UNCOMPRESSED
abbrev pub secp256r1 : ℕ
secp256r1 = 23

abbrev pub raw_public_key : ℕ
raw_public_key = 2

abbrev pub uncompressed : ℕ
uncompressed = 0

-- DTLS_STATE_CONNECTED
abbrev pub state_connected : ℕ
state_connected = 12

-- A 16-bit number that the code acts on.
unfoldable pub read_uint16 : List ℕ → Option ℕ
read_uint16 rest = if ltb (length rest) 2 then none else some (uint16_to_int rest)

unfoldable pub read_uint8 : List ℕ → Option ℕ
read_uint8 [] = none
read_uint8 (b ∷ rest) = some (uint8_to_int (b ∷ rest))

-- One round of a search loop: what was read, and what the later rounds find.
abbrev pub search_step : ℕ → Option ℕ → Option Bool → Option Bool
search_step wanted none later = none
search_step wanted (some v) later = if v == wanted then some true else later

-- The loop of verify_ext_eliptic_curves, which reads two bytes even where one is left.
unfoldable pub curve_loop : ℕ → List ℕ → Option Bool
curve_loop zero rest = some false
curve_loop (suc zero) rest = search_step secp256r1 (read_uint16 rest) (some false)
curve_loop (suc (suc i)) rest =
    search_step secp256r1 (read_uint16 rest) (curve_loop i (drop 2 rest))

-- The loop of verify_ext_cert_type and of verify_ext_ec_point_formats.
unfoldable pub byte_loop : ℕ → ℕ → List ℕ → Option Bool
byte_loop wanted zero rest = some false
byte_loop wanted (suc i) rest =
    search_step wanted (read_uint8 rest) (byte_loop wanted i (drop 1 rest))

abbrev pub verdict : Option Bool → Option (Result ℕ)
verdict none = none
verdict (some true) = some (ok 0)
verdict (some false) = some (err (alert_fatal_create handshake_failure))

unfoldable pub verify_ext_eliptic_curves : List ℕ → ℕ → Option (Result ℕ)
verify_ext_eliptic_curves rest data_length =
    if not (uint16_to_int rest + 2 == data_length)
    then some (err (alert_fatal_create handshake_failure))
    else verdict (curve_loop (data_length - 2) (drop 2 rest))

unfoldable pub verify_ext_cert_type : List ℕ → ℕ → Option (Result ℕ)
verify_ext_cert_type rest data_length =
    if not (uint8_to_int rest + 1 == data_length)
    then some (err (alert_fatal_create handshake_failure))
    else verdict (byte_loop raw_public_key (data_length - 1) (drop 1 rest))

unfoldable pub verify_ext_ec_point_formats : List ℕ → ℕ → Option (Result ℕ)
verify_ext_ec_point_formats rest data_length =
    if not (uint8_to_int rest + 1 == data_length)
    then some (err (alert_fatal_create handshake_failure))
    else verdict (byte_loop uncompressed (data_length - 1) (drop 1 rest))

-- The extensions that were there.
pub record Seen : Type 0 where
  pub elliptic_curve : Bool
  pub client_cert_type : Bool
  pub server_cert_type : Bool
  pub point_formats : Bool

abbrev pub nothing_seen : Seen
nothing_seen = record {
  elliptic_curve = false;
  client_cert_type = false;
  server_cert_type = false;
  point_formats = false;
}

-- A check of the switch: `some none` is the jump to `error`.
abbrev pub checked : Seen → Option (Result ℕ) → Option (Option Seen)
checked seen none = none
checked seen (some (ok r)) = some (some seen)
checked seen (some (err n)) = some none

-- The certificate type that a server chose.
abbrev pub chosen_type : List ℕ → Option (Result ℕ)
chosen_type rest = judged (read_uint8 rest)
  where
    judged : Option ℕ → Option (Result ℕ)
    judged none = none
    judged (some t) = verdict (some (t == raw_public_key))

abbrev pub cert_type : Bool → List ℕ → ℕ → Option (Result ℕ)
cert_type client_hello rest j =
    if client_hello then verify_ext_cert_type rest j else chosen_type rest

-- The switch of dtls_check_tls_extension.
unfoldable pub switch_extension : Bool → ℕ → ℕ → List ℕ → Seen → Option (Option Seen)
switch_extension client_hello i j rest seen =
    if i == ext_elliptic_curves
    then checked (record seen { elliptic_curve = true }) (verify_ext_eliptic_curves rest j)
    else if i == ext_client_certificate_type
    then checked (record seen { client_cert_type = true }) (cert_type client_hello rest j)
    else if i == ext_server_certificate_type
    then checked (record seen { server_cert_type = true }) (cert_type client_hello rest j)
    else if i == ext_ec_point_formats
    then checked (record seen { point_formats = true }) (verify_ext_ec_point_formats rest j)
    else some (some seen)

abbrev pub and_then : Option (Option Seen) → (Seen → Option (Option Seen)) → Option (Option Seen)
and_then none next = none
and_then (some none) next = some none
and_then (some (some seen)) next = next seen

-- The loop over the extensions; each takes at least four bytes off `data_length`, so that much fuel is
-- enough.
unfoldable pub extension_loop : ℕ → Bool → List ℕ → ℕ → Seen → Option (Option Seen)
extension_loop zero client_hello rest data_length seen =
    if data_length == 0 then some (some seen) else none
extension_loop (suc fuel) client_hello rest data_length seen =
    let j = uint16_to_int (drop 2 rest) in
    let left = data_length - 4 in
    let later = extension_loop fuel client_hello (drop j (drop 4 rest)) (left - j) in
    if data_length == 0
    then some (some seen)
    else if ltb data_length 4
    then some none
    else if ltb left j
    then some none
    else and_then (switch_extension client_hello (uint16_to_int rest) j (drop 4 rest) seen) later

-- Whether an extension is missing that ECDHE needs.
unfoldable pub is_missing : Bool → Seen → Bool
is_missing client_hello seen =
    if client_hello
    then not seen.elliptic_curve
      || (not seen.client_cert_type || (not seen.server_cert_type || not seen.point_formats))
    else not seen.client_cert_type || not seen.server_cert_type

-- The label `error`.
abbrev pub extension_error : Bool → ℕ → Result ℕ
extension_error client_hello state =
    if client_hello && (state == state_connected)
    then err (alert_create level_warning no_renegotiation)
    else err (alert_fatal_create handshake_failure)

-- dtls_check_tls_extension for a peer in `state`; `cipher` is that of its handshake parameters, `none`
-- where the peer or the parameters are NULL.
unfoldable pub check_tls_extension : Option ℕ → ℕ → List ℕ → ℕ → Bool → Option (Result ℕ)
check_tls_extension none state rest data_length client_hello =
    some (err (alert_fatal_create internal_error))
check_tls_extension (some cipher) state rest data_length client_hello =
    let is_ecdhe = cipher == tls_ecdhe_ecdsa_with_aes_128_ccm_8 in
    if ltb data_length 2
    then some (if is_ecdhe then extension_error client_hello state else ok 0)
    else if ltb (data_length - 2) (uint16_to_int rest)
    then some (extension_error client_hello state)
    else finish is_ecdhe
        (extension_loop data_length client_hello (drop 2 rest) (data_length - 2) nothing_seen)
  where
    finish : Bool → Option (Option Seen) → Option (Result ℕ)
    finish is_ecdhe none = none
    finish is_ecdhe (some none) = some (extension_error client_hello state)
    finish is_ecdhe (some (some seen)) =
        if is_ecdhe && is_missing client_hello seen
        then some (extension_error client_hello state)
        else some (ok 0)
