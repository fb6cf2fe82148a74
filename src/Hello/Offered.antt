-- ===== src/Hello/Offered.antt =====
-- A server that reads the ClientHello of this library.
use gc2021_pqdtls.Base.{
  ℕ, ◌%◌, ◌<◌, if◌then◌else◌, Bool, true, false, ◌&&◌, Option, none, some, List, [], ◌++◌, length,
  drop, length-append, ◌≡◌, refl, ap, sym, ◌∙◌, arith,
}
use mathlib.Core.List.{append_assoc}
use gc2021_pqdtls.Numeric.{int_to_uint8, int_to_uint16, uint8_to_int, uint16_to_int}
use gc2021_pqdtls.Alert.{Result, ok}
use gc2021_pqdtls.Security.{
  Security, tls_psk_with_aes_128_ccm_8, tls_ecdhe_ecdsa_with_aes_128_ccm_8, tls_null_with_null_null,
}
use gc2021_pqdtls.Record.{dtls_version}
use gc2021_pqdtls.Keys.{Handler, Handshake, is_ecdsa_supported, known_cipher}
use gc2021_pqdtls.Extensions.{
  read_uint8, read_uint16, extension_error, curve_loop, byte_loop, verify_ext_eliptic_curves,
  verify_ext_cert_type, verify_ext_ec_point_formats, switch_extension, extension_loop, is_missing,
  check_tls_extension,
}
use gc2021_pqdtls.ClientHello.{
  compression_null, cipher_loop, cipher_overrun, compression_loop, read_compression, read_suites,
  some_config, update_parameters,
}
use gc2021_pqdtls.ClientHello.Negotiation.{field, update_parameters-suites}
use gc2021_pqdtls.Extensions.Offers.{length-int_to_uint16}
use gc2021_pqdtls.Hello.{client_extensions, client_suites, client_hello}

-- The suite for a client and a server: ECDHE where both can, otherwise PSK where both can.
abbrev pub common_suite : Handler → Handler → Option ℕ
common_suite k c =
    if is_ecdsa_supported k true && is_ecdsa_supported c false
    then some tls_ecdhe_ecdsa_with_aes_128_ccm_8
    else if k.get_psk_info && c.get_psk_info
    then some tls_psk_with_aes_128_ccm_8
    else none

-- What the server answers and keeps.
abbrev pub negotiated : ℕ → Handshake → Option ℕ → Result ℕ × Handshake
negotiated state config none =
    (extension_error true state, record config { cipher = tls_null_with_null_null })
negotiated state config (some code) =
    (ok 0, record config { cipher = code; compression = compression_null })

abbrev handler : Bool → Bool → Bool → Handler
handler psk key verify = record {
  get_psk_info = psk;
  get_ecdsa_key = key;
  verify_ecdsa_key = verify;
}

-- The bytes of the suites are read for each choice of the callbacks at both ends.
suites-negotiated :
    (kp kk kv cp ck cv : Bool) (state : ℕ) (security : Option Security) (config : Handshake)
    → read_suites (handler cp ck cv) state security (client_suites (handler kp kk kv)) config
      ≡ some (negotiated state config (common_suite (handler kp kk kv) (handler cp ck cv)))
unfolding read_suites read_compression client_suites client_extensions cipher_loop cipher_overrun
    compression_loop read_uint8 read_uint16 is_ecdsa_supported known_cipher curve_loop byte_loop
    verify_ext_eliptic_curves verify_ext_cert_type verify_ext_ec_point_formats switch_extension
    extension_loop is_missing check_tls_extension int_to_uint8 int_to_uint16 uint8_to_int
    uint16_to_int
suites-negotiated true kk true true true cv state security config = refl
suites-negotiated true kk true true false cv state security config = refl
suites-negotiated true kk true false true cv state security config = refl
suites-negotiated true kk true false false cv state security config = refl
suites-negotiated true kk false true true cv state security config = refl
suites-negotiated true kk false true false cv state security config = refl
suites-negotiated true kk false false true cv state security config = refl
suites-negotiated true kk false false false cv state security config = refl
suites-negotiated false kk true true true cv state security config = refl
suites-negotiated false kk true true false cv state security config = refl
suites-negotiated false kk true false true cv state security config = refl
suites-negotiated false kk true false false cv state security config = refl
suites-negotiated false kk false true true cv state security config = refl
suites-negotiated false kk false true false cv state security config = refl
suites-negotiated false kk false false true cv state security config = refl
suites-negotiated false kk false false false cv state security config = refl

-- A server that is sent the ClientHello of a client of this library, in one piece and behind a header
-- of 12 bytes, chooses the ECDHE suite if both ends can use it, otherwise the PSK suite if both can,
-- with no compression, and accepts the hello; it stores the client's random bytes. Where they have
-- no suite in common it refuses the hello. The cookie is shorter than 256 bytes.
pub update_parameters-client_hello :
    (k c : Handler) (state : ℕ) (security : Option Security) (header random cookie : List ℕ)
    (hs : Handshake)
    → length header ≡ 12
    → length random ≡ 32
    → length cookie < 256
    → let (result, hs') =
        negotiated state (record hs { tmp = random ++ drop 32 hs.tmp }) (common_suite k c) in
      update_parameters c state security true (some hs) (header ++ client_hello k random cookie)
      ≡ some (result, some hs')
unfolding client_hello int_to_uint8
update_parameters-client_hello k c state security header random cookie hs h r n =
    let small : length cookie % 256 ≡ length cookie = omega arith in
    let version = int_to_uint16 dtls_version in
    let start : length (header ++ version) ≡ 14 =
      omega (arith, length-append header version, length-int_to_uint16 dtls_version) in
    let rest = random ++ field [] (field cookie (client_suites k)) in
    let config = record hs { tmp = random ++ drop 32 hs.tmp } in
    rw (small, sym (append_assoc header version rest))
      (update_parameters-suites c state security (header ++ version) random [] cookie
          (client_suites k) hs start r
        ∙ ap (some_config c state security) (
            suites-negotiated k.get_psk_info k.get_ecdsa_key k.verify_ecdsa_key c.get_psk_info
              c.get_ecdsa_key c.verify_ecdsa_key state security config))
