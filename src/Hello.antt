-- ===== src/Hello.antt =====
-- The hellos that are written, and the ServerHello that is read: dtls_send_client_hello,
-- dtls_send_server_hello and check_server_hello of dtls.c. The random bytes and the clock are
-- arguments. The result `none` is a read behind the message.
pub mod Offered
pub mod Answered
use gc2021_pqdtls.Base.{
  ℕ, ◌+◌, ◌/◌, ltb, ◌==◌, if◌then◌else◌, Bool, true, false, not, Option, none, some, List, [], ◌∷◌,
  ◌++◌, length, take, drop,
}
use gc2021_pqdtls.Numeric.{int_to_uint8, int_to_uint16, int_to_uint32, uint16_to_int}
use gc2021_pqdtls.Alert.{
  Result, ok, err, alert_fatal_create, decode_error, internal_error, handshake_failure,
  protocol_version,
}
use gc2021_pqdtls.Hmac.{Hash}
use gc2021_pqdtls.Security.{
  Role, tls_psk_with_aes_128_ccm_8, tls_ecdhe_ecdsa_with_aes_128_ccm_8, tls_null_with_null_null,
}
use gc2021_pqdtls.Session.{Session}
use gc2021_pqdtls.Cookie.{hs_length, skip_var_field}
use gc2021_pqdtls.Keys.{Handler, Handshake, is_ecdsa_supported, known_cipher}
use gc2021_pqdtls.Record.{SetKey, dtls_version}
use gc2021_pqdtls.Engine.{ticks_per_second}
use gc2021_pqdtls.Extensions.{
  read_uint8, read_uint16, ext_client_certificate_type, ext_server_certificate_type,
  ext_elliptic_curves, ext_ec_point_formats, raw_public_key, secp256r1, uncompressed,
}
use gc2021_pqdtls.ClientHello.{compression_null}
use gc2021_pqdtls.Fragments.{
  HsState, Sender, clear_hs_hash, update_hs_hash, send_handshake_msg_hash,
}
use gc2021_pqdtls.Reorder.{ht_client_hello}
use gc2021_pqdtls.Machine.{ht_server_hello}

-- DTLS_COOKIE_LENGTH_MAX
abbrev pub cookie_length_max : ℕ
cookie_length_max = 32

-- DTLS_TESLA_REQ_LENGTH
abbrev pub tesla_req_length : ℕ
tesla_req_length = 32

-- DTLS_ALERT_INSUFFICIENT_SECURITY
abbrev pub insufficient_security : ℕ
insufficient_security = 71

-- The time and 28 bytes of dtls_fill_random.
abbrev pub hello_random : ℕ → List ℕ → List ℕ
hello_random now fill = int_to_uint32 (now / ticks_per_second) ++ take 28 fill

abbrev pub cert_type_extension : ℕ → List ℕ
cert_type_extension type =
    int_to_uint16 type ++ (int_to_uint16 2 ++ (int_to_uint8 1 ++ int_to_uint8 raw_public_key))

abbrev pub formats_extension : List ℕ
formats_extension =
    int_to_uint16 ext_ec_point_formats
    ++ (int_to_uint16 2 ++ (int_to_uint8 1 ++ int_to_uint8 uncompressed))

-- The extensions of a ClientHello, behind their length.
unfoldable pub client_extensions : List ℕ
client_extensions =
    cert_type_extension ext_client_certificate_type
    ++ (cert_type_extension ext_server_certificate_type
        ++ ((int_to_uint16 ext_elliptic_curves
              ++ (int_to_uint16 4 ++ (int_to_uint16 2 ++ int_to_uint16 secp256r1)))
            ++ formats_extension))

abbrev pub suite_if : Bool → ℕ → List ℕ
suite_if b code = if b then int_to_uint16 code else []

abbrev pub two_if : Bool → ℕ
two_if b = if b then 2 else 0

-- The suites of a client, and what stands behind them.
unfoldable pub client_suites : Handler → List ℕ
client_suites c =
    let ecdsa = is_ecdsa_supported c true in
    int_to_uint16 (two_if ecdsa + two_if c.get_psk_info)
    ++ (suite_if ecdsa tls_ecdhe_ecdsa_with_aes_128_ccm_8
        ++ (suite_if c.get_psk_info tls_psk_with_aes_128_ccm_8
            ++ (int_to_uint8 1
                ++ (int_to_uint8 compression_null
                    ++ (if ecdsa then int_to_uint16 26 ++ client_extensions else [])))))

-- The body of a ClientHello.
unfoldable pub client_hello : Handler → List ℕ → List ℕ → List ℕ
client_hello c random cookie =
    int_to_uint16 dtls_version
    ++ (random ++ (int_to_uint8 0 ++ (int_to_uint8 (length cookie) ++ (cookie ++ client_suites c))))

module _ (h : Hash) (set_key : SetKey) (write : List ℕ → Result ℕ) (ticks : ℕ → ℕ) where
  -- The client's random bytes are made for the first hello and kept for the second.
  abbrev pub client_tmp : List ℕ → ℕ → List ℕ → List ℕ → List ℕ
  client_tmp cookie now fill tmp =
      if length cookie == 0 then hello_random now fill ++ drop 32 tmp else tmp

  abbrev pub cleared : List ℕ → Option (HsState h) → Option (HsState h)
  cleared cookie none = none
  cleared cookie (some hs) = some (if length cookie == 0 then hs else clear_hs_hash h hs)

  abbrev pub with_tmp :
      List ℕ → Option (Result ℕ × Sender h) → Option (Result ℕ × (List ℕ × Sender h))
  with_tmp tmp none = none
  with_tmp tmp (some (r, s)) = some (r, (tmp, s))

  -- dtls_send_client_hello: its result, the memory `tmp` of the handshake parameters, and the sender,
  -- whose handshake state is `none` where the peer has none.
  unfoldable pub send_client_hello :
      Handler
      → (ℕ → Option ℕ)
      → Option (ℕ × Role)
      → Session
      → ℕ
      → List ℕ
      → List ℕ
      → List ℕ
      → Sender h
      → Option (Result ℕ × (List ℕ × Sender h))
  send_client_hello c alloc peer session now fill cookie tmp s = for_hs s.hs
    where
      for_hs : Option (HsState h) → Option (Result ℕ × (List ℕ × Sender h))
      for_hs none = some (err (alert_fatal_create internal_error), (tmp, s))
      for_hs (some hs) =
          if ltb cookie_length_max (length cookie)
          then some (err (alert_fatal_create handshake_failure), (tmp, s))
          else let tmp' = client_tmp cookie now fill tmp in
            with_tmp tmp' (
              send_handshake_msg_hash h set_key write ticks alloc peer session ht_client_hello
                (some (client_hello c (take 32 tmp') cookie)) (not (length cookie == 0))
                (record s { hs = cleared cookie (some hs) }))

abbrev pub answer_extension : ℕ → List ℕ
answer_extension type = int_to_uint16 type ++ (int_to_uint16 1 ++ int_to_uint8 raw_public_key)

-- The extensions of a ServerHello, with their length.
unfoldable pub server_extensions : ℕ → List ℕ
server_extensions cipher =
    if cipher == tls_ecdhe_ecdsa_with_aes_128_ccm_8
    then int_to_uint16 16
      ++ (answer_extension ext_client_certificate_type
          ++ (answer_extension ext_server_certificate_type ++ formats_extension))
    else []

abbrev pub chosen_suite : ℕ → List ℕ
chosen_suite cipher =
    if cipher == tls_null_with_null_null
    then []
    else int_to_uint16 cipher ++ int_to_uint8 compression_null

-- The body of a ServerHello; the TESLA nonce stands at its end. The compression method is an index
-- into a table with the null method alone.
unfoldable pub server_hello : ℕ → List ℕ → List ℕ → List ℕ
server_hello cipher random nonce =
    int_to_uint16 dtls_version
    ++ (random ++ (0 ∷ (chosen_suite cipher ++ (server_extensions cipher ++ nonce))))

-- What check_server_hello changes: the suite and `tmp` of the handshake parameters, and ctx->treq.
pub record Answer : Type 0 where
  pub handshake : Handshake
  pub nonce : List ℕ

abbrev pub Found : Type 0
Found = Option (Result ℕ × Answer)

abbrev pub refused : ℕ → Answer → Found
refused alert a = some (err (alert_fatal_create alert), a)

abbrev pub take_nonce : List ℕ → Answer → Found
take_nonce rest a =
    if ltb (length rest) tesla_req_length
    then none
    else some (ok 0, record a { nonce = take tesla_req_length rest })

abbrev pub take_compression : List ℕ → Option ℕ → Answer → Found
take_compression rest none a = none
take_compression rest (some m) a =
    if not (m == compression_null) then refused insufficient_security a else take_nonce rest a

abbrev pub take_suite : Handler → List ℕ → Option ℕ → Answer → Found
take_suite c rest none a = none
take_suite c rest (some cipher) a =
    let a' = record a { handshake = record a.handshake { cipher = cipher } } in
    if not (known_cipher c cipher true)
    then refused insufficient_security a'
    else take_compression (drop 1 rest) (read_uint8 rest) a'

abbrev pub behind_session : Handler → Option (List ℕ) → Answer → Found
behind_session c none a = refused decode_error a
behind_session c (some rest) a = take_suite c (drop 2 rest) (read_uint16 rest) a

-- check_server_hello for a peer with handshake parameters, behind the update of the hash; `rest` is
-- the message behind its header.
unfoldable pub read_server_hello : Handler → List ℕ → Answer → Found
read_server_hello c rest a =
    if not (uint16_to_int rest == dtls_version)
    then refused protocol_version a
    else if ltb (length rest) 34
    then none
    else behind_session c (skip_var_field (drop 34 rest)) (record a {
      handshake = record a.handshake {
        tmp = take 32 a.handshake.tmp ++ take 32 (drop 2 rest) ++ drop 64 a.handshake.tmp;
      };
    })

-- check_server_hello, but for the hash, which is updated where the answer is not `none`: whether the
-- peer has handshake parameters is its argument `params`.
unfoldable pub check_server_hello : Handler → Bool → List ℕ → Answer → Found
check_server_hello c params msg a =
    if ltb (length msg) (hs_length + hs_length)
    then refused decode_error a
    else if not params
    then refused internal_error a
    else read_server_hello c (drop hs_length msg) a
