-- ===== src/Hint.antt =====
-- The ServerKeyExchange of the PSK suite, with the identity hint of the server:
-- dtls_send_server_key_exchange_psk and check_server_key_exchange_psk of dtls.c.
pub mod Read
use gc2021_pqdtls.Base.{
  ℕ, ◌+◌, ◌-◌, ltb, ◌==◌, if◌then◌else◌, not, Option, none, some, List, ◌++◌, length, take, drop,
}
use gc2021_pqdtls.Numeric.{int_to_uint16, uint16_to_int}
use gc2021_pqdtls.Alert.{Result, ok, err, alert_fatal_create, decode_error, internal_error}
use gc2021_pqdtls.Cookie.{hs_length}
use gc2021_pqdtls.Finished.{max_identity}

-- The body of dtls_send_server_key_exchange_psk; the assertion in front of the test repeats it.
unfoldable pub server_key_exchange_psk : List ℕ → Result (List ℕ)
server_key_exchange_psk hint =
    if ltb max_identity (length hint)
    then err (alert_fatal_create internal_error)
    else ok (int_to_uint16 (length hint) ++ hint)

-- check_server_key_exchange_psk, but for the hash, and the identity in the handshake parameters, which
-- is `none` for NULL parameters; their suite, which the code asserts, is that of PSK.
unfoldable pub check_server_key_exchange_psk : Option (List ℕ) → List ℕ → Result ℕ × Option (List ℕ)
check_server_key_exchange_psk none msg = (err (alert_fatal_create internal_error), none)
check_server_key_exchange_psk (some identity) msg =
    let rest = drop hs_length msg in
    let len = uint16_to_int rest in
    if ltb (length msg) (hs_length + 2)
    then (err (alert_fatal_create decode_error), some identity)
    else if not (len == length msg - hs_length - 2)
    then (err (alert_fatal_create decode_error), some identity)
    else if ltb max_identity len
    then (err (alert_fatal_create internal_error), some identity)
    else (ok 0, some (take len (drop 2 rest)))
