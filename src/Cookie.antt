-- ===== src/Cookie.antt =====
-- The cookie exchange of dtls.c: dtls_get_cookie, dtls_create_cookie and dtls_verify_peer. A message is
-- the list of its bytes, behind the record header. A byte that the code reads just behind the message,
-- before it checks the length, is 0 here; both functions then fail whatever it is. The result `none`
-- is a use of bytes behind the message that no check stops.
pub mod Check
pub mod Exchange
use gc2021_pqdtls.Base.{
  ℕ, ◌+◌, ◌-◌, ltb, ◌==◌, if◌then◌else◌, Bool, true, false, not, ◌&&◌, ◌||◌, Option, none, some,
  List, [], ◌∷◌, ◌++◌, length, take, drop,
}
use gc2021_pqdtls.Numeric.{
  byte_at, int_to_uint8, int_to_uint16, uint8_to_int, uint16_to_int, uint24_to_int,
}
use gc2021_pqdtls.Buffer.{equals}
use gc2021_pqdtls.Alert.{Result, ok, err, alert_fatal_create, handshake_failure, protocol_version}
use gc2021_pqdtls.Hmac.{Hash, hmac_init, hmac_update, hmac_finalize}
use gc2021_pqdtls.Record.{dtls_version}

-- DTLS_HS_LENGTH, DTLS_CH_LENGTH, DTLS_COOKIE_LENGTH
abbrev pub hs_length : ℕ
hs_length = 12

abbrev pub ch_length : ℕ
ch_length = 34

abbrev pub cookie_length : ℕ
cookie_length = 16

-- SKIP_VAR_FIELD: what is left behind the field.
unfoldable pub skip_var_field : List ℕ → Option (List ℕ)
unfolding uint8_to_int
skip_var_field p =
    if ltb (length p) (uint8_to_int p + 1) then none else some (drop (uint8_to_int p + 1) p)

abbrev cookie_of : Option (List ℕ) → Result (List ℕ)
cookie_of none = err (alert_fatal_create handshake_failure)
cookie_of (some p) =
    if ltb (length p) (byte_at p 0 + 1)
    then err (alert_fatal_create handshake_failure)
    else ok (take (byte_at p 0) (drop 1 p))

-- dtls_get_cookie
unfoldable pub get_cookie : List ℕ → Result (List ℕ)
unfolding skip_var_field
get_cookie msg =
    if ltb (length msg) (hs_length + ch_length + 1)
    then err (alert_fatal_create handshake_failure)
    else if not (uint16_to_int (drop hs_length msg) == dtls_version)
    then err (alert_fatal_create protocol_version)
    else cookie_of (skip_var_field (drop (hs_length + ch_length) msg))

module _ (h : Hash) where
  -- What the HMAC is fed with: `e1` bytes of the hello, and its fragment from `e2` on.
  unfoldable pub cookie_for : List ℕ → List ℕ → List ℕ → ℕ → ℕ → ℕ → List ℕ
  cookie_for secret address msg e1 e2 fragment =
      take cookie_length
        (hmac_finalize h (
          hmac_update h
            (hmac_update h (hmac_update h (hmac_init h secret) address)
              (take e1 (drop hs_length msg)))
            (take (fragment - e2) (drop (hs_length + e2) msg)))).0

  -- dtls_create_cookie; `address` is the memory of the session that dtls_session_get_address leads to.
  unfoldable pub create_cookie : List ℕ → List ℕ → List ℕ → Option (Result (List ℕ))
  create_cookie secret address msg =
      let e1 = ch_length + byte_at msg (hs_length + ch_length) + 1 in
      let e2 = e1 + byte_at msg (hs_length + e1) + 1 in
      let fragment = uint24_to_int (drop 9 msg) in
      if ltb (length msg) (e1 + hs_length)
      then some (err (alert_fatal_create handshake_failure))
      else if ltb (length msg) (e2 + hs_length)
      then some (err (alert_fatal_create handshake_failure))
      else if ltb fragment e2 || ltb (length msg) (hs_length + fragment)
      then none
      else some (ok (cookie_for secret address msg e1 e2 fragment))

-- What dtls_verify_peer finds: a Client Hello that may go on, or one that is answered with a
-- HelloVerifyRequest of this body.
pub data Verdict : Type 0 where
  good : Verdict
  challenge : List ℕ → Verdict

-- The body of the HelloVerifyRequest.
unfoldable pub hello_verify : List ℕ → List ℕ
hello_verify cookie = int_to_uint16 dtls_version ++ int_to_uint8 cookie_length ++ cookie

-- The cookie check. Where dtls_get_cookie fails, `err` is returned, which dtls_create_cookie left at 0.
unfoldable pub check_cookie : List ℕ → Result (List ℕ) → Verdict
check_cookie mycookie (err n) = good
check_cookie mycookie (ok cookie) =
    if (length cookie == cookie_length) && equals cookie mycookie cookie_length
    then good
    else challenge (hello_verify mycookie)

abbrev verdict_of : Option (Result (List ℕ)) → Result (List ℕ) → Option (Result Verdict)
verdict_of none found = none
verdict_of (some (err n)) found = some (err n)
verdict_of (some (ok mycookie)) found = some (ok (check_cookie mycookie found))

-- dtls_verify_peer, up to the sending of the HelloVerifyRequest.
unfoldable pub verify_peer : Hash → List ℕ → List ℕ → List ℕ → Option (Result Verdict)
verify_peer h secret address msg = verdict_of (create_cookie h secret address msg) (get_cookie msg)
