-- ===== src/Alert.antt =====
-- dtls-alert.h and the results of the engine: a C result `-n` is `err n`, any other is `ok`.
pub mod Codes
use gc2021_pqdtls.Base.{
  ℕ, ◌*◌, ◌/◌, ◌%◌, ◌^◌, ltb, ◌==◌, if◌then◌else◌, bit_or, ◌&&◌, Option, none, some,
}

pub data Result {ℓ} (A : Type ℓ) : Type ℓ where
  ok : A → Result A
  err : ℕ → Result A

-- The alerts that the modelled code raises (dtls_alert_level_t, dtls_alert_t).
abbrev pub level_warning : ℕ
level_warning = 1

abbrev pub level_fatal : ℕ
level_fatal = 2

abbrev pub close_notify : ℕ
close_notify = 0

abbrev pub record_overflow : ℕ
record_overflow = 22

abbrev pub handshake_failure : ℕ
handshake_failure = 40

abbrev pub decode_error : ℕ
decode_error = 50

abbrev pub protocol_version : ℕ
protocol_version = 70

abbrev pub internal_error : ℕ
internal_error = 80

abbrev pub no_renegotiation : ℕ
no_renegotiation = 100

-- dtls_alert_create: `-((level << 8) | desc)`
unfoldable pub alert_create : ℕ → ℕ → ℕ
alert_create level desc = bit_or (level * 2 ^ 8) desc

-- dtls_alert_fatal_create
unfoldable pub alert_fatal_create : ℕ → ℕ
unfolding alert_create
alert_fatal_create desc = alert_create level_fatal desc

-- What dtls_alert_send_from_err sends for the result `-n` where there is a peer: level and
-- description, or nothing.
unfoldable pub alert_from_err : ℕ → Option (ℕ × ℕ)
alert_from_err n =
    if ltb (2 ^ 8) n && ltb n (3 * 2 ^ 8)
    then some (n / 2 ^ 8 % 2 ^ 8, n % 2 ^ 8)
    else if n == 1
    then some (level_fatal, internal_error)
    else none
