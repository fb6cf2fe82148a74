-- ===== src/Machine/Steps.antt =====
-- The handshake as a state machine: the phases of a connection and the messages that move it. The
-- suite counts in a step only where the connection has handshake parameters.
use gc2021_pqdtls.Base.{
  ℕ, ◌==◌, ◌&&◌, if◌then◌else◌, Bool, true, false, Option, none, some, ◌≡◌, refl, sym, ap, ◌∙◌,
}
use mathlib.Core.Option.{some-injective}
use gc2021_pqdtls.Security.{
  Role, client, server, tls_psk_with_aes_128_ccm_8, tls_ecdhe_ecdsa_with_aes_128_ccm_8,
  tls_null_with_null_null,
}

-- dtls_state_t
pub data Phase : Type 0 where
  init wait_clienthello wait_clientcertificate wait_clientkeyexchange : Phase
  wait_certificateverify wait_changecipherspec wait_finished finished clienthello : Phase
  wait_servercertificate wait_serverkeyexchange wait_serverhellodone connected closing : Phase
  closed : Phase

unfoldable pub code : Phase → ℕ
code init = 0
code wait_clienthello = 1
code wait_clientcertificate = 2
code wait_clientkeyexchange = 3
code wait_certificateverify = 4
code wait_changecipherspec = 5
code wait_finished = 6
code finished = 7
code clienthello = 8
code wait_servercertificate = 9
code wait_serverkeyexchange = 10
code wait_serverhellodone = 11
code connected = 12
code closing = 13
code closed = 14

phase_of : ℕ → Option Phase
phase_of n =
    if n == 0
    then some init
    else if n == 1
    then some wait_clienthello
    else if n == 2
    then some wait_clientcertificate
    else if n == 3
    then some wait_clientkeyexchange
    else if n == 4
    then some wait_certificateverify
    else if n == 5
    then some wait_changecipherspec
    else if n == 6
    then some wait_finished
    else if n == 7
    then some finished
    else if n == 8
    then some clienthello
    else if n == 9
    then some wait_servercertificate
    else if n == 10
    then some wait_serverkeyexchange
    else if n == 11
    then some wait_serverhellodone
    else if n == 12
    then some connected
    else if n == 13
    then some closing
    else if n == 14
    then some closed
    else none

phase_of-code : (p : Phase) → phase_of (code p) ≡ some p
unfolding phase_of code
phase_of-code init = refl
phase_of-code wait_clienthello = refl
phase_of-code wait_clientcertificate = refl
phase_of-code wait_clientkeyexchange = refl
phase_of-code wait_certificateverify = refl
phase_of-code wait_changecipherspec = refl
phase_of-code wait_finished = refl
phase_of-code finished = refl
phase_of-code clienthello = refl
phase_of-code wait_servercertificate = refl
phase_of-code wait_serverkeyexchange = refl
phase_of-code wait_serverhellodone = refl
phase_of-code connected = refl
phase_of-code closing = refl
phase_of-code closed = refl

pub code-injective : (p q : Phase) → code p ≡ code q → p ≡ q
code-injective p q h = some-injective p q (sym (phase_of-code p) ∙ ap phase_of h ∙ phase_of-code q)

-- Where a ClientHello is expected.
abbrev pub greets : Phase → Bool
greets wait_clienthello = true
greets connected = true
greets _ = false

abbrev pub is_connected : Phase → Bool
is_connected connected = true
is_connected _ = false

-- The handshake messages, and the change of the cipher.
pub data Message : Type 0 where
  hello_request client_hello server_hello hello_verify_request certificate : Message
  server_key_exchange certificate_request server_hello_done certificate_verify : Message
  client_key_exchange finished_message change_cipher_spec : Message

abbrev pub ecdhe : ℕ
ecdhe = tls_ecdhe_ecdsa_with_aes_128_ccm_8

abbrev pub psk : ℕ
psk = tls_psk_with_aes_128_ccm_8

-- The steps of an end in this role; `auth` is whether it asks clients for a certificate.
pub data Step (role : Role) (auth : Bool) : Phase → ℕ → Message → Phase → ℕ → Type 0 where
  try_again : {s : ℕ} → Step role auth clienthello s hello_verify_request clienthello s
  choose_ecdhe :
      {s t : ℕ}
      → (t == ecdhe) ≡ true
      → Step role auth clienthello s server_hello wait_servercertificate t
  choose_other :
      {s t : ℕ}
      → (t == ecdhe) ≡ false
      → Step role auth clienthello s server_hello wait_serverhellodone t
  take_server_certificate :
      {s : ℕ}
      → role ≡ client
      → Step role auth wait_servercertificate s certificate wait_serverkeyexchange s
  take_client_certificate :
      {s : ℕ}
      → role ≡ server
      → Step role auth wait_clientcertificate s certificate wait_clientkeyexchange s
  exchange_ecdhe :
      {s : ℕ}
      → (s == ecdhe) ≡ true
      → Step role auth wait_serverkeyexchange s server_key_exchange wait_serverhellodone s
  exchange_psk :
      {s : ℕ}
      → (s == psk) ≡ true
      → Step role auth wait_serverhellodone s server_key_exchange wait_serverhellodone s
  -- No suite was chosen.
  exchange_unchosen :
      {p : Phase} {s : ℕ}
      → (s == ecdhe) ≡ false
      → (s == psk) ≡ false
      → Step role auth p s server_key_exchange wait_serverhellodone s
  ask_certificate :
      {s : ℕ} → Step role auth wait_serverhellodone s certificate_request wait_serverhellodone s
  be_done :
      {s : ℕ} → Step role auth wait_serverhellodone s server_hello_done wait_changecipherspec s
  take_key_exchange_signed :
      {s : ℕ}
      → ((s == ecdhe) && auth) ≡ true
      → Step role auth wait_clientkeyexchange s client_key_exchange wait_certificateverify s
  take_key_exchange :
      {s : ℕ}
      → ((s == ecdhe) && auth) ≡ false
      → Step role auth wait_clientkeyexchange s client_key_exchange wait_changecipherspec s
  verify_certificate :
      {s : ℕ} → Step role auth wait_certificateverify s certificate_verify wait_changecipherspec s
  change_cipher :
      {s : ℕ} → Step role auth wait_changecipherspec s change_cipher_spec wait_finished s
  complete :
      {s : ℕ} → Step role auth wait_finished s finished_message connected tls_null_with_null_null
  challenge : {p : Phase} {s : ℕ} → greets p ≡ true → Step role auth p s client_hello p s
  accept_signed :
      {p : Phase} {s t : ℕ}
      → greets p ≡ true
      → ((t == ecdhe) && auth) ≡ true
      → Step role auth p s client_hello wait_clientcertificate t
  accept :
      {p : Phase} {s t : ℕ}
      → greets p ≡ true
      → ((t == ecdhe) && auth) ≡ false
      → Step role auth p s client_hello wait_clientkeyexchange t
  ignore : {p : Phase} {s : ℕ} → is_connected p ≡ false → Step role auth p s hello_request p s
  start_over : {s t : ℕ} → Step role auth connected s hello_request clienthello t
