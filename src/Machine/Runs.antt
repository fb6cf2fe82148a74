-- ===== src/Machine/Runs.antt =====
-- Runs of the state machine: which messages bring an end to `connected`.
use gc2021_pqdtls.Base.{
  ℕ, suc, ◌==◌, not, ◌&&◌, Bool, true, false, List, [], ◌∷◌, ◌++◌, replicate, ◌≡◌, refl, ap, sym,
  ◌∙◌, ==_iff, arith,
}
use gc2021_pqdtls.Security.{Role}
use gc2021_pqdtls.Machine.Steps.{
  Phase, wait_clientcertificate, wait_clientkeyexchange, wait_certificateverify,
  wait_changecipherspec, wait_finished, wait_servercertificate, wait_serverkeyexchange,
  wait_serverhellodone, connected, is_connected, Message, hello_request, certificate,
  server_key_exchange, certificate_request, server_hello_done, certificate_verify,
  client_key_exchange, finished_message, change_cipher_spec, Step, take_server_certificate,
  take_client_certificate, exchange_ecdhe, exchange_psk, exchange_unchosen, ask_certificate,
  be_done, take_key_exchange_signed, take_key_exchange, verify_certificate, change_cipher, complete,
  challenge, accept_signed, accept, ignore, ecdhe, psk,
}

abbrev pub is_hello_request : Message → Bool
is_hello_request hello_request = true
is_hello_request _ = false

-- What a run counts: the messages up to the end of a handshake, without the HelloRequests in it.
abbrev pub counts : Phase → Message → Bool
counts p m = not (is_connected p) && not (is_hello_request m)

module _ (role : Role) (auth : Bool) where
  pub data Run : Phase → ℕ → List Message → Phase → ℕ → Type 0 where
    stop : {p : Phase} {s : ℕ} → Run p s [] p s
    step :
        {p q r : Phase} {s t u : ℕ} {m : Message} {ms : List Message}
        → counts p m ≡ true
        → Step role auth p s m q t
        → Run q t ms r u
        → Run p s (m ∷ ms) r u

  clash {ℓ} : {A : Type ℓ} {b : Bool} → b ≡ true → b ≡ false → A
  clash {b = true} h k = absurd (ground arith)
  clash {b = false} h k = absurd (ground arith)

  from_connected : {s u : ℕ} {ms : List Message} → Run connected s ms connected u → ms ≡ []
  from_connected stop = refl
  from_connected (step c st r) = clash c refl

  from_wait_finished :
      {s u : ℕ} {ms : List Message}
      → (s == ecdhe) ≡ true
      → Run wait_finished s ms connected u
      → ms ≡ finished_message ∷ []
  from_wait_finished h (step c complete r) = ap (λ ms. finished_message ∷ ms) (from_connected r)
  from_wait_finished h (step c (exchange_unchosen e f) r) = clash h e
  from_wait_finished h (step c (challenge g) r) = clash g refl
  from_wait_finished h (step c (accept_signed g e) r) = clash g refl
  from_wait_finished h (step c (accept g e) r) = clash g refl
  from_wait_finished h (step c (ignore g) r) = clash c refl

  abbrev end_of_run : List Message
  end_of_run = change_cipher_spec ∷ finished_message ∷ []

  from_wait_changecipherspec :
      {s u : ℕ} {ms : List Message}
      → (s == ecdhe) ≡ true
      → Run wait_changecipherspec s ms connected u
      → ms ≡ end_of_run
  from_wait_changecipherspec h (step c change_cipher r) =
      ap (λ ms. change_cipher_spec ∷ ms) (from_wait_finished h r)
  from_wait_changecipherspec h (step c (exchange_unchosen e f) r) = clash h e
  from_wait_changecipherspec h (step c (challenge g) r) = clash g refl
  from_wait_changecipherspec h (step c (accept_signed g e) r) = clash g refl
  from_wait_changecipherspec h (step c (accept g e) r) = clash g refl
  from_wait_changecipherspec h (step c (ignore g) r) = clash c refl

  -- The requests for a certificate, and the rest of the flight.
  abbrev pub requests_then : ℕ → List Message
  requests_then k = replicate k certificate_request ++ (server_hello_done ∷ end_of_run)

  abbrev Requests : List Message → Type 0
  Requests ms = (k : ℕ) × (ms ≡ requests_then k)

  one_more : {ms : List Message} → Requests ms → Requests (certificate_request ∷ ms)
  one_more (k, e) = (suc k, ap (λ ms. certificate_request ∷ ms) e)

  not_psk : (s : ℕ) → (s == ecdhe) ≡ true → (s == psk) ≡ true → ecdhe ≡ psk
  not_psk s h k = sym ((==_iff s ecdhe).0 h) ∙ (==_iff s psk).0 k

  from_wait_serverhellodone :
      {s u : ℕ} {ms : List Message}
      → (s == ecdhe) ≡ true
      → Run wait_serverhellodone s ms connected u
      → Requests ms
  from_wait_serverhellodone h (step c be_done r) =
      (0, ap (λ ms. server_hello_done ∷ ms) (from_wait_changecipherspec h r))
  from_wait_serverhellodone h (step c ask_certificate r) = one_more (from_wait_serverhellodone h r)
  from_wait_serverhellodone h (step c (exchange_psk e) r) = absurd (omega (arith, not_psk _ h e))
  from_wait_serverhellodone h (step c (exchange_unchosen e f) r) = clash h e
  from_wait_serverhellodone h (step c (challenge g) r) = clash g refl
  from_wait_serverhellodone h (step c (accept_signed g e) r) = clash g refl
  from_wait_serverhellodone h (step c (accept g e) r) = clash g refl
  from_wait_serverhellodone h (step c (ignore g) r) = clash c refl

  from_wait_serverkeyexchange :
      {s u : ℕ} {ms : List Message}
      → (s == ecdhe) ≡ true
      → Run wait_serverkeyexchange s ms connected u
      → (k : ℕ) × (ms ≡ server_key_exchange ∷ requests_then k)
  from_wait_serverkeyexchange h (step c (exchange_ecdhe e) r) =
      let (k, rest) = from_wait_serverhellodone h r in (k, ap (λ ms. server_key_exchange ∷ ms) rest)
  from_wait_serverkeyexchange h (step c (exchange_unchosen e f) r) = clash h e
  from_wait_serverkeyexchange h (step c (challenge g) r) = clash g refl
  from_wait_serverkeyexchange h (step c (accept_signed g e) r) = clash g refl
  from_wait_serverkeyexchange h (step c (accept g e) r) = clash g refl
  from_wait_serverkeyexchange h (step c (ignore g) r) = clash c refl

  -- A client that has chosen the ECDHE suite is connected only behind the certificate of the server,
  -- its key exchange, any number of requests for a certificate, the end of its flight, the change of
  -- the cipher and Finished, in this order and with nothing between.
  pub client_order :
      {s u : ℕ} {ms : List Message}
      → (s == ecdhe) ≡ true
      → Run wait_servercertificate s ms connected u
      → (k : ℕ) × (ms ≡ certificate ∷ server_key_exchange ∷ requests_then k)
  client_order h (step c (take_server_certificate e) r) =
      let (k, rest) = from_wait_serverkeyexchange h r in (k, ap (λ ms. certificate ∷ ms) rest)
  client_order h (step c (exchange_unchosen e f) r) = clash h e
  client_order h (step c (challenge g) r) = clash g refl
  client_order h (step c (accept_signed g e) r) = clash g refl
  client_order h (step c (accept g e) r) = clash g refl
  client_order h (step c (ignore g) r) = clash c refl

  from_wait_certificateverify :
      {s u : ℕ} {ms : List Message}
      → (s == ecdhe) ≡ true
      → Run wait_certificateverify s ms connected u
      → ms ≡ certificate_verify ∷ end_of_run
  from_wait_certificateverify h (step c verify_certificate r) =
      ap (λ ms. certificate_verify ∷ ms) (from_wait_changecipherspec h r)
  from_wait_certificateverify h (step c (exchange_unchosen e f) r) = clash h e
  from_wait_certificateverify h (step c (challenge g) r) = clash g refl
  from_wait_certificateverify h (step c (accept_signed g e) r) = clash g refl
  from_wait_certificateverify h (step c (accept g e) r) = clash g refl
  from_wait_certificateverify h (step c (ignore g) r) = clash c refl

  from_wait_clientkeyexchange :
      {s u : ℕ} {ms : List Message}
      → auth ≡ true
      → (s == ecdhe) ≡ true
      → Run wait_clientkeyexchange s ms connected u
      → ms ≡ client_key_exchange ∷ certificate_verify ∷ end_of_run
  from_wait_clientkeyexchange w h (step c (take_key_exchange_signed e) r) =
      ap (λ ms. client_key_exchange ∷ ms) (from_wait_certificateverify h r)
  from_wait_clientkeyexchange w h (step c (take_key_exchange e) r) = clash w (rw h at e)
  from_wait_clientkeyexchange w h (step c (exchange_unchosen e f) r) = clash h e
  from_wait_clientkeyexchange w h (step c (challenge g) r) = clash g refl
  from_wait_clientkeyexchange w h (step c (accept_signed g e) r) = clash g refl
  from_wait_clientkeyexchange w h (step c (accept g e) r) = clash g refl
  from_wait_clientkeyexchange w h (step c (ignore g) r) = clash c refl

  -- A server that asks its clients for a certificate, and has chosen the ECDHE suite, is connected
  -- only behind the certificate of the client, its key exchange, the proof that it has the key, the
  -- change of the cipher and Finished, in this order and with nothing between.
  pub server_order :
      {s u : ℕ} {ms : List Message}
      → auth ≡ true
      → (s == ecdhe) ≡ true
      → Run wait_clientcertificate s ms connected u
      → ms ≡ certificate ∷ client_key_exchange ∷ certificate_verify ∷ end_of_run
  server_order w h (step c (take_client_certificate e) r) =
      ap (λ ms. certificate ∷ ms) (from_wait_clientkeyexchange w h r)
  server_order w h (step c (exchange_unchosen e f) r) = clash h e
  server_order w h (step c (challenge g) r) = clash g refl
  server_order w h (step c (accept_signed g e) r) = clash g refl
  server_order w h (step c (accept g e) r) = clash g refl
  server_order w h (step c (ignore g) r) = clash c refl
