-- ===== src/Machine/Answers/Allowed.antt =====
-- The messages within a handshake move a connection by a step of the state machine.
use gc2021_pqdtls.Base.{ℕ, ◌==◌, ◌&&◌, Bool-cases, List, ◌≡◌, inl, inr, refl}
use gc2021_pqdtls.Security.{Role, client, server}
use gc2021_pqdtls.Machine.{Conn, Actions, raise, count, is_ecdhe}
use gc2021_pqdtls.Machine.Answers.{
  on_hello_verify_request, on_server_hello, is_other, behind_certificate, on_certificate, exchanged,
  on_server_key_exchange, on_server_hello_done, on_certificate_request, answer_finished,
  on_finished, with_tesla, on_client_key_exchange, on_certificate_verify,
}
use gc2021_pqdtls.Machine.Answers
use gc2021_pqdtls.Machine.Steps
use gc2021_pqdtls.Machine.Answers.{
  ccs_sent, again, chosen, certified, flight_sent, key_exchanged, certificate_checked,
}
use gc2021_pqdtls.Machine.Steps.{
  Phase, init, wait_clienthello, wait_clientcertificate, wait_clientkeyexchange,
  wait_certificateverify, wait_changecipherspec, wait_finished, clienthello, wait_servercertificate,
  wait_serverkeyexchange, wait_serverhellodone, connected, code, greets, is_connected,
  code-injective, Message, hello_request, client_hello, server_hello, hello_verify_request,
  certificate, server_key_exchange, certificate_request, server_hello_done, certificate_verify,
  client_key_exchange, finished_message, change_cipher_spec, Step, try_again, choose_ecdhe,
  choose_other, take_server_certificate, take_client_certificate, exchange_ecdhe, exchange_psk,
  exchange_unchosen, ask_certificate, be_done, take_key_exchange_signed, take_key_exchange,
  verify_certificate, challenge, accept_signed, accept, ignore, start_over,
}
use gc2021_pqdtls.Machine.Outcomes.{
  suite, Allowed, guard-Allowed, tried-Allowed, tried_choice-Allowed, needs_peer-Allowed,
  needs_params-Allowed,
}

module _ (World : Type 0) (a : Actions World) (role : Role) where
  pub on_hello_verify_request-Allowed :
      (p : Phase) (msg : List ℕ) (l : Conn World)
      → l.world.state ≡ code p
      → Allowed World a role p (suite l) 3 (on_hello_verify_request World a (code p) msg l)
  unfolding on_hello_verify_request code
  on_hello_verify_request-Allowed p msg l h =
      guard-Allowed World a role p clienthello (suite l) 3 l _ h (λ k.
        tried-Allowed World a role clienthello (suite l) 3 l.world.state (suite l) (again World a) _
          k (λ r l'. (hello_verify_request, (refl, (clienthello, (k, try_again))))))

  pub on_server_hello-Allowed :
      (p : Phase) (msg : List ℕ) (l : Conn World)
      → l.world.state ≡ code p
      → Allowed World a role p (suite l) 2 (on_server_hello World a (code p) msg l)
  unfolding on_server_hello code
  on_server_hello-Allowed p msg l h =
      guard-Allowed World a role p clienthello (suite l) 2 l _ h (λ k.
        needs_params-Allowed World a role clienthello (suite l) 2 l.peer l.params l _ k (
          tried_choice-Allowed World a role clienthello (suite l) 2 l.world.state (chosen World a) _
            (inl k)
            (λ r cipher l'. elim (Bool-cases (cipher == 0xC0AE)) [
              | inl e ↦
                  rw e (server_hello, (refl, (wait_servercertificate, (refl, choose_ecdhe e))))
              | inr e ↦ rw e (server_hello, (refl, (wait_serverhellodone, (refl, choose_other e))))
            ])))

  pub on_server_hello_done-Allowed :
      (p : Phase) (msg : List ℕ) (l : Conn World)
      → l.world.state ≡ code p
      → Allowed World a role p (suite l) 14 (on_server_hello_done World a (code p) msg l)
  unfolding on_server_hello_done code
  on_server_hello_done-Allowed p msg l h =
      guard-Allowed World a role p wait_serverhellodone (suite l) 14 l _ h (λ k.
        needs_peer-Allowed World a role wait_serverhellodone (suite l) 14 l.peer l _ k (
          tried-Allowed World a role wait_serverhellodone (suite l) 14 l.world.state (suite l)
            (flight_sent World a) _ k
            (λ r l'. (server_hello_done, (refl, (wait_changecipherspec, (refl, be_done)))))))

  pub on_certificate_request-Allowed :
      (p : Phase) (msg : List ℕ) (l : Conn World)
      → l.world.state ≡ code p
      → Allowed World a role p (suite l) 13 (on_certificate_request World a (code p) msg l)
  unfolding on_certificate_request code
  on_certificate_request-Allowed p msg l h =
      guard-Allowed World a role p wait_serverhellodone (suite l) 13 l _ h (λ k.
        tried-Allowed World a role wait_serverhellodone (suite l) 13 l.world.state (suite l) count _
          k (λ r l'. (certificate_request, (refl, (wait_serverhellodone, (k, ask_certificate))))))

  pub on_certificate_verify-Allowed :
      (p : Phase) (msg : List ℕ) (l : Conn World)
      → l.world.state ≡ code p
      → Allowed World a role p (suite l) 15 (on_certificate_verify World a (code p) msg l)
  unfolding on_certificate_verify code
  on_certificate_verify-Allowed p msg l h =
      guard-Allowed World a role p wait_certificateverify (suite l) 15 l _ h (λ k.
        needs_params-Allowed World a role wait_certificateverify (suite l) 15 l.peer l.params l _ k
          (tried-Allowed World a role wait_certificateverify (suite l) 15 l.world.state (suite l)
            (certificate_checked World a msg) _ k
            (λ r l'.
              (certificate_verify, (refl, (wait_changecipherspec, (refl, verify_certificate)))))))

  pub on_client_key_exchange-Allowed :
      (p : Phase) (msg : List ℕ) (l : Conn World)
      → l.world.state ≡ code p
      → Allowed World a role p (suite l) 16 (on_client_key_exchange World a (code p) msg l)
  unfolding on_client_key_exchange code
  on_client_key_exchange-Allowed p msg l h =
      guard-Allowed World a role p wait_clientkeyexchange (suite l) 16 l _ h (λ k.
        needs_params-Allowed World a role wait_clientkeyexchange (suite l) 16 l.peer l.params l _ k
          (tried-Allowed World a role wait_clientkeyexchange (suite l) 16 l.world.state (suite l)
            (key_exchanged World a msg) _ k
            (λ r l'. elim (Bool-cases (is_ecdhe l && a.is_ecdsa_client_auth_supported)) [
              | inl e ↦ rw e (
                client_key_exchange,
                (refl, (wait_certificateverify, (refl, take_key_exchange_signed e))),
              )
              | inr e ↦ rw e (
                client_key_exchange,
                (refl, (wait_changecipherspec, (refl, take_key_exchange e))),
              )
            ])))

  pub certificate_at :
      (end : Role) (p : Phase) (msg : List ℕ) (l : Conn World)
      → role ≡ end
      → l.world.state ≡ code p
      → Allowed World a role p (suite l) 11 (on_certificate World a end (code p) msg l)
  unfolding on_certificate code
  certificate_at client p msg l e h =
      guard-Allowed World a role p wait_servercertificate (suite l) 11 l _ h (λ k.
        needs_peer-Allowed World a role wait_servercertificate (suite l) 11 l.peer l _ k (
          tried-Allowed World a role wait_servercertificate (suite l) 11 l.world.state (suite l)
            (certified World a client) _ k
            (λ r l'.
              (certificate, (refl, (wait_serverkeyexchange, (refl, take_server_certificate e)))))))
  certificate_at server p msg l e h =
      guard-Allowed World a role p wait_clientcertificate (suite l) 11 l _ h (λ k.
        needs_peer-Allowed World a role wait_clientcertificate (suite l) 11 l.peer l _ k (
          tried-Allowed World a role wait_clientcertificate (suite l) 11 l.world.state (suite l)
            (certified World a server) _ k
            (λ r l'.
              (certificate, (refl, (wait_clientkeyexchange, (refl, take_client_certificate e)))))))

  pub on_server_key_exchange-Allowed :
      (p : Phase) (msg : List ℕ) (l : Conn World)
      → l.world.state ≡ code p
      → Allowed World a role p (suite l) 12 (on_server_key_exchange World a (code p) msg l)
  unfolding on_server_key_exchange code
  on_server_key_exchange-Allowed p msg l h =
      needs_params-Allowed World a role p (suite l) 12 l.peer l.params l _ h
        (elim (Bool-cases (suite l == 0xC0AE)) [
          | inl e ↦ rw e (
              guard-Allowed World a role p wait_serverkeyexchange (suite l) 12 l _ h (λ k.
                tried-Allowed World a role wait_serverkeyexchange (suite l) 12 l.world.state
                  (suite l) (exchanged World a) _ k
                  (λ r l'. (
                    server_key_exchange,
                    (refl, (wait_serverhellodone, (refl, exchange_ecdhe e))),
                  ))))
          | inr e ↦ elim (Bool-cases (suite l == 0xC0A8)) [
            | inl f ↦
                rw (e, f)
                  (guard-Allowed World a role p wait_serverhellodone (suite l) 12 l _ h (λ k.
                    tried-Allowed World a role wait_serverhellodone (suite l) 12 l.world.state
                      (suite l) (exchanged World a) _ k
                      (λ r l'. (
                        server_key_exchange,
                        (refl, (wait_serverhellodone, (refl, exchange_psk f))),
                      ))))
            | inr f ↦
                rw (e, f)
                  (
                    server_key_exchange,
                    (refl, (wait_serverhellodone, (refl, exchange_unchosen e f))),
                  )
          ]
        ])

  complete-Allowed :
      (s r : ℕ) (l : Conn World)
      → Allowed World a role wait_finished s 20 (Answers.complete World a r l)
  unfolding code
  complete-Allowed s r l = (finished_message, (refl, (connected, (refl, Steps.complete))))

  answer_finished-Allowed :
      (end : Role) (msg : List ℕ) (s r : ℕ) (l : Conn World)
      → l.world.state ≡ code wait_finished
      → Allowed World a role wait_finished s 20 (answer_finished World a end msg r l)
  answer_finished-Allowed client msg s r l k = complete-Allowed s r l
  answer_finished-Allowed server msg s r l k =
      tried-Allowed World a role wait_finished s 20 l.world.state (suite l) (ccs_sent World a) _ k
        (λ r2 l2.
          tried-Allowed World a role wait_finished s 20 l.world.state (suite l)
            (Answers.complete World a) _ k
            (λ r3 l3. complete-Allowed s r3 (raise l.world.state (suite l) l3)))

  pub on_finished-Allowed :
      (p : Phase) (msg : List ℕ) (l : Conn World)
      → l.world.state ≡ code p
      → Allowed World a role p (suite l) 20 (on_finished World a role (code p) msg l)
  unfolding on_finished code
  on_finished-Allowed p msg l h =
      guard-Allowed World a role p wait_finished (suite l) 20 l _ h (λ k.
        needs_params-Allowed World a role wait_finished (suite l) 20 l.peer l.params l _ k (
          tried-Allowed World a role wait_finished (suite l) 20 l.world.state (suite l)
            (answer_finished World a role msg) _ k
            (λ r l'.
              answer_finished-Allowed role msg (suite l) r (raise l.world.state (suite l) l') k)))
