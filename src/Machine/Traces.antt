-- ===== src/Machine/Traces.antt =====
-- Traces of handle_handshake_msg: what an end has handled when it is connected.
use gc2021_pqdtls.Base.{
  ℕ, zero, suc, ◌==◌, Bool, true, false, Option, some, inl, inr, List, [], ◌∷◌, ◌++◌, replicate,
  ◌≡◌, refl, sym, ap, subst, ◌∙◌, arith,
}
use gc2021_pqdtls.Numeric.{byte_at}
use gc2021_pqdtls.Alert.{Result, ok}
use gc2021_pqdtls.Hmac.{Hash}
use gc2021_pqdtls.Keys.{Memory}
use gc2021_pqdtls.Finished.{Switching, handle_ccs}
use gc2021_pqdtls.Finished.Switch.{Moved, handle_ccs-Moved}
use gc2021_pqdtls.Finished.Suite.{handle_ccs-suite}
use gc2021_pqdtls.Security.{Role}
use gc2021_pqdtls.Machine.{Conn, Actions}
use gc2021_pqdtls.Machine.Switch.{handle_handshake_msg}
use gc2021_pqdtls.Machine.Steps.{
  Phase, code, code-injective, is_connected, connected, wait_changecipherspec, wait_finished,
  wait_servercertificate, wait_clientcertificate, Message, change_cipher_spec, change_cipher, ecdhe,
  Step, ignore, start_over, try_again, choose_ecdhe, choose_other, take_server_certificate,
  take_client_certificate, exchange_ecdhe, exchange_psk, exchange_unchosen, ask_certificate,
  be_done, take_key_exchange_signed, take_key_exchange, verify_certificate, complete, challenge,
  accept_signed, accept,
}
use gc2021_pqdtls.Machine.Allowed.{handle_handshake_msg-Allowed}
use gc2021_pqdtls.Machine.Outcomes.{type_of, Allowed}
use gc2021_pqdtls.Machine.Runs.{
  is_hello_request, counts, Run, stop, step, requests_then, client_order, server_order,
}

abbrev types : List Message → List ℕ
types [] = []
types (m ∷ ms) = type_of m ∷ types ms

module _ (World : Type 0) (a : Actions World) (role : Role) (hash : Hash) where
  -- The types of the messages that an end in this state and with this suite handles on its way to
  -- another state; 256 stands for a ChangeCipherSpec that handle_ccs takes. A HelloRequest that is
  -- ignored is a step without an entry in the list. Between two messages, all but the state and the
  -- suite may change: the timer, other peers, messages that are refused or dropped. No step begins
  -- where the end is connected.
  pub data Trace : ℕ → ℕ → List ℕ → ℕ → ℕ → Type 0 where
    none_left : {state suite : ℕ} → Trace state suite [] state suite
    handled :
        {state2 suite2 : ℕ} {ts : List ℕ}
        → (l l' : Conn World) (msg : List ℕ) (r : ℕ) → (l.world.state == 12) ≡ false
        → (byte_at msg 0 == 0) ≡ false
        → handle_handshake_msg World a role l.world.state msg l ≡ some (ok r, l')
        → Trace l'.world.state l'.world.cipher ts state2 suite2
        → Trace l.world.state l.world.cipher (byte_at msg 0 ∷ ts) state2 suite2
    requested :
        {state2 suite2 : ℕ} {ts : List ℕ}
        → (l l' : Conn World) (msg : List ℕ) (r : ℕ) → (l.world.state == 12) ≡ false
        → byte_at msg 0 ≡ 0
        → handle_handshake_msg World a role l.world.state msg l ≡ some (ok r, l')
        → Trace l'.world.state l'.world.cipher ts state2 suite2
        → Trace l.world.state l.world.cipher ts state2 suite2
    switched :
        {state2 suite2 : ℕ} {ts : List ℕ}
        → (allocated : Bool) (first second : Memory) (psk_key : Result (List ℕ))
          (ecdh : Option (List ℕ)) (payload : List ℕ) (p p' : Switching) (r : ℕ)
        → p.role ≡ role
        → (p'.state == p.state) ≡ false
        → handle_ccs hash allocated first second psk_key ecdh payload (some p)
          ≡ some (ok r, some p')
        → Trace p'.state p'.handshake.cipher ts state2 suite2
        → Trace p.state p.handshake.cipher (256 ∷ ts) state2 suite2

  -- A HelloRequest that is not at a connected end leaves phase and suite.
  request_kept :
      {p q : Phase} {s t : ℕ} {m : Message}
      → (code p == 12) ≡ false
      → type_of m ≡ 0
      → Step role a.is_ecdsa_client_auth_supported p s m q t
      → (q ≡ p) × (t ≡ s)
  unfolding code
  request_kept c e (ignore n) = (refl, refl)
  request_kept c e start_over = absurd (ground arith)
  request_kept c e try_again = absurd (ground arith)
  request_kept c e (choose_ecdhe x) = absurd (ground arith)
  request_kept c e (choose_other x) = absurd (ground arith)
  request_kept c e (take_server_certificate x) = absurd (ground arith)
  request_kept c e (take_client_certificate x) = absurd (ground arith)
  request_kept c e (exchange_ecdhe x) = absurd (ground arith)
  request_kept c e (exchange_psk x) = absurd (ground arith)
  request_kept c e (exchange_unchosen x y) = absurd (ground arith)
  request_kept c e ask_certificate = absurd (ground arith)
  request_kept c e be_done = absurd (ground arith)
  request_kept c e (take_key_exchange_signed x) = absurd (ground arith)
  request_kept c e (take_key_exchange x) = absurd (ground arith)
  request_kept c e verify_certificate = absurd (ground arith)
  request_kept c e change_cipher = absurd (ground arith)
  request_kept c e complete = absurd (ground arith)
  request_kept c e (challenge x) = absurd (ground arith)
  request_kept c e (accept_signed x y) = absurd (ground arith)
  request_kept c e (accept x y) = absurd (ground arith)

  not_connected : (p : Phase) → (code p == 12) ≡ false → is_connected p ≡ false
  unfolding code
  not_connected p h = ground arith

  not_request : (m : Message) → (type_of m == 0) ≡ false → is_hello_request m ≡ false
  not_request m h = ground arith

  counts_of :
      (p : Phase) (m : Message)
      → (code p == 12) ≡ false
      → (type_of m == 0) ≡ false
      → counts p m ≡ true
  counts_of p m h k = rw (not_connected p h, not_request m k) refl

  -- A trace of the code is a run of the state machine.
  abbrev Simulated : Phase → ℕ → List ℕ → ℕ → ℕ → Type 0
  Simulated p s ts state2 suite2 =
      (q : Phase) × ((ms : List Message) × ((state2 ≡ code q)
          × ((types ms ≡ ts) × Run role a.is_ecdsa_client_auth_supported p s ms q suite2)))

  five : code wait_changecipherspec ≡ 5
  unfolding code
  five = refl

  nine : code wait_servercertificate ≡ 9
  unfolding code
  nine = refl

  two : code wait_clientcertificate ≡ 2
  unfolding code
  two = refl

  six : code wait_finished ≡ 6
  unfolding code
  six = refl

  moved_by :
      (p : Phase) (l l' : Conn World) (msg : List ℕ) (r : ℕ)
      → l.world.state ≡ code p
      → handle_handshake_msg World a role l.world.state msg l ≡ some (ok r, l')
      → Allowed World a role p l.world.cipher (byte_at msg 0) (some (ok r, l'))
  moved_by p l l' msg r h e =
      subst (Allowed World a role p l.world.cipher (byte_at msg 0))
        (ap (λ x. handle_handshake_msg World a role x msg l) (sym h) ∙ e)
        (handle_handshake_msg-Allowed World a role p msg l h)

  -- A ChangeCipherSpec that changes the state.
  changed :
      (payload : List ℕ) (p p' : Switching) (r : Result ℕ)
      → (p'.state == p.state) ≡ false
      → Moved payload p r p'
      → (p.state ≡ 5) × (p'.state ≡ 6)
  changed payload p p' r c (inl same) = absurd (ground arith)
  changed payload p p' r c (inr (waits, (waits2, rest))) = (waits, waits2)

  trace-Simulated :
      (p : Phase) {state suite state2 suite2 : ℕ} {ts : List ℕ}
      → state ≡ code p
      → Trace state suite ts state2 suite2
      → Simulated p suite ts state2 suite2
  trace-Simulated p h none_left = (p, ([], (h, (refl, stop))))
  trace-Simulated p {suite2 = suite2} h
        (switched allocated first second psk_key ecdh payload sw sw' r role_same c e rest) =
      let (at, to) =
        changed payload sw sw' (ok r) c
          (handle_ccs-Moved hash allocated first second psk_key ecdh payload sw sw' (ok r) e) in
      let same : sw'.handshake.cipher ≡ sw.handshake.cipher =
        handle_ccs-suite hash allocated first second psk_key ecdh payload sw sw' (ok r) e in
      let (q, (ms, (hq, (path, run)))) = trace-Simulated wait_finished (to ∙ sym six) rest in
      let here : p ≡ wait_changecipherspec =
        code-injective p wait_changecipherspec (sym h ∙ at ∙ sym five) in
      (
        q,
        (
          change_cipher_spec ∷ ms,
          (
            hq,
            (
              ap (λ ys. 256 ∷ ys) path,
              subst
                  (λ x.
                    Run role a.is_ecdsa_client_auth_supported x sw.handshake.cipher
                      (change_cipher_spec ∷ ms) q suite2)
                  (sym here)
                  (step refl change_cipher (
                    subst
                      (λ s. Run role a.is_ecdsa_client_auth_supported wait_finished s ms q suite2)
                      same run)),
            ),
          ),
        ),
      )
  trace-Simulated p {suite2 = suite2} h (requested l l' msg r c n e rest) =
      let (m, (type, (q, (hq, moved)))) = moved_by p l l' msg r h e in
      let (same, same2) = request_kept (ap (λ (x : ℕ). x == 12) (sym h) ∙ c) (type ∙ n) moved in
      let (q2, (ms, (h2, (path, run)))) = trace-Simulated p (hq ∙ ap code same) rest in
      (
        q2,
        (
          ms,
          (
            h2,
            (
              path,
              subst (λ s. Run role a.is_ecdsa_client_auth_supported p s ms q2 suite2) same2 run,
            ),
          ),
        ),
      )
  trace-Simulated p h (handled l l' msg r c n e rest) =
      let (m, (type, (q, (hq, moved)))) = moved_by p l l' msg r h e in
      let (q2, (ms, (h2, (path, run)))) = trace-Simulated q hq rest in
      let counted : counts p m ≡ true =
        counts_of p m (ap (λ (x : ℕ). x == 12) (sym h) ∙ c) (ap (λ (x : ℕ). x == 0) type ∙ n) in
      (
        q2,
        (
          m ∷ ms,
          (
            h2,
            (
              ap (λ (x : ℕ). x ∷ types ms) type ∙ ap (λ ys. byte_at msg 0 ∷ ys) path,
              step counted moved run,
            ),
          ),
        ),
      )

  at_connected : (q : Phase) (n : ℕ) → n ≡ code q → n ≡ 12 → q ≡ connected
  unfolding code
  at_connected q n h k = code-injective q connected (sym h ∙ k)

  types-requests :
      (k : ℕ)
      → types (requests_then role a.is_ecdsa_client_auth_supported k)
        ≡ replicate k 13 ++ (14 ∷ 256 ∷ 20 ∷ [])
  types-requests zero = refl
  types-requests (suc k) = ap (λ ys. 13 ∷ ys) (types-requests k)

  -- A client that has chosen the ECDHE suite and waits for the certificate of the server is connected
  -- only after it has handled, in this order and with nothing between but HelloRequests, that
  -- certificate, the key exchange of the server, any number of requests for a certificate, the end of
  -- the server's flight, the change of the cipher by handle_ccs, and Finished. This is about traces on
  -- which nothing else changes the state of the peer or the suite.
  pub client_messages :
      {state suite suite2 : ℕ} {ts : List ℕ}
      → state ≡ 9
      → (suite == ecdhe) ≡ true
      → Trace state suite ts 12 suite2
      → (k : ℕ) × (ts ≡ 11 ∷ 12 ∷ (replicate k 13 ++ (14 ∷ 256 ∷ 20 ∷ [])))
  client_messages {suite = suite} {suite2 = suite2} h chosen trace =
      let (q, (ms, (hq, (path, run)))) =
        trace-Simulated wait_servercertificate (h ∙ sym nine) trace in
      let (k, order) = client_order role a.is_ecdsa_client_auth_supported chosen (
        subst
          (λ x. Run role a.is_ecdsa_client_auth_supported wait_servercertificate suite ms x suite2)
          (at_connected q 12 hq refl) run) in
      (k, sym path ∙ ap types order ∙ ap (λ (ys : List ℕ). 11 ∷ 12 ∷ ys) (types-requests k))

  -- A server that asks its clients for a certificate, and has chosen the ECDHE suite and waits for that
  -- certificate, is connected only after it has handled, in this order and with nothing between but
  -- HelloRequests, the certificate of the client, its key exchange, its CertificateVerify, the change
  -- of the cipher by handle_ccs, and Finished. This is about traces on which nothing else changes the
  -- state of the peer or the suite.
  pub server_messages :
      {state suite suite2 : ℕ} {ts : List ℕ}
      → a.is_ecdsa_client_auth_supported ≡ true
      → state ≡ 2
      → (suite == ecdhe) ≡ true
      → Trace state suite ts 12 suite2
      → ts ≡ 11 ∷ 16 ∷ 15 ∷ 256 ∷ 20 ∷ []
  server_messages {suite = suite} {suite2 = suite2} auth h chosen trace =
      let (q, (ms, (hq, (path, run)))) =
        trace-Simulated wait_clientcertificate (h ∙ sym two) trace in
      let order = server_order role a.is_ecdsa_client_auth_supported auth chosen (
        subst
          (λ x. Run role a.is_ecdsa_client_auth_supported wait_clientcertificate suite ms x suite2)
          (at_connected q 12 hq refl) run) in
      sym path ∙ ap types order
