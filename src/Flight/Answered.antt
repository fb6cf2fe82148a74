-- ===== src/Flight/Answered.antt =====
-- The flight of a server of this library at a client of it.
use gc2021_pqdtls.Base.{
  ℕ, arith, ◌<◌, ◌^◌, ◌==◌, if◌then◌else◌, true, some, List, ◌∷◌, ◌++◌, length, ◌≡◌, refl, ap, ◌∙◌,
}
use gc2021_pqdtls.Alert.{ok, err, alert_fatal_create}
use gc2021_pqdtls.Security.{client}
use gc2021_pqdtls.Keys.{Handler, known_cipher}
use gc2021_pqdtls.Reorder.{Params, Link}
use gc2021_pqdtls.Hello.{check_server_hello, server_hello, server_extensions}
use gc2021_pqdtls.Hello.Answered.{answered, check_server_hello-server_hello}
use gc2021_pqdtls.Machine.{
  Conn, Actions, lower, raise, set_state, counted, count, needs_params, tried_choice,
}
use gc2021_pqdtls.Machine.Answers.{chosen, on_server_hello}
use gc2021_pqdtls.Machine.Switch.{dispatch, handle_handshake_msg}
use gc2021_pqdtls.Flight.{
  Greeted, check_hello, hashed, kept, has_params, with_suite, client_actions,
}
use gc2021_pqdtls.Flight.Done.{handle_handshake_msg-stopped, done_answered, hashed-peer, handed_on}

module _ (W : Type 0) (c : Handler) (a : Actions (Greeted W)) where
  -- The connection behind the ServerHello.
  abbrev pub greeted : ℕ → List ℕ → List ℕ → Link (Greeted W) → Conn (Greeted W)
  greeted cipher random behind l =
      let l' = record l {
        world = record l.world { answer = answered cipher random behind l.world.answer };
      } in
      set_state (if cipher == 0xC0AE then 9 else 11) (raise 8 cipher l')

  check_hello-server_hello :
      (header random nonce : List ℕ) (cipher s : ℕ) (l : Link (Greeted W)) (at : ℕ) (p : Params)
      → l.peer ≡ some at
      → l.params ≡ some p
      → length header ≡ 12
      → length random ≡ 32
      → length nonce ≡ 32
      → cipher < 2 ^ 16
      → known_cipher c cipher true ≡ true
      → check_hello W c a (header ++ server_hello cipher random nonce) s l
        ≡ kept W c a (hashed W c a (header ++ server_hello cipher random nonce) l) (
            some (
              ok 0,
              answered cipher random
                  (server_extensions cipher ++ nonce)
                  (hashed W c a (header ++ server_hello cipher random nonce) l).world.answer,
            ))
  unfolding check_hello
  check_hello-server_hello header random nonce cipher s l at p hp ha h r n small known =
      let msg = header ++ server_hello cipher random nonce in
      let l' = hashed W c a msg l in
      let ans = with_suite W c a s l'.world.answer in
      let here : has_params l.peer l.params ≡ true =
        ap (λ o. has_params o l.params) hp ∙ ap (has_params (some at)) ha in
      ap (λ b. kept W c a l' (check_server_hello c b msg ans)) here
      ∙ ap (kept W c a l')
          (check_server_hello-server_hello c header random nonce cipher ans h r n small known)

  on_server_hello-server_hello :
      (more random nonce : List ℕ) (cipher s : ℕ) (l : Link (Greeted W)) (at : ℕ) (p : Params)
      → l.peer ≡ some at
      → l.params ≡ some p
      → length more ≡ 11
      → length random ≡ 32
      → length nonce ≡ 32
      → cipher < 2 ^ 16
      → known_cipher c cipher true ≡ true
      → dispatch
          (Greeted W)
          (client_actions W c a)
          client
          8
          (2 ∷ (more ++ server_hello cipher random nonce))
          (raise 8 s l)
        ≡ count 0 (
            greeted cipher random
              (server_extensions cipher ++ nonce)
              (hashed W c a (2 ∷ (more ++ server_hello cipher random nonce)) l))
  unfolding dispatch on_server_hello
  on_server_hello-server_hello more random nonce cipher s l at p hp ha h r n small known =
      let msg = 2 ∷ (more ++ server_hello cipher random nonce) in
      let go = tried_choice 8 (chosen (Greeted W) (client_actions W c a)) in
      let next = go (check_hello W c a msg s l) in
      ap (λ o. needs_params o l.params (raise 8 s l) next) hp
      ∙ ap (λ o. needs_params (some at) o (raise 8 s l) next) ha
      ∙ ap go (
          check_hello-server_hello (2 ∷ more) random nonce cipher s l at p hp ha (omega (arith, h))
            r n small known)

  -- The connection of a peer at `at` behind a ServerHello that it took, given what the end of the
  -- retransmission left.
  abbrev pub behind_hello : List ℕ → List ℕ → List ℕ → ℕ → Link (Greeted W) → Conn (Greeted W)
  behind_hello more random nonce cipher l1 =
      let msg = 2 ∷ (more ++ server_hello cipher random nonce) in
      let l2 = greeted cipher random (server_extensions cipher ++ nonce) (hashed W c a msg l1) in
      record l2 { params = counted l2.peer l2.params }

  -- A client that waits for a ServerHello gets the flight of a server of this library that has no PSK
  -- hint to send: its ServerHello, with a suite that the client knows, and its ServerHelloDone. In
  -- these two calls, stopping the retransmission finds every object, and it and the update of the hash
  -- keep the peer. The client takes the ServerHello and stores the suite; then, if the suite is not
  -- ECDHE, it hands the ServerHelloDone to its check, returns its error, and else goes on to wait for
  -- the ChangeCipherSpec; but if it is, it refuses the ServerHelloDone with unexpected_message, since
  -- it waits for a certificate.
  pub server_hello-answered :
      (more done random nonce : List ℕ) (cipher s at : ℕ) (p : Params) (w : Greeted W)
      (l1 l2 : Link (Greeted W))
      → length more ≡ 11
      → length random ≡ 32
      → length nonce ≡ 32
      → cipher < 2 ^ 16
      → known_cipher c cipher true ≡ true
      → a.stop_retransmission (record { peer = some at; params = some p; world = w }) ≡ some l1
      → l1.peer ≡ some at
      → l1.params ≡ some p
      → (a.update_hs_hash (2 ∷ (more ++ server_hello cipher random nonce)) l1).peer ≡ some at
      → a.stop_retransmission (lower (behind_hello more random nonce cipher l1)) ≡ some l2
      → l2.peer ≡ some at
      → (handle_handshake_msg
            (Greeted W)
            (client_actions W c a)
            client
            8
            (2 ∷ (more ++ server_hello cipher random nonce))
            (raise 8 s (record { peer = some at; params = some p; world = w }))
          ≡ some (ok 0, behind_hello more random nonce cipher l1))
        × (((behind_hello more random nonce cipher l1).world.cipher ≡ cipher)
            × (handle_handshake_msg
                  (Greeted W)
                  (client_actions W c a)
                  client
                  (behind_hello more random nonce cipher l1).world.state
                  (14 ∷ done)
                  (behind_hello more random nonce cipher l1)
                ≡ (if cipher == 0xC0AE
                    then some (err (alert_fatal_create 10), raise 9 cipher l2)
                    else handed_on W c a cipher (a.check_server_hellodone (14 ∷ done) l2))))
  server_hello-answered more done random nonce cipher s at p w l1 l2 h r n small known run hp ha hh
        again h2 =
      let l : Link (Greeted W) = record { peer = some at; params = some p; world = w } in
      let msg = 2 ∷ (more ++ server_hello cipher random nonce) in
      (
        handle_handshake_msg-stopped W c a 8 msg (raise 8 s l) l1 at refl run
            ∙ on_server_hello-server_hello more random nonce cipher s l1 at p hp ha h r n small
                known,
        (
          refl,
          done_answered W c a (cipher == 0xC0AE) cipher done
              (lower (behind_hello more random nonce cipher l1)) l2 at
              (hashed-peer W c a msg l1 at hp hh) again h2,
        ),
      )
