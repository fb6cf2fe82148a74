-- ===== src/Machine/Entered.antt =====
-- A message that is handled in another state than that of the peer: dtls_handle_message hands one that
-- may begin a new handshake of a connected peer over as if a ClientHello were awaited.
use gc2021_pqdtls.Base.{
  ℕ, ◌==◌, ==_iff, if◌then◌else◌, Bool-cases, Option, none, some, List, ◌≡◌, ◌⊎◌, inl, inr, refl,
}
use gc2021_pqdtls.Numeric.{byte_at}
use gc2021_pqdtls.Alert.{ok}
use gc2021_pqdtls.Security.{Role, client, server}
use gc2021_pqdtls.Reorder.{Link}
use gc2021_pqdtls.Machine.{Conn, Outcome, Actions, lower, raise}
use gc2021_pqdtls.Machine.Answers.{
  on_hello_verify_request, on_server_hello, on_certificate, on_server_key_exchange,
  on_server_hello_done, on_certificate_request, on_finished, on_client_key_exchange,
  on_certificate_verify,
}
use gc2021_pqdtls.Machine.Switch.{
  verified, on_client_hello, on_hello_request, dispatch, handle_handshake_msg, by_peer, stopped,
}
use gc2021_pqdtls.Machine.Steps.{
  Phase, wait_clienthello, wait_serverhellodone, connected, code, server_key_exchange,
  exchange_unchosen,
}
use gc2021_pqdtls.Machine.Outcomes.{suite, Allowed, tried-Allowed, needs_params-Allowed}
use gc2021_pqdtls.Machine.Allowed.{verified-Allowed, handle_handshake_msg-Allowed}

-- A message is handled in the phase of the peer, or in that of waiting for a ClientHello where the
-- peer is connected.
abbrev pub Entered : Phase → Phase → Type 0
Entered p own = (p ≡ own) ⊎ ((p ≡ wait_clienthello) × (own ≡ connected))

module _ (World : Type 0) (a : Actions World) (role : Role) where
  -- A HelloRequest that is passed over by a connected peer, since it is handled in another phase.
  abbrev pub PassedOver : Phase → Phase → ℕ → Outcome World → Type 0
  PassedOver p own t o =
      (p ≡ wait_clienthello)
      × ((own ≡ connected)
          × ((t ≡ 0)
              × ((l : Conn World) × ((o ≡ some (ok 0, l)) × (l.world.state ≡ code connected)))))

  -- The outcome of a message in phase `p` at a peer in phase `own`.
  abbrev pub Permitted : Phase → Phase → ℕ → ℕ → Outcome World → Type 0
  Permitted p own s t o = Allowed World a role own s t o ⊎ PassedOver p own t o

  abbrev Stale : ℕ → ℕ → Outcome World → Type 0
  Stale s t o = Permitted wait_clienthello connected s t o

  at_type :
      (s t n : ℕ) (first later : Outcome World)
      → (t ≡ n → Stale s t first)
      → Stale s t later
      → Stale s t (if t == n then first else later)
  at_type s t n first later h k = elim (Bool-cases (t == n)) [
    | inl e ↦ rw e (h ((==_iff t n).0 e))
    | inr e ↦ rw e k
  ]

  refused_certificate :
      (end : Role) (s t : ℕ) (msg : List ℕ) (l : Conn World)
      → l.world.state ≡ code connected
      → Allowed World a role connected s t (on_certificate World a end 1 msg l)
  unfolding on_certificate
  refused_certificate client s t msg l h = inl h
  refused_certificate server s t msg l h = inl h

  stale_key_exchange :
      (msg : List ℕ) (l : Conn World)
      → l.world.state ≡ code connected
      → Allowed World a role connected (suite l) 12 (on_server_key_exchange World a 1 msg l)
  unfolding on_server_key_exchange code
  stale_key_exchange msg l h =
      needs_params-Allowed World a role connected (suite l) 12 l.peer l.params l _ h
        (elim (Bool-cases (suite l == 0xC0AE)) [
          | inl e ↦ rw e (inl h)
          | inr e ↦ elim (Bool-cases (suite l == 0xC0A8)) [
            | inl f ↦ rw (e, f) (inl h)
            | inr f ↦
                rw (e, f)
                  (
                    server_key_exchange,
                    (refl, (wait_serverhellodone, (refl, exchange_unchosen e f))),
                  )
          ]
        ])

  stale_client_hello :
      (msg : List ℕ) (l : Conn World)
      → l.world.state ≡ code connected
      → Allowed World a role connected (suite l) 1 (on_client_hello World a 1 msg l)
  unfolding on_client_hello
  stale_client_hello msg l h =
      tried-Allowed World a role connected (suite l) 1 l.world.state (suite l)
        (verified World a 1 msg) (a.verify_peer 1 msg (lower l)) h
        (λ r l'.
          verified-Allowed World a role connected 1 msg (suite l) r
            (raise l.world.state (suite l) l') refl refl h)

  dispatch-Stale :
      (msg : List ℕ) (l : Conn World)
      → l.world.state ≡ code connected
      → Stale (suite l) (byte_at msg 0) (dispatch World a role 1 msg l)
  unfolding dispatch on_hello_verify_request on_server_hello on_server_hello_done
      on_certificate_request on_finished on_client_key_exchange on_certificate_verify
      on_hello_request
  dispatch-Stale msg l h =
      let t = byte_at msg 0 in
      let s = suite l in
      at_type s t 3 _ _ (λ e. inl (inl h))
        (at_type s t 2 _ _ (λ e. inl (inl h))
          (at_type s t 11 _ _ (λ e. inl (refused_certificate role s t msg l h))
            (at_type s t 12 _ _ (λ e. rw e (inl (stale_key_exchange msg l h)))
              (at_type s t 14 _ _ (λ e. inl (inl h))
                (at_type s t 13 _ _ (λ e. inl (inl h))
                  (at_type s t 20 _ _ (λ e. inl (inl h))
                    (at_type s t 16 _ _ (λ e. inl (inl h))
                      (at_type s t 15 _ _ (λ e. inl (inl h))
                        (at_type s t 1 _ _ (λ e. rw e (inl (stale_client_hello msg l h)))
                          (at_type s t 0 _ _ (λ e. inr (refl, (refl, (e, (l, (refl, h))))))
                            (inl (inl h))))))))))))

  handle_handshake_msg-Stale :
      (msg : List ℕ) (l : Conn World)
      → l.world.state ≡ code connected
      → Stale (suite l) (byte_at msg 0) (handle_handshake_msg World a role 1 msg l)
  unfolding handle_handshake_msg
  handle_handshake_msg-Stale msg l h = at l.peer
    where
      behind :
          (o : Option (Link World))
          → Stale (suite l) (byte_at msg 0) (stopped World a role 1 msg l o)
      behind none = inl tt
      behind (some l') = dispatch-Stale msg (raise l.world.state l.world.cipher l') h

      at : (peer : Option ℕ) → Stale (suite l) (byte_at msg 0) (by_peer World a role 1 msg l peer)
      at none = dispatch-Stale msg l h
      at (some addr) = behind (a.stop_retransmission (lower l))

  -- A message is handled in the phase of the peer, or, where dtls_handle_message takes it for the
  -- beginning of a new handshake of a connected peer, in that of waiting for a ClientHello. If it is
  -- handled, it moves the connection from the phase of the peer by a step of the state machine; but a
  -- HelloRequest that comes to a connected peer in the second way is passed over and leaves it
  -- connected. If it is refused, the peer stays in its phase, except that a ClientHello may leave a
  -- new peer.
  pub handle_handshake_msg-Permitted :
      (p own : Phase) (msg : List ℕ) (l : Conn World)
      → Entered p own
      → l.world.state ≡ code own
      → Permitted p own l.world.cipher
          (byte_at msg 0)
          (handle_handshake_msg World a role (code p) msg l)
  unfolding code
  handle_handshake_msg-Permitted p own msg l (inl same) h =
      rw same (inl (handle_handshake_msg-Allowed World a role own msg l h))
  handle_handshake_msg-Permitted p own msg l (inr (waits, conn)) h =
      rw (waits, conn) (handle_handshake_msg-Stale msg l (rw conn at h))
