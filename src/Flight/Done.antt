-- ===== src/Flight/Done.antt =====
-- A ServerHelloDone at a client, in the states that a ServerHello leaves.
use gc2021_pqdtls.Base.{
  ℕ, ltb, not, ◌||◌, if◌then◌else◌, true, false, Bool, Option, none, some, List, ◌∷◌, length, ◌≡◌,
  refl, ap, ◌∙◌,
}
use gc2021_pqdtls.Alert.{Result, ok, err, alert_fatal_create}
use gc2021_pqdtls.Security.{client}
use gc2021_pqdtls.Keys.{Handler}
use gc2021_pqdtls.Reorder.{Link}
use gc2021_pqdtls.Machine.{Conn, Actions, lower, raise, Outcome, counted, needs_peer, tried}
use gc2021_pqdtls.Machine.Answers.{flight_sent, on_server_hello_done}
use gc2021_pqdtls.Machine.Switch.{by_peer, stopped, dispatch, handle_handshake_msg}
use gc2021_pqdtls.Flight.{Greeted, hashed, has_params, client_actions}

module _ (W : Type 0) (c : Handler) (a : Actions (Greeted W)) where
  -- The message of a peer that is there, behind the end of the retransmission.
  pub handle_handshake_msg-stopped :
      (state : ℕ) (msg : List ℕ) (l : Conn (Greeted W)) (l1 : Link (Greeted W)) (at : ℕ)
      → l.peer ≡ some at
      → a.stop_retransmission (lower l) ≡ some l1
      → handle_handshake_msg (Greeted W) (client_actions W c a) client state msg l
        ≡ dispatch
            (Greeted W)
            (client_actions W c a)
            client
            state
            msg
            (raise l.world.state l.world.cipher l1)
  unfolding handle_handshake_msg
  handle_handshake_msg-stopped state msg l l1 at h run =
      ap (by_peer (Greeted W) (client_actions W c a) client state msg l) h
      ∙ ap (stopped (Greeted W) (client_actions W c a) client state msg l) run

  dispatch-done :
      (state : ℕ) (more : List ℕ) (l : Conn (Greeted W))
      → dispatch (Greeted W) (client_actions W c a) client state (14 ∷ more) l
        ≡ on_server_hello_done (Greeted W) (client_actions W c a) state (14 ∷ more) l
  unfolding dispatch
  dispatch-done state more l = refl

  -- What a peer that waits for the ServerHelloDone makes of the outcome of its check: an error is
  -- returned, else the message is counted and the ChangeCipherSpec awaited.
  abbrev pub handed_on : ℕ → Option (Result ℕ × Link (Greeted W)) → Outcome (Greeted W)
  handed_on cipher none = none
  handed_on cipher (some (err n, l)) = some (err n, raise 11 cipher l)
  handed_on cipher (some (ok r, l)) =
      some (ok r, raise 5 cipher (record l { params = counted l.peer l.params }))

  tried-handed_on :
      (cipher : ℕ) (o : Option (Result ℕ × Link (Greeted W)))
      → tried 11 cipher (flight_sent (Greeted W) (client_actions W c a)) o ≡ handed_on cipher o
  tried-handed_on cipher none = refl
  tried-handed_on cipher (some (err n, l)) = refl
  tried-handed_on cipher (some (ok r, l)) = refl

  -- A ServerHelloDone in the state that a ServerHello leaves, `ecdhe` being whether it chose that
  -- suite, behind the end of the retransmission.
  on_server_hello_done-answered :
      (ecdhe : Bool) (cipher : ℕ) (msg : List ℕ) (l : Link (Greeted W)) (at : ℕ)
      → l.peer ≡ some at
      → on_server_hello_done
          (Greeted W)
          (client_actions W c a)
          (if ecdhe then 9 else 11)
          msg
          (raise (if ecdhe then 9 else 11) cipher l)
        ≡ (if ecdhe
            then some (err (alert_fatal_create 10), raise 9 cipher l)
            else handed_on cipher (a.check_server_hellodone msg l))
  unfolding on_server_hello_done
  on_server_hello_done-answered true cipher msg l at h = refl
  on_server_hello_done-answered false cipher msg l at h =
      let next = flight_sent (Greeted W) (client_actions W c a) in
      ap
        (λ o.
          needs_peer o (raise 11 cipher l) (tried 11 cipher next (a.check_server_hellodone msg l)))
        h
      ∙ tried-handed_on cipher (a.check_server_hellodone msg l)

  pub done_answered :
      (ecdhe : Bool) (cipher : ℕ) (more : List ℕ) (l l2 : Link (Greeted W)) (at : ℕ)
      → l.peer ≡ some at
      → a.stop_retransmission l ≡ some l2
      → l2.peer ≡ some at
      → handle_handshake_msg
          (Greeted W)
          (client_actions W c a)
          client
          (if ecdhe then 9 else 11)
          (14 ∷ more)
          (raise (if ecdhe then 9 else 11) cipher l)
        ≡ (if ecdhe
            then some (err (alert_fatal_create 10), raise 9 cipher l2)
            else handed_on cipher (a.check_server_hellodone (14 ∷ more) l2))
  done_answered ecdhe cipher more l l2 at h run h2 =
      let state : ℕ = if ecdhe then 9 else 11 in
      handle_handshake_msg-stopped state (14 ∷ more) (raise state cipher l) l2 at h run
      ∙ dispatch-done state more (raise state cipher l2)
      ∙ on_server_hello_done-answered ecdhe cipher (14 ∷ more) l2 at h2

  hashed-one :
      (msg : List ℕ) (l : Link (Greeted W)) (b : Bool) (at : ℕ)
      → l.peer ≡ some at
      → (a.update_hs_hash msg l).peer ≡ some at
      → (if b then l else a.update_hs_hash msg l).peer ≡ some at
  hashed-one msg l true at h k = h
  hashed-one msg l false at h k = k

  pub hashed-peer :
      (msg : List ℕ) (l : Link (Greeted W)) (at : ℕ)
      → l.peer ≡ some at
      → (a.update_hs_hash msg l).peer ≡ some at
      → (hashed W c a msg l).peer ≡ some at
  hashed-peer msg l at h k =
      hashed-one msg l (ltb (length msg) 24 || not (has_params l.peer l.params)) at h k
