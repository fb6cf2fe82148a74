-- ===== src/Machine/Switch.antt =====
-- handle_handshake_msg of dtls.c: the messages that begin a handshake, and the switch on the type of a
-- message.
use gc2021_pqdtls.Base.{
  ℕ, ltb, ◌==◌, if◌then◌else◌, Bool, true, false, not, ◌&&◌, Option, none, some, List, [],
}
use gc2021_pqdtls.Numeric.{byte_at}
use gc2021_pqdtls.Alert.{ok, internal_error}
use gc2021_pqdtls.Security.{Role, tls_null_with_null_null}
use gc2021_pqdtls.Peers.{state_init}
use gc2021_pqdtls.Engine.{ht_hello_verify_request}
use gc2021_pqdtls.Extensions.{state_connected}
use gc2021_pqdtls.Finished.{ht_finished}
use gc2021_pqdtls.Reassembly.{null}
use gc2021_pqdtls.Reorder.{
  Params, Link, MessageHandler, ht_hello_request, ht_client_hello, message_seq,
}
use gc2021_pqdtls.Machine.{
  unexpected_message, ht_server_hello, ht_certificate, ht_server_key_exchange,
  ht_certificate_request, ht_server_hello_done, ht_certificate_verify, ht_client_key_exchange,
  state_wait_clienthello, state_wait_clientcertificate, state_wait_clientkeyexchange,
  state_clienthello, Rest, Conn, Outcome, Next, Actions, lower, raise, set_state, on_rest, try,
  try_choose, refuse, count, if_peer, is_ecdhe, has_peer, with_world,
}
use gc2021_pqdtls.Machine.Answers.{
  on_hello_verify_request, on_server_hello, on_certificate, on_server_key_exchange,
  on_server_hello_done, on_certificate_request, on_finished, on_client_key_exchange,
  on_certificate_verify,
}

module _ (World : Type 0) (a : Actions World) where
  -- delete_peer and dtls_free_peer
  abbrev pub without_peer : Conn World → Conn World
  without_peer l = record {
    peer = none;
    params = none;
    world = record l.world { world = a.remove_peer l.world.world };
  }

  abbrev pub made_peer :
      Conn World → (Conn World → Outcome World) → Option ℕ × World → Outcome World
  made_peer l next (none, w) = refuse internal_error (with_world l w)
  made_peer l next (some at, w) = next (record {
    peer = some at;
    params = none;
    world = record { state = state_init; cipher = l.world.cipher; world = w };
  })

  -- The peer at this point, made where there is none.
  abbrev pub ensure_peer : Option ℕ → Conn World → (Conn World → Outcome World) → Outcome World
  ensure_peer none l next = made_peer l next (a.new_peer l.world.world)
  ensure_peer (some at) l next = next l

  abbrev pub made_params :
      ℕ → Conn World → (Conn World → Outcome World) → Bool × World → Outcome World
  made_params mseq_r l next (false, w) = refuse internal_error (with_world l w)
  made_params mseq_r l next (true, w) = next (record {
    peer = l.peer;
    params = some (record { mseq_r = mseq_r; reorder_queue = []; reassemble_buf = null });
    world = record { state = l.world.state; cipher = tls_null_with_null_null; world = w };
  })

  -- Its handshake parameters, made where there are none.
  abbrev pub ensure_params :
      Option Params → ℕ → ℕ → Conn World → (Conn World → Outcome World) → Outcome World
  ensure_params none mseq_r mseq_s l next =
      made_params mseq_r l next (a.handshake_new mseq_s l.world.world)
  ensure_params (some p) mseq_r mseq_s l next = next l

  abbrev pub behind_hello : Conn World → ℕ
  behind_hello l =
      if is_ecdhe l && a.is_ecdsa_client_auth_supported
      then state_wait_clientcertificate
      else state_wait_clientkeyexchange

  abbrev pub greeted : Next World
  greeted res l = count res (set_state (behind_hello l) l)

  abbrev pub answer_hello : List ℕ → Next World
  answer_hello msg ret l = try a.send_server_hello_msgs (on_rest (a.update_hs_hash msg) l) greeted

  -- A ClientHello with a valid cookie, for a peer with handshake parameters.
  unfoldable pub accept_hello : List ℕ → Conn World → Outcome World
  accept_hello msg l =
      try_choose (a.update_parameters msg) (on_rest a.clear_hs_hash l) (answer_hello msg)

  -- Behind the check of the cookie; a positive result says that a challenge was sent.
  abbrev pub verified : ℕ → List ℕ → Next World
  verified state msg res l =
      if ltb 0 res
      then count res l
      else let fresh =
          if has_peer l && (state == state_wait_clienthello) then without_peer l else l in
        ensure_peer fresh.peer fresh
          (λ l'. ensure_params l'.params (message_seq msg) 1 l' (accept_hello msg))

  unfoldable pub on_client_hello : ℕ → List ℕ → Conn World → Outcome World
  on_client_hello state msg l =
      if not (state == state_wait_clienthello) && not (has_peer l && (state == state_connected))
      then refuse unexpected_message l
      else try (a.verify_peer state msg) l (verified state msg)

  abbrev pub started : Next World
  started res l = count res (set_state state_clienthello l)

  unfoldable pub on_hello_request : ℕ → Conn World → Outcome World
  on_hello_request state l =
      if not (state == state_connected)
      then some (ok 0, l)
      else if_peer l (ensure_params l.params 0 0 l (λ l'. try a.send_client_hello l' started))

  -- The switch on the type of the message.
  unfoldable pub dispatch : Role → ℕ → List ℕ → Conn World → Outcome World
  dispatch role state msg l =
      let type = byte_at msg 0 in
      if type == ht_hello_verify_request
      then on_hello_verify_request World a state msg l
      else if type == ht_server_hello
      then on_server_hello World a state msg l
      else if type == ht_certificate
      then on_certificate World a role state msg l
      else if type == ht_server_key_exchange
      then on_server_key_exchange World a state msg l
      else if type == ht_server_hello_done
      then on_server_hello_done World a state msg l
      else if type == ht_certificate_request
      then on_certificate_request World a state msg l
      else if type == ht_finished
      then on_finished World a role state msg l
      else if type == ht_client_key_exchange
      then on_client_key_exchange World a state msg l
      else if type == ht_certificate_verify
      then on_certificate_verify World a state msg l
      else if type == ht_client_hello
      then on_client_hello state msg l
      else if type == ht_hello_request
      then on_hello_request state l
      else refuse unexpected_message l

  abbrev pub stopped : Role → ℕ → List ℕ → Conn World → Option (Link World) → Outcome World
  stopped role state msg l none = none
  stopped role state msg l (some l') =
      dispatch role state msg (raise l.world.state l.world.cipher l')

  abbrev pub by_peer : Role → ℕ → List ℕ → Conn World → Option ℕ → Outcome World
  by_peer role state msg l none = dispatch role state msg l
  by_peer role state msg l (some at) = stopped role state msg l (a.stop_retransmission (lower l))

  -- handle_handshake_msg of a connection in this role.
  unfoldable pub handle_handshake_msg : Role → MessageHandler (Rest World)
  handle_handshake_msg role state msg l = by_peer role state msg l l.peer
