-- ===== src/Machine/Answers.antt =====
-- handle_handshake_msg of dtls.c: the messages that belong to a handshake, but the hello of a client.
pub mod Allowed
use gc2021_pqdtls.Base.{ℕ, ◌==◌, if◌then◌else◌, Bool, not, ◌&&◌, Option, none, some, List}
use gc2021_pqdtls.Alert.{Result, ok}
use gc2021_pqdtls.Security.{Role, client, server, tls_null_with_null_null}
use gc2021_pqdtls.Extensions.{state_connected}
use gc2021_pqdtls.Finished.{state_wait_changecipherspec, state_wait_finished}
use gc2021_pqdtls.Reorder.{Link}
use gc2021_pqdtls.Machine.{
  unexpected_message, state_wait_clientcertificate, state_wait_clientkeyexchange,
  state_wait_certificateverify, state_clienthello, state_wait_servercertificate,
  state_wait_serverkeyexchange, state_wait_serverhellodone, Conn, Outcome, Next, Actions, set_state,
  on_rest, try, try_choose, refuse, count, if_peer, if_params, is_ecdhe, is_psk, with_result,
}

module _ (World : Type 0) (a : Actions World) where
  abbrev pub again : Next World
  again res l = count res (on_rest a.record_rtt l)

  unfoldable pub on_hello_verify_request : ℕ → List ℕ → Conn World → Outcome World
  on_hello_verify_request state msg l =
      if not (state == state_clienthello)
      then refuse unexpected_message l
      else try (a.check_server_hello_verify_request msg) l again

  abbrev pub chosen : Next World
  chosen res l = count res (
      set_state (if is_ecdhe l then state_wait_servercertificate else state_wait_serverhellodone) l)

  unfoldable pub on_server_hello : ℕ → List ℕ → Conn World → Outcome World
  on_server_hello state msg l =
      if not (state == state_clienthello)
      then refuse unexpected_message l
      else if_params l (try_choose (a.check_server_hello msg) l chosen)

  abbrev pub is_other : Role → ℕ → Bool
  is_other client state = not (state == state_wait_servercertificate)
  is_other server state = not (state == state_wait_clientcertificate)

  abbrev pub behind_certificate : Role → ℕ
  behind_certificate client = state_wait_serverkeyexchange
  behind_certificate server = state_wait_clientkeyexchange

  abbrev pub certified : Role → Next World
  certified role res l = count res (set_state (behind_certificate role) l)

  unfoldable pub on_certificate : Role → ℕ → List ℕ → Conn World → Outcome World
  on_certificate role state msg l =
      if is_other role state
      then refuse unexpected_message l
      else if_peer l (try (a.check_server_certificate msg) l (certified role))

  abbrev pub exchanged : Next World
  exchanged res l = count res (set_state state_wait_serverhellodone l)

  unfoldable pub on_server_key_exchange : ℕ → List ℕ → Conn World → Outcome World
  on_server_key_exchange state msg l = if_params l (
      if is_ecdhe l
      then (if not (state == state_wait_serverkeyexchange)
          then refuse unexpected_message l
          else try (a.check_server_key_exchange_ecdsa msg) l exchanged)
      else if is_psk l
      then (if not (state == state_wait_serverhellodone)
          then refuse unexpected_message l
          else try (a.check_server_key_exchange_psk msg) l exchanged)
      else exchanged 0 l)

  abbrev pub flight_sent : Next World
  flight_sent res l = count res (set_state state_wait_changecipherspec l)

  unfoldable pub on_server_hello_done : ℕ → List ℕ → Conn World → Outcome World
  on_server_hello_done state msg l =
      if not (state == state_wait_serverhellodone)
      then refuse unexpected_message l
      else if_peer l (try (a.check_server_hellodone msg) l flight_sent)

  unfoldable pub on_certificate_request : ℕ → List ℕ → Conn World → Outcome World
  on_certificate_request state msg l =
      if not (state == state_wait_serverhellodone)
      then refuse unexpected_message l
      else try (a.check_certificate_request msg) l count

  -- The end of a handshake; the counter of received messages goes with the parameters.
  abbrev pub complete : ℕ → Conn World → Outcome World
  complete res l = some (
    ok res,
    record {
      peer = l.peer;
      params = none;
      world = record {
        state = state_connected;
        cipher = tls_null_with_null_null;
        world = a.free_params l.world.world;
      };
    },
  )

  abbrev pub ccs_sent : Next World
  ccs_sent sent l = try a.send_server_finished (on_rest a.params_switch l) complete

  abbrev pub answer_finished : Role → List ℕ → Next World
  answer_finished client msg res l = complete res l
  answer_finished server msg res l = try a.send_ccs (on_rest (a.update_hs_hash msg) l) ccs_sent

  unfoldable pub on_finished : Role → ℕ → List ℕ → Conn World → Outcome World
  on_finished role state msg l =
      if not (state == state_wait_finished)
      then refuse unexpected_message l
      else if_params l (try (a.check_finished msg) l (answer_finished role msg))

  abbrev pub behind_key_exchange : Conn World → ℕ
  behind_key_exchange l =
      if is_ecdhe l && a.is_ecdsa_client_auth_supported
      then state_wait_certificateverify
      else state_wait_changecipherspec

  -- Whatever is wrong with the message, the TESLA parameters are read before it is refused; the
  -- outcome of verifying their signature is not used.
  abbrev pub with_tesla : List ℕ → Option (Result ℕ × Link World) → Option (Result ℕ × Link World)
  with_tesla msg none = none
  with_tesla msg (some (r, l)) = with_result r (a.read_tesla msg l)

  abbrev pub key_exchanged : List ℕ → Next World
  key_exchanged msg res l =
      count res (set_state (behind_key_exchange l) (on_rest (a.update_hs_hash msg) l))

  unfoldable pub on_client_key_exchange : ℕ → List ℕ → Conn World → Outcome World
  on_client_key_exchange state msg l =
      if not (state == state_wait_clientkeyexchange)
      then refuse unexpected_message l
      else if_params l
          (try (λ here. with_tesla msg (a.check_client_keyexchange msg here)) l (key_exchanged msg))

  abbrev pub certificate_checked : List ℕ → Next World
  certificate_checked msg res l =
      count res (set_state state_wait_changecipherspec (on_rest (a.update_hs_hash msg) l))

  unfoldable pub on_certificate_verify : ℕ → List ℕ → Conn World → Outcome World
  on_certificate_verify state msg l =
      if not (state == state_wait_certificateverify)
      then refuse unexpected_message l
      else if_params l (try (a.check_client_certificate_verify msg) l (certificate_checked msg))
