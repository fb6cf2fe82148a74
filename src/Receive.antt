-- ===== src/Receive.antt =====
-- dtls_handle_message and hs_attempt_with_existing_peer of dtls.c: the records of one datagram. The
-- handlers of ChangeCipherSpec, of handshake messages and of application data, which reads the TESLA
-- part, are parameters over the context. A peer is the address of its object; the variable `peer`
-- is not changed by the handlers, so that `none` is also a use of an object that they freed.
pub mod Forged
use gc2021_pqdtls.Base.{
  ℕ, zero, suc, ◌+◌, ◌%◌, ◌^◌, ltb, ◌==◌, if◌then◌else◌, Bool, true, false, not, ◌&&◌, ◌||◌, Option,
  none, some, List, ◌∷◌, length, take, drop,
}
use gc2021_pqdtls.Numeric.{byte_at, uint16_to_int}
use gc2021_pqdtls.Alert.{Result, ok, err, alert_fatal_create}
use gc2021_pqdtls.Security.{Security, Role, client, server, Slots, params}
use gc2021_pqdtls.Session.{Session}
use gc2021_pqdtls.Peers.{Peer, deref, put, get_peer, state_closed}
use gc2021_pqdtls.Record.{SetKey, rh_length, is_record, decrypt_verify}
use gc2021_pqdtls.Engine.{Context, ct_change_cipher_spec, ct_alert, ct_handshake, set_state}
use gc2021_pqdtls.Engine.Alerts.{
  stop_retransmission, destroy_peer, handle_alert, alert_send_from_err,
}
use gc2021_pqdtls.Extensions.{state_connected, read_uint8}
use gc2021_pqdtls.Finished.{state_wait_finished}
use gc2021_pqdtls.Machine.{state_wait_clienthello}
use gc2021_pqdtls.Reassembly.{hs_fragmented}
use gc2021_pqdtls.Reorder.{ht_client_hello, ht_hello_request}

-- DTLS_CT_APPLICATION_DATA
abbrev pub ct_application_data : ℕ
ct_application_data = 23

-- DTLS_ALERT_DECRYPT_ERROR
abbrev pub decrypt_error : ℕ
decrypt_error = 51

-- DTLS_EVENT_CONNECTED
abbrev pub event_connected : ℕ
event_connected = 478

abbrev pub is_hello : Option ℕ → Option Bool
is_hello none = none
is_hello (some t) = some ((t == ht_client_hello) || (t == ht_hello_request))

-- hs_attempt_with_existing_peer for a peer that is not NULL; `msg` is the rest of the datagram.
unfoldable pub hs_attempt : List ℕ → Peer → Option Bool
hs_attempt msg p =
    if (p.state == state_connected)
      && ((byte_at msg 0 == ct_handshake) && (uint16_to_int (drop 3 msg) == 0))
    then is_hello (read_uint8 (drop rh_length msg))
    else some false

-- How the loop goes on behind a record.
pub data Turn : Type 0 where
  next : Context → Turn
  return : Result ℕ → Context → Turn

-- The payload of a record, and the role and state that it is handled in.
pub record Payload : Type 0 where
  pub content : List ℕ
  pub role : Role
  pub state : ℕ

-- dtls_security_params(peer)->epoch, with the epoch of a client's Finished ahead of it.
unfoldable pub expected_epoch : Security → Payload → ℕ
expected_epoch s d = by_role d.role
  where
    by_role : Role → ℕ
    by_role client = s.epoch
    by_role server = if d.state == state_wait_finished then (s.epoch + 1) % 2 ^ 16 else s.epoch

module _ (set_key : SetKey) (write : List ℕ → Result ℕ) (ticks : ℕ → ℕ)
    (on_ccs : Option ℕ → List ℕ → Context → Option (Result ℕ × Context))
    (on_handshake : Option ℕ → Session → Payload → Context → Option (Result ℕ × Context))
    (on_data : ℕ → List ℕ → Context → Option Context) where
  abbrev pub with_peer : Option Peer → (Peer → Option Turn) → Option Turn
  with_peer none go = none
  with_peer (some p) go = go p

  abbrev pub then_do : Option Context → (Context → Option Turn) → Option Turn
  then_do none go = none
  then_do (some c) go = go c

  abbrev pub then_result : Option (Result ℕ × Context) → (Context → Option Turn) → Option Turn
  then_result none go = none
  then_result (some (r, c)) go = go c

  -- dtls_stop_retransmission, if there is a peer.
  abbrev pub stop_for : Option ℕ → Context → (Context → Option Turn) → Option Turn
  stop_for none c go = go c
  stop_for (some a) c go =
      with_peer (deref c.heap a) (λ p. then_do (stop_retransmission set_key write ticks p c) go)

  abbrev pub destroy_for : Option ℕ → Context → (Context → Option Turn) → Option Turn
  destroy_for none c go = go c
  destroy_for (some a) c go = then_do (destroy_peer set_key write ticks a true c) go

  abbrev pub alert_for : Option ℕ → Session → ℕ → Context → (Context → Option Turn) → Option Turn
  alert_for peer session n c go =
      then_result (alert_send_from_err set_key write ticks peer session n c) go

  -- A record that was not opened: a peer in a handshake is given up, and one that is connected stays.
  unfoldable pub refuse_record : Peer → Context → Option Turn
  refuse_record p c =
      let n = alert_fatal_create decrypt_error in
      if ltb p.state state_connected
      then alert_for (some p.addr) p.session n c (λ c1.
        then_do (set_state set_key write ticks p.addr state_closed c1) (λ c2.
          stop_for (some p.addr) c2
            (λ c3. destroy_for (some p.addr) c3 (λ c4. some (return (err n) c4)))))
      else some (return (err n) c)

  unfoldable pub on_change_cipher_spec : Option ℕ → Session → Payload → Context → Option Turn
  on_change_cipher_spec peer session d c =
      stop_for peer c (λ c1. by_result (on_ccs peer d.content c1))
    where
      by_result : Option (Result ℕ × Context) → Option Turn
      by_result none = none
      by_result (some (ok r, c2)) = some (next c2)
      by_result (some (err n, c2)) =
          alert_for peer session n c2 (λ c3. destroy_for peer c3 (λ c4. some (return (err n) c4)))

  unfoldable pub on_alert : Option ℕ → Payload → Context → Option Turn
  on_alert peer d c =
      stop_for peer c (λ c1. by_result (handle_alert set_key write ticks peer d.content c1))
    where
      by_result : Option (Result ℕ × Context) → Option Turn
      by_result none = none
      by_result (some (err n, c2)) = some (return (err n) c2)
      by_result (some (ok r, c2)) = if r == 1 then some (return (err 1) c2) else some (next c2)

  -- The end of a handshake is told to the application, again with every message behind it.
  abbrev pub tell_connected : Option ℕ → Context → Option Turn
  tell_connected none c = some (next c)
  tell_connected (some a) c = with_peer (deref c.heap a) (λ p.
      if p.state == state_connected
      then stop_for (some a) c
          (λ c'. some (next (record c' { events = (p.session, (0, event_connected)) ∷ c'.events })))
      else some (next c))

  unfoldable pub run_handshake : Option ℕ → Session → Payload → Context → Option Turn
  run_handshake peer session d c = by_result (on_handshake peer session d c)
    where
      by_result : Option (Result ℕ × Context) → Option Turn
      by_result none = none
      by_result (some (ok r, c1)) = tell_connected peer c1
      by_result (some (err n, c1)) =
          if n == hs_fragmented
          then some (next c1)
          else alert_for peer session n c1 (λ c2. some (return (err n) c2))

  -- A handshake message of a wrong epoch is dropped, unless it starts a handshake.
  unfoldable pub on_handshake_record : Option ℕ → Session → List ℕ → Payload → Context → Option Turn
  on_handshake_record none session msg d c = run_handshake none session d c
  on_handshake_record (some a) session msg d c =
      with_peer (deref c.heap a) (λ p. by_epoch p (params p.slots))
    where
      attempted : Option Bool → Option Turn
      attempted none = none
      attempted (some true) =
          run_handshake (some a) session
            (record d { role = server; state = state_wait_clienthello }) c
      attempted (some false) = some (next c)

      by_epoch : Peer → Option Security → Option Turn
      by_epoch p none = run_handshake (some a) session d c
      by_epoch p (some s) =
          if expected_epoch s d == uint16_to_int (drop 3 msg)
          then run_handshake (some a) session d c
          else attempted (hs_attempt msg p)

  unfoldable pub on_application_data : Option ℕ → Payload → Context → Option Turn
  on_application_data none d c = some (return (err 1) c)
  on_application_data (some a) d c =
      stop_for (some a) c (λ c1. then_do (on_data a d.content c1) (λ c2. some (next c2)))

  -- The switch on the type of a record.
  unfoldable pub on_record : Option ℕ → Session → List ℕ → Payload → Context → Option Turn
  on_record peer session msg d c =
      let type = byte_at msg 0 in
      if type == ct_change_cipher_spec
      then on_change_cipher_spec peer session d c
      else if type == ct_alert
      then on_alert peer d c
      else if type == ct_handshake
      then on_handshake_record peer session msg d c
      else if type == ct_application_data
      then on_application_data peer d c
      else some (next c)

  abbrev pub plain : List ℕ → Payload
  plain packet = record {
    content = drop rh_length packet;
    role = server;
    state = state_wait_clienthello;
  }

  -- A record of a connection that is known. `packet` is the record, and `msg` all that is left.
  unfoldable pub open_record : Peer → Session → List ℕ → List ℕ → Context → Option Turn
  open_record p session packet msg c =
      opened (decrypt_verify set_key (some (p.role, p.slots)) packet)
    where
      stored : Option Slots → Context
      stored none = c
      stored (some slots) = record c { heap = put c.heap (record p { slots = slots }) }

      attempted : Option Slots → Option Bool → Option Turn
      attempted slots none = none
      attempted slots (some true) =
          on_record (some p.addr) session msg (plain packet) (stored slots)
      attempted slots (some false) = refuse_record p (stored slots)

      opened : Result (List ℕ) × Option Slots → Option Turn
      opened (err n, slots) = attempted slots (hs_attempt msg p)
      opened (ok data_bytes, slots) =
          on_record (some p.addr) session msg
            (record { content = data_bytes; role = p.role; state = p.state }) (stored slots)

  unfoldable pub one_record : Option ℕ → Session → List ℕ → List ℕ → Context → Option Turn
  one_record none session packet msg c = on_record none session msg (plain packet) c
  one_record (some a) session packet msg c =
      with_peer (deref c.heap a) (λ p. open_record p session packet msg c)

  abbrev pub go_on :
      Option Turn → (Context → Option (Result ℕ × Context)) → Option (Result ℕ × Context)
  go_on none later = none
  go_on (some (return r c)) later = some (r, c)
  go_on (some (next c)) later = later c

  -- The loop over the records; `fuel` bounds their number.
  unfoldable pub records : ℕ → Option ℕ → Session → List ℕ → Context → Option (Result ℕ × Context)
  records zero peer session msg c = if is_record msg == 0 then some (ok 0, c) else none
  records (suc fuel) peer session msg c =
      let rlen = is_record msg in
      if rlen == 0
      then some (ok 0, c)
      else go_on (one_record peer session (take rlen msg) msg c)
          (records fuel peer session (drop rlen msg))

  abbrev pub address : Option Peer → Option ℕ
  address none = none
  address (some p) = some p.addr

  -- dtls_handle_message
  unfoldable pub handle_message : Session → List ℕ → Context → Option (Result ℕ × Context)
  handle_message session msg c =
      records (length msg) (address (get_peer c.heap c.peers session)) session msg c
