-- ===== src/Finished.antt =====
-- The end of a handshake in dtls.c: check_client_keyexchange, handle_ccs, dtls_send_ccs,
-- dtls_send_finished and check_finished. The memory for the contexts of dtls_prf is an argument, as is
-- what the callbacks give. The result `none` is a use of security parameters that are not there.
pub mod Verify
pub mod Suite
pub mod Switch
use gc2021_pqdtls.Base.{
  ℕ, ◌+◌, ◌*◌, ltb, ◌==◌, if◌then◌else◌, Bool, true, false, not, ◌&&◌, ◌||◌, Option, none, some,
  List, [], ◌∷◌, ◌++◌, length, take, drop,
}
use gc2021_pqdtls.Numeric.{byte_at, uint8_to_int, uint16_to_int}
use gc2021_pqdtls.Buffer.{equals}
use gc2021_pqdtls.Alert.{
  Result, ok, err, alert_fatal_create, handshake_failure, internal_error, decode_error,
}
use gc2021_pqdtls.Hmac.{Hash}
use gc2021_pqdtls.Prf.{prf}
use gc2021_pqdtls.Security.{
  Role, client, server, Slots, tls_psk_with_aes_128_ccm_8, tls_ecdhe_ecdsa_with_aes_128_ccm_8,
}
use gc2021_pqdtls.Session.{Session}
use gc2021_pqdtls.Cookie.{hs_length}
use gc2021_pqdtls.Keys.{Memory, Handshake, Derived, calculate_key_block, master_secret_length}
use gc2021_pqdtls.Record.{SetKey}
use gc2021_pqdtls.Peers.{Peer}
use gc2021_pqdtls.Engine.{Context, send, ct_change_cipher_spec}
use gc2021_pqdtls.Fragments.{HsState, Sender, send_handshake_msg_hash}

-- DTLS_FIN_LENGTH
abbrev pub fin_length : ℕ
fin_length = 12

-- DTLS_HT_FINISHED
abbrev pub ht_finished : ℕ
ht_finished = 20

-- DTLS_PSK_MAX_CLIENT_IDENTITY_LEN, DTLS_EC_KEY_SIZE
abbrev pub max_identity : ℕ
max_identity = 32

abbrev pub ec_key_size : ℕ
ec_key_size = 32

-- sizeof(tesla_sync), and the K2SN-MSS signature and public key behind it
abbrev pub tesla_syn_length : ℕ
tesla_syn_length = 113

abbrev pub signed_length : ℕ
signed_length = tesla_syn_length + 21368 + 72

-- "client", "server", " finished"
abbrev pub label_client : List ℕ
label_client = 99 ∷ 108 ∷ 105 ∷ 101 ∷ 110 ∷ 116 ∷ []

abbrev pub label_server : List ℕ
label_server = 115 ∷ 101 ∷ 114 ∷ 118 ∷ 101 ∷ 114 ∷ []

abbrev pub label_finished : List ℕ
label_finished = 32 ∷ 102 ∷ 105 ∷ 110 ∷ 105 ∷ 115 ∷ 104 ∷ 101 ∷ 100 ∷ []

abbrev pub label_of : Role → List ℕ
label_of client = label_client
label_of server = label_server

-- DTLS_STATE_WAIT_CHANGECIPHERSPEC, DTLS_STATE_WAIT_FINISHED
abbrev pub state_wait_changecipherspec : ℕ
state_wait_changecipherspec = 5

abbrev pub state_wait_finished : ℕ
state_wait_finished = 6

-- What a ClientKeyExchange stores in `keyx`.
pub data Keyx : Type 0 where
  unchanged : Keyx
  ecdsa : List ℕ → List ℕ → Keyx
  psk : List ℕ → Keyx

-- The part for the ECDHE suite: the public point of the client.
unfoldable pub read_point : List ℕ → Result Keyx
read_point msg =
    let body = drop hs_length msg in
    if ltb (length msg) (hs_length + (2 + 2 * ec_key_size + signed_length))
    then err (alert_fatal_create handshake_failure)
    else if not (uint8_to_int body == 1 + 2 * ec_key_size)
    then err (alert_fatal_create handshake_failure)
    else if not (byte_at body 1 == 4)
    then err (alert_fatal_create handshake_failure)
    else ok
        (ecdsa (take ec_key_size (drop 2 body)) (take ec_key_size (drop (2 + ec_key_size) body)))

-- The part for the PSK suite: the identity of the client.
unfoldable pub read_identity : List ℕ → Result Keyx
read_identity msg =
    let id_length = uint16_to_int (drop hs_length msg) in
    if ltb (length msg) (hs_length + 2)
    then err (alert_fatal_create handshake_failure)
    else if not (hs_length + 2 + id_length + signed_length == length msg)
    then err (alert_fatal_create handshake_failure)
    else if ltb max_identity id_length
    then err (alert_fatal_create internal_error)
    else ok (psk (take id_length (drop (hs_length + 2) msg)))

-- check_client_keyexchange for a handshake with this suite, `none` for NULL.
unfoldable pub check_client_keyexchange : Option ℕ → List ℕ → Result Keyx
check_client_keyexchange none msg = err (alert_fatal_create internal_error)
check_client_keyexchange (some cipher) msg =
    if cipher == tls_ecdhe_ecdsa_with_aes_128_ccm_8
    then read_point msg
    else if cipher == tls_psk_with_aes_128_ccm_8
    then read_identity msg
    else ok unchanged

-- What handle_ccs changes of a peer.
pub record Switching : Type 0 where
  pub role : Role
  pub state : ℕ
  pub handshake : Handshake
  pub slots : Slots

abbrev pub switched : Switching → Derived → Result ℕ × Switching
switched p d = by_result d.result
  where
    by_result : Result ℕ → Result ℕ × Switching
    by_result (err n) = (err n, record p { handshake = d.handshake; slots = d.slots })
    by_result (ok r) =
        (ok 0, record p { handshake = d.handshake; slots = d.slots; state = state_wait_finished })

-- handle_ccs: its result and the peer, `none` for NULL. Only a server derives the keys here.
unfoldable pub handle_ccs :
    Hash
    → Bool
    → Memory
    → Memory
    → Result (List ℕ)
    → Option (List ℕ)
    → List ℕ
    → Option Switching
    → Option (Result ℕ × Option Switching)
handle_ccs h allocated first second psk_key ecdh payload none = some (ok 0, none)
handle_ccs h allocated first second psk_key ecdh payload (some p) =
    if not (p.state == state_wait_changecipherspec)
    then some (ok 0, some p)
    else if ltb (length payload) 1 || not (byte_at payload 0 == 1)
    then some (err (alert_fatal_create decode_error), some p)
    else by_role p.role
  where
    kept : Result ℕ × Switching → Result ℕ × Option Switching
    kept (r, q) = (r, some q)

    derived : Option Derived → Option (Result ℕ × Option Switching)
    derived none = none
    derived (some d) = some (kept (switched p d))

    by_role : Role → Option (Result ℕ × Option Switching)
    by_role client = some (ok 0, some (record p { state = state_wait_finished }))
    by_role server =
        derived (calculate_key_block h allocated first second psk_key ecdh p.handshake p.slots)

module _ (h : Hash) where
  -- The 12 bytes that dtls_prf writes for a Finished message.
  unfoldable pub verify_data : Memory → List ℕ → List ℕ → List ℕ → List ℕ
  verify_data m tmp label digest =
      (prf h m.got_a m.got_p (take master_secret_length tmp) (some label) (some label_finished)
        (some digest) fin_length).1

  -- check_finished at a peer of this role; the memory `tmp` and the hash state are those of its
  -- handshake parameters, `none` where the peer or they are NULL. The state is left as it was.
  unfoldable pub check_finished : Memory → Role → Option (List ℕ × h.Ctx) → List ℕ → Result ℕ
  check_finished m role params msg =
      if ltb (length msg) (hs_length + fin_length)
      then err (alert_fatal_create handshake_failure)
      else compared params
    where
      other : Role → List ℕ
      other client = label_server
      other server = label_client

      compared : Option (List ℕ × h.Ctx) → Result ℕ
      compared none = err (alert_fatal_create internal_error)
      compared (some (tmp, hs_hash)) =
          if equals (drop hs_length msg) (verify_data m tmp (other role) (h.finalize hs_hash))
            fin_length
          then ok 0
          else err (alert_fatal_create handshake_failure)

module _ (h : Hash) (set_key : SetKey) (write : List ℕ → Result ℕ) (ticks : ℕ → ℕ) where
  -- dtls_send_finished of a peer; `tmp` is that of its handshake parameters.
  unfoldable pub send_finished :
      Memory
      → (ℕ → Option ℕ)
      → Option (ℕ × Role)
      → Session
      → List ℕ
      → List ℕ
      → Sender h
      → Option (Result ℕ × Sender h)
  send_finished m alloc peer session label tmp s = for_hs s.hs
    where
      for_hs : Option (HsState h) → Option (Result ℕ × Sender h)
      for_hs none = some (err (alert_fatal_create internal_error), s)
      for_hs (some hs) =
          send_handshake_msg_hash h set_key write ticks alloc peer session ht_finished
            (some (verify_data h m tmp label (h.finalize hs.hs_hash))) true s

  -- dtls_send_ccs
  unfoldable pub send_ccs : Option ℕ → Peer → Context → Result ℕ × Context
  send_ccs alloc p c = send set_key write ticks alloc p ct_change_cipher_spec (1 ∷ []) c
