-- ===== src/Machine.antt =====
-- handle_handshake_msg of dtls.c: what each handshake message does in each state of the handshake.
-- The functions that it calls on the content of a message, and for sending, are the record `Actions`;
-- they do not touch the state of the peer, and only two of them and the making of new parameters
-- touch the negotiated suite. `none` is a use of memory that is not allocated.
-- This file has the state and what the cases share; Answers and Switch have the cases.
pub mod Allowed
pub mod Answers
pub mod Entered
pub mod Outcomes
pub mod Queue
pub mod Runs
pub mod Steps
pub mod Switch
pub mod Traces
use gc2021_pqdtls.Base.{
  ℕ, ◌+◌, ◌%◌, ◌^◌, ltb, ◌==◌, if◌then◌else◌, Bool, true, false, not, ◌&&◌, ◌||◌, Option, none,
  some, List, [], ◌∷◌, drop,
}
use gc2021_pqdtls.Numeric.{byte_at, uint16_to_int}
use gc2021_pqdtls.Alert.{Result, ok, err, alert_fatal_create, internal_error}
use gc2021_pqdtls.Security.{
  Role, client, server, tls_psk_with_aes_128_ccm_8, tls_ecdhe_ecdsa_with_aes_128_ccm_8,
  tls_null_with_null_null,
}
use gc2021_pqdtls.Peers.{state_init}
use gc2021_pqdtls.Engine.{ht_hello_verify_request}
use gc2021_pqdtls.Extensions.{state_connected}
use gc2021_pqdtls.Finished.{ht_finished, state_wait_changecipherspec, state_wait_finished}
use gc2021_pqdtls.Reassembly.{null}
use gc2021_pqdtls.Reorder.{
  Params, Link, MessageHandler, ht_hello_request, ht_client_hello, message_seq,
}

-- DTLS_ALERT_UNEXPECTED_MESSAGE
abbrev pub unexpected_message : ℕ
unexpected_message = 10

-- DTLS_HT_...
abbrev pub ht_server_hello : ℕ
ht_server_hello = 2

abbrev pub ht_certificate : ℕ
ht_certificate = 11

abbrev pub ht_server_key_exchange : ℕ
ht_server_key_exchange = 12

abbrev pub ht_certificate_request : ℕ
ht_certificate_request = 13

abbrev pub ht_server_hello_done : ℕ
ht_server_hello_done = 14

abbrev pub ht_certificate_verify : ℕ
ht_certificate_verify = 15

abbrev pub ht_client_key_exchange : ℕ
ht_client_key_exchange = 16

-- DTLS_STATE_...
abbrev pub state_wait_clienthello : ℕ
state_wait_clienthello = 1

abbrev pub state_wait_clientcertificate : ℕ
state_wait_clientcertificate = 2

abbrev pub state_wait_clientkeyexchange : ℕ
state_wait_clientkeyexchange = 3

abbrev pub state_wait_certificateverify : ℕ
state_wait_certificateverify = 4

abbrev pub state_clienthello : ℕ
state_clienthello = 8

abbrev pub state_wait_servercertificate : ℕ
state_wait_servercertificate = 9

abbrev pub state_wait_serverkeyexchange : ℕ
state_wait_serverkeyexchange = 10

abbrev pub state_wait_serverhellodone : ℕ
state_wait_serverhellodone = 11

module _ (World : Type 0) where
  -- peer->state, the suite of the handshake parameters, and everything else. The state counts only
  -- where there is a peer, the suite only where it has handshake parameters.
  pub record Rest : Type 0 where
    pub state : ℕ
    pub cipher : ℕ
    pub world : World

  abbrev pub Conn : Type 0
  Conn = Link Rest

  abbrev pub Outcome : Type 0
  Outcome = Option (Result ℕ × Conn)

  abbrev pub Next : Type 0
  Next = ℕ → Conn → Outcome

  -- A function on the rest of the state, one that may choose the suite, and the same of a message.
  abbrev pub Send : Type 0
  Send = Link World → Option (Result ℕ × Link World)

  abbrev pub Check : Type 0
  Check = List ℕ → Send

  abbrev pub Choose : Type 0
  Choose = List ℕ → ℕ → Link World → Option (Result ℕ × (ℕ × Link World))

  pub record Actions : Type 0 where
    pub stop_retransmission : Link World → Option (Link World)
    pub check_server_hello_verify_request : Check
    pub record_rtt : Link World → Link World
    pub check_server_hello : Choose
    pub check_server_certificate : Check
    pub check_server_key_exchange_ecdsa : Check
    pub check_server_key_exchange_psk : Check
    pub check_server_hellodone : Check
    pub check_certificate_request : Check
    pub check_finished : Check
    pub update_hs_hash : List ℕ → Link World → Link World
    pub send_ccs : Send
    pub params_switch : Link World → Link World
    pub send_server_finished : Send
    pub free_params : World → World
    pub check_client_keyexchange : Check
    -- The TESLA parameters and their signature at the end of a ClientKeyExchange.
    pub read_tesla : List ℕ → Link World → Option (Link World)
    pub is_ecdsa_client_auth_supported : Bool
    pub check_client_certificate_verify : Check
    pub verify_peer : ℕ → Check
    pub remove_peer : World → World
    -- dtls_new_peer and dtls_add_peer, or none of both: the address of the peer.
    pub new_peer : World → Option ℕ × World
    -- dtls_handshake_new, with this number for the first message to send.
    pub handshake_new : ℕ → World → Bool × World
    pub clear_hs_hash : Link World → Link World
    pub update_parameters : Choose
    pub send_server_hello_msgs : Send
    pub send_client_hello : Send

-- The end of the function, with `err` not negative.
abbrev pub counted : Option ℕ → Option Params → Option Params
counted none p = p
counted (some at) none = none
counted (some at) (some p) = some (record p { mseq_r = (p.mseq_r + 1) % 2 ^ 16 })

abbrev pub is_some : Option ℕ → Bool
is_some none = false
is_some (some at) = true

module _ {World : Type 0} where
  abbrev pub lower : Conn World → Link World
  lower l = record { peer = l.peer; params = l.params; world = l.world.world }

  abbrev pub raise : ℕ → ℕ → Link World → Conn World
  raise state cipher l = record {
    peer = l.peer;
    params = l.params;
    world = record { state = state; cipher = cipher; world = l.world };
  }

  abbrev pub set_state : ℕ → Conn World → Conn World
  set_state s l = raise s l.world.cipher (lower l)

  abbrev pub on_rest : (Link World → Link World) → Conn World → Conn World
  on_rest f l = raise l.world.state l.world.cipher (f (lower l))

  abbrev pub tried : ℕ → ℕ → Next World → Option (Result ℕ × Link World) → Outcome World
  tried state cipher next none = none
  tried state cipher next (some (err n, l)) = some (err n, raise state cipher l)
  tried state cipher next (some (ok r, l)) = next r (raise state cipher l)

  -- A call whose negative result is returned.
  abbrev pub try : Send World → Conn World → Next World → Outcome World
  try act l next = tried l.world.state l.world.cipher next (act (lower l))

  abbrev pub tried_choice : ℕ → Next World → Option (Result ℕ × (ℕ × Link World)) → Outcome World
  tried_choice state next none = none
  tried_choice state next (some (err n, (cipher, l))) = some (err n, raise state cipher l)
  tried_choice state next (some (ok r, (cipher, l))) = next r (raise state cipher l)

  abbrev pub try_choose :
      (ℕ → Link World → Option (Result ℕ × (ℕ × Link World)))
      → Conn World
      → Next World
      → Outcome World
  try_choose act l next = tried_choice l.world.state next (act l.world.cipher (lower l))

  abbrev pub refuse : ℕ → Conn World → Outcome World
  refuse alert l = some (err (alert_fatal_create alert), l)

  abbrev pub count : Next World
  count res l = some (ok res, record l { params = counted l.peer l.params })

  abbrev pub needs_peer : Option ℕ → Conn World → Outcome World → Outcome World
  needs_peer none l next = refuse internal_error l
  needs_peer (some at) l next = next

  abbrev pub if_peer : Conn World → Outcome World → Outcome World
  if_peer l next = needs_peer l.peer l next

  abbrev pub needs_params : Option ℕ → Option Params → Conn World → Outcome World → Outcome World
  needs_params none p l next = refuse internal_error l
  needs_params (some at) none l next = refuse internal_error l
  needs_params (some at) (some p) l next = next

  abbrev pub if_params : Conn World → Outcome World → Outcome World
  if_params l next = needs_params l.peer l.params l next

  abbrev pub is_ecdhe : Conn World → Bool
  is_ecdhe l = l.world.cipher == tls_ecdhe_ecdsa_with_aes_128_ccm_8

  abbrev pub is_psk : Conn World → Bool
  is_psk l = l.world.cipher == tls_psk_with_aes_128_ccm_8

  abbrev pub with_result : Result ℕ → Option (Link World) → Option (Result ℕ × Link World)
  with_result r none = none
  with_result r (some l) = some (r, l)

  abbrev pub has_peer : Conn World → Bool
  has_peer l = is_some l.peer

  abbrev pub with_world : Conn World → World → Conn World
  with_world l w = record l { world = record l.world { world = w } }
