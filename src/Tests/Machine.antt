-- ===== src/Tests/Machine.antt =====
-- Runs of the state machine, of datagrams and of hellos at concrete inputs.
use gc2021_pqdtls.Base.{
  ℕ, ◌≡◌, ◌⊎◌, inr, refl, true, false, Option, none, some, List, [], ◌∷◌, ◌++◌, length, drop,
  replicate, arith,
}
use gc2021_pqdtls.Numeric.{uint16_to_int}
use gc2021_pqdtls.Alert.{Result, ok, err, alert_fatal_create}
use gc2021_pqdtls.Security.{Security, Role, client, server}
use gc2021_pqdtls.Hmac.Standard.{toy_hash}
use gc2021_pqdtls.Netq.{Node}
use gc2021_pqdtls.Finished.{Switching, handle_ccs}
use gc2021_pqdtls.Finished.Verify.{enough}
use gc2021_pqdtls.Reassembly.{null}
use gc2021_pqdtls.Reorder.{Link, MessageHandler}
use gc2021_pqdtls.Reorder.Drain.{link}
use gc2021_pqdtls.Machine.Entered.{Permitted, handle_handshake_msg-Permitted}
use gc2021_pqdtls.Machine.{Rest, Conn, Actions}
use gc2021_pqdtls.Machine.Answers.{
  on_certificate, on_server_key_exchange, on_server_hello_done, on_finished, on_client_key_exchange,
  on_certificate_verify,
}
use gc2021_pqdtls.Machine.Switch.{handle_handshake_msg, dispatch, on_hello_request}
use gc2021_pqdtls.Machine.Steps.{wait_clienthello, connected, code}
use gc2021_pqdtls.Machine.Traces.{
  Trace, none_left, handled, requested, switched, client_messages, server_messages,
}
use gc2021_pqdtls.Security.{params_epoch, params_next}
use gc2021_pqdtls.Session.{Session, session_equals}
use gc2021_pqdtls.Peers.{Peer, deref, get_peer}
use gc2021_pqdtls.Record.{SetKey, is_record, is_content_type, decrypt_verify, verified}
use gc2021_pqdtls.Engine.{Context}
use gc2021_pqdtls.Keys.{
  Handler, Handshake, known_cipher, is_ecdsa_supported, calculate_key_block, pre_master_secret,
}
use gc2021_pqdtls.ClientHello.{update_parameters}
use gc2021_pqdtls.Hello.{Answer, client_hello, server_hello, server_extensions, check_server_hello}
use gc2021_pqdtls.Hello.Offered.{negotiated, common_suite, update_parameters-client_hello}
use gc2021_pqdtls.Hello.Answered.{answered, check_server_hello-server_hello}
use gc2021_pqdtls.Certificate.{certificate_ecdsa, verdict, check_server_certificate}
use gc2021_pqdtls.Certificate.Read.{check_server_certificate-certificate_ecdsa}
use gc2021_pqdtls.Receive.{Payload, decrypt_error, hs_attempt, address, handle_message}
use gc2021_pqdtls.Receive.Forged.{Returns, Faulted, handle_message-forged, handle_message-Returns}

abbrev World : Type 0
World = Unit {0}

abbrev take_it : Link World → Option (Result ℕ × Link World)
take_it l = some (ok 0, l)

-- Actions that find nothing wrong.
abbrev content : Actions World
content = record {
  stop_retransmission = λ l. some l;
  check_server_hello_verify_request = λ msg. take_it;
  record_rtt = λ l. l;
  check_server_hello = λ msg cipher l. some (ok 0, (0xC0AE, l));
  check_server_certificate = λ msg. take_it;
  check_server_key_exchange_ecdsa = λ msg. take_it;
  check_server_key_exchange_psk = λ msg. take_it;
  check_server_hellodone = λ msg. take_it;
  check_certificate_request = λ msg. take_it;
  check_finished = λ msg. take_it;
  update_hs_hash = λ msg l. l;
  send_ccs = take_it;
  params_switch = λ l. l;
  send_server_finished = take_it;
  free_params = λ w. w;
  check_client_keyexchange = λ msg. take_it;
  read_tesla = λ msg l. some l;
  is_ecdsa_client_auth_supported = true;
  check_client_certificate_verify = λ msg. take_it;
  verify_peer = λ state msg. take_it;
  remove_peer = λ w. w;
  new_peer = λ w. (some 1, w);
  handshake_new = λ n w. (true, w);
  clear_hs_hash = λ l. l;
  update_parameters = λ msg cipher l. some (ok 0, (0xC0AE, l));
  send_server_hello_msgs = take_it;
  send_client_hello = take_it;
}

abbrev conn : ℕ → ℕ → Conn World
conn n state = record {
  peer = some 1;
  params = some (record { mseq_r = n; reorder_queue = []; reassemble_buf = null });
  world = record { state = state; cipher = 0xC0AE; world = tt };
}

abbrev connected_end : Conn World
connected_end = record {
  peer = some 1;
  params = none;
  world = record { state = 12; cipher = 0; world = tt };
}

-- A HelloRequest that is handled as if a ClientHello were awaited.
handle_handshake_msg-Permitted_example :
    Permitted World content client wait_clienthello connected 0 0
      (handle_handshake_msg World content client (code wait_clienthello) (0 ∷ []) connected_end)
handle_handshake_msg-Permitted_example =
    handle_handshake_msg-Permitted World content client wait_clienthello connected (0 ∷ [])
      connected_end (inr (refl, refl)) (unfold code in refl)

-- An empty message of this type and number, and a node that buffers it.
abbrev numbered : ℕ → ℕ → List ℕ
numbered type n = type ∷ 0 ∷ 0 ∷ 0 ∷ 0 ∷ n ∷ 0 ∷ 0 ∷ 0 ∷ 0 ∷ 0 ∷ 0 ∷ []

abbrev waiting : ℕ → ℕ → ℕ → Node
waiting a type n = record {
  addr = a;
  t = 0;
  timeout = 0;
  peer = some 9;
  epoch = 0;
  type = 0;
  retransmit_cnt = 0;
  packet = numbered type n;
}

-- ServerHelloDone and ServerKeyExchange have come before the Certificate.
abbrev early : List Node
early = waiting 1 14 5 ∷ waiting 2 12 4 ∷ []

abbrev reader : MessageHandler (Rest World)
reader = handle_handshake_msg World content client

abbrev state_of : Rest World → ℕ
state_of w = w.state

abbrev unchanged : List ℕ → List ℕ
unchanged b = b

abbrev zeroed : ℕ → Option (List ℕ)
zeroed n = some (replicate n 0)

abbrev early_link : Link (Rest World)
early_link =
    link (Rest World) reader state_of unchanged 3 early null
      (record { state = 9; cipher = 0xC0AE; world = tt }) (some 1)

takes_certificate :
    handle_handshake_msg World content client 9 (11 ∷ []) (conn 3 9) ≡ some (ok 0, conn 4 10)
unfolding handle_handshake_msg dispatch on_certificate
takes_certificate = refl

takes_key_exchange :
    handle_handshake_msg World content client 10 (12 ∷ []) (conn 4 10) ≡ some (ok 0, conn 5 11)
unfolding handle_handshake_msg dispatch on_server_key_exchange
takes_key_exchange = refl

takes_done :
    handle_handshake_msg World content client 11 (14 ∷ []) (conn 5 11) ≡ some (ok 0, conn 6 5)
unfolding handle_handshake_msg dispatch on_server_hello_done
takes_done = refl

takes_finished :
    (role : Role)
    → handle_handshake_msg World content role 6 (20 ∷ []) (conn 6 6) ≡ some (ok 0, connected_end)
unfolding handle_handshake_msg dispatch on_finished
takes_finished client = refl
takes_finished server = refl

passes_request :
    handle_handshake_msg World content client 10 (0 ∷ []) (conn 4 10) ≡ some (ok 0, conn 4 10)
unfolding handle_handshake_msg dispatch on_hello_request
passes_request = refl

abbrev plain : Security
plain = record { compression = 0; cipher = 0; epoch = 0; rseq = 2; key_block = replicate 40 0 }

abbrev switching : Role → Switching
switching role = record {
  role = role;
  state = 5;
  handshake = record { cipher = 0xC0AE; compression = 0; tmp = replicate 64 0 };
  slots = record { slot0 = some plain; slot1 = none };
}

-- handle_ccs for a ChangeCipherSpec, and the peer that it leaves.
abbrev switches : Role → Option (Result ℕ × Option Switching)
switches role =
    handle_ccs toy_hash true enough enough (err 1) (some (1 ∷ [])) (1 ∷ []) (some (switching role))

abbrev left_by : Option (Result ℕ × Option Switching) → Switching
left_by (some (ok r, some p)) = p
left_by _ = switching client

client_trace : Trace World content client toy_hash 9 0xC0AE (11 ∷ 12 ∷ 14 ∷ 256 ∷ 20 ∷ []) 12 0
unfolding handle_ccs
client_trace = handled (conn 3 9) (conn 4 10) (11 ∷ []) 0 refl refl takes_certificate (
    requested (conn 4 10) (conn 4 10) (0 ∷ []) 0 refl refl passes_request (
      handled (conn 4 10) (conn 5 11) (12 ∷ []) 0 refl refl takes_key_exchange (
        handled (conn 5 11) (conn 6 5) (14 ∷ []) 0 refl refl takes_done (
          switched true enough enough (err 1) (some (1 ∷ [])) (1 ∷ []) (switching client)
            (left_by (switches client)) 0 refl refl refl
            (handled (conn 6 6) connected_end (20 ∷ []) 0 refl refl (takes_finished client)
              none_left)))))

client_messages_example :
    (k : ℕ) × (◌≡◌ {A = List ℕ}
      (11 ∷ 12 ∷ 14 ∷ 256 ∷ 20 ∷ [])
      (11 ∷ 12 ∷ (replicate k 13 ++ (14 ∷ 256 ∷ 20 ∷ []))))
client_messages_example = client_messages World content client toy_hash refl refl client_trace

takes_client_certificate :
    handle_handshake_msg World content server 2 (11 ∷ []) (conn 3 2) ≡ some (ok 0, conn 4 3)
unfolding handle_handshake_msg dispatch on_certificate
takes_client_certificate = refl

takes_client_key_exchange :
    handle_handshake_msg World content server 3 (16 ∷ []) (conn 4 3) ≡ some (ok 0, conn 5 4)
unfolding handle_handshake_msg dispatch on_client_key_exchange
takes_client_key_exchange = refl

takes_certificate_verify :
    handle_handshake_msg World content server 4 (15 ∷ []) (conn 5 4) ≡ some (ok 0, conn 6 5)
unfolding handle_handshake_msg dispatch on_certificate_verify
takes_certificate_verify = refl

server_trace : Trace World content server toy_hash 2 0xC0AE (11 ∷ 16 ∷ 15 ∷ 256 ∷ 20 ∷ []) 12 0
unfolding handle_ccs calculate_key_block params_next pre_master_secret
server_trace = handled (conn 3 2) (conn 4 3) (11 ∷ []) 0 refl refl takes_client_certificate (
    handled (conn 4 3) (conn 5 4) (16 ∷ []) 0 refl refl takes_client_key_exchange (
      handled (conn 5 4) (conn 6 5) (15 ∷ []) 0 refl refl takes_certificate_verify (
        switched true enough enough (err 1) (some (1 ∷ [])) (1 ∷ []) (switching server)
          (left_by (switches server)) 0 refl refl refl
          (handled (conn 6 6) connected_end (20 ∷ []) 0 refl refl (takes_finished server)
            none_left))))

server_messages_example :
    ◌≡◌ {A = List ℕ} (11 ∷ 16 ∷ 15 ∷ 256 ∷ 20 ∷ []) (11 ∷ 16 ∷ 15 ∷ 256 ∷ 20 ∷ [])
server_messages_example = server_messages World content server toy_hash refl refl refl server_trace

abbrev both : Handler
both = record { get_psk_info = true; get_ecdsa_key = true; verify_ecdsa_key = true }

abbrev psk_only : Handler
psk_only = record { get_psk_info = true; get_ecdsa_key = false; verify_ecdsa_key = false }

abbrev empty_params : Handshake
empty_params = record { cipher = 0; compression = 0; tmp = replicate 64 0 }

update_parameters-client_hello_example :
    let (result, hs') =
      negotiated 1
        (record empty_params { tmp = replicate 32 5 ++ drop 32 empty_params.tmp })
        (common_suite both psk_only) in
    update_parameters psk_only 1 none true
      (some empty_params)
      (replicate 12 0 ++ client_hello both (replicate 32 5) (replicate 16 9))
    ≡ some (result, some hs')
update_parameters-client_hello_example =
    update_parameters-client_hello both psk_only 1 none (replicate 12 0) (replicate 32 5)
      (replicate 16 9) empty_params refl refl (omega arith)

abbrev no_answer : Answer
no_answer = record { handshake = empty_params; nonce = [] }

check_server_hello-server_hello_example :
    check_server_hello both true
      (replicate 12 0 ++ server_hello 0xC0AE (replicate 32 6) (replicate 32 7))
      no_answer
    ≡ some (
      ok 0,
      answered 0xC0AE (replicate 32 6) (server_extensions 0xC0AE ++ replicate 32 7) no_answer,
    )
check_server_hello-server_hello_example =
    check_server_hello-server_hello both (replicate 12 0) (replicate 32 6) (replicate 32 7) 0xC0AE
      no_answer refl refl refl (omega arith) (unfold known_cipher is_ecdsa_supported in refl)

abbrev refuse_odd : List ℕ → List ℕ → Result ℕ
refuse_odd x y = err 3

check_server_certificate-certificate_ecdsa_example :
    check_server_certificate refuse_odd
      (some (record { other_pub_x = []; other_pub_y = [] }))
      (replicate 12 0 ++ certificate_ecdsa (replicate 32 1) (replicate 32 2))
    ≡ some (
      verdict refuse_odd (refuse_odd (replicate 32 1) (replicate 32 2)),
      some (record { other_pub_x = replicate 32 1; other_pub_y = replicate 32 2 }),
    )
check_server_certificate-certificate_ecdsa_example =
    check_server_certificate-certificate_ecdsa refuse_odd (replicate 12 0) (replicate 32 1)
      (replicate 32 2) (record { other_pub_x = []; other_pub_y = [] }) refl refl refl

abbrev home : Session
home = record { size = 16; family = 2; port = 20220; address = 127 ∷ 0 ∷ 0 ∷ 1 ∷ []; ifindex = 0 }

-- A connected peer without keys opens nothing.
abbrev guest : Peer
guest = record {
  addr = 5;
  session = home;
  role = server;
  state = 12;
  slots = record { slot0 = none; slot1 = none };
}

abbrev context : Context
context = record {
  heap = guest ∷ [];
  peers = 5 ∷ [];
  sendqueue = [];
  written = [];
  events = [];
  reads = 0;
}

abbrev no_keys : SetKey
no_keys key = none

abbrev sends : List ℕ → Result ℕ
sends b = ok (length b)

abbrev at_once : ℕ → ℕ
at_once n = n

abbrev ignore_ccs : Option ℕ → List ℕ → Context → Option (Result ℕ × Context)
ignore_ccs peer payload c = some (ok 0, c)

abbrev ignore_handshake : Option ℕ → Session → Payload → Context → Option (Result ℕ × Context)
ignore_handshake peer session d c = some (ok 0, c)

abbrev ignore_data : ℕ → List ℕ → Context → Option Context
ignore_data a payload c = some c

-- A record of application data in epoch 1.
abbrev forgery : List ℕ
forgery = 23 ∷ 254 ∷ 253 ∷ 0 ∷ 1 ∷ 0 ∷ 0 ∷ 0 ∷ 0 ∷ 0 ∷ 9 ∷ 0 ∷ 2 ∷ 6 ∷ 6 ∷ []

handle_message-forged_example :
    handle_message no_keys sends at_once ignore_ccs ignore_handshake ignore_data home forgery
      context
    ≡ some (err (alert_fatal_create decrypt_error), context)
handle_message-forged_example =
    handle_message-forged no_keys sends at_once ignore_ccs ignore_handshake ignore_data home forgery
      context guest 1 (unfold get_peer deref session_equals in refl) (unfold deref in refl) refl
      (unfold is_record is_content_type uint16_to_int in refl)
      (unfold is_record is_content_type uint16_to_int decrypt_verify verified params_epoch in refl)
      (unfold hs_attempt uint16_to_int in refl)

abbrev nobody : Context
nobody = record context { heap = []; peers = [] }

handle_message-Returns_example :
    Returns no_keys sends at_once ignore_ccs ignore_handshake ignore_data (
      handle_message no_keys sends at_once ignore_ccs ignore_handshake ignore_data home forgery
        nobody)
    ⊎ Faulted no_keys sends at_once ignore_ccs ignore_handshake ignore_data
        (address no_keys sends at_once ignore_ccs ignore_handshake ignore_data
          (get_peer nobody.heap nobody.peers home))
        home
        forgery
        nobody
handle_message-Returns_example =
    handle_message-Returns no_keys sends at_once ignore_ccs ignore_handshake ignore_data home
      forgery nobody
