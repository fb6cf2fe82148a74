-- ===== src/Tests/Flight.antt =====
-- A client that gets the messages of a server, at concrete inputs.
use gc2021_pqdtls.Base.{ℕ, List, ◌≡◌, refl, true, Option, some, [], ◌∷◌, ◌++◌, replicate, arith}
use gc2021_pqdtls.Alert.{Result, ok, err, alert_fatal_create}
use gc2021_pqdtls.Security.{client}
use gc2021_pqdtls.Reassembly.{null}
use gc2021_pqdtls.Reorder.{Params, Link}
use gc2021_pqdtls.Keys.{Handler, known_cipher, is_ecdsa_supported}
use gc2021_pqdtls.Hello.{server_hello, server_extensions}
use gc2021_pqdtls.Numeric.{int_to_uint8, int_to_uint16}
use gc2021_pqdtls.Machine.{Actions, Conn, lower, raise}
use gc2021_pqdtls.Machine.Switch.{handle_handshake_msg}
use gc2021_pqdtls.Flight.{Greeted, client_actions}
use gc2021_pqdtls.Hint.{server_key_exchange_psk, check_server_key_exchange_psk}
use gc2021_pqdtls.Hint.Read.{check_server_key_exchange_psk-server_key_exchange_psk}
use gc2021_pqdtls.Flight.Answered.{behind_hello, server_hello-answered}

abbrev World : Type 0
World = Greeted (Unit {0})

abbrev take_it : Link World → Option (Result ℕ × Link World)
take_it l = some (ok 0, l)

-- Actions that find nothing wrong.
abbrev content : Actions World
content = record {
  stop_retransmission = λ l. some l;
  check_server_hello_verify_request = λ msg. take_it;
  record_rtt = λ l. l;
  check_server_hello = λ msg cipher l. some (ok 0, (cipher, l));
  check_server_certificate = λ msg. take_it;
  check_server_key_exchange_ecdsa = λ msg. take_it;
  check_server_key_exchange_psk = λ msg. take_it;
  check_server_hellodone = λ msg. take_it;
  check_certificate_request = λ msg. take_it;
  check_finished = λ msg. take_it;
  update_hs_hash = λ msg l. l;
  send_ccs = take_it;
  params_switch = λ l. l;
  send_server_finished = take_it;
  free_params = λ w. w;
  check_client_keyexchange = λ msg. take_it;
  read_tesla = λ msg l. some l;
  is_ecdsa_client_auth_supported = true;
  check_client_certificate_verify = λ msg. take_it;
  verify_peer = λ state msg. take_it;
  remove_peer = λ w. w;
  new_peer = λ w. (some 1, w);
  handshake_new = λ n w. (true, w);
  clear_hs_hash = λ l. l;
  update_parameters = λ msg cipher l. some (ok 0, (cipher, l));
  send_server_hello_msgs = take_it;
  send_client_hello = take_it;
}

abbrev both : Handler
both = record { get_psk_info = true; get_ecdsa_key = true; verify_ecdsa_key = true }

abbrev params : Params
params = record { mseq_r = 1; reorder_queue = []; reassemble_buf = null }

abbrev world : World
world = record {
  answer = record {
    handshake = record { cipher = 0; compression = 0; tmp = replicate 64 0 };
    nonce = [];
  };
  rest = tt;
}

abbrev waiting : Link World
waiting = record { peer = some 1; params = some params; world = world }

-- The connection behind the ServerHello.
abbrev behind : Conn World
behind =
    behind_hello (Unit {0}) both content (replicate 11 0) (replicate 32 6) (replicate 32 7) 0xC0AE
      waiting

server_hello-answered_example :
    (handle_handshake_msg World
        (client_actions (Unit {0}) both content)
        client
        8
        (2 ∷ (replicate 11 0 ++ server_hello 0xC0AE (replicate 32 6) (replicate 32 7)))
        (raise 8 0 waiting)
      ≡ some (ok 0, behind))
    × ((behind.world.cipher ≡ 0xC0AE)
        × (handle_handshake_msg World
              (client_actions (Unit {0}) both content)
              client
              behind.world.state
              (14 ∷ replicate 11 0)
              behind
            ≡ some (err (alert_fatal_create 10), raise 9 0xC0AE (lower behind))))
server_hello-answered_example =
    server_hello-answered (Unit {0}) both content (replicate 11 0) (replicate 11 0) (replicate 32 6)
      (replicate 32 7) 0xC0AE 0 1 params world waiting (lower behind) refl refl refl (omega arith)
      (unfold known_cipher is_ecdsa_supported in refl) refl refl refl refl refl
      (unfold server_hello int_to_uint16 int_to_uint8 server_extensions in refl)

check_server_key_exchange_psk-server_key_exchange_psk_example :
    (body : List ℕ) × (server_key_exchange_psk (4 ∷ 5 ∷ 6 ∷ []) ≡ ok body)
    × (check_server_key_exchange_psk (some []) (replicate 12 0 ++ body)
        ≡ (ok 0, some (4 ∷ 5 ∷ 6 ∷ [])))
check_server_key_exchange_psk-server_key_exchange_psk_example =
    check_server_key_exchange_psk-server_key_exchange_psk (replicate 12 0) (4 ∷ 5 ∷ 6 ∷ []) [] refl
      (omega arith)
