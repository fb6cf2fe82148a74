-- ===== src/Tests.antt =====
-- Runs at concrete inputs: every theorem with hypotheses, at values for which they hold, with a
-- cipher, a hash and a key schedule made for tests.
mod Connect
mod Flight
mod Machine
mod Messages
use gc2021_pqdtls.Base.{
  ℕ, ◌+◌, ◌*◌, ◌%◌, ◌^◌, ◌<◌, ◌≤◌, ◌≡◌, ◌↔◌, ◌⊎◌, inl, refl, ◌==◌, if◌then◌else◌, ◌&&◌, true, false,
  none, some, List, [], ◌∷◌, ◌++◌, length, take, drop, replicate, IsBytes, arith,
}
use gc2021_pqdtls.Numeric.{
  int_to_uint8, int_to_uint16, int_to_uint24, int_to_uint32, int_to_uint48, int_to_uint64,
  uint8_to_int, uint16_to_int, uint24_to_int, uint32_to_int, uint48_to_int, uint64_to_int,
}
use gc2021_pqdtls.Numeric.RoundTrip.{to_int-int_to}
use gc2021_pqdtls.Buffer.{equals}
use gc2021_pqdtls.Buffer.Laws.{equals_iff}
use gc2021_pqdtls.Ccm.{encrypt_message, decrypt_message}
use gc2021_pqdtls.Ccm.Cipher.{toy_cipher, toy_cipher-IsCipher}
use gc2021_pqdtls.Ccm.RoundTrip.{decrypt-encrypt_message}
use gc2021_pqdtls.Hmac.{hmac_init, hmac_finalize}
use gc2021_pqdtls.Hmac.Standard.{toy_hash, rfc2104, feed, joined, hmac_finalize-rfc2104}
use gc2021_pqdtls.Prf.{prf, dtls_mac, psk_pre_master_secret}
use gc2021_pqdtls.Prf.Standard.{prf-expansion, expansion, dtls_mac-rfc2104}
use gc2021_pqdtls.Prf.Psk.{read_psk, psk_pre_master_secret-read_psk, psk_pre_master_secret-none}
use gc2021_pqdtls.Alert.{
  Result, ok, err, alert_create, alert_from_err, alert_fatal_create, internal_error,
}
use gc2021_pqdtls.Alert.Codes.{alert_from_err-alert_create}
use gc2021_pqdtls.Security.{
  Security, client, server, Slots, params, params_epoch, params_next, params_free_other,
  params_switch, local_write_key, remote_write_key, local_iv, remote_iv,
}
use gc2021_pqdtls.Security.KeyBlock.{opposite, remote-local}
use gc2021_pqdtls.Security.Epochs.{fresh, current, pending, rekey, free_other-last_epoch}
use gc2021_pqdtls.Record.{
  SetKey, is_record, prepare_record, decrypt_verify, fragment, gather, set_record_header,
}
use gc2021_pqdtls.Record.Layout.{is_record-prepare_record}
use gc2021_pqdtls.Record.Seal.{
  IsKeySchedule, concat, decrypt_verify-prepare_record, decrypt_verify-prepare_record_null,
}
use gc2021_pqdtls.Record.Capacity.{length-prepare_record, prepare_record-err}
use gc2021_pqdtls.Record.Nonce.{Call}
use gc2021_pqdtls.Netq.{Node, insert_node, remove}
use gc2021_pqdtls.Netq.Order.{Sorted, at_time, insert_node-Sorted, at_time-insert_node}
use gc2021_pqdtls.Netq.Remove.{remove-insert_node}
use gc2021_pqdtls.Session.{Session, session_equals}
use gc2021_pqdtls.Session.Laws.{address_length, session_equals_iff}
use gc2021_pqdtls.Peers.{Peer, free_peer, deref, delete_peer, get_peer}
use gc2021_pqdtls.Peers.Linked.{Linked, Unlinked, Looked, delete_peer-free_peer, get_peer-Looked}
use gc2021_pqdtls.Engine.{Context}
use gc2021_pqdtls.Engine.Alerts.{handle_alert}
use gc2021_pqdtls.Engine.Alerts.Safety.{Gone, Held, handle_alert-Gone}
use gc2021_pqdtls.Engine.Timer.{check_retransmit}
use gc2021_pqdtls.Engine.Timer.Deadline.{due, Ready, IsTimed, IsClock, check_retransmit-due}
use gc2021_pqdtls.Cookie.{get_cookie, verify_peer, good}
use gc2021_pqdtls.Cookie.Check.{verify_peer-good}
use gc2021_pqdtls.Cookie.Exchange.{Hello, bytes, IsHello, cookie_of_hello, create_cookie-bytes}
use gc2021_pqdtls.Keys.{with_master, Handshake, Derived, calculate_key_block}
use gc2021_pqdtls.Keys.Block.{full, master, negotiated, calculate_key_block-rfc5246}
use gc2021_pqdtls.Keys.Ends.{decrypt_verify-calculate_key_block}

abbrev four : List ℕ
four = 1 ∷ 2 ∷ 3 ∷ 4 ∷ []

four-IsBytes : IsBytes four
four-IsBytes = ground arith

decrypt-encrypt_message_example :
    decrypt_message toy_cipher 8 3
      (replicate 16 5)
      (encrypt_message toy_cipher 8 3 (replicate 16 5) four (replicate 13 9))
      (replicate 13 9)
    ≡ some four
decrypt-encrypt_message_example =
    decrypt-encrypt_message toy_cipher toy_cipher-IsCipher 8 3 (replicate 16 5) four
      (replicate 13 9) (omega arith) four-IsBytes

hmac_finalize-rfc2104_example :
    (hmac_finalize toy_hash (feed toy_hash (hmac_init toy_hash four) (four ∷ four ∷ []))).0
    ≡ rfc2104 toy_hash four (joined toy_hash (four ∷ four ∷ []))
hmac_finalize-rfc2104_example = hmac_finalize-rfc2104 toy_hash four (four ∷ four ∷ []) four-IsBytes

prf-expansion_example : prf toy_hash true true four (some four) none none 40 ≡ (
  (if true then 40 else 0),
  (if true && true
      then take 40 (
          expansion toy_hash four four-IsBytes (some four) none none 2 (rfc2104 toy_hash four four))
      else replicate 40 0),
)
prf-expansion_example =
    prf-expansion toy_hash four four-IsBytes (some four) none none true true 40 2 (omega arith)

psk_pre_master_secret-none_example :
    (psk_pre_master_secret four 11 ≡ none) ↔ (11 < 2 * (2 + length four))
psk_pre_master_secret-none_example = psk_pre_master_secret-none four 11

alert_from_err-alert_create_example :
    alert_from_err (alert_create 2 40) ≡ (if 2 == 1 && 40 == 0 then none else some (2, 40))
alert_from_err-alert_create_example =
    alert_from_err-alert_create 2 40 (omega arith) (omega arith) (omega arith)

-- A set of parameters in epoch `e` with a cipher, and the same without.
abbrev keyed : ℕ → Security
keyed e = record {
  compression = 0;
  cipher = 0xC0A8;
  epoch = e;
  rseq = 7;
  key_block = replicate 40 3;
}

abbrev plain : ℕ → Security
plain e = record { compression = 0; cipher = 0; epoch = e; rseq = 7; key_block = replicate 40 0 }

remote-local_example :
    (remote_write_key (keyed 1) (opposite server) ≡ local_write_key (keyed 1) server)
    × (remote_iv (keyed 1) (opposite server) ≡ local_iv (keyed 1) server)
remote-local_example = remote-local (keyed 1) server

rekey_example :
    (params_next true (current (keyed 1) none) ≡ some (pending (keyed 1)))
    × (params_epoch (pending (keyed 1)) 1 ≡ some (keyed 1))
    × (params_epoch (pending (keyed 1)) (1 + 1) ≡ some (fresh (1 + 1)))
    × (params_free_other (pending (keyed 1)) ≡ pending (keyed 1))
    × (params (params_switch (pending (keyed 1))) ≡ some (fresh (1 + 1)))
    × (params_free_other (params_switch (pending (keyed 1))) ≡ current (fresh (1 + 1)) none)
    × (params_epoch (params_free_other (params_switch (pending (keyed 1)))) 1 ≡ none)
rekey_example = rekey (keyed 1) none (omega arith)

free_other-last_epoch_example :
    (params_next true (current (keyed 65535) none) ≡ some (pending (keyed 65535)))
    × (params_free_other (pending (keyed 65535)) ≡ current (keyed 65535) none)
free_other-last_epoch_example = free_other-last_epoch (keyed 65535) none refl

abbrev toy_set_key : SetKey
toy_set_key key = if length key == 16 then some toy_cipher else none

toy_set_key-IsKeySchedule : IsKeySchedule toy_set_key
toy_set_key-IsKeySchedule = record {
  scheduled = λ key h. (toy_cipher, rw h refl, toy_cipher-IsCipher);
}

abbrev message : List (List ℕ)
message = four ∷ four ∷ []

abbrev receiver : Security → Slots
receiver s = record { slot0 = none; slot1 = some (record s { rseq = 90 }) }

decrypt_verify-prepare_record_example :
    (pkt : List ℕ) × (prepare_record toy_set_key (some client) (some (keyed 1)) 23 message 100
      ≡ (ok pkt, some (record (keyed 1) { rseq = (7 + 1) % 2 ^ 64 })))
    × (decrypt_verify toy_set_key (some (opposite client, receiver (keyed 1))) pkt
        ≡ (ok (concat message), some (params_free_other (receiver (keyed 1)))))
unfolding params_epoch
decrypt_verify-prepare_record_example =
    decrypt_verify-prepare_record toy_set_key toy_set_key-IsKeySchedule (keyed 1) client 23 message
      100 (receiver (keyed 1)) 90 (omega arith) refl refl (ground arith) (omega arith) refl

abbrev plain_record : List ℕ
plain_record =
    22 ∷ 0xfe ∷ 0xfd ∷ 0 ∷ 0 ∷ 0 ∷ 0 ∷ 0 ∷ 0 ∷ 0 ∷ 7 ∷ 0 ∷ 8 ∷ 1 ∷ 2 ∷ 3 ∷ 4 ∷ 1 ∷ 2 ∷ 3 ∷ 4 ∷ []

plain_record-made :
    (prepare_record toy_set_key none (some (plain 0)) 22 message 100).0 ≡ ok plain_record
unfolding prepare_record fragment gather set_record_header int_to_uint8 int_to_uint16 int_to_uint48
plain_record-made = refl

length-prepare_record_example :
    (pkt : List ℕ) × ((prepare_record toy_set_key (some client) (some (keyed 1)) 23 message 29).0
      ≡ ok pkt)
    × (length pkt ≡ 29 + length (concat message))
    × (length pkt ≤ 29 + 8)
length-prepare_record_example =
    length-prepare_record toy_set_key toy_set_key-IsKeySchedule (keyed 1) client 23 message 29 refl
      refl (ground arith) (omega arith)

abbrev call : ℕ → Call
call type = record { type = type; payload = message; rlen = 100 }

abbrev node_at : ℕ → ℕ → Node
node_at a t = record {
  addr = a;
  t = t;
  timeout = 2000;
  peer = some 5;
  epoch = 0;
  type = 22;
  retransmit_cnt = 0;
  packet = four;
}

abbrev queue : List Node
queue = node_at 1 10 ∷ node_at 2 20 ∷ node_at 3 20 ∷ []

queue-Sorted : Sorted queue
queue-Sorted = ground arith

at_time-insert_node_example :
    at_time 20 (insert_node queue (node_at 4 20))
    ≡ at_time 20 queue ++ (if 20 == 20 then node_at 4 20 ∷ [] else [])
at_time-insert_node_example = at_time-insert_node queue (node_at 4 20) 20 queue-Sorted

abbrev home : Session
home = record { size = 16; family = 2; port = 20220; address = 127 ∷ 0 ∷ 0 ∷ 1 ∷ []; ifindex = 0 }

abbrev guest : Peer
guest = record { addr = 5; session = home; role = server; state = 12; slots = receiver (plain 0) }

abbrev heap : List Peer
heap = guest ∷ []

abbrev links : List ℕ
links = 5 ∷ []

heap-Linked : Linked heap links
unfolding deref
heap-Linked = ((guest, refl), (omega arith, omega arith))

guest-found : get_peer heap links home ≡ some guest
unfolding get_peer deref session_equals
guest-found = refl

abbrev away : Session
away = record home { port = 1 }

abbrev waiting : Context
waiting = record {
  heap = heap;
  peers = links;
  sendqueue = queue;
  written = [];
  events = [];
  reads = 0;
}

abbrev steady : ℕ → ℕ
steady i = 15

steady-IsClock : IsClock steady
steady-IsClock = record { later = λ i j h. omega arith; bounded = λ i. omega arith }

waiting-IsTimed : IsTimed waiting
unfolding deref
waiting-IsTimed =
    let ready : Ready heap (node_at 1 10) =
      ((5, refl, (guest, refl)), (omega arith, omega arith)) in
    ((ready, (ready, (ready, omega arith))), queue-Sorted)

check_retransmit-due_example :
    (next : ℕ) × (c' : Context) × (check_retransmit toy_set_key steady true waiting
      ≡ some (next, c'))
    × (IsTimed c' × (due (steady 0) c'.sendqueue ≡ 0))
check_retransmit-due_example =
    check_retransmit-due toy_set_key steady steady-IsClock waiting waiting-IsTimed

abbrev write_all : List ℕ → Result ℕ
write_all buf = ok (length buf)

waiting-Held : Held heap queue
unfolding deref
waiting-Held =
    let held : (b : ℕ) × (some 5 ≡ some b) × ((p : Peer) × (deref heap b ≡ some p)) =
      (5, refl, (guest, refl)) in
    (held, (held, (held, omega arith)))

guest-there : deref heap 5 ≡ some guest
unfolding deref
guest-there = refl

home-equals : session_equals home home ≡ true
unfolding session_equals
home-equals = refl

handle_alert-Gone_example :
    (c' : Context) × (handle_alert toy_set_key write_all steady (some 5) (2 ∷ 40 ∷ []) waiting
      ≡ some (ok 1, c'))
    × Gone toy_set_key write_all steady 5 c'
handle_alert-Gone_example =
    handle_alert-Gone toy_set_key write_all steady 5 guest 2 40 [] waiting refl guest-there
      home-equals heap-Linked waiting-Held

abbrev greeting : Hello
greeting = record {
  start = replicate 9 1;
  random = replicate 32 7;
  session_id = four;
  suites = four;
}

greeting-IsHello : IsHello greeting
greeting-IsHello = (refl, (refl, (omega arith, omega arith)))

verify_peer-good_example : (verify_peer toy_hash four four (bytes greeting []) ≡ some (ok good)) ↔ (
    (get_cookie (bytes greeting []) ≡ ok (cookie_of_hello toy_hash four four greeting))
    ⊎ ((n : ℕ) × (get_cookie (bytes greeting []) ≡ err n)))
verify_peer-good_example =
    verify_peer-good toy_hash four four (bytes greeting [])
      (cookie_of_hello toy_hash four four greeting)
      (create_cookie-bytes greeting [] greeting-IsHello (omega arith) toy_hash four four)

abbrev handshake : Handshake
handshake = record { cipher = 0xC0A8; compression = 0; tmp = replicate 64 1 }

abbrev derived : Security → Derived
derived s = record {
  result = ok 0;
  handshake = with_master handshake (master toy_hash handshake four four-IsBytes);
  slots =
      current s (some (negotiated toy_hash handshake four four-IsBytes ((s.epoch + 1) % 2 ^ 16)));
}

calculate_key_block-rfc5246_example :
    calculate_key_block toy_hash true full full (ok four) none handshake (current (keyed 1) none)
    ≡ some (derived (keyed 1))
calculate_key_block-rfc5246_example =
    calculate_key_block-rfc5246 toy_hash handshake four four-IsBytes none (keyed 1) none refl
      (omega arith)

client_end :
    calculate_key_block toy_hash true full full (ok four) none handshake (current (keyed 1) none)
    ≡ some (derived (keyed 1))
client_end =
    calculate_key_block-rfc5246 toy_hash handshake four four-IsBytes none (keyed 1) none refl
      (omega arith)

server_end :
    calculate_key_block toy_hash true full full (ok four) none handshake (current (plain 1) none)
    ≡ some (derived (plain 1))
server_end =
    calculate_key_block-rfc5246 toy_hash handshake four four-IsBytes none (plain 1) none refl
      (omega arith)

decrypt_verify-calculate_key_block_example :
    (pkt : List ℕ) × ((prepare_record toy_set_key
        (some client)
        (params (params_switch (derived (keyed 1)).slots))
        23
        message
        100).0
      ≡ ok pkt)
    × (decrypt_verify toy_set_key
          (some (opposite client, params_switch (derived (plain 1)).slots))
          pkt
        ≡ (ok (concat message), some (params_free_other (params_switch (derived (plain 1)).slots))))
decrypt_verify-calculate_key_block_example =
    decrypt_verify-calculate_key_block toy_hash handshake four four-IsBytes toy_set_key
      toy_set_key-IsKeySchedule (keyed 1) (plain 1) (derived (keyed 1)) (derived (plain 1)) client
      23 message 100 (omega arith) refl refl (omega arith) client_end server_end (ground arith)
      (omega arith)
