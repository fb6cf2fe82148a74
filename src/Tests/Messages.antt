-- ===== src/Tests/Messages.antt =====
-- Runs of the handshake messages at concrete inputs: fragments, the reordering of messages, a
-- ClientHello, Finished, and elliptic curve numbers.

use gc2021_pqdtls.EcKey.{ec_key_from_uint32_asn1, asn1_loop, word_bytes}
use gc2021_pqdtls.EcKey.Long.{IsLong}
use gc2021_pqdtls.Signature.{Validate, check_ecdsa_signature_elem, add_ecdsa_signature_elem}
use gc2021_pqdtls.Signature.KeyExchange.{Exchange, check_server_key_exchange_ecdsa}
use gc2021_pqdtls.Signature.Authentic.{Authentic, check_server_key_exchange_ecdsa-Authentic}
use gc2021_pqdtls.Signature.Written.{Reads, check_ecdsa_signature_elem-add_ecdsa_signature_elem}
use gc2021_pqdtls.Base.{
  suc, ℕ, ◌+◌, ◌*◌, ◌/◌, ◌-◌, ◌%◌, ◌^◌, ◌≤◌, ◌<◌, ◌≡◌, ◌≢◌, ◌↔◌, refl, true, false, not, Option,
  none, some, List, [], ◌∷◌, ◌++◌, length, take, drop, replicate, length-replicate,
  replicate-IsBytes, arith,
}
use gc2021_pqdtls.Numeric.{byte_at, int_to_uint8, int_to_uint32, int_to_uint16, uint24_to_int}
use gc2021_pqdtls.Alert.{Result, ok, err}
use gc2021_pqdtls.Hmac.Standard.{toy_hash}
use gc2021_pqdtls.Security.{client}
use gc2021_pqdtls.Session.{Session}
use gc2021_pqdtls.Netq.{Node}
use gc2021_pqdtls.Engine.{Context}
use gc2021_pqdtls.Keys.{Handler, Handshake}
use gc2021_pqdtls.Fragments.{next_mseq, send_handshake_msg_hash}
use gc2021_pqdtls.Fragments.Pieces.{
  header, pieces, is_full, send_pieces, finished, send_handshake_msg_hash-pieces,
}
use gc2021_pqdtls.Reassembly.{Pointer, null, dangling, to, take_fragment}
use gc2021_pqdtls.Reassembly.Complete.{answers, feed}
use gc2021_pqdtls.Reassembly.Sent.{payloads, feed-pieces}
use gc2021_pqdtls.Reassembly.Failures.{Answered, take_fragment-Answered}
use gc2021_pqdtls.Reorder.{Params, Link, MessageHandler, find_seq, buffer_message}
use gc2021_pqdtls.Reorder.Buffered.{IsQueue, buffer_message-IsQueue}
use gc2021_pqdtls.Extensions.{check_tls_extension}
use gc2021_pqdtls.Extensions.Offers.{
  Extension, curves, client_types, server_types, formats, other, AllExtensions, encode,
}
use gc2021_pqdtls.Extensions.Parse.{answer, check_tls_extension-answer}
use gc2021_pqdtls.ClientHello.{update_parameters}
use gc2021_pqdtls.ClientHello.Negotiation.{
  Offer, IsOffer, encoded, agreed, first_known, update_parameters-agreed,
}
use gc2021_pqdtls.Finished.{Switching, handle_ccs, check_finished}
use gc2021_pqdtls.Finished.Verify.{enough, expected, check_finished_iff}
use gc2021_pqdtls.Finished.Switch.{Moved, handle_ccs-Moved}
use gc2021_pqdtls.EcKey.{ec_key_from_uint32_asn1}
use gc2021_pqdtls.EcKey.Numbers.{bytes_value, words_value, nonzero, ec_key_from_uint32_asn1-nonzero}

abbrev message : List ℕ
message = replicate 1300 7

abbrev zeroed : ℕ → Option (List ℕ)
zeroed n = some (replicate n 0)

null_dangling : null ≢ dangling
null_dangling e = ground arith

feed-pieces_example :
    feed true zeroed
      (payloads 11 3 (length message) (pieces (length message / 1252 + 1) 0 message))
      null
    ≡ some (
        answers
          (length (pieces (length message / 1252 + 1) 0 message) - 1)
          (header 11 3 (length message) 0 (length message) ++ message))
feed-pieces_example =
    feed-pieces true zeroed 11 3 message null (replicate 1312 0) (omega arith) (omega arith)
      null_dangling refl refl refl

abbrev context : Context
context = record { heap = []; peers = []; sendqueue = []; written = []; events = []; reads = 0 }

abbrev session : Session
session = record { ifindex = 1; address = 1 ∷ []; port = 5684; family = 2; size = 16 }

send_handshake_msg_hash-pieces_example :
    send_handshake_msg_hash toy_hash
      (λ k. none)
      (λ b. ok (length b))
      (λ n. n)
      (λ o. some o)
      none
      session
      11
      (some message)
      true
      (record {
        hs = some (record { mseq_s = 3; mseq_r = 2; hs_hash = toy_hash.init });
        security = none;
        context = context;
      })
    ≡ finished toy_hash
        (λ k. none)
        (λ b. ok (length b))
        (λ n. n)
        (next_mseq (not (is_full 1300)) 3)
        2
        (toy_hash.update toy_hash.init (header 11 3 1300 0 1300 ++ message))
        (send_pieces toy_hash
          (λ k. none)
          (λ b. ok (length b))
          (λ n. n)
          (λ o. some o)
          none
          session
          (header 11 3 1300)
          (pieces (1300 / 1252 + 1) 0 message)
          (ok 0)
          none
          context)
send_handshake_msg_hash-pieces_example =
    send_handshake_msg_hash-pieces toy_hash (λ k. none) (λ b. ok (length b)) (λ n. n) (λ o. some o)
      none session 11 1300 message 3 2 toy_hash.init none context refl

-- A second fragment of 4 bytes, at offset 4 of a message of 8.
abbrev second_fragment : List ℕ
second_fragment = 11 ∷ 0 ∷ 0 ∷ 8 ∷ 0 ∷ 3 ∷ 0 ∷ 0 ∷ 4 ∷ 0 ∷ 0 ∷ 4 ∷ 5 ∷ 6 ∷ 7 ∷ 8 ∷ []

abbrev half : Pointer
half = to (record { packet_length = 8; last_offset = 4; block = replicate 20 1 })

given : (n : ℕ) → (block : List ℕ) × (zeroed n ≡ some block) × (length block ≡ n)
given n = (replicate n 0, refl, length-replicate n 0)

take_fragment-Answered_example : Answered (take_fragment true zeroed second_fragment half)
take_fragment-Answered_example =
    take_fragment-Answered true zeroed second_fragment half given refl
      (unfold uint24_to_int in omega arith) (λ e. unfold uint24_to_int in refl)

-- A handler that notes each message.
abbrev note : MessageHandler (List (List ℕ))
note state msg l = noted l.params
  where
    noted : Option Params → Option (Result ℕ × Link (List (List ℕ)))
    noted none = none
    noted (some p) = some (
      ok 0,
      record {
        peer = l.peer;
        params = some (record p { mseq_r = (p.mseq_r + 1) % 2 ^ 16 });
        world = l.world ++ (msg ∷ []);
      },
    )

abbrev numbered : ℕ → List ℕ
numbered n = 14 ∷ 0 ∷ 0 ∷ 0 ∷ 0 ∷ n ∷ 0 ∷ 0 ∷ 0 ∷ 0 ∷ 0 ∷ 0 ∷ []

abbrev waiting : ℕ → ℕ → Node
waiting a n = record {
  addr = a;
  t = 0;
  timeout = 0;
  peer = some 9;
  epoch = 0;
  type = 0;
  retransmit_cnt = 0;
  packet = numbered n;
}

abbrev one_waiting : Params
one_waiting = record { mseq_r = 3; reorder_queue = waiting 1 5 ∷ []; reassemble_buf = null }

one_waiting-IsQueue : IsQueue one_waiting
one_waiting-IsQueue = record { unique = (omega arith, tt); single = (unfold find_seq in refl, tt) }

buffer_message-IsQueue_example : IsQueue (
    buffer_message
      (List (List ℕ))
      note
      (λ w. 3)
      (λ b. b)
      (some 2)
      (some 9)
      (numbered 4)
      one_waiting)
buffer_message-IsQueue_example =
    buffer_message-IsQueue (List (List ℕ)) note (λ w. 3) (λ b. b) 2 (some 9) (numbered 4)
      one_waiting one_waiting-IsQueue (refl, omega arith)

abbrev offered : List Extension
offered =
    curves (24 ∷ 23 ∷ [])
    ∷ client_types (2 ∷ [])
    ∷ server_types (2 ∷ [])
    ∷ formats (0 ∷ [])
    ∷ other 22 []
    ∷ []

offered-AllExtensions : AllExtensions offered
offered-AllExtensions = (
  ((omega arith, (omega arith, tt)), omega arith),
  (omega arith, (omega arith, (omega arith, ((omega arith, (omega arith, refl)), tt)))),
)

check_tls_extension-answer_example :
    check_tls_extension
      (some 0xC0AE)
      1
      (int_to_uint16 (length (encode offered)) ++ encode offered)
      (length (encode offered) + 2)
      true
    ≡ some (answer 0xC0AE 1 offered)
check_tls_extension-answer_example =
    check_tls_extension-answer 0xC0AE 1 offered offered-AllExtensions
      (unfold int_to_uint16 in omega arith)

abbrev offer : Offer
offer = record {
  start = replicate 14 1;
  random = replicate 32 9;
  session_id = [];
  cookie = replicate 16 4;
  suites = 0xC0A8 ∷ 0xC0AE ∷ [];
  extensions = offered;
}

offer-IsOffer : IsOffer offer
offer-IsOffer = record {
  start_size = refl;
  random_size = refl;
  session_id_size = omega arith;
  cookie_size = omega arith;
  suites_size = omega arith;
  suites_small = (omega arith, (omega arith, tt));
  extensions_size = unfold int_to_uint16 in omega arith;
  extensions_fit = offered-AllExtensions;
}

abbrev ecdsa_only : Handler
ecdsa_only = record { get_psk_info = false; get_ecdsa_key = true; verify_ecdsa_key = true }

abbrev handshake : Handshake
handshake = record { cipher = 0; compression = 0; tmp = replicate 64 0 }

update_parameters-agreed_example :
    let config = record handshake { tmp = offer.random ++ drop 32 handshake.tmp } in
    let (result, config') =
      agreed ecdsa_only 1 none offer config (first_known ecdsa_only offer.suites) in
    update_parameters ecdsa_only 1 none true (some handshake) (encoded offer)
    ≡ some (result, some config')
update_parameters-agreed_example =
    update_parameters-agreed ecdsa_only 1 none offer handshake offer-IsOffer

check_finished_iff_example :
    (check_finished toy_hash enough client (some (replicate 64 3, toy_hash.init)) (replicate 24 0)
      ≡ ok 0)
    ↔ ((24 ≤ length (replicate {A = ℕ} 24 0))
        × (take 12 (drop 12 (replicate 24 0))
            ≡ expected toy_hash client (replicate 64 3) toy_hash.init))
check_finished_iff_example =
    check_finished_iff toy_hash client (replicate 64 3) (replicate 24 0) toy_hash.init
      (replicate-IsBytes 48 3 (omega arith))

abbrev switching : ℕ → Switching
switching state = record {
  role = client;
  state = state;
  handshake = handshake;
  slots = record { slot0 = none; slot1 = none };
}

handle_ccs-Moved_example : Moved (1 ∷ []) (switching 5) (ok 0) (switching 6)
handle_ccs-Moved_example =
    handle_ccs-Moved toy_hash true enough enough (err 1) none (1 ∷ []) (switching 5) (switching 6)
      (ok 0) (unfold handle_ccs in refl)

ec_key_from_uint32_asn1-nonzero_example :
    (bytes_value 0 (ec_key_from_uint32_asn1 (1 ∷ 0 ∷ 1 ∷ []) (4 * 3))
      ≡ words_value (nonzero (1 ∷ 0 ∷ 1 ∷ [])))
    × (byte_at (ec_key_from_uint32_asn1 (1 ∷ 0 ∷ 1 ∷ []) (4 * 3)) 0 < 128)
ec_key_from_uint32_asn1-nonzero_example =
    ec_key_from_uint32_asn1-nonzero (1 ∷ 0 ∷ 1 ∷ []) (omega arith, (omega arith, (omega arith, tt)))

abbrev number_r : List ℕ
number_r = 1 ∷ 2 ∷ 3 ∷ 4 ∷ 5 ∷ 6 ∷ 7 ∷ 4026531840 ∷ []

abbrev number_s : List ℕ
number_s = 8 ∷ 7 ∷ 6 ∷ 5 ∷ 4 ∷ 3 ∷ 2 ∷ 16777216 ∷ []

not_zero : (n : ℕ) → suc n ≢ 0
not_zero n e = ground arith

number_r-IsLong : IsLong number_r
number_r-IsLong = (
  (
    omega arith,
    (
      omega arith,
      (omega arith, (omega arith, (omega arith, (omega arith, (omega arith, (omega arith, tt)))))),
    ),
  ),
  (
    (
      not_zero 6,
      (not_zero 5, (not_zero 4, (not_zero 3, (not_zero 2, (not_zero 1, (not_zero 0, tt)))))),
    ),
    omega arith,
  ),
)

number_s-IsLong : IsLong number_s
number_s-IsLong = (
  (
    omega arith,
    (
      omega arith,
      (omega arith, (omega arith, (omega arith, (omega arith, (omega arith, (omega arith, tt)))))),
    ),
  ),
  (
    (
      not_zero 1,
      (not_zero 2, (not_zero 3, (not_zero 4, (not_zero 5, (not_zero 6, (not_zero 7, tt)))))),
    ),
    omega arith,
  ),
)

size_elem : length (add_ecdsa_signature_elem number_r number_s) ≤ 100
unfolding add_ecdsa_signature_elem ec_key_from_uint32_asn1 asn1_loop word_bytes int_to_uint8
    int_to_uint16 int_to_uint32
size_elem = omega arith

check_ecdsa_signature_elem-add_ecdsa_signature_elem_example :
    Reads
      (replicate 25 0 ++ (add_ecdsa_signature_elem number_r number_s ++ (9 ∷ [])))
      (length (add_ecdsa_signature_elem number_r number_s))
      number_r
      number_s
      (check_ecdsa_signature_elem
        (replicate 25 0 ++ (add_ecdsa_signature_elem number_r number_s ++ (9 ∷ [])))
        (length (replicate {A = ℕ} 25 0))
        100)
check_ecdsa_signature_elem-add_ecdsa_signature_elem_example =
    check_ecdsa_signature_elem-add_ecdsa_signature_elem (replicate 25 0) number_r number_s (9 ∷ [])
      100 number_r-IsLong number_s-IsLong size_elem (omega arith)

-- A ServerKeyExchange with a point and a signature.
abbrev key_exchange : List ℕ
key_exchange =
    replicate 12 0
    ++ (3 ∷ 0 ∷ 23 ∷ 65 ∷ 4 ∷ [])
    ++ replicate 64 1
    ++ add_ecdsa_signature_elem number_r number_s
    ++ replicate 8 0

abbrev exchange : Exchange toy_hash
exchange = record {
  other_pub_x = replicate 32 2;
  other_pub_y = replicate 32 3;
  other_eph_pub_x = replicate 32 0;
  other_eph_pub_y = replicate 32 0;
  tmp = replicate 64 4;
  hs_hash = toy_hash.init;
}

abbrev accept_all : Validate
accept_all x y hash r s = ok 0

check_server_key_exchange_ecdsa-Authentic_example :
    Authentic accept_all toy_hash
      (some exchange)
      key_exchange
      0
      158
      (check_server_key_exchange_ecdsa accept_all toy_hash (some exchange) key_exchange 0 158)
check_server_key_exchange_ecdsa-Authentic_example =
    check_server_key_exchange_ecdsa-Authentic accept_all toy_hash (some exchange) key_exchange 0 158
