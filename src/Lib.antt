-- ===== src/Lib.antt =====
-- GC2021-PQDTLS is a DTLS 1.2 engine for constrained nodes, derived from tinyDTLS. This library
-- models its cryptographic constructions, its record layer, its peers, its timer, and the transport of
-- its handshake messages, and the state machine of the handshake.
--
-- The parts, from the bottom up, and the code that each file is about:
--   Numeric    dtls-numeric.h: integers in network byte order.
--   Buffer     tinydtls.h: memxor and dtls_equals.
--   Ccm        dtls-ccm.c: CCM over a block cipher.
--   Hmac       dtls-hmac.c: HMAC over a hash.
--   Prf        dtls-crypto.c: dtls_p_hash, dtls_prf, dtls_mac, dtls_psk_pre_master_secret.
--   Alert      dtls-alert.h, and how dtls_alert_send_from_err of dtls.c reads error codes.
--   Security   dtls_security_parameters_t, the key block, and the two slots of dtls-peer.h.
--   Record     dtls.c: is_record, dtls_set_record_header, dtls_prepare_record, decrypt_verify; and
--              dtls_encrypt and dtls_decrypt of dtls-crypto.c.
--   Cookie     dtls.c: dtls_get_cookie, dtls_create_cookie, dtls_verify_peer.
--   Keys       dtls.c: known_cipher, calculate_key_block.
--   Fragments  dtls.c: dtls_set_handshake_header, dtls_send_handshake_msg_hash.
--   Reassembly dtls.c: dtls_init_reassemble_buffer, dtls_free_reassemble_buffer, and the part of
--              handle_handshake that collects fragments.
--   Reorder    dtls.c: the rest of handle_handshake.
--   Extensions dtls.c: verify_ext_*, dtls_check_tls_extension.
--   ClientHello
--              dtls.c: dtls_update_parameters.
--   Finished   dtls.c: check_client_keyexchange, handle_ccs, dtls_send_ccs, dtls_send_finished,
--              check_finished.
--   EcKey      dtls-crypto.c: dtls_ec_key_to_uint32, dtls_ec_key_from_uint32,
--              dtls_ec_key_from_uint32_asn1.
--   Signature  dtls.c: dtls_add_ecdsa_signature_elem, dtls_check_ecdsa_signature_elem,
--              check_client_certificate_verify, check_server_key_exchange_ecdsa; dtls-crypto.c:
--              dtls_ecdsa_verify_sig_hash, dtls_ecdsa_verify_sig.
--   Hello      dtls.c: dtls_send_client_hello, dtls_send_server_hello, check_server_hello.
--   Certificate
--              dtls.c: dtls_send_certificate_ecdsa, check_server_certificate,
--              dtls_send_server_certificate_request, check_certificate_request.
--   Hint       dtls.c: dtls_send_server_key_exchange_psk, check_server_key_exchange_psk.
--   Machine    dtls.c: handle_handshake_msg; Machine.Answers and Machine.Switch have its cases,
--              Machine.Steps the steps that they are allowed, Machine.Entered a message that is handled
--              in another state than that of the peer, Machine.Traces the sequences of messages of a
--              handshake, and Machine.Queue what becomes of the buffered messages.
--   Flight     dtls.c: handle_handshake_msg with check_server_hello as its check of the ServerHello.
--   Receive    dtls.c: dtls_handle_message, hs_attempt_with_existing_peer.
--   Connect    dtls.c: dtls_connect, dtls_connect_peer, dtls_renegotiate, dtls_reset_peer,
--              dtls_free_context.
--   Netq       netq.c: the queue of packets to retransmit.
--   Session    posix/dtls-support.c: dtls_session_equals.
--   Peers      dtls-peer.c and the list operations of dtls.c.
--   Engine     dtls.c: dtls_send_multi, dtls_send, dtls_send_alert, dtls_close; Engine.Timer has
--              dtls_retransmit and dtls_check_retransmit, Engine.Alerts dtls_stop_retransmission,
--              dtls_destroy_peer, handle_alert and dtls_alert_send_from_err.
--   Base       helpers: tests on numbers, lists, bytes, bits. It models no code.
--   Tests      runs at concrete inputs.
--
-- How they meet: dtls_prepare_record takes the keys of a Security and seals with Ccm; the receiver
-- finds its own Security by the epoch of the header and opens with the keys of the other role.
-- dtls_send_multi prepares a record, copies handshake messages into the queue of Netq and calls the
-- write callback; the timer takes due packets from the queue and prepares them again.
--
-- State: a C function that changes an object is a function from the object to the object after the
-- call. A buffer is a list of bytes, NULL is `none`. A result of a C function that is `-n` is `err n`.
-- The heap of peers is a list of objects with their addresses, and a link is an address; a use of an
-- object that is not allocated is the result `none` of the functions of Engine.
--
-- dtls_verify_peer and calculate_key_block stand between the switch of the handshake, which is
-- Machine, and the layers below: the first makes and checks cookies with Hmac, the second fills the pending
-- Security with Prf, which params_switch then makes the current one.
--
-- A handshake message goes out through Fragments, which cuts it and sends each piece with
-- dtls_send_multi, and comes in through Reassembly and Reorder, which hand it to
-- handle_handshake_msg in the order of its sequence number. The heap of malloc is modelled where
-- Reassembly depends on it: a pointer is NULL, dangling, or leads to a block of bytes.
--
-- Receive takes a datagram apart into records, opens each with Record, and hands it to the handler of
-- its type. Machine is the function that Reorder takes for a message, for one role; its state has
-- the state of the peer and the negotiated suite next to the rest of the world, which only the
-- functions of Actions change.
--
-- Parameters: handle_handshake_msg in Reorder, for which Machine stands ready; the checks and the
-- sending that it calls, as the record Actions of Machine; the handlers of ChangeCipherSpec,
-- handshake messages and application data in Receive; the callback verify_ecdsa_key in Certificate; the sending
-- of hellos and the making of handshake parameters, as the record Start of Connect; the validation of a signature on the curve in
-- Signature; the block cipher and its key schedule, the hash, the write callback, the clock, the
-- PSK of the application and the outcome of allocations are arguments. What the code relies on in
-- them is IsCipher, IsKeySchedule, the laws of Hash and IsClock. A callback does not call the
-- engine again.
--
-- Fuel: the loops of Ccm and Prf run on the length of their input or output, which they shorten in
-- every round, as do those of Fragments and Extensions. The loop over the buffered messages runs on
-- the length of their queue, which each round shortens by one, since only handle_handshake adds to
-- it; a handler that keeps the queue is one parameter of that part, which Machine fills. The loop of dtls_check_retransmit runs on the length of the queue, and that over the records of a
-- datagram on the length of the datagram. The loop of dtls_free_context runs on the length of the
-- list of peers.
--
-- Not modelled: dtls_send_client_key_exchange and the other messages that are sent in a flight but
-- hellos, dtls_new_context, dtls_write, the generation of keys and signatures on elliptic curves, the
-- TESLA extension and the K2SN signatures; AES, SHA-2 and SHA-3, which are copies of other libraries;
-- sockets, logging and the ports to operating systems.
pub mod Alert
pub mod Base
pub mod Buffer
pub mod Ccm
pub mod Certificate
pub mod ClientHello
pub mod Connect
pub mod Cookie
pub mod EcKey
pub mod Engine
pub mod Extensions
pub mod Finished
pub mod Flight
pub mod Fragments
pub mod Hello
pub mod Hint
pub mod Hmac
pub mod Keys
pub mod Machine
pub mod Netq
pub mod Numeric
pub mod Peers
pub mod Prf
pub mod Reassembly
pub mod Receive
pub mod Record
pub mod Reorder
pub mod Security
pub mod Session
pub mod Signature
pub mod Tests
