-- ===== src/Record/Seal.antt =====
-- What one end prepares, the other end verifies and reads, with a cipher and without one.

use gc2021_pqdtls.Base.{
  ℕ, ◌+◌, ◌-◌, ◌%◌, ◌^◌, ◌<◌, ◌≤◌, ltb, ltb-false, ◌==◌, true, false, Option, some, List, [], ◌∷◌,
  ◌++◌, length, drop, ◌≡◌, refl, arith, length-append, drop-append, IsBytes,
}
use gc2021_pqdtls.Numeric.{int_to_uint16, int_to_uint48}
use gc2021_pqdtls.Alert.{ok}
use gc2021_pqdtls.Ccm.{encrypt_message}
use gc2021_pqdtls.Ccm.Cipher.{IsCipher}
use gc2021_pqdtls.Ccm.RoundTrip.{decrypt-encrypt_message, length-encrypt_message}
use gc2021_pqdtls.Security.{
  Security, Role, client, server, Slots, params_epoch, params_free_other, local_write_key,
  remote_write_key, local_iv, remote_iv,
}
use gc2021_pqdtls.Security.KeyBlock.{opposite, remote-local, length-local_write_key}
use gc2021_pqdtls.Record.{
  SetKey, set_record_header, dtls_encrypt, dtls_decrypt, gather, record_nonce, a_data, seal,
  fragment, prepare_record, unseal, verified, decrypt_verify,
}
use gc2021_pqdtls.Record.Layout.{
  header, packet, explicit, header-explicit, packet-explicit, packet-type, drop-packet,
  length-packet, packet-epoch,
}

-- What the code relies on in rijndael_set_key_enc_only: it takes every key of 16 bytes.
pub record IsKeySchedule (set_key : SetKey) : Type 0 where
  pub scheduled :
      (key : List ℕ) → length key ≡ 16 → (e : List ℕ → List ℕ) × (set_key key ≡ some e) × IsCipher e

abbrev pub concat : List (List ℕ) → List ℕ
concat [] = []
concat (d ∷ ds) = d ++ concat ds

-- The payloads fit behind the header and `res` bytes.
pub gather-concat :
    (rlen res : ℕ) (payload : List (List ℕ))
    → res + 13 + length (concat payload) ≤ rlen
    → gather rlen res payload ≡ ok (concat payload)
unfolding gather
gather-concat rlen res [] h = refl
gather-concat rlen res (d ∷ ds) h =
    let fits : ltb rlen (res + 13 + length d) ≡ false =
      ltb-false rlen (res + 13 + length d) (omega (arith, length-append d (concat ds))) in
    rw (fits, gather-concat rlen (res + length d) ds (omega (arith, length-append d (concat ds))))
      refl

pub length-explicit : (s : Security) → length (explicit s) ≡ 8
unfolding int_to_uint16 int_to_uint48
length-explicit s = refl

-- The ciphertext of a record under the key and the IV of the sender.
abbrev pub sealed : (List ℕ → List ℕ) → ℕ → Security → Role → List ℕ → List ℕ
sealed e type s r msg =
    encrypt_message e 8 3 (record_nonce (local_iv s r) (explicit s)) msg
      (a_data (header type (some s)) (length msg))

pub seal-ok :
    (set_key : SetKey) (e : List ℕ → List ℕ) (type : ℕ) (s : Security) (r : Role) (msg : List ℕ)
    → set_key (local_write_key s r) ≡ some e
    → seal set_key r s (header type (some s)) (ok msg) ≡ ok (explicit s ++ sealed e type s r msg)
unfolding seal dtls_encrypt
seal-ok set_key e type s r msg h = rw (header-explicit type s, h) refl

nonce_take :
    (iv : List ℕ) (s : Security) (c : List ℕ)
    → record_nonce iv (explicit s ++ c) ≡ record_nonce iv (explicit s)
unfolding record_nonce int_to_uint16 int_to_uint48
nonce_take iv s c = refl

a_data-packet :
    (type : ℕ) (s : Security) (body : List ℕ) (n : ℕ)
    → a_data (packet type (some s) body) n ≡ a_data (header type (some s)) n
unfolding a_data
a_data-packet type s body n =
    rw (packet-explicit type s body, header-explicit type s, packet-type type (some s) body) refl

unseal-sealed :
    (set_key : SetKey) (e : List ℕ → List ℕ) (type : ℕ) (s : Security) (r : Role) (msg : List ℕ)
    → set_key (local_write_key s r) ≡ some e
    → IsCipher e
    → IsBytes msg
    → unseal set_key
        (opposite r)
        s
        (packet type (some s) (explicit s ++ sealed e type s r msg))
        (explicit s ++ sealed e type s r msg)
      ≡ ok msg
unfolding unseal dtls_decrypt
unseal-sealed set_key e type s r msg h cipher b =
    let c = sealed e type s r msg in
    let (key, iv) = remote-local s r in
    let aad = a_data (header type (some s)) (length msg) in
    let nonce = record_nonce (local_iv s r) (explicit s) in
    let n : length c ≡ length msg + 8 =
      length-encrypt_message e cipher 8 3 nonce msg aad (omega arith) b in
    let all : length (explicit s ++ c) ≡ length msg + 16 =
      omega (arith, length-append (explicit s) c, length-explicit s) in
    let long : ltb (length msg + 16) 16 ≡ false = ltb-false (length msg + 16) 16 (omega arith) in
    let plain : length msg + 16 - 8 - 8 ≡ length msg = omega arith in
    rw
      (
        a_data-packet type s (explicit s ++ c) (length (explicit s ++ c) - 8 - 8),
        all,
        long,
        key,
        h,
        iv,
        nonce_take (local_iv s r) s c,
        drop-append 8 (explicit s) c (length-explicit s),
        plain,
        decrypt-encrypt_message e cipher 8 3 nonce msg aad (omega arith) b,
      )
      refl

pub prepare_record-sealed :
    (set_key : SetKey) (e : List ℕ → List ℕ) (type : ℕ) (s : Security) (r : Role)
    (payload : List (List ℕ)) (rlen : ℕ)
    → set_key (local_write_key s r) ≡ some e
    → (s.cipher == 0) ≡ false
    → 21 + length (concat payload) ≤ rlen
    → prepare_record set_key (some r) (some s) type payload rlen ≡ (
      ok (packet type (some s) (explicit s ++ sealed e type s r (concat payload))),
      some (record s { rseq = (s.rseq + 1) % 2 ^ 64 }),
    )
unfolding prepare_record fragment set_record_header
prepare_record-sealed set_key e type s r payload rlen h c fits =
    let long : ltb rlen 13 ≡ false = ltb-false rlen 13 (omega arith) in
    rw
      (
        long,
        c,
        gather-concat rlen 8 payload (omega arith),
        seal-ok set_key e type s r (concat payload) h,
      )
      refl

verified-sealed :
    (set_key : SetKey) (p : Slots) (s : Security) (n : ℕ) (r : Role) (pkt body msg : List ℕ)
    → (s.cipher == 0) ≡ false
    → drop 13 pkt ≡ body
    → unseal set_key r s pkt body ≡ ok msg
    → verified set_key r p (some (record s { rseq = n })) pkt ≡ (ok msg, params_free_other p)
unfolding verified unseal remote_write_key remote_iv
verified-sealed set_key p s n client pkt body msg c h u = rw (c, h, u) refl
verified-sealed set_key p s n server pkt body msg c h u = rw (c, h, u) refl

-- An encrypted record that one end prepares from payloads of bytes that fit, in an epoch of 16
-- bits and under a key block of 40 bytes, is verified by the other end, in the slot that holds the
-- same parameters but for the sequence number, and reads back as the payloads one after the other.
-- The sender's sequence number goes up by one, and the receiver frees its other slot. The block
-- cipher must take every key of 16 bytes and write blocks of 16 bytes.
pub decrypt_verify-prepare_record :
    (set_key : SetKey) (schedule : IsKeySchedule set_key) (s : Security) (r : Role) (type : ℕ)
    (payload : List (List ℕ)) (rlen : ℕ) (p : Slots) (n : ℕ)
    → s.epoch < 2 ^ 16
    → (s.cipher == 0) ≡ false
    → length s.key_block ≡ 40
    → IsBytes (concat payload)
    → 21 + length (concat payload) ≤ rlen
    → params_epoch p s.epoch ≡ some (record s { rseq = n })
    → (pkt : List ℕ) × (prepare_record set_key (some r) (some s) type payload rlen
        ≡ (ok pkt, some (record s { rseq = (s.rseq + 1) % 2 ^ 64 })))
      × (decrypt_verify set_key (some (opposite r, p)) pkt
          ≡ (ok (concat payload), some (params_free_other p)))
unfolding decrypt_verify
decrypt_verify-prepare_record set_key schedule s r type payload rlen p n ep c k b fits found =
    let (e, h, cipher) = schedule.scheduled (local_write_key s r) (length-local_write_key s r k) in
    let body = explicit s ++ sealed e type s r (concat payload) in
    let pkt = packet type (some s) body in
    let same : s.epoch % 2 ^ 16 ≡ s.epoch = omega arith in
    (
      pkt,
      prepare_record-sealed set_key e type s r payload rlen h c fits,
      rw
          (
            packet-epoch type s body,
            same,
            found,
            verified-sealed set_key p s n (opposite r) pkt body (concat payload) c
                (drop-packet type (some s) body)
                (unseal-sealed set_key e type s r (concat payload) h cipher b),
          )
          refl,
    )

prepare_record-plain :
    (set_key : SetKey) (type : ℕ) (s : Security) (role : Option Role) (payload : List (List ℕ))
    (rlen : ℕ)
    → (s.cipher == 0) ≡ true
    → 13 + length (concat payload) ≤ rlen
    → prepare_record set_key role (some s) type payload rlen ≡ (
      ok (packet type (some s) (concat payload)),
      some (record s { rseq = (s.rseq + 1) % 2 ^ 64 }),
    )
unfolding prepare_record fragment set_record_header
prepare_record-plain set_key type s role payload rlen c fits =
    let long : ltb rlen 13 ≡ false = ltb-false rlen 13 (omega arith) in
    rw (long, c, gather-concat rlen 0 payload (omega arith)) refl

-- Without a cipher, in an epoch of 16 bits, the record of payloads that fit is the header and the
-- payloads, and an end that holds the same parameters reads them back with its slots as they were.
pub decrypt_verify-prepare_record_null :
    (set_key : SetKey) (s : Security) (role : Option Role) (r : Role) (type : ℕ)
    (payload : List (List ℕ)) (rlen : ℕ) (p : Slots) (n : ℕ)
    → s.epoch < 2 ^ 16
    → (s.cipher == 0) ≡ true
    → 13 + length (concat payload) ≤ rlen
    → params_epoch p s.epoch ≡ some (record s { rseq = n })
    → (pkt : List ℕ) × (prepare_record set_key role (some s) type payload rlen
        ≡ (ok pkt, some (record s { rseq = (s.rseq + 1) % 2 ^ 64 })))
      × (decrypt_verify set_key (some (r, p)) pkt ≡ (ok (concat payload), some p))
unfolding decrypt_verify verified
decrypt_verify-prepare_record_null set_key s role r type payload rlen p n ep c fits found =
    let pkt = packet type (some s) (concat payload) in
    let whole : ltb (length pkt) 13 ≡ false =
      ltb-false (length pkt) 13 (omega (arith, length-packet type (some s) (concat payload))) in
    let same : s.epoch % 2 ^ 16 ≡ s.epoch = omega arith in
    (
      pkt,
      prepare_record-plain set_key type s role payload rlen c fits,
      rw
          (
            packet-epoch type s (concat payload),
            same,
            found,
            c,
            whole,
            drop-packet type (some s) (concat payload),
          )
          refl,
    )
