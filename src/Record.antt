-- ===== src/Record.antt =====
-- The record layer of dtls.c (is_record, dtls_set_record_header, dtls_prepare_record,
-- decrypt_verify) and dtls_encrypt and dtls_decrypt of dtls-crypto.c under it. The key schedule of
-- the block cipher is the parameter `set_key`: `none` where rijndael_set_key_enc_only refuses the
-- key with -1. A buffer that the C code writes in place is a list; a packet keeps the header that
-- its sender wrote.
pub mod Layout
pub mod Seal
pub mod Capacity
pub mod Nonce
use gc2021_pqdtls.Base.{
  ℕ, zero, suc, ◌+◌, ◌-◌, ◌*◌, ◌%◌, ◌^◌, ltb, ◌==◌, if◌then◌else◌, Bool, true, false, ◌&&◌, ◌||◌,
  Option, none, some, List, [], ◌∷◌, ◌++◌, length, take, drop, replicate,
}
use gc2021_pqdtls.Numeric.{byte_at, int_to_uint8, int_to_uint16, int_to_uint48, uint16_to_int}
use gc2021_pqdtls.Alert.{Result, ok, err, alert_fatal_create, internal_error}
use gc2021_pqdtls.Ccm.{encrypt_message, decrypt_message}
use gc2021_pqdtls.Security.{
  Security, Role, Slots, tls_null_with_null_null, params_epoch, params_free_other, local_write_key,
  remote_write_key, local_iv, remote_iv,
}

abbrev pub rh_length : ℕ
rh_length = 13

abbrev pub dtls_version : ℕ
dtls_version = 0xfefd

abbrev pub SetKey : Type 0
SetKey = List ℕ → Option (List ℕ → List ℕ)

-- strchr(content_types, c), which finds the end marker too.
unfoldable pub is_content_type : ℕ → Bool
is_content_type c = (c == 20) || ((c == 21) || ((c == 22) || ((c == 23) || (c == 0))))

-- is_record: the length of the record at the start of `msg`, or 0.
unfoldable pub is_record : List ℕ → ℕ
unfolding is_content_type
is_record msg =
    let rlen = rh_length + uint16_to_int (drop 11 msg) in
    if ltb (length msg) rh_length
    then 0
    else if is_content_type (byte_at msg 0) && ((byte_at msg 1 == 0xfe) && (byte_at msg 2 == 0xfd))
    then if ltb (length msg) rlen then 0 else rlen
    else 0

abbrev count_record : Security → Security
count_record s = record s { rseq = (s.rseq + 1) % 2 ^ 64 }

-- dtls_set_record_header: the 13 bytes, and the parameters after the increment.
unfoldable pub set_record_header : ℕ → Option Security → List ℕ × Option Security
set_record_header type none =
    (int_to_uint8 type ++ int_to_uint16 dtls_version ++ replicate 8 0 ++ replicate 2 0, none)
set_record_header type (some s) = (
  int_to_uint8 type
      ++ int_to_uint16 dtls_version
      ++ int_to_uint16 s.epoch
      ++ int_to_uint48 s.rseq
      ++ replicate 2 0,
  some (count_record s),
)

abbrev encrypted : Option (List ℕ → List ℕ) → List ℕ → List ℕ → List ℕ → Result (List ℕ)
encrypted none nonce src aad = err 1
encrypted (some e) nonce src aad = ok (encrypt_message e 8 3 nonce src aad)

-- dtls_encrypt: CCM with M = 8 and L = 3.
unfoldable pub dtls_encrypt : SetKey → List ℕ → List ℕ → List ℕ → List ℕ → Result (List ℕ)
dtls_encrypt set_key key nonce src aad = encrypted (set_key key) nonce src aad

abbrev opened : Option (List ℕ) → Result (List ℕ)
opened none = err 1
opened (some out) = ok out

abbrev decrypted : Option (List ℕ → List ℕ) → List ℕ → List ℕ → List ℕ → Result (List ℕ)
decrypted none nonce src aad = err 1
decrypted (some e) nonce src aad = opened (decrypt_message e 8 3 nonce src aad)

-- dtls_decrypt
unfoldable pub dtls_decrypt : SetKey → List ℕ → List ℕ → List ℕ → List ℕ → Result (List ℕ)
dtls_decrypt set_key key nonce src aad = decrypted (set_key key) nonce src aad

abbrev prefixed : List ℕ → Result (List ℕ) → Result (List ℕ)
prefixed d (err n) = err n
prefixed d (ok rest) = ok (d ++ rest)

-- The loops that copy the payloads behind `res` bytes of the fragment, with their check.
unfoldable pub gather : ℕ → ℕ → List (List ℕ) → Result (List ℕ)
gather rlen res [] = ok []
gather rlen res (d ∷ ds) =
    let more = gather rlen (res + length d) ds in
    if ltb rlen (res + rh_length + length d)
    then err (alert_fatal_create internal_error)
    else prefixed d more

-- The 16 bytes of `nonce`: the IV, epoch and sequence number, zeros.
unfoldable pub record_nonce : List ℕ → List ℕ → List ℕ
record_nonce iv explicit = iv ++ take 8 explicit ++ replicate 4 0

-- A_DATA: epoch and sequence number, type and version, length.
unfoldable pub a_data : List ℕ → ℕ → List ℕ
a_data header len = take 8 (drop 3 header) ++ take 3 header ++ int_to_uint16 len

abbrev behind : List ℕ → Result (List ℕ) → Result (List ℕ)
behind explicit (err n) = err n
behind explicit (ok c) = ok (explicit ++ c)

-- The fragment of an encrypted record.
unfoldable pub seal : SetKey → Role → Security → List ℕ → Result (List ℕ) → Result (List ℕ)
seal set_key role s header (err n) = err n
seal set_key role s header (ok payload) =
    let explicit = take 8 (drop 3 header) in
    behind explicit (
      dtls_encrypt set_key (local_write_key s role) (record_nonce (local_iv s role) explicit)
        payload (a_data header (length payload)))

abbrev seal_peer : SetKey → Option Role → Security → List ℕ → ℕ → List (List ℕ) → Result (List ℕ)
seal_peer set_key none s header rlen payload = err (alert_fatal_create internal_error)
seal_peer set_key (some role) s header rlen payload =
    seal set_key role s header (gather rlen 8 payload)

unfoldable pub fragment :
    SetKey → Option Role → Option Security → List ℕ → ℕ → List (List ℕ) → Result (List ℕ)
fragment set_key role none header rlen payload = gather rlen 0 payload
fragment set_key role (some s) header rlen payload =
    if s.cipher == tls_null_with_null_null
    then gather rlen 0 payload
    else seal_peer set_key role s header rlen payload

abbrev with_length : List ℕ → Result (List ℕ) → Result (List ℕ)
with_length header (err n) = err n
with_length header (ok body) = ok (take 11 header ++ int_to_uint16 (length body) ++ body)

-- dtls_prepare_record: the record, or the error, and the parameters after it. `role` is `none`
-- where peer is NULL.
unfoldable pub prepare_record :
    SetKey
    → Option Role
    → Option Security
    → ℕ
    → List (List ℕ)
    → ℕ
    → Result (List ℕ) × Option Security
prepare_record set_key role security type payload rlen =
    let (header, after) = set_record_header type security in
    if ltb rlen rh_length
    then (err (alert_fatal_create internal_error), security)
    else (with_length header (fragment set_key role security header rlen payload), after)

-- The branch of decrypt_verify with a cipher; `cleartext` is the packet behind its header.
unfoldable pub unseal : SetKey → Role → Security → List ℕ → List ℕ → Result (List ℕ)
unseal set_key role s header cleartext =
    if ltb (length cleartext) 16
    then err 1
    else dtls_decrypt set_key (remote_write_key s role) (record_nonce (remote_iv s role) cleartext)
        (drop 8 cleartext) (a_data header (length cleartext - 8 - 8))

abbrev pub freed : Slots → Result (List ℕ) → Result (List ℕ) × Slots
freed p (err n) = (err n, p)
freed p (ok out) = (ok out, params_free_other p)

unfoldable pub verified : SetKey → Role → Slots → Option Security → List ℕ → Result (List ℕ) × Slots
verified set_key role p none packet = (err 1, p)
verified set_key role p (some s) packet =
    if s.cipher == tls_null_with_null_null
    then if ltb (length packet) rh_length
      then (err (rh_length - length packet), p)
      else (ok (drop rh_length packet), p)
    else freed p (unseal set_key role s packet (drop rh_length packet))

-- decrypt_verify: the cleartext, or the error, and the slots of the peer after it. A peer is its
-- role and its slots, `none` for NULL.
unfoldable pub decrypt_verify :
    SetKey → Option (Role × Slots) → List ℕ → Result (List ℕ) × Option Slots
decrypt_verify set_key none packet = (err (alert_fatal_create internal_error), none)
decrypt_verify set_key (some (role, p)) packet =
    let (result, after) =
      verified set_key role p (params_epoch p (uint16_to_int (drop 3 packet))) packet in
    (result, some after)
