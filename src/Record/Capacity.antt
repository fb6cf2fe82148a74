-- ===== src/Record/Capacity.antt =====
-- How much dtls_prepare_record writes, against the size of its buffer.
use gc2021_pqdtls.Base.{
  ℕ, ◌+◌, ◌%◌, ◌^◌, ◌<◌, ◌≤◌, ltb, ltb-false, lt→ltb, ◌==◌, if◌then◌else◌, Bool-cases, inl, inr,
  true, false, Option, some, List, [], ◌∷◌, ◌++◌, length, ◌≡◌, refl, ap, subst, arith,
  length-append, IsBytes,
}
use gc2021_pqdtls.Alert.{Result, ok, err, alert_fatal_create, internal_error}
use gc2021_pqdtls.Ccm.RoundTrip.{length-encrypt_message}
use gc2021_pqdtls.Security.{Security, Role, local_write_key}
use gc2021_pqdtls.Security.KeyBlock.{length-local_write_key}
use gc2021_pqdtls.Record.{SetKey, gather, seal, fragment, prepare_record, set_record_header}
use gc2021_pqdtls.Record.Layout.{packet, explicit, length-packet}
use gc2021_pqdtls.Record.Seal.{
  IsKeySchedule, concat, sealed, length-explicit, prepare_record-sealed,
}

-- An encrypted record, under a key block of 40 bytes, whose payloads of bytes pass the check is 29
-- bytes longer than they are: its length can exceed the size `rlen` of the buffer, which the check
-- compares with 21 bytes more than they are, but by no more than the 8 bytes of the MAC. The block
-- cipher must take every key of 16 bytes and write blocks of 16 bytes.
pub length-prepare_record :
    (set_key : SetKey) (schedule : IsKeySchedule set_key) (s : Security) (r : Role) (type : ℕ)
    (payload : List (List ℕ)) (rlen : ℕ)
    → (s.cipher == 0) ≡ false
    → length s.key_block ≡ 40
    → IsBytes (concat payload)
    → 21 + length (concat payload) ≤ rlen
    → (pkt : List ℕ) × ((prepare_record set_key (some r) (some s) type payload rlen).0 ≡ ok pkt)
      × (length pkt ≡ 29 + length (concat payload))
      × (length pkt ≤ rlen + 8)
length-prepare_record set_key schedule s r type payload rlen c k b fits =
    let (e, h, cipher) = schedule.scheduled (local_write_key s r) (length-local_write_key s r k) in
    let msg = concat payload in
    let body = explicit s ++ sealed e type s r msg in
    let n : length (sealed e type s r msg) ≡ length msg + 8 =
      length-encrypt_message e cipher 8 3 _ msg _ (omega arith) b in
    let head : length (explicit s) ≡ 8 = length-explicit s in
    let all : length (packet type (some s) body) ≡ 29 + length msg = omega (
      arith,
      length-packet type (some s) body,
      length-append (explicit s) (sealed e type s r msg),
    ) in
    (
      packet type (some s) body,
      ap (λ (t : Result (List ℕ) × Option Security). t.0)
          (prepare_record-sealed set_key e type s r payload rlen h c fits),
      all,
      omega arith,
    )

gather-err :
    (rlen res : ℕ) (d : List ℕ) (ds : List (List ℕ))
    → rlen < res + 13 + length (concat (d ∷ ds))
    → gather rlen res (d ∷ ds) ≡ err (alert_fatal_create internal_error)
unfolding gather
gather-err rlen res d [] h =
    let short : ltb rlen (res + 13 + length d) ≡ true =
      lt→ltb rlen (res + 13 + length d) (omega (arith, length-append d [])) in
    rw short refl
gather-err rlen res d (d' ∷ ds) h = elim (Bool-cases (ltb rlen (res + 13 + length d))) [
  | inl short ↦ rw short refl
  | inr long ↦
      rw
        (
          long,
          gather-err rlen (res + length d) d' ds
              (omega (arith, length-append d (concat (d' ∷ ds)))),
        )
        refl
]

fragment-err :
    (set_key : SetKey) (s : Security) (r : Role) (header d : List ℕ) (ds : List (List ℕ)) (rlen : ℕ)
    → rlen < (if s.cipher == 0 then 13 else 21) + length (concat (d ∷ ds))
    → fragment set_key (some r) (some s) header rlen (d ∷ ds)
      ≡ err (alert_fatal_create internal_error)
unfolding fragment seal
fragment-err set_key s r header d ds rlen h = elim (Bool-cases (s.cipher == 0)) [
  | inl plain ↦
      let short : rlen < 13 + length (concat (d ∷ ds)) =
        subst (λ t. rlen < (if t then 13 else 21) + length (concat (d ∷ ds))) plain h in
      rw (plain, gather-err rlen 0 d ds (omega arith)) refl
  | inr cipher ↦
      let short : rlen < 21 + length (concat (d ∷ ds)) =
        subst (λ t. rlen < (if t then 13 else 21) + length (concat (d ∷ ds))) cipher h in
      rw (cipher, gather-err rlen 8 d ds (omega arith)) refl
]

-- One payload or more that do not fit, with the 13 bytes of the header and the 8 of the explicit
-- nonce where there is a cipher, are refused with internal_error; the sequence number is used up
-- all the same where the header fits.
pub prepare_record-err :
    (set_key : SetKey) (s : Security) (r : Role) (type : ℕ) (d : List ℕ) (ds : List (List ℕ))
    (rlen : ℕ)
    → 13 ≤ rlen
    → rlen < (if s.cipher == 0 then 13 else 21) + length (concat (d ∷ ds))
    → prepare_record set_key (some r) (some s) type (d ∷ ds) rlen
      ≡ (err (alert_fatal_create internal_error), some (record s { rseq = (s.rseq + 1) % 2 ^ 64 }))
unfolding prepare_record set_record_header
prepare_record-err set_key s r type d ds rlen a h =
    let long : ltb rlen 13 ≡ false = ltb-false rlen 13 a in
    rw (long, fragment-err set_key s r _ d ds rlen h) refl
