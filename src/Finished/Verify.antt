-- ===== src/Finished/Verify.antt =====
-- check_finished against the verify_data of RFC 5246.
use mathlib.Core.List.{append-nil}
use gc2021_pqdtls.Base.{
  ℕ, ◌<◌, ◌≤◌, ltb, ltb→lt, ltb-false→le, if◌then◌else◌, true, false, Bool-cases, inl, inr, some,
  List, ◌++◌, length, take, drop, replicate, length-take, length-drop, length-append, take-all,
  drop-append, IsBytes, ◌≡◌, ◌↔◌, ◌≢◌, refl, ap, sym, ◌∙◌, arith,
}
use gc2021_pqdtls.Buffer.{equals}
use gc2021_pqdtls.Buffer.Laws.{equals_iff}
use gc2021_pqdtls.Alert.{Result, ok, err, alert_fatal_create, handshake_failure}
use gc2021_pqdtls.Hmac.{Hash}
use gc2021_pqdtls.Hmac.Standard.{rfc2104, length-rfc2104}
use gc2021_pqdtls.Prf.Standard.{expansion, prf-expansion}
use gc2021_pqdtls.Security.{Role, client, server}
use gc2021_pqdtls.Security.KeyBlock.{opposite}
use gc2021_pqdtls.Keys.{Memory, master_secret_length}
use gc2021_pqdtls.Finished.{
  fin_length, label_of, label_finished, label_client, label_server, verify_data, check_finished,
}

abbrev pub enough : Memory
enough = record { got_a = true; got_p = true }

true-false : true ≢ false
true-false e = ground arith

abbrev judged : List ℕ → List ℕ → Result ℕ
judged v msg =
    if ltb (length msg) 24
    then err (alert_fatal_create handshake_failure)
    else if equals (drop 12 msg) v 12
    then ok 0
    else err (alert_fatal_create handshake_failure)

accepted :
    (v msg : List ℕ)
    → length v ≡ 12
    → (judged v msg ≡ ok 0) ↔ ((24 ≤ length msg) × (take 12 (drop 12 msg) ≡ v))
accepted v msg h = elim (Bool-cases (ltb (length msg) 24)) [
  | inl e ↦
      let short : length msg < 24 = ltb→lt (length msg) 24 e in
      rw e (λ k. absurd (ground arith), λ (n, k). absurd (omega arith))
  | inr e ↦
      let long : 24 ≤ length msg = ltb-false→le (length msg) 24 e in
      let same = equals_iff (drop 12 msg) v 12 (omega (arith, length-drop 12 msg)) (omega arith) in
      let all : take 12 v ≡ v = take-all 12 v (omega arith) in
      elim (Bool-cases (equals (drop 12 msg) v 12)) [
        | inl f ↦ rw (e, f) (λ k. (long, same.0 f ∙ all), λ k. refl)
        | inr f ↦
            rw (e, f)
              (
                λ k. absurd (ground arith),
                λ (n, k). absurd (true-false (sym (same.1 (k ∙ sym all)) ∙ f)),
              )
      ]
]

module _ (h : Hash) where
  -- PRF(master_secret, label, hash) of RFC 5246, 12 bytes of it.
  abbrev pub rfc_verify_data : List ℕ → List ℕ → List ℕ → List ℕ
  rfc_verify_data master label digest =
      let seed = (label ++ label_finished) ++ digest in
      take fin_length (rfc2104 h master (rfc2104 h master seed ++ seed))

  verify_data-rfc :
      (tmp label digest : List ℕ)
      → IsBytes (take master_secret_length tmp)
      → verify_data h enough tmp label digest
        ≡ rfc_verify_data (take master_secret_length tmp) label digest
  unfolding verify_data expansion
  verify_data-rfc tmp label digest b =
      ap (λ (r : ℕ × List ℕ). r.1)
        (prf-expansion h (take master_secret_length tmp) b (some label) (some label_finished)
          (some digest) true true fin_length 1 (omega arith))
      ∙ ap (take fin_length) (append-nil _)

  length-rfc_verify_data :
      (master label digest : List ℕ) → length (rfc_verify_data master label digest) ≡ 12
  length-rfc_verify_data master label digest =
      let seed = (label ++ label_finished) ++ digest in
      length-take fin_length (rfc2104 h master (rfc2104 h master seed ++ seed))
      ∙ omega (arith, length-rfc2104 h master (rfc2104 h master seed ++ seed))

  -- The verify_data that a peer of this role expects: that of the other end.
  abbrev pub expected : Role → List ℕ → h.Ctx → List ℕ
  expected role tmp hs_hash =
      rfc_verify_data (take master_secret_length tmp) (label_of (opposite role))
        (h.finalize hs_hash)

  -- A Finished message is accepted exactly if it is long enough and holds the verify_data that RFC
  -- 5246 gives for the other end under the master secret and the handshake hash. There is memory for
  -- dtls_prf, and the master secret is bytes.
  pub check_finished_iff :
      (role : Role) (tmp msg : List ℕ) (hs_hash : h.Ctx)
      → IsBytes (take master_secret_length tmp)
      → (check_finished h enough role (some (tmp, hs_hash)) msg ≡ ok 0)
        ↔ ((24 ≤ length msg) × (take 12 (drop 12 msg) ≡ expected role tmp hs_hash))
  unfolding check_finished
  check_finished_iff client tmp msg hs_hash b =
      rw (verify_data-rfc tmp label_server (h.finalize hs_hash) b) (
        accepted (rfc_verify_data (take master_secret_length tmp) label_server (h.finalize hs_hash))
          msg
          (length-rfc_verify_data (take master_secret_length tmp) label_server
            (h.finalize hs_hash)))
  check_finished_iff server tmp msg hs_hash b =
      rw (verify_data-rfc tmp label_client (h.finalize hs_hash) b) (
        accepted (rfc_verify_data (take master_secret_length tmp) label_client (h.finalize hs_hash))
          msg
          (length-rfc_verify_data (take master_secret_length tmp) label_client
            (h.finalize hs_hash)))

  verify_data_no_memory :
      (m : Memory) (tmp label digest : List ℕ)
      → m.got_a ≡ false
      → IsBytes (take master_secret_length tmp)
      → verify_data h m tmp label digest ≡ replicate 12 0
  unfolding verify_data
  verify_data_no_memory m tmp label digest h1 b =
      ap (λ (r : ℕ × List ℕ). r.1)
        (prf-expansion h (take master_secret_length tmp) b (some label) (some label_finished)
          (some digest) m.got_a m.got_p fin_length 1 (omega arith))
      ∙ rw h1 refl

  zeros_accepted :
      (head : List ℕ) → length head ≡ 12 → judged (replicate 12 0) (head ++ replicate 12 0) ≡ ok 0
  unfolding equals
  zeros_accepted head e =
      let size : length (head ++ replicate 12 0) ≡ 24 =
        length-append head (replicate 12 0) ∙ omega arith in
      rw (size, drop-append 12 head (replicate 12 0) e) refl

  -- Where dtls_prf finds no memory its result is not looked at, and a Finished message of twelve zeros
  -- is accepted, whatever was agreed.
  pub check_finished_no_memory :
      (m : Memory) (role : Role) (tmp head : List ℕ) (hs_hash : h.Ctx)
      → m.got_a ≡ false
      → IsBytes (take master_secret_length tmp)
      → length head ≡ 12
      → check_finished h m role (some (tmp, hs_hash)) (head ++ replicate 12 0) ≡ ok 0
  unfolding check_finished
  check_finished_no_memory m client tmp head hs_hash h1 b h2 =
      rw (verify_data_no_memory m tmp label_server (h.finalize hs_hash) h1 b)
        (zeros_accepted head h2)
  check_finished_no_memory m server tmp head hs_hash h1 b h2 =
      rw (verify_data_no_memory m tmp label_client (h.finalize hs_hash) h1 b)
        (zeros_accepted head h2)
