-- ===== src/Prf/Standard.antt =====
-- dtls_p_hash, dtls_prf and dtls_mac against RFC 5246.
use mathlib.Core.List.{append-nil, append_assoc}
use native.Mathlib.Nat.{sub-eq-zero_of_le}
use gc2021_pqdtls.Base.{
  ℕ, zero, suc, ◌+◌, ◌-◌, ◌*◌, ◌≤◌, ltb, ltb→lt, ltb-false→le, ltb-false, ◌&&◌, take-append_le,
  take-append_ge, if◌then◌else◌, ◌≡◌, refl, sym, ap, ◌∙◌, List, [], ◌++◌, Option, none, some, Bool,
  true, false, length, take, drop, replicate, IsBytes, arith, Bool-cases, inl, inr, length-append,
  length-replicate,
}
use gc2021_pqdtls.Numeric.{int_to_uint16}
use gc2021_pqdtls.Hmac.{Hash, Context, hmac_init, hmac_new, hmac_update, hmac_finalize}
use gc2021_pqdtls.Hmac.Standard.{
  rfc2104, holding, hmac_init-holding, hmac_update-holding, hmac_finalize-holding, length-rfc2104,
}
use gc2021_pqdtls.Prf.{
  update_seed, update_seeds, p_block, next_a, p_hash_loop, p_hash, prf, dtls_mac,
}

-- The bytes of a seed, none for NULL.
abbrev pub bytes_of : Option (List ℕ) → List ℕ
bytes_of none = []
bytes_of (some xs) = xs

module _ (h : Hash) (key : List ℕ) (key_bytes : IsBytes key) where
  abbrev hmac : List ℕ → List ℕ
  hmac = rfc2104 h key

  update_seed-holding :
      (text : List ℕ) (seed : Option (List ℕ))
      → update_seed h (holding h key text) seed ≡ holding h key (text ++ bytes_of seed)
  unfolding update_seed
  update_seed-holding text none = ap (holding h key) (sym (append-nil text))
  update_seed-holding text (some xs) = hmac_update-holding h key text xs

  module _ (label random1 random2 : Option (List ℕ)) where
    -- label + random1 + random2
    abbrev seeds : List ℕ
    seeds = (bytes_of label ++ bytes_of random1) ++ bytes_of random2

    -- P_hash of RFC 5246: HMAC(A(1) + seed) + HMAC(A(2) + seed) + ..., from A(1) on.
    unfoldable pub expansion : ℕ → List ℕ → List ℕ
    expansion zero a = []
    expansion (suc n) a = hmac (a ++ seeds) ++ expansion n (hmac a)

    update_seeds-holding :
        (text : List ℕ)
        → update_seeds h (holding h key text) label random1 random2 ≡ holding h key (text ++ seeds)
    update_seeds-holding text =
        ap (λ c. update_seed h (update_seed h c random1) random2) (update_seed-holding text label)
        ∙ ap (λ c. update_seed h c random2) (update_seed-holding (text ++ bytes_of label) random1)
        ∙ update_seed-holding ((text ++ bytes_of label) ++ bytes_of random1) random2
        ∙ ap (holding h key) (
            append_assoc (text ++ bytes_of label) (bytes_of random1) (bytes_of random2)
            ∙ append_assoc text (bytes_of label) (bytes_of random1 ++ bytes_of random2)
            ∙ ap (λ t. text ++ t)
                (sym (append_assoc (bytes_of label) (bytes_of random1) (bytes_of random2))))

    fed : (a : List ℕ) → hmac_update h (hmac_init h key) a ≡ holding h key a
    fed a =
        ap (λ c. hmac_update h c a) (hmac_init-holding h key key_bytes)
        ∙ hmac_update-holding h key [] a

    p_block-hmac : (a : List ℕ) → p_block h key a label random1 random2 ≡ hmac (a ++ seeds)
    unfolding p_block
    p_block-hmac a =
        ap (λ c. (hmac_finalize h (update_seeds h c label random1 random2)).0) (fed a)
        ∙ ap (λ c. (hmac_finalize h c).0) (update_seeds-holding a)
        ∙ hmac_finalize-holding h key (a ++ seeds)

    next_a-hmac : (a : List ℕ) → next_a h key a ≡ hmac a
    unfolding next_a
    next_a-hmac a = ap (λ c. (hmac_finalize h c).0) (fed a) ∙ hmac_finalize-holding h key a

    -- The loop writes as much of the expansion as the buffer still has room for.
    p_hash_loop-expansion :
        (fuel n : ℕ) (a : List ℕ) (buflen : ℕ) (buf : List ℕ)
        → length a ≡ 32
        → buflen ≤ length buf + 32 * fuel
        → buflen ≤ length buf + 32 * n
        → p_hash_loop h fuel key a label random1 random2 buflen buf
          ≡ buf ++ take (buflen - length buf) (expansion n a)
    unfolding p_hash_loop expansion
    p_hash_loop-expansion zero n a buflen buf l p q =
        sym (rw (sub-eq-zero_of_le p') (append-nil buf))
      where
        p' : buflen ≤ length buf
        p' = omega arith
    p_hash_loop-expansion (suc fuel) zero a buflen buf l p q = rw (
      ltb-false (length buf + length a) buflen (omega arith),
      sub-eq-zero_of_le {n = buflen} {m = length buf} (omega arith),
    )
    p_hash_loop-expansion (suc fuel) (suc n) a buflen buf l p q =
        let t = hmac (a ++ seeds) in
        let len : length t ≡ 32 = length-rfc2104 h key (a ++ seeds) in
        elim (Bool-cases (ltb (length buf + length a) buflen)) [
          | inl more ↦
              let long = ltb→lt (length buf + length a) buflen more in
              rw (more, p_block-hmac a, next_a-hmac a)
                (p_hash_loop-expansion fuel n (hmac a) buflen (buf ++ t) (length-rfc2104 h key a)
                    (omega (arith, length-append buf t)) (omega (arith, length-append buf t))
                  ∙ append_assoc buf t (take (buflen - length (buf ++ t)) (expansion n (hmac a)))
                  ∙ ap (λ r. buf ++ r)
                      (ap (λ (k : ℕ). t ++ take k (expansion n (hmac a)))
                          (omega (arith, length-append buf t))
                        ∙ sym (
                            take-append_ge (buflen - length buf) t (expansion n (hmac a))
                              (omega arith))))
          | inr last ↦
              let short = ltb-false→le (length buf + length a) buflen last in
              rw (last, p_block-hmac a)
                (ap (λ r. buf ++ r)
                  (sym
                    (take-append_le (buflen - length buf) t (expansion n (hmac a)) (omega arith))))
        ]

    first_a :
        (hmac_finalize h (update_seeds h (hmac_init h key) label random1 random2)).0 ≡ hmac seeds
    first_a =
        ap (λ c. (hmac_finalize h (update_seeds h c label random1 random2)).0)
          (hmac_init-holding h key key_bytes)
        ∙ ap (λ c. (hmac_finalize h c).0) (update_seeds-holding [])
        ∙ hmac_finalize-holding h key seeds

    pub p_hash-expansion :
        (buf : List ℕ) (n : ℕ)
        → length buf ≤ 32 * n
        → p_hash h true true key label random1 random2 buf
          ≡ (length buf, take (length buf) (expansion n (hmac seeds)))
    unfolding p_hash hmac_new
    p_hash-expansion buf n q = rw first_a (
        ap (λ (r : List ℕ). (length buf, r))
          (p_hash_loop-expansion (suc (length buf)) n (hmac seeds) (length buf) []
              (length-rfc2104 h key seeds) (omega arith) (omega arith)
            ∙ ap (λ (k : ℕ). take k (expansion n (hmac seeds))) (omega arith)))

    -- dtls_prf on every branch, for a key of bytes. With memory for both contexts it writes the
    -- first `buflen` bytes of the expansion of RFC 5246, for any number of blocks that is enough.
    -- Without memory the buffer holds zeros, and the result is 0 or, if only the second context is
    -- missing, `buflen`.
    pub prf-expansion :
        (got_a got_p : Bool) (buflen n : ℕ)
        → buflen ≤ 32 * n
        → prf h got_a got_p key label random1 random2 buflen ≡ (
          (if got_a then buflen else 0),
          (if got_a && got_p then take buflen (expansion n (hmac seeds)) else replicate buflen 0),
        )
    unfolding prf
    prf-expansion true true buflen n q =
        p_hash-expansion (replicate buflen 0) n (omega (arith, length-replicate {A = ℕ} buflen 0))
        ∙ ap (λ (k : ℕ). (k, take k (expansion n (hmac seeds)))) (length-replicate {A = ℕ} buflen 0)
    prf-expansion true false buflen n q =
        unfold p_hash hmac_new in
        ap (λ (k : ℕ). (k, replicate {A = ℕ} buflen 0)) (length-replicate {A = ℕ} buflen 0)
    prf-expansion false true buflen n q = unfold p_hash hmac_new in refl
    prf-expansion false false buflen n q = unfold p_hash hmac_new in refl

  -- dtls_mac computes the MAC of RFC 5246 under a key of bytes: the HMAC of epoch and sequence
  -- number, type and version, length, and the packet.
  pub dtls_mac-rfc2104 :
      (record_header packet : List ℕ)
      → dtls_mac h (hmac_init h key) record_header packet
        ≡ rfc2104 h key (
            ((take 8 (drop 3 record_header) ++ take 3 record_header)
              ++ int_to_uint16 (length packet))
            ++ packet)
  unfolding dtls_mac
  dtls_mac-rfc2104 record_header packet =
      let a = take 8 (drop 3 record_header) in
      let b = take 3 record_header in
      let c = int_to_uint16 (length packet) in
      let up = λ (t : Context h).
        hmac_update h (hmac_update h (hmac_update h (hmac_update h t a) b) c) packet in
      ap (λ t. (hmac_finalize h (up t)).0) (hmac_init-holding h key key_bytes)
      ∙ ap (λ t. (hmac_finalize h t).0)
          (ap (λ t. hmac_update h (hmac_update h (hmac_update h t b) c) packet)
              (hmac_update-holding h key [] a)
            ∙ ap (λ t. hmac_update h (hmac_update h t c) packet) (hmac_update-holding h key a b)
            ∙ ap (λ t. hmac_update h t packet) (hmac_update-holding h key (a ++ b) c)
            ∙ hmac_update-holding h key ((a ++ b) ++ c) packet)
      ∙ hmac_finalize-holding h key (((a ++ b) ++ c) ++ packet)
