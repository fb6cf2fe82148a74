-- ===== src/Prf.antt =====
-- dtls-crypto.c: the key derivation of TLS 1.2 (RFC 5246, section 5) over the HMAC of dtls-hmac.c,
-- the MAC of a record, and the premaster secret of a pre-shared key (RFC 4279).
pub mod Standard
pub mod Psk
use gc2021_pqdtls.Base.{
  ℕ, zero, suc, ◌+◌, ◌-◌, ◌*◌, ltb, if◌then◌else◌, List, [], ◌∷◌, ◌++◌, Option, none, some, Bool,
  true, false, length, take, drop, replicate,
}
use gc2021_pqdtls.Numeric.{int_to_uint16}
use gc2021_pqdtls.Hmac.{Hash, Context, hmac_init, hmac_new, hmac_update, hmac_finalize}

module _ (h : Hash) where
  -- HMAC_UPDATE_SEED: a seed that is NULL is skipped.
  unfoldable pub update_seed : Context h → Option (List ℕ) → Context h
  update_seed ctx none = ctx
  update_seed ctx (some seed) = hmac_update h ctx seed

  abbrev pub update_seeds :
      Context h → Option (List ℕ) → Option (List ℕ) → Option (List ℕ) → Context h
  update_seeds ctx label random1 random2 =
      update_seed (update_seed (update_seed ctx label) random1) random2

  -- One block of output: the HMAC of A and the seeds.
  p_block : List ℕ → List ℕ → Option (List ℕ) → Option (List ℕ) → Option (List ℕ) → List ℕ
  unfolding update_seed
  p_block key a label random1 random2 =
      (hmac_finalize h (update_seeds (hmac_update h (hmac_init h key) a) label random1 random2)).0

  -- A(i + 1) from A(i).
  next_a : List ℕ → List ℕ → List ℕ
  next_a key a = (hmac_finalize h (hmac_update h (hmac_init h key) a)).0

  -- `while (len + dlen < buflen)` and the last, cut block, on fuel; the buffer is what was written
  -- so far.
  p_hash_loop :
      ℕ
      → List ℕ
      → List ℕ
      → Option (List ℕ)
      → Option (List ℕ)
      → Option (List ℕ)
      → ℕ
      → List ℕ
      → List ℕ
  p_hash_loop zero key a label random1 random2 buflen buf = buf
  p_hash_loop (suc fuel) key a label random1 random2 buflen buf =
      let tmp = p_block key a label random1 random2 in
      let more = p_hash_loop fuel key (next_a key a) label random1 random2 buflen (buf ++ tmp) in
      if ltb (length buf + length a) buflen then more else buf ++ take (buflen - length buf) tmp

  -- dtls_p_hash: its result, and the `buflen` bytes at `buf`. The two Booleans say whether
  -- dtls_hmac_new found memory for hmac_a and for hmac_p.
  pub p_hash :
      Bool
      → Bool
      → List ℕ
      → Option (List ℕ)
      → Option (List ℕ)
      → Option (List ℕ)
      → List ℕ
      → ℕ × List ℕ
  p_hash got_a got_p key label random1 random2 buf = elim (hmac_new h got_a key) [
    | none ↦ (0, buf)
    | some hmac_a ↦
        let a = (hmac_finalize h (update_seeds hmac_a label random1 random2)).0 in
        elim (hmac_new h got_p key) [
          | none ↦ (length buf, buf)
          | some _ ↦ (
            length buf,
            p_hash_loop (suc (length buf)) key a label random1 random2 (length buf) [],
          )
        ]
  ]

  -- dtls_prf clears the buffer first.
  pub prf :
      Bool → Bool → List ℕ → Option (List ℕ) → Option (List ℕ) → Option (List ℕ) → ℕ → ℕ × List ℕ
  prf got_a got_p key label random1 random2 buflen =
      p_hash got_a got_p key label random1 random2 (replicate buflen 0)

  -- dtls_mac: sequence number and epoch, type and version, length, then the packet.
  pub dtls_mac : Context h → List ℕ → List ℕ → List ℕ
  dtls_mac ctx record_header packet =
      let c1 = hmac_update h ctx (take 8 (drop 3 record_header)) in
      let c2 = hmac_update h c1 (take 3 record_header) in
      let c3 = hmac_update h c2 (int_to_uint16 (length packet)) in
      (hmac_finalize h (hmac_update h c3 packet)).0

-- dtls_psk_pre_master_secret: `none` is -1, and the length of the list is the result.
unfoldable pub psk_pre_master_secret : List ℕ → ℕ → Option (List ℕ)
psk_pre_master_secret key result_len =
    let head = int_to_uint16 (length key) in
    if ltb result_len (2 * (2 + length key))
    then none
    else some (head ++ (replicate (length key) 0 ++ (head ++ key)))
