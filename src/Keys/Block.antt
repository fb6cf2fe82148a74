-- ===== src/Keys/Block.antt =====
-- The key block against RFC 5246, and both ends of a connection that derive it from one secret.
use gc2021_pqdtls.Base.{
  ℕ, zero, suc, ◌+◌, ◌*◌, ◌%◌, ◌^◌, ◌≤◌, ltb, ltb-false, true, false, Option, some, List, ◌++◌,
  length, take, replicate, length-append, length-take, IsBytes, append-IsBytes, take-IsBytes,
  replicate-IsBytes, ◌≡◌, refl, ap, ◌∙◌, arith,
}
use gc2021_pqdtls.Numeric.{int_to_uint16}
use gc2021_pqdtls.Alert.{ok}
use gc2021_pqdtls.Hmac.{Hash}
use gc2021_pqdtls.Hmac.Standard.{rfc2104, length-rfc2104, rfc2104-IsBytes}
use gc2021_pqdtls.Prf.{prf, psk_pre_master_secret}
use gc2021_pqdtls.Prf.Standard.{expansion, prf-expansion}
use gc2021_pqdtls.Security.{Security, params_next, security_new}
use gc2021_pqdtls.Security.Epochs.{current}
use gc2021_pqdtls.Keys.{
  client_random, server_random, with_master, label_master, label_key, Handshake, Memory, master_of,
  key_block_of, pre_master_secret, calculate_key_block,
}

-- The PRF of RFC 5246: the first `len` bytes of P_hash over label and seeds, for a length of at most
-- two blocks.
abbrev pub rfc5246_prf :
    (h : Hash) (key : List ℕ) → IsBytes key → List ℕ → List ℕ → List ℕ → ℕ → List ℕ
rfc5246_prf h key b label seed1 seed2 len = take len (
    expansion h key b (some label) (some seed1) (some seed2) 2
      (rfc2104 h key ((label ++ seed1) ++ seed2)))

module _ (h : Hash) (key : List ℕ) (b : IsBytes key) (label seed1 seed2 : List ℕ) where
  length-expansion :
      (n : ℕ) (a : List ℕ)
      → length (expansion h key b (some label) (some seed1) (some seed2) n a) ≡ 32 * n
  unfolding expansion
  length-expansion zero a = refl
  length-expansion (suc n) a =
      let block = rfc2104 h key (a ++ ((label ++ seed1) ++ seed2)) in
      let rest = expansion h key b (some label) (some seed1) (some seed2) n (rfc2104 h key a) in
      omega (
        arith,
        length-append block rest,
        length-rfc2104 h key (a ++ ((label ++ seed1) ++ seed2)),
        length-expansion n (rfc2104 h key a),
      )

  expansion-IsBytes :
      (n : ℕ) (a : List ℕ) → IsBytes (expansion h key b (some label) (some seed1) (some seed2) n a)
  unfolding expansion
  expansion-IsBytes zero a = tt
  expansion-IsBytes (suc n) a =
      append-IsBytes _ _ (rfc2104-IsBytes h key _) (expansion-IsBytes n (rfc2104 h key a))

  pub length-rfc5246_prf :
      (len : ℕ) → len ≤ 64 → length (rfc5246_prf h key b label seed1 seed2 len) ≡ len
  length-rfc5246_prf len le =
      let stream =
        expansion h key b (some label) (some seed1) (some seed2) 2
          (rfc2104 h key ((label ++ seed1) ++ seed2)) in
      omega (arith, length-take len stream, length-expansion 2 _)

  pub rfc5246_prf-IsBytes : (len : ℕ) → IsBytes (rfc5246_prf h key b label seed1 seed2 len)
  rfc5246_prf-IsBytes len = take-IsBytes len _ (expansion-IsBytes 2 _)

  pub prf-rfc5246 :
      (len : ℕ)
      → len ≤ 64
      → (prf h true true key (some label) (some seed1) (some seed2) len).1
        ≡ rfc5246_prf h key b label seed1 seed2 len
  prf-rfc5246 len le =
      ap (λ (r : ℕ × List ℕ). r.1)
        (prf-expansion h key b (some label) (some seed1) (some seed2) true true len 2 (omega arith))

-- The premaster secret of RFC 4279.
abbrev pub psk_secret_of : List ℕ → List ℕ
psk_secret_of psk =
    int_to_uint16 (length psk) ++ (replicate (length psk) 0 ++ (int_to_uint16 (length psk) ++ psk))

int_to_uint16-IsBytes : (v : ℕ) → IsBytes (int_to_uint16 v)
unfolding int_to_uint16
int_to_uint16-IsBytes v = (omega arith, (omega arith, tt))

pub psk_secret_of-IsBytes : (psk : List ℕ) → IsBytes psk → IsBytes (psk_secret_of psk)
psk_secret_of-IsBytes psk b = append-IsBytes _ _ (int_to_uint16-IsBytes (length psk)) (
    append-IsBytes _ _ (replicate-IsBytes (length psk) 0 (omega arith))
      (append-IsBytes _ _ (int_to_uint16-IsBytes (length psk)) b))

abbrev pub full : Memory
full = record { got_a = true; got_p = true }

module _ (h : Hash) (hs : Handshake) (psk : List ℕ) (b : IsBytes psk) where
  -- The master secret and the key block of RFC 5246.
  abbrev pub master : List ℕ
  master =
      rfc5246_prf h (psk_secret_of psk) (psk_secret_of-IsBytes psk b) label_master
        (client_random hs) (server_random hs) 48

  pub master-IsBytes : IsBytes master
  master-IsBytes =
      rfc5246_prf-IsBytes h (psk_secret_of psk) (psk_secret_of-IsBytes psk b) label_master
        (client_random hs) (server_random hs) 48

  abbrev pub key_block : List ℕ
  key_block = rfc5246_prf h master master-IsBytes label_key (server_random hs) (client_random hs) 40

  pub length-key_block : length key_block ≡ 40
  length-key_block =
      length-rfc5246_prf h master master-IsBytes label_key (server_random hs) (client_random hs) 40
        (omega arith)

  -- The parameters that are negotiated, for an epoch.
  abbrev pub negotiated : ℕ → Security
  negotiated e = record {
    compression = hs.compression;
    cipher = hs.cipher;
    epoch = e;
    rseq = 0;
    key_block = key_block;
  }

  master_of-master : master_of h full hs (psk_secret_of psk) ≡ master
  unfolding master_of
  master_of-master =
      prf-rfc5246 h (psk_secret_of psk) (psk_secret_of-IsBytes psk b) label_master
        (client_random hs) (server_random hs) 48 (omega arith)

  key_block_of-key_block : key_block_of h full hs master ≡ key_block
  unfolding key_block_of
  key_block_of-key_block =
      prf-rfc5246 h master master-IsBytes label_key (server_random hs) (client_random hs) 40
        (omega arith)

  pre_master_secret-psk :
      (ecdh : Option (List ℕ))
      → length psk ≤ 16
      → pre_master_secret 0xC0A8 (ok psk) ecdh ≡ ok (psk_secret_of psk)
  unfolding pre_master_secret psk_pre_master_secret
  pre_master_secret-psk ecdh le =
      let fits : ltb 40 (2 * (2 + length psk)) ≡ false =
        ltb-false 40 (2 * (2 + length psk)) (omega arith) in
      rw fits refl

  -- With the PSK suite, a key of at most 16 bytes and memory for everything, the pending
  -- parameters get the next epoch, the negotiated suite, and the key block that RFC 5246 derives
  -- over the master secret from the premaster secret of RFC 4279; the current parameters stay, and
  -- the master secret takes the place of the random values.
  pub calculate_key_block-rfc5246 :
      (ecdh : Option (List ℕ)) (s : Security) (t : Option Security)
      → hs.cipher ≡ 0xC0A8
      → length psk ≤ 16
      → calculate_key_block h true full full (ok psk) ecdh hs (current s t)
        ≡ some (record {
          result = ok 0;
          handshake = with_master hs master;
          slots = current s (some (negotiated ((s.epoch + 1) % 2 ^ 16)));
        })
  unfolding calculate_key_block params_next security_new
  calculate_key_block-rfc5246 ecdh s t c le =
      let pre : pre_master_secret hs.cipher (ok psk) ecdh ≡ ok (psk_secret_of psk) =
        ap (λ t. pre_master_secret t (ok psk) ecdh) c ∙ pre_master_secret-psk ecdh le in
      rw (pre, master_of-master, key_block_of-key_block) refl
