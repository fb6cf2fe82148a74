-- ===== src/Ccm.antt =====
-- dtls-ccm.c: Counter with CBC-MAC (RFC 3610). The block cipher, rijndael_encrypt under a key
-- schedule, is the parameter `rijndael_encrypt`. `msg` is the list of the `lm` bytes that are left
-- at the moving pointer, and the scratch buffers A, B, S and X are lists of 16 bytes.
pub mod Cipher
pub mod RoundTrip
use gc2021_pqdtls.Base.{
  ℕ, zero, suc, ◌+◌, ◌-◌, ◌*◌, ◌/◌, ◌%◌, ◌^◌, min, ltb, leb, ◌==◌, if◌then◌else◌, bit_or, bit_xor,
  Option, none, some, List, [], ◌∷◌, ◌++◌, length, take, drop, replicate, get_or, set,
}
use gc2021_pqdtls.Numeric.{int_to_uint16, int_to_uint32, int_to_uint64}
use gc2021_pqdtls.Buffer.{memxor, equals}

abbrev pub ccm_blocksize : ℕ
ccm_blocksize = 16

-- CCM_FLAGS(A, M, L), stored into an unsigned char.
unfoldable pub ccm_flags : ℕ → ℕ → ℕ → ℕ
ccm_flags a m l =
    bit_or (bit_or ((if ltb 0 a then 1 else 0) * 2 ^ 6) ((m - 2) / 2 * 2 ^ 3)) (l - 1) % 256

-- The loop of block0: `result[15 - i] = lm & 0xff; lm >>= 8`, for i < L.
unfoldable pub put_length : ℕ → ℕ → List ℕ → List ℕ
put_length zero lm written = written
put_length (suc l) lm written = put_length l (lm / 2 ^ 8) ((lm % 2 ^ 8) ∷ written)

-- The initial authentication block.
unfoldable pub block0 : ℕ → ℕ → ℕ → ℕ → List ℕ → List ℕ
unfolding ccm_flags put_length
block0 m l la lm nonce =
    ccm_flags la m l ∷ (take (ccm_blocksize - l - 1) nonce ++ put_length l lm [])

-- The loop of SET_COUNTER, with `rounds` = i - L left at index i.
set_counter_loop : ℕ → ℕ → ℕ → List ℕ → List ℕ
set_counter_loop zero i c a = a
set_counter_loop (suc rounds) i c a =
    let next =
      set_counter_loop rounds (i - 1) (c / 2 ^ 8) (set a i (bit_or (get_or a i 0) (c % 2 ^ 8))) in
    if c == 0 then a else next

-- SET_COUNTER(A, L, cnt, C): clear the last L bytes of A, then store cnt & MASK_L(L) there.
unfoldable pub set_counter : List ℕ → ℕ → ℕ → List ℕ
unfolding set_counter_loop
set_counter a l cnt =
    set_counter_loop (ccm_blocksize - 1 - l) (ccm_blocksize - 1) (cnt % 2 ^ (8 * l))
      (take (ccm_blocksize - l) a ++ replicate l 0)

-- The loop of mac(): `B[i] = X[i] ^ msg[i]` for i < len.
unfoldable pub xor_into : ℕ → List ℕ → List ℕ → List ℕ → List ℕ
xor_into zero b x msg = b
xor_into (suc n) (c ∷ b) (y ∷ x) (z ∷ msg) = bit_xor y z ∷ xor_into n b x msg
xor_into (suc n) b x msg = b

-- The head of the additional data: its length in 2, 6 or 10 bytes.
unfoldable pub aad_head : ℕ → List ℕ
aad_head la =
    if ltb la 0xff00
    then int_to_uint16 la
    else if leb la 0xffff_ffff
    then int_to_uint16 0xfffe ++ int_to_uint32 la
    else int_to_uint16 0xffff ++ int_to_uint64 la

-- A block that starts with `bs`, the rest cleared by memset.
abbrev pub padded : List ℕ → List ℕ
padded bs = bs ++ replicate (ccm_blocksize - length bs) 0

pub record Cbc : Type 0 where
  pub b : List ℕ
  pub x : List ℕ

pub record Work : Type 0 where
  pub a : List ℕ
  pub cbc : Cbc
  pub counter : ℕ
  pub out : List ℕ
  pub rest : List ℕ

module _ (rijndael_encrypt : List ℕ → List ℕ) where
  -- `while (la > DTLS_CCM_BLOCKSIZE)` and the last, partial block of add_auth_data, on fuel.
  pub add_auth_loop : ℕ → List ℕ → Cbc → Cbc
  add_auth_loop zero msg s = s
  add_auth_loop (suc fuel) msg s =
      let b = xor_into ccm_blocksize s.b s.x msg in
      let more =
        add_auth_loop fuel (drop ccm_blocksize msg) (record { b = b; x = rijndael_encrypt b }) in
      let b_last = memxor (padded msg) s.x ccm_blocksize in
      if ltb ccm_blocksize (length msg)
      then more
      else if length msg == 0
      then s
      else record { b = b_last; x = rijndael_encrypt b_last }

  -- B holds the first authentication block on entry.
  pub add_auth_data : List ℕ → List ℕ → Cbc
  unfolding add_auth_loop aad_head
  add_auth_data msg b0 =
      let x0 = rijndael_encrypt b0 in
      let la = length msg in
      let head = aad_head la in
      let i = min (ccm_blocksize - length head) la in
      let b1 = memxor (padded (head ++ take i msg)) x0 ccm_blocksize in
      let more = add_auth_loop la (drop i msg) (record { b = b1; x = rijndael_encrypt b1 }) in
      if la == 0 then record { b = replicate ccm_blocksize 0; x = x0 } else more

  -- mac(): the first `len` bytes of B become X ^ msg, and X the encryption of B.
  pub mac : List ℕ → ℕ → Cbc → Cbc
  unfolding xor_into
  mac msg len s = let b = xor_into len s.b s.x msg in record { b = b; x = rijndael_encrypt b }

  -- encrypt(): the new A, and `len` bytes of msg under its encryption.
  pub encrypt : ℕ → ℕ → List ℕ → ℕ → List ℕ → List ℕ × List ℕ
  unfolding set_counter
  encrypt l counter msg len a =
      let a' = set_counter a l counter in (a', memxor msg (rijndael_encrypt a') len)

  -- `memcpy(B + lm, X + lm, DTLS_CCM_BLOCKSIZE - lm)`
  abbrev fill_rest : ℕ → Cbc → Cbc
  fill_rest lm s = record { b = take lm s.b ++ drop lm s.x; x = s.x }

  -- One full block of dtls_ccm_encrypt_message: mac, then encrypt.
  pub encrypt_block : ℕ → Work → Work
  unfolding mac encrypt
  encrypt_block l w =
      let block = take ccm_blocksize w.rest in
      let (a', c) = encrypt l w.counter block ccm_blocksize w.a in
      record {
        a = a';
        cbc = mac block ccm_blocksize w.cbc;
        counter = w.counter + 1;
        out = w.out ++ c;
        rest = drop ccm_blocksize w.rest;
      }

  -- The remainder of the message, if there is one.
  pub encrypt_last : ℕ → Work → Work
  unfolding mac encrypt
  encrypt_last l w =
      let lm = length w.rest in
      let (a', c) = encrypt l w.counter w.rest lm w.a in
      if lm == 0 then w else record {
        a = a';
        cbc = mac w.rest lm (fill_rest lm w.cbc);
        counter = w.counter;
        out = w.out ++ c;
        rest = [];
      }

  -- `while (lm >= DTLS_CCM_BLOCKSIZE)` and what follows it, on fuel.
  pub encrypt_loop : ℕ → ℕ → Work → Work
  unfolding encrypt_block encrypt_last
  encrypt_loop zero l w = encrypt_last l w
  encrypt_loop (suc fuel) l w =
      let more = encrypt_loop fuel l (encrypt_block l w) in
      if leb ccm_blocksize (length w.rest) then more else encrypt_last l w

  -- One full block of dtls_ccm_decrypt_message: decrypt, then mac.
  pub decrypt_block : ℕ → Work → Work
  unfolding mac encrypt
  decrypt_block l w =
      let (a', p) = encrypt l w.counter (take ccm_blocksize w.rest) ccm_blocksize w.a in
      record {
        a = a';
        cbc = mac p ccm_blocksize w.cbc;
        counter = w.counter + 1;
        out = w.out ++ p;
        rest = drop ccm_blocksize w.rest;
      }

  pub decrypt_last : ℕ → Work → Work
  unfolding mac encrypt
  decrypt_last l w =
      let lm = length w.rest in
      let (a', p) = encrypt l w.counter w.rest lm w.a in
      if lm == 0 then w else record {
        a = a';
        cbc = mac p lm (fill_rest lm w.cbc);
        counter = w.counter;
        out = w.out ++ p;
        rest = [];
      }

  pub decrypt_loop : ℕ → ℕ → Work → Work
  unfolding decrypt_block decrypt_last
  decrypt_loop zero l w = decrypt_last l w
  decrypt_loop (suc fuel) l w =
      let more = decrypt_loop fuel l (decrypt_block l w) in
      if leb ccm_blocksize (length w.rest) then more else decrypt_last l w

  -- The state of both functions before their loops, for a message of `lm` bytes.
  pub start : ℕ → ℕ → List ℕ → ℕ → List ℕ → List ℕ → Work
  unfolding block0 add_auth_data
  start m l nonce lm aad msg = record {
    a = ((l - 1) % 256) ∷ (take (ccm_blocksize - l - 1) nonce ++ replicate l 0);
    cbc = add_auth_data aad (block0 m l (length aad) lm nonce);
    counter = 1;
    out = [];
    rest = msg;
  }

  -- S_0, the mask of the authentication tag.
  pub tag_mask : ℕ → Work → List ℕ
  unfolding set_counter
  tag_mask l w = rijndael_encrypt (set_counter w.a l 0)

  -- dtls_ccm_encrypt_message: the ciphertext and the tag of M bytes that it leaves in `msg`. Its
  -- result `len + M` is the length of this list. A has L bytes that C leaves unset here; every
  -- use of A sets them first, and the model clears them.
  pub encrypt_message : ℕ → ℕ → List ℕ → List ℕ → List ℕ → List ℕ
  encrypt_message m l nonce msg aad =
      let w = encrypt_loop (length msg) l (start m l nonce (length msg) aad msg) in
      w.out ++ memxor (take m w.cbc.x) (tag_mask l w) m

  -- dtls_ccm_decrypt_message: `none` is the result -1.
  pub decrypt_message : ℕ → ℕ → List ℕ → List ℕ → List ℕ → Option (List ℕ)
  decrypt_message m l nonce msg aad =
      let lm = length msg - m in
      let w = decrypt_loop lm l (start m l nonce lm aad (take lm msg)) in
      let tag = memxor (drop lm msg) (tag_mask l w) m in
      if ltb (length msg) m then none else if equals w.cbc.x tag m then some w.out else none
