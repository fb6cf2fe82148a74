-- ===== src/Hmac.antt =====
-- dtls-hmac.c and the hash calls of dtls-hmac.h: HMAC (RFC 2104) over a streaming hash. The hash of
-- sha2/ is the parameter `Hash`; a context of dtls_hmac_new is a value of `Context`.
pub mod Standard
use gc2021_pqdtls.Base.{
  ℕ, ◌-◌, ltb, if◌then◌else◌, bit_xor, ◌≡◌, List, ◌++◌, Option, none, some, Bool, true, false,
  length, map, replicate, IsBytes,
}

-- dtls_hash_init, dtls_hash_update and dtls_hash_finalize, with what a streaming hash promises: only
-- the concatenation of what was fed in counts, and a digest has 32 bytes.
pub record Hash : Type 1 where
  pub Ctx : Type 0
  pub init : Ctx
  pub update : Ctx → List ℕ → Ctx
  pub finalize : Ctx → List ℕ
  pub update-append : (c : Ctx) (xs ys : List ℕ) → update (update c xs) ys ≡ update c (xs ++ ys)
  pub length-finalize : (c : Ctx) → length (finalize c) ≡ 32
  pub finalize-IsBytes : (c : Ctx) → IsBytes (finalize c)

abbrev pub blocksize : ℕ
blocksize = 64

abbrev pub digest_size : ℕ
digest_size = 32

module _ (h : Hash) where
  open h use {Ctx, init, update, finalize}

  -- dtls_hmac_context_t
  pub record Context : Type 0 where
    pub pad : List ℕ
    pub data_ctx : Ctx

  -- What the first part of dtls_hmac_init leaves in `pad`: the key, or the hash of a long one, over
  -- zeros.
  unfoldable pub key_pad : List ℕ → List ℕ
  key_pad key =
      let digest = finalize (update init key) in
      if ltb blocksize (length key)
      then digest ++ replicate (blocksize - digest_size) 0
      else key ++ replicate (blocksize - length key) 0

  -- dtls_hmac_update
  unfoldable pub hmac_update : Context → List ℕ → Context
  hmac_update ctx input = record ctx { data_ctx = update ctx.data_ctx input }

  -- dtls_hmac_init. The key pad is turned into the inner pad, hashed, and turned into the outer pad.
  unfoldable pub hmac_init : List ℕ → Context
  unfolding key_pad hmac_update
  hmac_init key =
      let ipad = map (λ x. bit_xor x 0x36) (key_pad key) in
      let fed = hmac_update (record { pad = ipad; data_ctx = init }) ipad in
      record fed { pad = map (λ x. bit_xor x 0x6A) fed.pad }

  -- dtls_hmac_new, which returns NULL where the allocation fails.
  unfoldable pub hmac_new : Bool → List ℕ → Option Context
  unfolding hmac_init
  hmac_new allocated key = if allocated then some (hmac_init key) else none

  -- dtls_hmac_finalize: the digest, and the context that it leaves.
  unfoldable pub hmac_finalize : Context → List ℕ × Context
  hmac_finalize ctx =
      let buf = finalize ctx.data_ctx in
      let outer = update (update init ctx.pad) buf in
      (finalize outer, record ctx { data_ctx = outer })
