-- ===== src/Hmac/Standard.antt =====
-- The functions of dtls-hmac.c against the definition of HMAC in RFC 2104.
use mathlib.Core.List.{append-nil, append_assoc}
use gc2021_pqdtls.Base.{
  ℕ, zero, suc, ◌+◌, ◌*◌, ◌%◌, ◌-◌, ◌<◌, ◌==◌, ==_iff, ltb, if◌then◌else◌, bit_xor, ◌≡◌, refl, sym,
  ap, ap₂, ◌∙◌, List, [], ◌∷◌, ◌++◌, Bool, true, ◌&&◌, length, map, replicate, IsBytes, arith,
  append-IsBytes, replicate-IsBytes, Bool-cases, inl, inr,
}
use gc2021_pqdtls.Hmac.{Hash, Context, key_pad, hmac_update, hmac_init, hmac_finalize}

-- Tests over all bytes by evaluation.
all_below : ℕ → (ℕ → Bool) → Bool
all_below zero p = true
all_below (suc n) p = p n && all_below n p

all_below_lem : (n : ℕ) (p : ℕ → Bool) (x : ℕ) → all_below n p ≡ true → x < n → p x ≡ true
unfolding all_below
all_below_lem zero p x h lt = absurd (omega arith)
all_below_lem (suc n) p x h lt = ground (arith, all_below_lem n p x)

pads_table : all_below 256 (λ x. bit_xor (bit_xor x 0x36) 0x6A == bit_xor x 0x5C) ≡ true
unfolding all_below
pads_table = refl

outer_pad :
    (xs : List ℕ)
    → IsBytes xs
    → map (λ x. bit_xor x 0x6A) (map (λ x. bit_xor x 0x36) xs) ≡ map (λ x. bit_xor x 0x5C) xs
outer_pad [] b = refl
outer_pad (x ∷ xs) b =
    ap₂ ◌∷◌ ((==_iff _ _).0 (all_below_lem 256 _ x pads_table b.0)) (outer_pad xs b.1)

module _ (h : Hash) where
  open h use {Ctx, init, update, finalize}

  abbrev pub digest : List ℕ → List ℕ
  digest xs = finalize (update init xs)

  -- RFC 2104: H(K xor opad, H(K xor ipad, text)), where K is the key, hashed if it is longer than a
  -- block, with zeros up to a block.
  abbrev pub block_key : List ℕ → List ℕ
  block_key key =
      let short = if ltb 64 (length key) then digest key else key in
      short ++ replicate (64 - length short) 0

  abbrev pub rfc2104 : List ℕ → List ℕ → List ℕ
  rfc2104 key text = digest (
      map (λ x. bit_xor x 0x5C) (block_key key)
      ++ digest (map (λ x. bit_xor x 0x36) (block_key key) ++ text))

  -- Several calls of dtls_hmac_update.
  pub feed : Context h → List (List ℕ) → Context h
  feed c [] = c
  feed c (xs ∷ rest) = feed (hmac_update h c xs) rest

  pub joined : List (List ℕ) → List ℕ
  joined [] = []
  joined (xs ∷ rest) = xs ++ joined rest

  key_pad-block_key : (key : List ℕ) → key_pad h key ≡ block_key key
  unfolding key_pad
  key_pad-block_key key = elim (Bool-cases (ltb 64 (length key))) [
    | inl long ↦ rw (long, h.length-finalize)
    | inr short ↦ rw short
  ]

  key_pad-IsBytes : (key : List ℕ) → IsBytes key → IsBytes (key_pad h key)
  unfolding key_pad
  key_pad-IsBytes key b = elim (Bool-cases (ltb 64 (length key))) [
    | inl long ↦
        rw long (append-IsBytes _ _ (h.finalize-IsBytes _) (replicate-IsBytes 32 0 (omega arith)))
    | inr short ↦
        rw short (append-IsBytes key _ b (replicate-IsBytes (64 - length key) 0 (omega arith)))
  ]

  -- What a context holds once a text has been fed in.
  abbrev pub holding : List ℕ → List ℕ → Context h
  holding key text = record {
    pad = map (λ x. bit_xor x 0x5C) (block_key key);
    data_ctx = update init (map (λ x. bit_xor x 0x36) (block_key key) ++ text);
  }

  pub hmac_init-holding : (key : List ℕ) → IsBytes key → hmac_init h key ≡ holding key []
  unfolding hmac_init
  hmac_init-holding key b = rw (
    outer_pad (key_pad h key) (key_pad-IsBytes key b),
    key_pad-block_key key,
    append-nil (map (λ x. bit_xor x 0x36) (block_key key)),
  )

  pub hmac_update-holding :
      (key text more : List ℕ) → hmac_update h (holding key text) more ≡ holding key (text ++ more)
  unfolding hmac_update
  hmac_update-holding key text more =
      ap (λ (c : Ctx). record { pad = map (λ x. bit_xor x 0x5C) (block_key key); data_ctx = c })
        (h.update-append init (map (λ x. bit_xor x 0x36) (block_key key) ++ text) more
          ∙ ap (update init) (append_assoc (map (λ x. bit_xor x 0x36) (block_key key)) text more))

  pub hmac_finalize-holding :
      (key text : List ℕ) → (hmac_finalize h (holding key text)).0 ≡ rfc2104 key text
  unfolding hmac_finalize
  hmac_finalize-holding key text = ap finalize (h.update-append init _ _)

  feed-holding :
      (key text : List ℕ) (chunks : List (List ℕ))
      → feed (holding key text) chunks ≡ holding key (text ++ joined chunks)
  unfolding feed joined
  feed-holding key text [] = ap (holding key) (sym (append-nil text))
  feed-holding key text (xs ∷ rest) =
      ap (λ c. feed c rest) (hmac_update-holding key text xs)
      ∙ feed-holding key (text ++ xs) rest
      ∙ ap (holding key) (append_assoc text xs (joined rest))

  -- Under a key of bytes, however the text is cut into updates, the digest is the HMAC of the
  -- whole text.
  pub hmac_finalize-rfc2104 :
      (key : List ℕ) (chunks : List (List ℕ))
      → IsBytes key
      → (hmac_finalize h (feed (hmac_init h key) chunks)).0 ≡ rfc2104 key (joined chunks)
  hmac_finalize-rfc2104 key chunks b =
      ap (λ c. (hmac_finalize h (feed c chunks)).0) (hmac_init-holding key b)
      ∙ ap (λ c. (hmac_finalize h c).0) (feed-holding key [] chunks)
      ∙ hmac_finalize-holding key (joined chunks)

  pub length-rfc2104 : (key text : List ℕ) → length (rfc2104 key text) ≡ 32
  length-rfc2104 key text = h.length-finalize _

  pub rfc2104-IsBytes : (key text : List ℕ) → IsBytes (rfc2104 key text)
  rfc2104-IsBytes key text = h.finalize-IsBytes _

-- A hash for tests: the sum of what was fed in, on every byte of the digest.
total : List ℕ → ℕ
total [] = 5
total (x ∷ xs) = x + 3 * total xs

unfoldable pub toy_digest : List ℕ → List ℕ
unfolding total
toy_digest xs = replicate 32 (total xs % 256)

pub toy_digest-IsBytes : (xs : List ℕ) → IsBytes (toy_digest xs)
unfolding toy_digest
toy_digest-IsBytes xs = replicate-IsBytes 32 (total xs % 256) (omega arith)

pub length-toy_digest : (xs : List ℕ) → length (toy_digest xs) ≡ 32
unfolding toy_digest
length-toy_digest xs = refl

abbrev pub toy_hash : Hash
toy_hash = record {
  Ctx = List ℕ;
  init = [];
  update = λ c xs. c ++ xs;
  finalize = toy_digest;
  update-append = append_assoc;
  length-finalize = length-toy_digest;
  finalize-IsBytes = toy_digest-IsBytes;
}
