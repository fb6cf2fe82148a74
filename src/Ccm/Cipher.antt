-- ===== src/Ccm/Cipher.antt =====
-- What the code relies on in the block cipher, and the invariant of the scratch buffer X.
use gc2021_pqdtls.Base.{
  ℕ, zero, suc, ◌+◌, ◌*◌, ◌%◌, replicate-IsBytes, leb, ltb, ◌==◌, List, [], ◌∷◌, length, drop,
  replicate, ◌≡◌, refl, arith, IsBytes, Bool-cases, inl, inr,
}
use gc2021_pqdtls.Ccm.{
  Cbc, Work, mac, encrypt_block, encrypt_last, encrypt_loop, add_auth_loop, add_auth_data,
}

abbrev pub IsBlock : List ℕ → Type 0
IsBlock x = (length x ≡ 16) × IsBytes x

-- rijndael_encrypt writes one block of 16 bytes.
pub record IsCipher (rijndael_encrypt : List ℕ → List ℕ) : Type 0 where
  pub block : (b : List ℕ) → IsBlock (rijndael_encrypt b)

-- A cipher for tests: it spreads a sum over the block.
toy_sum : List ℕ → ℕ
toy_sum [] = 7
toy_sum (x ∷ xs) = x + 3 * toy_sum xs

unfoldable pub toy_cipher : List ℕ → List ℕ
unfolding toy_sum
toy_cipher b = replicate 16 (toy_sum b % 256)

pub toy_cipher-IsCipher : IsCipher toy_cipher
unfolding toy_cipher
toy_cipher-IsCipher = record {
  block = λ b. (refl, replicate-IsBytes 16 (toy_sum b % 256) (omega arith));
}

module _ (rijndael_encrypt : List ℕ → List ℕ) (cipher : IsCipher rijndael_encrypt) where
  add_auth_loop-x :
      (fuel : ℕ) (msg : List ℕ) (s : Cbc)
      → IsBlock s.x
      → IsBlock (add_auth_loop rijndael_encrypt fuel msg s).x
  unfolding add_auth_loop
  add_auth_loop-x zero msg s h = h
  add_auth_loop-x (suc fuel) msg s h = elim (Bool-cases (ltb 16 (length msg))) [
    | inl more ↦ rw more (add_auth_loop-x fuel (drop 16 msg) _ (cipher.block _))
    | inr last ↦ elim (Bool-cases (length msg == 0)) [
      | inl e ↦ rw (last, e) h
      | inr e ↦ rw (last, e) (cipher.block _)
    ]
  ]

  pub add_auth_data-x : (msg b0 : List ℕ) → IsBlock (add_auth_data rijndael_encrypt msg b0).x
  unfolding add_auth_data
  add_auth_data-x msg b0 = elim (Bool-cases (length msg == 0)) [
    | inl e ↦ rw e (cipher.block b0)
    | inr e ↦ rw e (add_auth_loop-x (length msg) _ _ (cipher.block _))
  ]

  encrypt_last-x :
      (l : ℕ) (w : Work) → IsBlock w.cbc.x → IsBlock (encrypt_last rijndael_encrypt l w).cbc.x
  unfolding encrypt_last mac
  encrypt_last-x l w h = elim (Bool-cases (length w.rest == 0)) [
    | inl e ↦ rw e h
    | inr e ↦ rw e (cipher.block _)
  ]

  encrypt_block-x : (l : ℕ) (w : Work) → IsBlock (encrypt_block rijndael_encrypt l w).cbc.x
  unfolding encrypt_block mac
  encrypt_block-x l w = cipher.block _

  pub encrypt_loop-x :
      (fuel l : ℕ) (w : Work)
      → IsBlock w.cbc.x
      → IsBlock (encrypt_loop rijndael_encrypt fuel l w).cbc.x
  unfolding encrypt_loop
  encrypt_loop-x zero l w h = encrypt_last-x l w h
  encrypt_loop-x (suc fuel) l w h = elim (Bool-cases (leb 16 (length w.rest))) [
    | inl e ↦ rw e (encrypt_loop-x fuel l _ (encrypt_block-x l w))
    | inr e ↦ rw e (encrypt_last-x l w h)
  ]
