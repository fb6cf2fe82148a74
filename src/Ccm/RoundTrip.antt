-- ===== src/Ccm/RoundTrip.antt =====
-- Decryption inverts encryption, whatever the block cipher is, since both xor the same key stream
-- and authenticate the same plaintext.
use mathlib.Core.List.{append-nil, append_assoc}
use gc2021_pqdtls.Base.{
  ℕ, zero, suc, ◌+◌, ◌-◌, ◌≤◌, ltb, leb, ◌==◌, if◌then◌else◌, ltb-false, Bool-cases, inl, inr,
  leb→le, true, false, Option, none, some, List, [], ◌∷◌, ◌++◌, length, take, drop, ◌≡◌, refl, sym,
  ap, ◌∙◌, arith, IsBytes, take-IsBytes, drop-IsBytes, length-append, length-take, length-drop,
  take-append-drop, take-append, drop-append, take-all,
}
use gc2021_pqdtls.Buffer.{memxor, equals}
use gc2021_pqdtls.Buffer.Laws.{length-memxor, memxor_twice, equals_iff}
use gc2021_pqdtls.Ccm.Cipher.{IsBlock, IsCipher, encrypt_loop-x, add_auth_data-x}
use gc2021_pqdtls.Ccm.{
  Work, set_counter, encrypt_block, encrypt_last, encrypt_loop, decrypt_block, decrypt_last,
  decrypt_loop, start, tag_mask, encrypt_message, decrypt_message,
}

eq_nil : (xs : List ℕ) → (length xs == 0) ≡ true → xs ≡ []
eq_nil [] h = refl
eq_nil (x ∷ xs) h = ground arith

module _ (rijndael_encrypt : List ℕ → List ℕ) (bytes : (b : List ℕ) → IsBytes (rijndael_encrypt b))
    (l : ℕ) where
  abbrev pub stream : Work → List ℕ
  stream w = rijndael_encrypt (set_counter w.a l w.counter)

  -- `e` is the state after encryption from `w`, and `run` decrypts what it wrote.
  abbrev pub Inverts : Work → Work → (Work → Work) → Type 0
  Inverts w e run =
      (c : List ℕ) × (e.out ≡ w.out ++ c)
      × (length c ≡ length w.rest)
      × ((p : List ℕ)
          → run (record w { out = p; rest = c })
            ≡ record { a = e.a; cbc = e.cbc; counter = e.counter; out = p ++ w.rest; rest = [] })

  -- A remainder of one byte or more.
  last-Inverts_some :
      (w : Work)
      → IsBytes w.rest
      → (length w.rest == 0) ≡ false
      → Inverts w (encrypt_last rijndael_encrypt l w) (decrypt_last rijndael_encrypt l)
  unfolding encrypt_last decrypt_last
  last-Inverts_some w b h =
      let n = length w.rest in
      let c = memxor w.rest (stream w) n in
      let same : length c ≡ n = length-memxor w.rest (stream w) n in
      (c, rw h, same, λ p. rw (same, h, memxor_twice w.rest (stream w) n b (bytes _)))

  last-Inverts_none :
      (w : Work)
      → (length w.rest == 0) ≡ true
      → Inverts w (encrypt_last rijndael_encrypt l w) (decrypt_last rijndael_encrypt l)
  unfolding encrypt_last decrypt_last
  last-Inverts_none w h = (
    [],
    rw h (sym (append-nil w.out)),
    ground arith,
    λ p. rw h (
        ap (λ t. record { a = w.a; cbc = w.cbc; counter = w.counter; out = t; rest = [] })
          (sym (ap (λ t. p ++ t) (eq_nil w.rest h) ∙ append-nil p))),
  )

  last-Inverts :
      (w : Work)
      → IsBytes w.rest
      → Inverts w (encrypt_last rijndael_encrypt l w) (decrypt_last rijndael_encrypt l)
  last-Inverts w b = elim (Bool-cases (length w.rest == 0)) [
    | inl h ↦ last-Inverts_none w h
    | inr h ↦ last-Inverts_some w b h
  ]

  rest-IsBytes : (w : Work) → IsBytes w.rest → IsBytes (encrypt_block rijndael_encrypt l w).rest
  unfolding encrypt_block
  rest-IsBytes w b = drop-IsBytes 16 w.rest b

  rest-le :
      (fuel : ℕ) (w : Work)
      → 16 ≤ length w.rest
      → length w.rest ≤ suc fuel
      → length (encrypt_block rijndael_encrypt l w).rest ≤ fuel
  unfolding encrypt_block
  rest-le fuel w p q = omega (arith, length-drop 16 w.rest)

  block-Inverts :
      (w : Work) (e : Work) (run : Work → Work)
      → IsBytes w.rest
      → 16 ≤ length w.rest
      → Inverts (encrypt_block rijndael_encrypt l w) e run
      → Inverts w e (λ v. run (decrypt_block rijndael_encrypt l v))
  unfolding encrypt_block decrypt_block
  block-Inverts w e run b h (c, written, same, undo) =
      let block = take 16 w.rest in
      let c1 = memxor block (stream w) 16 in
      let whole : length c1 ≡ 16 =
        omega (arith, length-memxor block (stream w) 16, length-take 16 w.rest) in
      (
        c1 ++ c,
        written ∙ append_assoc w.out c1 c,
        omega (
          arith,
          length-append c1 c,
          length-memxor block (stream w) 16,
          length-take 16 w.rest,
          length-drop 16 w.rest,
        ),
        λ p.
            rw
              (
                take-append 16 c1 c whole,
                drop-append 16 c1 c whole,
                memxor_twice block (stream w) 16 (take-IsBytes 16 w.rest b) (bytes _),
              )
              (undo (p ++ block)
                ∙ ap (λ t. record { a = e.a; cbc = e.cbc; counter = e.counter; out = t; rest = [] })
                    (append_assoc p block (drop 16 w.rest)
                      ∙ ap (λ t. p ++ t) (take-append-drop 16 w.rest))),
      )

  swap-Inverts :
      (w e e' : Work) (run run' : Work → Work)
      → Inverts w e run
      → e' ≡ e
      → ((v : Work) → length v.rest ≡ length w.rest → run' v ≡ run v)
      → Inverts w e' run'
  swap-Inverts w e e' run run' (c, written, same, undo) q r = (
    c,
    ap (λ (t : Work). t.out) q ∙ written,
    same,
    λ p.
        r (record w { out = p; rest = c }) same
        ∙ undo p
        ∙ ap
            (λ (t : Work). record {
              a = t.a;
              cbc = t.cbc;
              counter = t.counter;
              out = p ++ w.rest;
              rest = [];
            })
            (sym q),
  )

  encrypt_loop_full :
      (fuel : ℕ) (w : Work)
      → leb 16 (length w.rest) ≡ true
      → encrypt_loop rijndael_encrypt (suc fuel) l w
        ≡ encrypt_loop rijndael_encrypt fuel l (encrypt_block rijndael_encrypt l w)
  unfolding encrypt_loop
  encrypt_loop_full fuel w h = rw h

  decrypt_loop_full :
      (fuel : ℕ) (v : Work)
      → leb 16 (length v.rest) ≡ true
      → decrypt_loop rijndael_encrypt (suc fuel) l v
        ≡ decrypt_loop rijndael_encrypt fuel l (decrypt_block rijndael_encrypt l v)
  unfolding decrypt_loop
  decrypt_loop_full fuel v h = rw h

  encrypt_loop_part :
      (fuel : ℕ) (w : Work)
      → leb 16 (length w.rest) ≡ false
      → encrypt_loop rijndael_encrypt (suc fuel) l w ≡ encrypt_last rijndael_encrypt l w
  unfolding encrypt_loop
  encrypt_loop_part fuel w h = rw h

  decrypt_loop_part :
      (fuel : ℕ) (v : Work)
      → leb 16 (length v.rest) ≡ false
      → decrypt_loop rijndael_encrypt (suc fuel) l v ≡ decrypt_last rijndael_encrypt l v
  unfolding decrypt_loop
  decrypt_loop_part fuel v h = rw h

  pub loop-Inverts :
      (fuel : ℕ) (w : Work)
      → IsBytes w.rest
      → length w.rest ≤ fuel
      → Inverts w (encrypt_loop rijndael_encrypt fuel l w) (decrypt_loop rijndael_encrypt fuel l)
  unfolding encrypt_loop decrypt_loop
  loop-Inverts zero w b h = last-Inverts w b
  loop-Inverts (suc fuel) w b h =
      let next = encrypt_block rijndael_encrypt l w in
      elim (Bool-cases (leb 16 (length w.rest))) [
        | inl full ↦
            swap-Inverts w (encrypt_loop rijndael_encrypt fuel l next)
              (encrypt_loop rijndael_encrypt (suc fuel) l w)
              (λ v. decrypt_loop rijndael_encrypt fuel l (decrypt_block rijndael_encrypt l v))
              (decrypt_loop rijndael_encrypt (suc fuel) l)
              (block-Inverts w (encrypt_loop rijndael_encrypt fuel l next)
                (decrypt_loop rijndael_encrypt fuel l) b (leb→le 16 (length w.rest) full)
                (loop-Inverts fuel next (rest-IsBytes w b)
                  (rest-le fuel w (leb→le 16 (length w.rest) full) h)))
              (encrypt_loop_full fuel w full) (λ v same. decrypt_loop_full fuel v (rw same full))
        | inr part ↦
            swap-Inverts w (encrypt_last rijndael_encrypt l w)
              (encrypt_loop rijndael_encrypt (suc fuel) l w) (decrypt_last rijndael_encrypt l)
              (decrypt_loop rijndael_encrypt (suc fuel) l) (last-Inverts w b)
              (encrypt_loop_part fuel w part) (λ v same. decrypt_loop_part fuel v (rw same part))
      ]

module _ (rijndael_encrypt : List ℕ → List ℕ) (cipher : IsCipher rijndael_encrypt) where
  -- The tag that closes the message: M bytes of X under the mask S_0.
  check_tag :
      (m : ℕ) (x mask : List ℕ)
      → m ≤ 16
      → length x ≡ 16
      → IsBytes x
      → IsBytes mask
      → equals x (memxor (memxor (take m x) mask m) mask m) m ≡ true
  check_tag m x mask h e b c = rw (memxor_twice (take m x) mask m (take-IsBytes m x b) c) (
      (equals_iff x (take m x) m (omega arith) (omega (arith, length-take m x))).1
        (sym (take-all m (take m x) (omega (arith, length-take m x)))))

  -- How decryption ends.
  abbrev judged : ℕ → ℕ → List ℕ → Work → Option (List ℕ)
  judged m l t w =
      if equals w.cbc.x (memxor t (tag_mask rijndael_encrypt l w) m) m then some w.out else none

  decrypt_parts :
      (m l : ℕ) (nonce c t aad : List ℕ)
      → length t ≡ m
      → decrypt_message rijndael_encrypt m l nonce (c ++ t) aad
        ≡ judged m l t (
            decrypt_loop rijndael_encrypt
              (length c)
              l
              (start rijndael_encrypt m l nonce (length c) aad c))
  unfolding decrypt_message
  decrypt_parts m l nonce c t aad h =
      let lm : length (c ++ t) - m ≡ length c = omega (arith, length-append c t) in
      let long : ltb (length (c ++ t)) m ≡ false =
        ltb-false (length (c ++ t)) m (omega (arith, length-append c t)) in
      rw (lm, long, take-append (length c) c t refl, drop-append (length c) c t refl)

  judged_true :
      (m l : ℕ) (e : Work) (msg : List ℕ)
      → m ≤ 16
      → IsBlock e.cbc.x
      → judged m l
          (memxor (take m e.cbc.x) (tag_mask rijndael_encrypt l e) m)
          (record { a = e.a; cbc = e.cbc; counter = e.counter; out = msg; rest = [] })
        ≡ some msg
  unfolding tag_mask
  judged_true m l e msg h (len, b) =
      rw (check_tag m e.cbc.x (rijndael_encrypt (set_counter e.a l 0)) h len b (cipher.block _).1)

  -- A message of bytes that was encrypted decrypts to itself, at every tag length up to one block,
  -- whatever nonce and additional data are. The block cipher must write blocks of 16 bytes.
  pub decrypt-encrypt_message :
      (m l : ℕ) (nonce msg aad : List ℕ)
      → m ≤ 16
      → IsBytes msg
      → decrypt_message rijndael_encrypt m l nonce
          (encrypt_message rijndael_encrypt m l nonce msg aad)
          aad
        ≡ some msg
  unfolding encrypt_message start
  decrypt-encrypt_message m l nonce msg aad h b =
      let st = start rijndael_encrypt m l nonce (length msg) aad msg in
      let e = encrypt_loop rijndael_encrypt (length msg) l st in
      let block : IsBlock e.cbc.x =
        encrypt_loop-x rijndael_encrypt cipher (length msg) l st
          (add_auth_data-x rijndael_encrypt cipher aad _) in
      let t = memxor (take m e.cbc.x) (tag_mask rijndael_encrypt l e) m in
      let (c, written, same, undo) =
        loop-Inverts rijndael_encrypt (λ x. (cipher.block x).1) l (length msg) st b (omega arith) in
      ap (λ x. decrypt_message rijndael_encrypt m l nonce (x ++ t) aad) written
      ∙ decrypt_parts m l nonce c t aad (
          omega (
            arith,
            length-memxor (take m e.cbc.x) (tag_mask rijndael_encrypt l e) m,
            length-take m e.cbc.x,
            block.0,
          ))
      ∙ ap
          (λ n.
            judged m l t
              (decrypt_loop rijndael_encrypt n l (start rijndael_encrypt m l nonce n aad c)))
          same
      ∙ ap (judged m l t) (undo [])
      ∙ judged_true m l e msg h block

  -- The ciphertext is as long as the message and its tag.
  pub length-encrypt_message :
      (m l : ℕ) (nonce msg aad : List ℕ)
      → m ≤ 16
      → IsBytes msg
      → length (encrypt_message rijndael_encrypt m l nonce msg aad) ≡ length msg + m
  unfolding encrypt_message start
  length-encrypt_message m l nonce msg aad h b =
      let st = start rijndael_encrypt m l nonce (length msg) aad msg in
      let e = encrypt_loop rijndael_encrypt (length msg) l st in
      let block : IsBlock e.cbc.x =
        encrypt_loop-x rijndael_encrypt cipher (length msg) l st
          (add_auth_data-x rijndael_encrypt cipher aad _) in
      let t = memxor (take m e.cbc.x) (tag_mask rijndael_encrypt l e) m in
      let (c, written, same, undo) =
        loop-Inverts rijndael_encrypt (λ x. (cipher.block x).1) l (length msg) st b (omega arith) in
      let all : length e.out ≡ length c = ap length written in
      omega (
        arith,
        length-append e.out t,
        length-memxor (take m e.cbc.x) (tag_mask rijndael_encrypt l e) m,
        length-take m e.cbc.x,
        block.0,
      )
