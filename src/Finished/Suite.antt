-- ===== src/Finished/Suite.antt =====
-- handle_ccs keeps the suite of the handshake.
use gc2021_pqdtls.Base.{
  ℕ, ltb, ◌==◌, not, ◌||◌, Bool, Bool-cases, Option, none, some, Option-cases, List, length, inl,
  inr, ◌⊎◌, ◌≡◌, refl, ap, sym, ◌∙◌,
}
use gc2021_pqdtls.Numeric.{byte_at}
use gc2021_pqdtls.Alert.{Result, ok, err}
use gc2021_pqdtls.Hmac.{Hash}
use gc2021_pqdtls.Security.{Role, client, server, Slots, params_next}
use gc2021_pqdtls.Keys.{Memory, Handshake, Derived, pre_master_secret, calculate_key_block}
use gc2021_pqdtls.Finished.{Switching, handle_ccs}

abbrev suite_of : ℕ → Option Derived → ℕ
suite_of n none = n
suite_of n (some d) = d.handshake.cipher

abbrev switched_suite : ℕ → Option (Result ℕ × Option Switching) → ℕ
switched_suite n none = n
switched_suite n (some (r, none)) = n
switched_suite n (some (r, some p)) = p.handshake.cipher

secret_cases : (r : Result (List ℕ)) → ((n : ℕ) × (r ≡ err n)) ⊎ ((x : List ℕ) × (r ≡ ok x))
secret_cases (err n) = inl (n, refl)
secret_cases (ok x) = inr (x, refl)

role_cases : (r : Role) → (r ≡ client) ⊎ (r ≡ server)
role_cases client = inl refl
role_cases server = inr refl

result_cases : (r : Result ℕ) → ((n : ℕ) × (r ≡ err n)) ⊎ ((n : ℕ) × (r ≡ ok n))
result_cases (err n) = inl (n, refl)
result_cases (ok n) = inr (n, refl)

module _ (h : Hash) (allocated : Bool) (first second : Memory) (psk_key : Result (List ℕ))
    (ecdh : Option (List ℕ)) where
  calculate_key_block-suite :
      (hs : Handshake) (p : Slots)
      → suite_of hs.cipher (calculate_key_block h allocated first second psk_key ecdh hs p)
        ≡ hs.cipher
  unfolding calculate_key_block
  calculate_key_block-suite hs p = elim (Option-cases (params_next allocated p)) [
    | inl e ↦ rw e refl
    | inr (q, e) ↦ elim (Option-cases q.slot1) [
      | inl f ↦ rw (e, f) refl
      | inr (s, f) ↦ elim (secret_cases (pre_master_secret hs.cipher psk_key ecdh)) [
        | inl (n, g) ↦ rw (e, f, g) refl
        | inr (pre, g) ↦ rw (e, f, g) refl
      ]
    ]
  ]

  handle_ccs-kept :
      (payload : List ℕ) (p : Switching)
      → switched_suite p.handshake.cipher
          (handle_ccs h allocated first second psk_key ecdh payload (some p))
        ≡ p.handshake.cipher
  unfolding handle_ccs
  handle_ccs-kept payload p = elim (Bool-cases (not (p.state == 5))) [
    | inl a ↦ rw a refl
    | inr a ↦ elim (Bool-cases (ltb (length payload) 1 || not (byte_at payload 0 == 1))) [
      | inl b ↦ rw (a, b) refl
      | inr b ↦ elim (role_cases p.role) [
        | inl c ↦ rw (a, b, c) refl
        | inr c ↦
            let same = calculate_key_block-suite p.handshake p.slots in
            elim (Option-cases
              (calculate_key_block h allocated first second psk_key ecdh p.handshake p.slots)) [
                | inl k ↦ rw (a, b, c, k) refl
                | inr (d, k) ↦
                    let cipher : d.handshake.cipher ≡ p.handshake.cipher =
                      sym (ap (suite_of p.handshake.cipher) k) ∙ same in
                    elim (result_cases d.result) [
                      | inl (n, g) ↦ rw (a, b, c, k, g) cipher
                      | inr (n, g) ↦ rw (a, b, c, k, g) cipher
                    ]
              ]
      ]
    ]
  ]

  -- The suite of the handshake is as it was.
  pub handle_ccs-suite :
      (payload : List ℕ) (p q : Switching) (r : Result ℕ)
      → handle_ccs h allocated first second psk_key ecdh payload (some p) ≡ some (r, some q)
      → q.handshake.cipher ≡ p.handshake.cipher
  handle_ccs-suite payload p q r e =
      sym (ap (switched_suite p.handshake.cipher) e) ∙ handle_ccs-kept payload p
