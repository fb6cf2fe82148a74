-- ===== src/Cookie/Check.antt =====
-- When dtls_verify_peer lets a Client Hello go on.
use gc2021_pqdtls.Base.{
  ℕ, ◌+◌, ltb, ◌==◌, ==_iff, if◌then◌else◌, Bool, true, false, ◌||◌, Bool-cases, inl, inr, ◌⊎◌, ◌↔◌,
  Option, none, some, List, length, drop, take-all, length-take, ◌≡◌, ◌≢◌, refl, sym, ap, ◌∙◌,
  arith,
}
use gc2021_pqdtls.Numeric.{byte_at, uint24_to_int}
use gc2021_pqdtls.Buffer.{equals}
use gc2021_pqdtls.Buffer.Laws.{equals_iff}
use gc2021_pqdtls.Alert.{Result, ok, err, alert_fatal_create, handshake_failure}
use gc2021_pqdtls.Hmac.{Hash, hmac_finalize}
use gc2021_pqdtls.Cookie.{
  hs_length, ch_length, get_cookie, cookie_for, create_cookie, Verdict, good, challenge,
  hello_verify, check_cookie, verify_peer,
}

pub length-cookie_for :
    (h : Hash) (secret address msg : List ℕ) (e1 e2 fragment : ℕ)
    → length (cookie_for h secret address msg e1 e2 fragment) ≡ 16
unfolding cookie_for hmac_finalize
length-cookie_for h secret address msg e1 e2 fragment =
    omega (arith, length-take 16 (h.finalize _), h.length-finalize _)

chain_ok :
    (a b d : Bool) (m n : ℕ) (x c : List ℕ)
    → (if a then some (err m) else if b then some (err n) else if d then none else some (ok x))
      ≡ some (ok c)
    → x ≡ c
chain_ok true b d m n x c e = ground arith
chain_ok false true d m n x c e = ground arith
chain_ok false false true m n x c e = ground arith
chain_ok false false false m n x c e = ground arith

pub length-create_cookie :
    (h : Hash) (secret address msg c : List ℕ)
    → create_cookie h secret address msg ≡ some (ok c)
    → length c ≡ 16
unfolding create_cookie
length-create_cookie h secret address msg c e =
    let e1 = ch_length + byte_at msg (hs_length + ch_length) + 1 in
    let e2 = e1 + byte_at msg (hs_length + e1) + 1 in
    let fragment = uint24_to_int (drop 9 msg) in
    let failed = alert_fatal_create handshake_failure in
    let same =
      chain_ok (ltb (length msg) (e1 + hs_length)) (ltb (length msg) (e2 + hs_length))
        (ltb fragment e2 || ltb (length msg) (hs_length + fragment)) failed failed
        (cookie_for h secret address msg e1 e2 fragment) c e in
    sym (ap length same) ∙ length-cookie_for h secret address msg e1 e2 fragment

passed :
    (cookie mine : List ℕ)
    → (length cookie == 16) ≡ true
    → check_cookie mine (ok cookie) ≡ good
    → equals cookie mine 16 ≡ true
unfolding check_cookie
passed cookie mine e h = elim (Bool-cases (equals cookie mine 16)) [
  | inl q ↦ q
  | inr q ↦
      let clash : challenge (hello_verify mine) ≡ good = sym (rw (e, q) refl) ∙ h in ground arith
]

refused :
    (mine cookie : List ℕ) → (length cookie == 16) ≡ false → check_cookie mine (ok cookie) ≢ good
unfolding check_cookie
refused mine cookie e h =
    let clash : challenge (hello_verify mine) ≡ good = sym (rw e refl) ∙ h in absurd (ground arith)

-- A cookie that was found is accepted exactly when it is the one that was made.
pub matches :
    (mine cookie : List ℕ)
    → length mine ≡ 16
    → (check_cookie mine (ok cookie) ≡ good) ↔ (cookie ≡ mine)
unfolding check_cookie
matches mine cookie n = elim (Bool-cases (length cookie == 16)) [
  | inl e ↦
      let len : length cookie ≡ 16 = (==_iff (length cookie) 16).0 e in
      let same = equals_iff cookie mine 16 (omega arith) (omega arith) in
      let cut = take-all 16 cookie (omega arith) in
      let cut' = take-all 16 mine (omega arith) in
      (
        λ h. sym cut ∙ same.0 (passed cookie mine e h) ∙ cut',
        λ h. rw (e, same.1 (cut ∙ h ∙ sym cut')) refl,
      )
  | inr e ↦ (
    λ h. absurd (refused mine cookie e h),
    λ h. let len : length cookie ≡ 16 = ap length h ∙ n in ground arith,
  )
]

check_cookie_err : (mine : List ℕ) (n : ℕ) → check_cookie mine (err n) ≡ good
unfolding check_cookie
check_cookie_err mine n = refl

found_one :
    (mine cookie : List ℕ)
    → (check_cookie mine (ok cookie) ≡ good) ↔ (cookie ≡ mine)
    → (◌≡◌ {A = Option (Result Verdict)}
        (some (ok (check_cookie mine (ok cookie))))
        (some (ok good)))
      ↔ ((ok cookie ≡ ok mine) ⊎ ((n : ℕ) × (ok cookie ≡ err n)))
found_one mine cookie (forth, back) = (
  λ e. inl (ap ok (forth (ground arith))),
  λ e. elim e [
    | inl same ↦ ap (λ v. some (ok v)) (back (ground arith))
    | inr (n, clash) ↦ ground arith
  ],
)

-- dtls_verify_peer lets a Client Hello for which a cookie can be made go on exactly when it holds that
-- cookie, or when no cookie can be read from it at all, as with a client version other than DTLS 1.2.
pub verify_peer-good :
    (h : Hash) (secret address msg mycookie : List ℕ)
    → create_cookie h secret address msg ≡ some (ok mycookie)
    → (verify_peer h secret address msg ≡ some (ok good))
      ↔ ((get_cookie msg ≡ ok mycookie) ⊎ ((n : ℕ) × (get_cookie msg ≡ err n)))
unfolding verify_peer
verify_peer-good h secret address msg mycookie made = elim (found (get_cookie msg)) [
  | inl (cookie, got) ↦
      let same =
        matches mycookie cookie (length-create_cookie h secret address msg mycookie made) in
      rw (made, got) (found_one mycookie cookie same)
  | inr (n, got) ↦
      rw (made, got) (λ _. inr (n, refl), λ _. ap (λ v. some (ok v)) (check_cookie_err mycookie n))
]
  where
    found : (r : Result (List ℕ)) → ((c : List ℕ) × (r ≡ ok c)) ⊎ ((n : ℕ) × (r ≡ err n))
    found (ok c) = inl (c, refl)
    found (err n) = inr (n, refl)
