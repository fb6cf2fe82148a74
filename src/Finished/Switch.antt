-- ===== src/Finished/Switch.antt =====
-- What handle_ccs may change, and what check_client_keyexchange takes from a client.
use mathlib.Core.Option.{some-injective}
use gc2021_pqdtls.Base.{
  ℕ, ◌+◌, ◌≤◌, ltb, ltb-false→le, ◌==◌, ==_iff, not, ◌||◌, Bool, true, false, Option-cases, Option,
  none, some, List, length, take, drop, length-take, length-drop, ◌≡◌, ◌≢◌, ◌⊎◌, refl, ap, sym,
  subst, ◌∙◌, if◌then◌else◌, [], inl, inr, arith,
}
use gc2021_pqdtls.Numeric.{byte_at, uint16_to_int}
use gc2021_pqdtls.Alert.{Result, ok, err}
use gc2021_pqdtls.Hmac.{Hash}
use gc2021_pqdtls.Security.{Role, client, server, tls_psk_with_aes_128_ccm_8}
use gc2021_pqdtls.Cookie.{hs_length}
use gc2021_pqdtls.Keys.{Memory, Derived, calculate_key_block}
use gc2021_pqdtls.Finished.{
  Keyx, unchanged, ecdsa, psk, signed_length, max_identity, read_identity, check_client_keyexchange,
  Switching, switched, handle_ccs, state_wait_changecipherspec, state_wait_finished,
}

guarded :
    (b : Bool) (n : ℕ) (r : Result Keyx) (x : Keyx)
    → (if b then err n else r) ≡ ok x
    → (b ≡ false) × (r ≡ ok x)
guarded true n r x h = absurd (ground arith)
guarded false n r x h = (refl, h)

not-false : {b : Bool} → not b ≡ false → b ≡ true
not-false {b = true} h = refl
not-false {b = false} h = absurd (ground arith)

abbrev identity_of : Result Keyx → List ℕ
identity_of (err n) = []
identity_of (ok unchanged) = []
identity_of (ok (ecdsa x y)) = []
identity_of (ok (psk i)) = i

psk-injective : {a b : List ℕ} → ok (psk a) ≡ ok (psk b) → a ≡ b
psk-injective h = ap identity_of h

-- A PSK identity that is accepted fits the buffer of the handshake, and the message is exactly the
-- header, the length, the identity and the signed TESLA parameters.
pub check_client_keyexchange-psk :
    (msg identity : List ℕ)
    → check_client_keyexchange (some tls_psk_with_aes_128_ccm_8) msg ≡ ok (psk identity)
    → (length identity ≤ max_identity)
      × ((hs_length + 2 + length identity + signed_length ≡ length msg)
          × (identity ≡ take (uint16_to_int (drop hs_length msg)) (drop (hs_length + 2) msg)))
unfolding check_client_keyexchange read_identity
check_client_keyexchange-psk msg identity h =
    let n = uint16_to_int (drop 12 msg) in
    let (a, h1) = guarded (ltb (length msg) 14) _ _ (psk identity) h in
    let (b, h2) = guarded (not (14 + n + signed_length == length msg)) _ _ (psk identity) h1 in
    let (c, h3) = guarded (ltb max_identity n) _ _ (psk identity) h2 in
    let size : 14 + n + signed_length ≡ length msg = (==_iff _ _).0 (not-false b) in
    let whole : take n (drop 14 msg) ≡ identity = psk-injective h3 in
    let fits : n ≤ max_identity = ltb-false→le max_identity n c in
    let len : length identity ≡ n =
      ap length (sym whole) ∙ length-take n (drop 14 msg) ∙ omega (arith, length-drop 14 msg) in
    (omega arith, (omega arith, sym whole))

by_guard {ℓ} :
    {A : Type ℓ} (b : Bool) (x : A) (y : Option A) (z : A)
    → (if b then some x else y) ≡ some z
    → ((b ≡ true) × (x ≡ z)) ⊎ ((b ≡ false) × (y ≡ some z))
by_guard true x y z e = inl (refl, some-injective x z e)
by_guard false x y z e = inr (refl, e)

or_false : (a b : Bool) → (a || b) ≡ false → b ≡ false
or_false true b h = absurd (ground arith)
or_false false b h = h

abbrev pub Moved : List ℕ → Switching → Result ℕ → Switching → Type 0
Moved payload p r q =
    (q.state ≡ p.state)
    ⊎ ((p.state ≡ state_wait_changecipherspec)
        × ((q.state ≡ state_wait_finished) × ((r ≡ ok 0) × (byte_at payload 0 ≡ 1))))

none-some {ℓ} : {A : Type ℓ} {a : A} → none ≢ some a
none-some e = ground arith

abbrev AllMoved : List ℕ → Switching → Result ℕ × Option Switching → Type 0
AllMoved payload p (r, none) = Unit {0}
AllMoved payload p (r, some q) = Moved payload p r q

Role-cases : (r : Role) → (r ≡ client) ⊎ (r ≡ server)
Role-cases client = inl refl
Role-cases server = inr refl

Result-cases : (r : Result ℕ) → ((n : ℕ) × (r ≡ ok n)) ⊎ ((n : ℕ) × (r ≡ err n))
Result-cases (ok n) = inl (n, refl)
Result-cases (err n) = inr (n, refl)

switched-Moved :
    (payload : List ℕ) (p : Switching) (d : Derived)
    → p.state ≡ state_wait_changecipherspec
    → byte_at payload 0 ≡ 1
    → Moved payload p (switched p d).0 (switched p d).1
switched-Moved payload p d h1 h2 = elim (Result-cases d.result) [
  | inl (n, e) ↦ rw e (inr (h1, (refl, (refl, h2))))
  | inr (n, e) ↦ rw e (inl refl)
]

module _ (h : Hash) (allocated : Bool) (first second : Memory) (psk_key : Result (List ℕ))
    (ecdh : Option (List ℕ)) where
  -- A ChangeCipherSpec leaves the state of a peer, or moves it from waiting for just this message to
  -- waiting for Finished; then the result is 0 and the message starts with 1.
  pub handle_ccs-Moved :
      (payload : List ℕ) (p q : Switching) (r : Result ℕ)
      → handle_ccs h allocated first second psk_key ecdh payload (some p) ≡ some (r, some q)
      → Moved payload p r q
  unfolding handle_ccs
  handle_ccs-Moved payload p q r e =
      elim (by_guard (not (p.state == state_wait_changecipherspec)) _ _ (r, some q) e) [
        | inl (a, f) ↦ subst (AllMoved payload p) f (inl refl)
        | inr (a, f) ↦
            elim (by_guard (ltb (length payload) 1 || not (byte_at payload 0 == 1)) _ _ (r, some q)
              f) [
                | inl (b, g) ↦ subst (AllMoved payload p) g (inl refl)
                | inr (b, g) ↦
                    let waits : p.state ≡ state_wait_changecipherspec =
                      (==_iff _ _).0 (not-false a) in
                    let one : byte_at payload 0 ≡ 1 =
                      (==_iff _ _).0 (not-false (or_false (ltb (length payload) 1) _ b)) in
                    elim (Role-cases p.role) [
                      | inl c ↦
                          subst (AllMoved payload p) (some-injective _ _ (rw c at g))
                            (inr (waits, (refl, (refl, one))))
                      | inr s ↦
                          elim (Option-cases (
                            calculate_key_block h allocated first second psk_key ecdh p.handshake
                              p.slots)) [
                                | inl k ↦ absurd (none-some (rw (s, k) at g))
                                | inr (d, k) ↦
                                    subst (AllMoved payload p) (some-injective _ _ (rw (s, k) at g))
                                      (switched-Moved payload (record p { role = server }) d waits
                                        one)
                              ]
                    ]
              ]
      ]
