-- ===== src/Session/Laws.antt =====
-- dtls_session_equals decides equality of IP endpoints.
use gc2021_pqdtls.Base.{
  ℕ, ◌==◌, ==_iff, ==_refl, if◌then◌else◌, Bool, true, false, not, ◌&&◌, ◌||◌, Bool-cases, ◌⊎◌, inl,
  inr, ◌↔◌, List, [], ◌∷◌, take, ◌≡◌, refl, ap₂, subst, arith,
}
use gc2021_pqdtls.Session.{Session, same_bytes, session_equals}

pub same_bytes_sound : (xs ys : List ℕ) → same_bytes xs ys ≡ true → xs ≡ ys
unfolding same_bytes
same_bytes_sound [] [] h = refl
same_bytes_sound [] (y ∷ ys) h = ground arith
same_bytes_sound (x ∷ xs) [] h = ground arith
same_bytes_sound (x ∷ xs) (y ∷ ys) h = elim (Bool-cases (x == y)) [
  | inl e ↦ ap₂ ◌∷◌ ((==_iff x y).0 e) (same_bytes_sound xs ys (ground arith))
  | inr e ↦ ground arith
]

pub same_bytes_refl : (xs : List ℕ) → same_bytes xs xs ≡ true
unfolding same_bytes
same_bytes_refl [] = refl
same_bytes_refl (x ∷ xs) = rw (==_refl x) (same_bytes_refl xs)

-- How many bytes of the address count.
abbrev pub address_length : ℕ → ℕ
address_length f = if f == 2 then 4 else if f == 10 then 16 else 0

both : (p q : Bool) → (p && q) ≡ true → (p ≡ true) × (q ≡ true)
both true q h = (refl, h)
both false q h = ground arith

guards :
    (x y z t : Bool)
    → (if not x || (not y || not z) then false else t) ≡ true
    → (x ≡ true) × (y ≡ true) × (z ≡ true) × (t ≡ true)
guards true true true t h = (refl, refl, refl, h)
guards true true false t h = ground arith
guards true false z t h = ground arith
guards false y z t h = ground arith

-- The test that follows the common ones.
abbrev endpoint : Session → Session → Bool
endpoint a b =
    if a.family == 2
    then (a.port == b.port) && same_bytes (take 4 a.address) (take 4 b.address)
    else if a.family == 10
    then (a.port == b.port) && same_bytes (take 16 a.address) (take 16 b.address)
    else false

abbrev Same : Session → Session → Type 0
Same a b =
    ((a.family ≡ 2) ⊎ (a.family ≡ 10))
    × (a.port ≡ b.port)
    × (take (address_length a.family) a.address ≡ take (address_length a.family) b.address)

endpoint-Same : (a b : Session) → endpoint a b ≡ true → Same a b
endpoint-Same a b = elim (Bool-cases (a.family == 2)) [
  | inl e ↦ rw e (λ h.
      let (p, q) = both (a.port == b.port) (same_bytes (take 4 a.address) (take 4 b.address)) h in
      (inl ((==_iff a.family 2).0 e), (==_iff a.port b.port).0 p, same_bytes_sound _ _ q))
  | inr e ↦ elim (Bool-cases (a.family == 10)) [
    | inl f ↦
        rw (e, f)
          (λ h.
            let (p, q) =
              both (a.port == b.port) (same_bytes (take 16 a.address) (take 16 b.address)) h in
            (inr ((==_iff a.family 10).0 f), (==_iff a.port b.port).0 p, same_bytes_sound _ _ q))
    | inr f ↦ rw (e, f) (λ h. ground arith)
  ]
]

Same-endpoint : (a b : Session) → Same a b → endpoint a b ≡ true
Same-endpoint a b (inl f, p, q) =
    let e : (a.family == 2) ≡ true = (==_iff a.family 2).1 f in
    let same : take 4 a.address ≡ take 4 b.address =
      subst (λ t. take (address_length t) a.address ≡ take (address_length t) b.address) f q in
    rw (e, p, ==_refl b.port, same) (same_bytes_refl (take 4 b.address))
Same-endpoint a b (inr f, p, q) =
    let d : (a.family == 2) ≡ false = ground arith in
    let e : (a.family == 10) ≡ true = (==_iff a.family 10).1 f in
    let same : take 16 a.address ≡ take 16 b.address =
      subst (λ t. take (address_length t) a.address ≡ take (address_length t) b.address) f q in
    rw (d, e, p, ==_refl b.port, same) (same_bytes_refl (take 16 b.address))

-- Two IP sessions are equal exactly where interface, size, family, port and the relevant bytes of the
-- address agree; sessions of another family never are, not even a session and itself.
pub session_equals_iff :
    (a b : Session)
    → (session_equals a b ≡ true) ↔ (
        ((a.family ≡ 2) ⊎ (a.family ≡ 10))
        × (a.ifindex ≡ b.ifindex)
        × (a.size ≡ b.size)
        × (a.family ≡ b.family)
        × (a.port ≡ b.port)
        × (take (address_length a.family) a.address ≡ take (address_length a.family) b.address))
unfolding session_equals
session_equals_iff a b = (
  λ h.
      let (i, s, f, t) =
        guards (a.ifindex == b.ifindex) (a.size == b.size) (a.family == b.family) (endpoint a b)
          h in
      let (family, p, q) = endpoint-Same a b t in
      (
        family,
        (==_iff a.ifindex b.ifindex).0 i,
        (==_iff a.size b.size).0 s,
        (==_iff a.family b.family).0 f,
        p,
        q,
      ),
  λ (family, i, s, f, p, q).
      let i' : (a.ifindex == b.ifindex) ≡ true = (==_iff a.ifindex b.ifindex).1 i in
      let s' : (a.size == b.size) ≡ true = (==_iff a.size b.size).1 s in
      let f' : (a.family == b.family) ≡ true = (==_iff a.family b.family).1 f in
      rw (i', s', f') (Same-endpoint a b (family, p, q)),
)
