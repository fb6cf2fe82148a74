-- ===== src/Buffer/Laws.antt =====
-- What memxor and dtls_equals compute.
use gc2021_pqdtls.Base.{
  ℕ, zero, suc, ◌≤◌, ◌==◌, bit_xor-lt, bit_xor_cancel, ◌≡◌, refl, ap, ap₂, List, [], ◌∷◌, true,
  false, ◌↔◌, arith, length, take, IsBytes, Bool-cases, inl, inr, ==_iff,
}
use gc2021_pqdtls.Buffer.{memxor, equals_loop, equals}

pub length-memxor : (x y : List ℕ) (n : ℕ) → length (memxor x y n) ≡ length x
unfolding memxor
length-memxor x y zero = refl
length-memxor [] y (suc n) = refl
length-memxor (a ∷ x) [] (suc n) = refl
length-memxor (a ∷ x) (b ∷ y) (suc n) = ap suc (length-memxor x y n)

pub memxor-IsBytes : (x y : List ℕ) (n : ℕ) → IsBytes x → IsBytes y → IsBytes (memxor x y n)
unfolding memxor
memxor-IsBytes x y zero p q = p
memxor-IsBytes [] y (suc n) p q = tt
memxor-IsBytes (a ∷ x) [] (suc n) p q = p
memxor-IsBytes (a ∷ x) (b ∷ y) (suc n) p q =
    (bit_xor-lt 8 a b p.0 q.0, memxor-IsBytes x y n p.1 q.1)

-- A second pass with the same mask gives the bytes back.
pub memxor_twice : (x y : List ℕ) (n : ℕ) → IsBytes x → IsBytes y → memxor (memxor x y n) y n ≡ x
unfolding memxor
memxor_twice x y zero p q = refl
memxor_twice [] y (suc n) p q = refl
memxor_twice (a ∷ x) [] (suc n) p q = refl
memxor_twice (a ∷ x) (b ∷ y) (suc n) p q =
    ap₂ ◌∷◌ (bit_xor_cancel 8 a b p.0 q.0) (memxor_twice x y n p.1 q.1)

equals_loop-false : (a b : List ℕ) (len : ℕ) → equals_loop false a b len ≡ false
unfolding equals_loop
equals_loop-false a b zero = refl
equals_loop-false [] b (suc len) = refl
equals_loop-false (x ∷ a) [] (suc len) = refl
equals_loop-false (x ∷ a) (y ∷ b) (suc len) = equals_loop-false a b len

equals_loop-take :
    (a b : List ℕ) (len : ℕ) → equals_loop true a b len ≡ true → take len a ≡ take len b
unfolding equals_loop
equals_loop-take a b zero h = refl
equals_loop-take [] b (suc len) h = cc
equals_loop-take (x ∷ a) [] (suc len) h = cc
equals_loop-take (x ∷ a) (y ∷ b) (suc len) h = elim (Bool-cases (x == y)) [
  | inl e ↦ ap₂ ◌∷◌ ((==_iff x y).0 e) (equals_loop-take a b len (rw e at h))
  | inr e ↦
      let differs : equals_loop false a b len ≡ true = rw e at h in cc (equals_loop-false a b len)
]

equals_loop_same :
    (a b : List ℕ) (len : ℕ)
    → len ≤ length a
    → len ≤ length b
    → take len a ≡ take len b
    → equals_loop true a b len ≡ true
unfolding equals_loop
equals_loop_same a b zero p q h = refl
equals_loop_same [] b (suc len) p q h = absurd (omega arith)
equals_loop_same (x ∷ a) [] (suc len) p q h = absurd (omega arith)
equals_loop_same (x ∷ a) (y ∷ b) (suc len) p q h = ground (arith, equals_loop_same a b len)

-- dtls_equals says exactly whether the first `len` bytes of two buffers agree, where both are that
-- long.
pub equals_iff :
    (a b : List ℕ) (len : ℕ)
    → len ≤ length a
    → len ≤ length b
    → (equals a b len ≡ true) ↔ (take len a ≡ take len b)
unfolding equals
equals_iff a b len p q = (equals_loop-take a b len, equals_loop_same a b len p q)

pub equals-take : (a b : List ℕ) (len : ℕ) → equals a b len ≡ true → take len a ≡ take len b
unfolding equals
equals-take a b len = equals_loop-take a b len
