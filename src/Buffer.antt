-- ===== src/Buffer.antt =====
-- The buffer helpers of tinydtls.h: memxor and dtls_equals. A buffer is the list of the
-- bytes that the pointer leads to; past its end, where C has no behaviour, the loops stop.
pub mod Laws
use gc2021_pqdtls.Base.{
  ℕ, zero, suc, ◌+◌, ◌/◌, ◌==◌, if◌then◌else◌, bit_xor, List, [], ◌∷◌, Bool, true, false, ◌&&◌,
}

-- memxor(x, y, n): x[i] ^= y[i] for the first n bytes.
unfoldable pub memxor : List ℕ → List ℕ → ℕ → List ℕ
memxor x y zero = x
memxor [] y (suc n) = []
memxor (a ∷ x) [] (suc n) = a ∷ x
memxor (a ∷ x) (b ∷ y) (suc n) = bit_xor a b ∷ memxor x y n

-- The loop of dtls_equals, which never leaves early: `result &= (*a++ == *b++)`.
equals_loop : Bool → List ℕ → List ℕ → ℕ → Bool
equals_loop result a b zero = result
equals_loop result [] b (suc len) = false
equals_loop result (x ∷ a) [] (suc len) = false
equals_loop result (x ∷ a) (y ∷ b) (suc len) = equals_loop (result && (x == y)) a b len

unfoldable pub equals : List ℕ → List ℕ → ℕ → Bool
unfolding equals_loop
equals a b len = equals_loop true a b len
