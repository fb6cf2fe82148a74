-- ===== src/Base/Bits.antt =====
-- `^` and `|` on numbers, from the lowest digit up.
use Prim.Native.Nat.{ℕ, zero, suc, ◌+◌, ◌*◌, ◌/◌, ◌%◌, ◌^◌, ◌≤◌, ◌<◌, max}
use Prim.Native.Nat.{digits, differ, bit_or, bit_xor, bit_or-bitwise, bit_xor-bitwise}
use mathlib.Core.Path.{◌≡◌, refl, ap, sym, ◌∙◌}
use native.Mathlib.Omega.{arith}
use native.Mathlib.Nat.{pow-suc}

digits_zero : (f : ℕ → ℕ → ℕ) (n b : ℕ) → digits (λ y. y) f n 0 b ≡ b
digits_zero f zero b = refl
digits_zero f (suc n) b = refl

-- Two amounts of fuel that are both enough give the same digits.
digits_enough :
    (f : ℕ → ℕ → ℕ) (a n m b : ℕ)
    → (a ≤ n) × (a ≤ m)
    → digits (λ y. y) f n a b ≡ digits (λ y. y) f m a b
digits_enough f zero n m b h = digits_zero f n b ∙ sym (digits_zero f m b)
digits_enough f (suc a) zero m b h = ground arith
digits_enough f (suc a) (suc n) zero b h = ground arith
digits_enough f (suc a) (suc n) (suc m) b h =
    ap (λ (t : ℕ). t * 2 + f (suc a % 2) (b % 2))
      (digits_enough f (suc a / 2) n m (b / 2) (omega arith, omega arith))

pub bit_xor_step : (a b : ℕ) → bit_xor a b ≡ differ (a % 2) (b % 2) + 2 * bit_xor (a / 2) (b / 2)
bit_xor_step zero b = simp bit_xor-bitwise (omega arith)
bit_xor_step (suc k) b =
    let fuel = digits_enough differ (suc k / 2) k (suc k / 2) (b / 2) (omega arith, omega arith) in
    simp bit_xor-bitwise (omega arith)

bit_or_step : (a b : ℕ) → bit_or a b ≡ max (a % 2) (b % 2) + 2 * bit_or (a / 2) (b / 2)
bit_or_step zero b = simp bit_or-bitwise (omega arith)
bit_or_step (suc k) b =
    let fuel = digits_enough max (suc k / 2) k (suc k / 2) (b / 2) (omega arith, omega arith) in
    simp bit_or-bitwise (omega arith)

differ_digit : (x y : ℕ) → x < 2 → y < 2 → (differ x y < 2) × (differ (differ x y) y ≡ x)
differ_digit zero zero p q = (omega arith, refl)
differ_digit zero (suc zero) p q = (omega arith, refl)
differ_digit (suc zero) zero p q = (omega arith, refl)
differ_digit (suc zero) (suc zero) p q = (omega arith, refl)
differ_digit zero (suc (suc y)) p q = absurd (omega arith)
differ_digit (suc zero) (suc (suc y)) p q = absurd (omega arith)
differ_digit (suc (suc x)) y p q = absurd (omega arith)

pub bit_xor-lt : (k a b : ℕ) → a < 2 ^ k → b < 2 ^ k → bit_xor a b < 2 ^ k
bit_xor-lt zero zero zero p q = omega arith
bit_xor-lt zero zero (suc b) p q = absurd (omega arith)
bit_xor-lt zero (suc a) b p q = absurd (omega arith)
bit_xor-lt (suc k) a b p q = omega (
  arith,
  pow-suc 2 k,
  bit_xor_step a b,
  differ_digit (a % 2) (b % 2) (omega arith) (omega arith),
  bit_xor-lt k (a / 2) (b / 2) (omega (arith, pow-suc 2 k)) (omega (arith, pow-suc 2 k)),
)

pub bit_xor_cancel : (k a b : ℕ) → a < 2 ^ k → b < 2 ^ k → bit_xor (bit_xor a b) b ≡ a
bit_xor_cancel zero zero zero p q = refl
bit_xor_cancel zero zero (suc b) p q = absurd (omega arith)
bit_xor_cancel zero (suc a) b p q = absurd (omega arith)
bit_xor_cancel (suc k) a b p q = ground (
  arith,
  pow-suc 2 k,
  bit_xor_step a b,
  bit_xor_step (bit_xor a b) b,
  differ_digit (a % 2) (b % 2) (omega arith) (omega arith),
  bit_xor_cancel k (a / 2) (b / 2) (omega (arith, pow-suc 2 k)) (omega (arith, pow-suc 2 k)),
)

or_zero_below : (n a : ℕ) → a ≤ n → bit_or a 0 ≡ a
or_zero_below n zero h = refl
or_zero_below zero (suc a) h = absurd (omega arith)
or_zero_below (suc n) (suc a) h =
    omega (arith, bit_or_step (suc a) 0, or_zero_below n (suc a / 2) (omega arith))

bit_or_zero : (a : ℕ) → bit_or a 0 ≡ a
bit_or_zero a = or_zero_below a a (omega arith)

-- A high part and a low part of `k` digits join as a sum.
pub bit_or_join : (k q r : ℕ) → r < 2 ^ k → bit_or (q * 2 ^ k) r ≡ q * 2 ^ k + r
bit_or_join zero q zero h = ground (arith, bit_or_zero q)
bit_or_join zero q (suc r) h = absurd (omega arith)
bit_or_join (suc k) q r h = ground (
  arith,
  bit_or_step (q * 2 ^ suc k) r,
  ap (λ (t : ℕ). q * t) (pow-suc 2 k),
  pow-suc 2 k,
  bit_or_join k q (r / 2) (omega (arith, pow-suc 2 k)),
)

-- A byte joins the digits above it, anywhere in a number.
pub bit_or_byte :
    (k q b : ℕ) → b < 256 → bit_or (q * 2 ^ (k + 8)) (b * 2 ^ k) ≡ (q * 256 + b) * 2 ^ k
bit_or_byte zero q b h = ground (arith, bit_or_join 8 q b)
bit_or_byte (suc k) q b h = ground (
  arith,
  bit_or_step (q * 2 ^ (suc k + 8)) (b * 2 ^ suc k),
  ap (λ (t : ℕ). q * t) (pow-suc 2 (k + 8)),
  ap (λ (t : ℕ). b * t) (pow-suc 2 k),
  ap (λ (t : ℕ). (q * 256 + b) * t) (pow-suc 2 k),
  bit_or_byte k q b,
)
