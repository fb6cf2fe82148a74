-- ===== src/Base/Bytes.antt =====
-- Lists of bytes.
use Prim.Native.Nat.{ℕ, zero, suc, ◌<◌}
use mathlib.Core.List.{List, [], ◌∷◌, ◌++◌}
use gc2021_pqdtls.Base.Lists.{take, drop, replicate}

abbrev pub IsBytes : List ℕ → Type 0
IsBytes [] = Unit {0}
IsBytes (x ∷ xs) = (x < 256) × IsBytes xs

pub append-IsBytes : (xs ys : List ℕ) → IsBytes xs → IsBytes ys → IsBytes (xs ++ ys)
append-IsBytes [] ys p q = q
append-IsBytes (x ∷ xs) ys p q = (p.0, append-IsBytes xs ys p.1 q)

pub take-IsBytes : (n : ℕ) (xs : List ℕ) → IsBytes xs → IsBytes (take n xs)
take-IsBytes zero xs p = tt
take-IsBytes (suc n) [] p = tt
take-IsBytes (suc n) (x ∷ xs) p = (p.0, take-IsBytes n xs p.1)

pub drop-IsBytes : (n : ℕ) (xs : List ℕ) → IsBytes xs → IsBytes (drop n xs)
drop-IsBytes zero xs p = p
drop-IsBytes (suc n) [] p = tt
drop-IsBytes (suc n) (x ∷ xs) p = drop-IsBytes n xs p.1

pub replicate-IsBytes : (n : ℕ) (x : ℕ) → x < 256 → IsBytes (replicate n x)
replicate-IsBytes zero x p = tt
replicate-IsBytes (suc n) x p = (p, replicate-IsBytes n x p)
