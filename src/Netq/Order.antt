-- ===== src/Netq/Order.antt =====
-- The order of the queue: by time, and first in first out among equal times.
use mathlib.Core.List.{append-nil}
use gc2021_pqdtls.Base.{
  ℕ, ◌+◌, ◌≤◌, ◌<◌, leb, leb→le, ◌==◌, ==_iff, if◌then◌else◌, false, Bool-cases, inl, inr, List, [],
  ◌∷◌, ◌++◌, length, ◌≡◌, refl, sym, arith,
}
use gc2021_pqdtls.Netq.{Node, insert_node}

-- No node of the queue is due before `t`.
abbrev pub NotBefore : ℕ → List Node → Type 0
NotBefore t [] = t ≤ t
NotBefore t (n ∷ q) = (t ≤ n.t) × NotBefore t q

abbrev pub Sorted : List Node → Type 0
Sorted [] = 0 ≤ 0
Sorted (n ∷ q) = NotBefore n.t q × Sorted q

-- The nodes for one time, in their order.
abbrev pub at_time : ℕ → List Node → List Node
at_time t [] = []
at_time t (n ∷ q) = let rest = at_time t q in if n.t == t then n ∷ rest else rest

pub NotBefore-weaken : (s t : ℕ) (q : List Node) → s ≤ t → NotBefore t q → NotBefore s q
NotBefore-weaken s t [] h b = omega arith
NotBefore-weaken s t (n ∷ q) h (a, b) = (omega arith, NotBefore-weaken s t q h b)

NotBefore-insert_node :
    (t : ℕ) (q : List Node) (n : Node) → NotBefore t q → t ≤ n.t → NotBefore t (insert_node q n)
unfolding insert_node
NotBefore-insert_node t [] n b h = (h, omega arith)
NotBefore-insert_node t (p ∷ q) n (a, b) h = elim (Bool-cases (leb p.t n.t)) [
  | inl e ↦ rw e (a, NotBefore-insert_node t q n b h)
  | inr e ↦ rw e (h, (a, b))
]

leb-false→le : (a b : ℕ) → leb a b ≡ false → b < a
leb-false→le a b h = ground arith

-- Insertion keeps the queue in order.
pub insert_node-Sorted : (q : List Node) (n : Node) → Sorted q → Sorted (insert_node q n)
unfolding insert_node
insert_node-Sorted [] n s = (omega arith, omega arith)
insert_node-Sorted (p ∷ q) n (b, s) = elim (Bool-cases (leb p.t n.t)) [
  | inl e ↦ rw e (NotBefore-insert_node p.t q n b (leb→le p.t n.t e), insert_node-Sorted q n s)
  | inr e ↦
      let early : n.t < p.t = leb-false→le p.t n.t e in
      rw e ((omega arith, NotBefore-weaken n.t p.t q (omega arith) b), (b, s))
]

at_time-none : (t : ℕ) (q : List Node) → NotBefore (t + 1) q → at_time t q ≡ []
at_time-none t [] b = refl
at_time-none t (n ∷ q) (a, b) =
    let later : (n.t == t) ≡ false = ground arith in rw (later, at_time-none t q b) refl

keep :
    (p : Node) (q : List Node) (n : Node) (t : ℕ)
    → at_time t (insert_node q n) ≡ at_time t q ++ (if n.t == t then n ∷ [] else [])
    → at_time t (p ∷ insert_node q n) ≡ at_time t (p ∷ q) ++ (if n.t == t then n ∷ [] else [])
keep p q n t h = elim (Bool-cases (p.t == t)) [ inl e ↦ rw (e, h) refl | inr e ↦ rw (e, h) refl ]

put :
    (p : Node) (q : List Node) (n : Node) (t : ℕ)
    → NotBefore p.t q
    → n.t < p.t
    → at_time t (n ∷ p ∷ q) ≡ at_time t (p ∷ q) ++ (if n.t == t then n ∷ [] else [])
put p q n t b early = elim (Bool-cases (n.t == t)) [
  | inl e ↦
      let same : n.t ≡ t = (==_iff n.t t).0 e in
      let none : at_time t (p ∷ q) ≡ [] =
        at_time-none t (p ∷ q) (omega arith, NotBefore-weaken (t + 1) p.t q (omega arith) b) in
      rw (e, none) refl
  | inr e ↦ rw e (sym (append-nil (at_time t (p ∷ q))))
]

-- A node that is inserted in an ordered queue comes last among those for its time, and those for any
-- other time stay as they are.
pub at_time-insert_node :
    (q : List Node) (n : Node) (t : ℕ)
    → Sorted q
    → at_time t (insert_node q n) ≡ at_time t q ++ (if n.t == t then n ∷ [] else [])
unfolding insert_node
at_time-insert_node [] n t s = refl
at_time-insert_node (p ∷ q) n t (b, s) = elim (Bool-cases (leb p.t n.t)) [
  | inl e ↦ rw e (keep p q n t (at_time-insert_node q n t s))
  | inr e ↦ rw e (put p q n t b (leb-false→le p.t n.t e))
]

-- Insertion adds one node, the length goes up by one.
length-insert_node : (q : List Node) (n : Node) → length (insert_node q n) ≡ length q + 1
unfolding insert_node
length-insert_node [] n = refl
length-insert_node (p ∷ q) n = elim (Bool-cases (leb p.t n.t)) [
  | inl e ↦ rw e (omega (arith, length-insert_node q n))
  | inr e ↦ rw e (omega arith)
]
