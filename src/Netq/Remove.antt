-- ===== src/Netq/Remove.antt =====
-- netq_remove and netq_pop_first against insertion, and what stays in the queue.
use gc2021_pqdtls.Base.{
  ℕ, ◌≤◌, leb, ◌==◌, ==_refl, false, Bool-cases, inl, inr, List, [], ◌∷◌, ◌≡◌, refl,
}
use gc2021_pqdtls.Netq.{Node, insert_node, remove}

-- No node of the queue stands at the address.
abbrev pub Absent : ℕ → List Node → Type 0
Absent a [] = a ≤ a
Absent a (n ∷ q) = ((n.addr == a) ≡ false) × Absent a q

-- A node that was inserted under a fresh address is removed again, and the queue is as it was.
pub remove-insert_node :
    (q : List Node) (n : Node) → Absent n.addr q → remove (insert_node q n) n.addr ≡ q
unfolding insert_node remove
remove-insert_node [] n h = rw (==_refl n.addr) refl
remove-insert_node (p ∷ q) n (h, k) = elim (Bool-cases (leb p.t n.t)) [
  | inl e ↦ rw (e, h, remove-insert_node q n k) refl
  | inr e ↦ rw (e, ==_refl n.addr) refl
]
