-- ===== src/Reorder/Deliver.antt =====
-- Buffered handshake messages are handled in the order of their sequence numbers, once the missing one
-- has come.
use mathlib.Core.List.Perm
use mathlib.Core.List.{Perm}
use gc2021_pqdtls.Base.{
  ℕ, suc, ◌+◌, ◌==◌, ==_iff, ==_refl, true, false, Bool-cases, inl, inr, some, List, [], ◌∷◌,
  length, ◌≡◌, ◌≢◌, refl, ap, sym, subst, ◌∙◌, arith,
}
use gc2021_pqdtls.Netq.{Node, remove}
use gc2021_pqdtls.Netq.Remove.{Absent}
use gc2021_pqdtls.Reorder.{message_seq, find_seq}

-- The nodes of the queue stand at different addresses.
abbrev pub Unique : List Node → Type 0
Unique [] = Unit {0}
Unique (n ∷ q) = Absent n.addr q × Unique q

-- The nodes hold the messages `seq`, `seq + 1`, and so on.
abbrev pub Consecutive : ℕ → List Node → Type 0
Consecutive seq [] = Unit {0}
Consecutive seq (n ∷ ns) = (message_seq n.packet ≡ seq) × Consecutive (seq + 1) ns

some-injective : {a b : Node} → some a ≡ some b → a ≡ b
some-injective e = ground arith

==_false_sym : (a b : ℕ) → (a == b) ≡ false → (b == a) ≡ false
==_false_sym a b h = ground arith

Absent-remove : (a b : ℕ) (q : List Node) → Absent a q → Absent a (remove q b)
unfolding remove
Absent-remove a b [] h = h
Absent-remove a b (n ∷ q) (h, k) = elim (Bool-cases (n.addr == b)) [
  | inl e ↦ rw e k
  | inr e ↦ rw e (h, Absent-remove a b q k)
]

pub remove-Unique : (b : ℕ) (q : List Node) → Unique q → Unique (remove q b)
unfolding remove
remove-Unique b [] u = u
remove-Unique b (n ∷ q) (h, u) = elim (Bool-cases (n.addr == b)) [
  | inl e ↦ rw e u
  | inr e ↦ rw e (Absent-remove n.addr b q h, remove-Unique b q u)
]

-- What a search finds has the number, and its removal takes just it away.
pub record Found (seq : ℕ) (q : List Node) (n : Node) : Type 0 where
  pub numbered : message_seq n.packet ≡ seq
  pub shorter : length q ≡ suc (length (remove q n.addr))
  pub taken : Perm q (n ∷ remove q n.addr)

find_seq_here :
    (seq : ℕ) (p n : Node) (q : List Node)
    → (message_seq p.packet == seq) ≡ true
    → find_seq seq (p ∷ q) ≡ some n
    → p ≡ n
unfolding find_seq
find_seq_here seq p n q f e =
    let first : find_seq seq (p ∷ q) ≡ some p = rw f refl in some-injective (sym first ∙ e)

find_seq_there :
    (seq : ℕ) (p n : Node) (q : List Node)
    → (message_seq p.packet == seq) ≡ false
    → find_seq seq (p ∷ q) ≡ some n
    → find_seq seq q ≡ some n
unfolding find_seq
find_seq_there seq p n q f e =
    let rest : find_seq seq (p ∷ q) ≡ find_seq seq q = rw f refl in sym rest ∙ e

pub find_seq_nil : (seq : ℕ) (n : Node) → find_seq seq [] ≢ some n
unfolding find_seq
find_seq_nil seq n e = ground arith

Absent-ne :
    (a : ℕ) (q : List Node) (seq : ℕ) (n : Node)
    → Absent a q
    → find_seq seq q ≡ some n
    → (a == n.addr) ≡ false
Absent-ne a [] seq n h e = absurd (find_seq_nil seq n e)
Absent-ne a (p ∷ q) seq n (h, k) e = elim (Bool-cases (message_seq p.packet == seq)) [
  | inl f ↦
      subst (λ (m : Node). (a == m.addr) ≡ false) (find_seq_here seq p n q f e)
        (==_false_sym p.addr a h)
  | inr f ↦ Absent-ne a q seq n k (find_seq_there seq p n q f e)
]

pub find_seq-Found :
    (seq : ℕ) (q : List Node) (n : Node) → Unique q → find_seq seq q ≡ some n → Found seq q n
unfolding remove
find_seq-Found seq [] n u e = absurd (find_seq_nil seq n e)
find_seq-Found seq (p ∷ q) n (h, u) e = elim (Bool-cases (message_seq p.packet == seq)) [
  | inl f ↦
      subst (λ (m : Node). Found seq (p ∷ q) m) (find_seq_here seq p n q f e)
        (record {
          numbered = (==_iff (message_seq p.packet) seq).0 f;
          shorter = rw (==_refl p.addr) refl;
          taken = rw (==_refl p.addr) (Perm.refl (p ∷ q));
        })
  | inr f ↦
      let later = find_seq_there seq p n q f e in
      let v = find_seq-Found seq q n u later in
      let other = Absent-ne p.addr q seq n h later in
      record {
        numbered = v.numbered;
        shorter = rw other (ap suc v.shorter);
        taken = rw other (Perm.trans (Perm.cons p v.taken) (Perm.swap n p (remove q n.addr)));
      }
]
