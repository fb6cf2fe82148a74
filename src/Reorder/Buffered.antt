-- ===== src/Reorder/Buffered.antt =====
-- What handle_handshake keeps of messages that are ahead.
use gc2021_pqdtls.Base.{
  ℕ, ltb, leb, ◌==◌, ==_refl, false, Bool-cases, Option-cases, inl, inr, Option, none, some, List,
  [], ◌∷◌, length, ◌≡◌, ◌≢◌, refl, sym, ◌∙◌, arith,
}
use gc2021_pqdtls.Engine.{max_buf}
use gc2021_pqdtls.Netq.{Node, insert_node}
use gc2021_pqdtls.Netq.Remove.{Absent}
use gc2021_pqdtls.Reorder.{Params, MessageHandler, message_seq, find_seq, buffer_message}
use gc2021_pqdtls.Reorder.Deliver.{Unique}

-- No two nodes hold messages with one number.
abbrev pub Single : List Node → Type 0
Single [] = Unit {0}
Single (n ∷ q) = (find_seq (message_seq n.packet) q ≡ none) × Single q

-- The queue of the messages that wait: one node for each number, at an address of its own.
pub record IsQueue (p : Params) : Type 0 where
  pub unique : Unique p.reorder_queue
  pub single : Single p.reorder_queue

Absent-insert_node :
    (a : ℕ) (q : List Node) (n : Node)
    → Absent a q
    → (n.addr == a) ≡ false
    → Absent a (insert_node q n)
unfolding insert_node
Absent-insert_node a [] n h k = (k, h)
Absent-insert_node a (p ∷ q) n (h, t) k = elim (Bool-cases (leb p.t n.t)) [
  | inl e ↦ rw e (h, Absent-insert_node a q n t k)
  | inr e ↦ rw e (k, (h, t))
]

some-none : {n : Node} → some n ≢ none
some-none e = ground arith

==_false_sym : (a b : ℕ) → (a == b) ≡ false → (b == a) ≡ false
==_false_sym a b h = ground arith

insert_node-Unique :
    (q : List Node) (n : Node) → Unique q → Absent n.addr q → Unique (insert_node q n)
unfolding insert_node
insert_node-Unique [] n u h = (h, u)
insert_node-Unique (p ∷ q) n (v, u) (k, h) = elim (Bool-cases (leb p.t n.t)) [
  | inl e ↦
      rw e
        (Absent-insert_node p.addr q n v (==_false_sym p.addr n.addr k), insert_node-Unique q n u h)
  | inr e ↦ rw e ((k, h), (v, u))
]

missing_parts :
    (seq : ℕ) (p : Node) (q : List Node)
    → find_seq seq (p ∷ q) ≡ none
    → ((message_seq p.packet == seq) ≡ false) × (find_seq seq q ≡ none)
unfolding find_seq
missing_parts seq p q h = elim (Bool-cases (message_seq p.packet == seq)) [
  | inl e ↦
      let first : find_seq seq (p ∷ q) ≡ some p = rw e refl in absurd (some-none (sym first ∙ h))
  | inr e ↦ let rest : find_seq seq (p ∷ q) ≡ find_seq seq q = rw e refl in (e, sym rest ∙ h)
]

missing_cons :
    (seq : ℕ) (p : Node) (q : List Node)
    → (message_seq p.packet == seq) ≡ false
    → find_seq seq q ≡ none
    → find_seq seq (p ∷ q) ≡ none
unfolding find_seq
missing_cons seq p q e h = rw (e, h) refl

find_seq-insert_node :
    (q : List Node) (n : Node) (seq : ℕ)
    → find_seq seq q ≡ none
    → (message_seq n.packet == seq) ≡ false
    → find_seq seq (insert_node q n) ≡ none
unfolding insert_node
find_seq-insert_node [] n seq h k = missing_cons seq n [] k h
find_seq-insert_node (p ∷ q) n seq h k =
    let (k2, h2) = missing_parts seq p q h in
    elim (Bool-cases (leb p.t n.t)) [
      | inl e ↦ rw e (missing_cons seq p _ k2 (find_seq-insert_node q n seq h2 k))
      | inr e ↦ rw e (missing_cons seq n (p ∷ q) k h)
    ]

insert_node-Single :
    (q : List Node) (n : Node)
    → Single q
    → find_seq (message_seq n.packet) q ≡ none
    → Single (insert_node q n)
unfolding insert_node
insert_node-Single [] n s h = (h, tt)
insert_node-Single (p ∷ q) n (s, t) h =
    let (k2, h2) = missing_parts (message_seq n.packet) p q h in
    elim (Bool-cases (leb p.t n.t)) [
      | inl e ↦ rw e (
        find_seq-insert_node q n (message_seq p.packet) s (==_false_sym _ _ k2),
        insert_node-Single q n t h2,
      )
      | inr e ↦ rw e (h, (s, t))
    ]

inserted_found :
    (q : List Node) (n : Node)
    → (m : Node) × (find_seq (message_seq n.packet) (insert_node q n) ≡ some m)
unfolding insert_node find_seq
inserted_found [] n = (n, rw (==_refl (message_seq n.packet)) refl)
inserted_found (p ∷ q) n = elim (Bool-cases (leb p.t n.t)) [
  | inr e ↦ rw e (n, rw (==_refl (message_seq n.packet)) refl)
  | inl e ↦ rw e (elim (Bool-cases (message_seq p.packet == message_seq n.packet)) [
    | inl f ↦ (p, rw f refl)
    | inr f ↦ let (m, g) = inserted_found q n in (m, rw f g)
  ])
]

abbrev kept : ℕ → Option ℕ → List ℕ → Node
kept addr peer msg = record {
  addr = addr;
  t = 0;
  timeout = 0;
  peer = peer;
  epoch = 0;
  type = 0;
  retransmit_cnt = 0;
  packet = msg;
}

module _ (World : Type 0) (handle_msg : MessageHandler World) (peer_state : World → ℕ)
    (stale : List ℕ → List ℕ) where
  -- A message that is ahead leaves one node for each number, each at an address of its own, if the
  -- allocation gives a fresh one.
  pub buffer_message-IsQueue :
      (addr : ℕ) (peer : Option ℕ) (msg : List ℕ) (p : Params)
      → IsQueue p
      → Absent addr p.reorder_queue
      → IsQueue (buffer_message World handle_msg peer_state stale (some addr) peer msg p)
  unfolding buffer_message
  buffer_message-IsQueue addr peer msg p v h = elim (Bool-cases (ltb max_buf (length msg))) [
    | inl e ↦ rw e v
    | inr e ↦ elim (Option-cases (find_seq (message_seq msg) p.reorder_queue)) [
      | inr (n, f) ↦ rw (e, f) v
      | inl f ↦
          rw (e, f)
            (record {
              unique = insert_node-Unique p.reorder_queue _ v.unique h;
              single = insert_node-Single p.reorder_queue _ v.single f;
            })
    ]
  ]

  -- A message that comes in again while it waits changes nothing.
  pub buffer_message_again :
      (addr : ℕ) (alloc peer : Option ℕ) (msg : List ℕ) (p : Params)
      → let once = buffer_message World handle_msg peer_state stale (some addr) peer msg p in
        buffer_message World handle_msg peer_state stale alloc peer msg once ≡ once
  unfolding buffer_message
  buffer_message_again addr alloc peer msg p = elim (Bool-cases (ltb max_buf (length msg))) [
    | inl e ↦ rw e refl
    | inr e ↦ elim (Option-cases (find_seq (message_seq msg) p.reorder_queue)) [
      | inr (n, f) ↦ rw (e, f) (rw f refl)
      | inl f ↦
          let (m, g) = inserted_found p.reorder_queue (kept addr peer msg) in rw (e, f, g) refl
    ]
  ]
