-- ===== src/Engine/Timer/Deadline.antt =====
-- The loop of dtls_check_retransmit ends: every packet it takes is dropped or comes back with a
-- deadline behind the time at which the loop began.
use gc2021_pqdtls.Base.{
  ℕ, zero, suc, ◌+◌, ◌*◌, ◌%◌, ◌^◌, ◌≤◌, ◌<◌, ltb, leb, ltb→lt, if◌then◌else◌, true, false,
  Bool-cases, inl, inr, some, List, [], ◌∷◌, length, ◌==◌, ◌≡◌, refl, ap, subst, sym, ◌∙◌, arith,
}
use gc2021_pqdtls.Peers.{Peer, deref, put}
use gc2021_pqdtls.Netq.{Node, insert_node, pop_first}
use gc2021_pqdtls.Netq.Order.{NotBefore, NotBefore-weaken, Sorted, insert_node-Sorted}
use gc2021_pqdtls.Record.{SetKey}
use gc2021_pqdtls.Engine.{Context}
use gc2021_pqdtls.Engine.Timer.{
  postponed, resend, retransmit, check_loop, check_retransmit, next_time,
}

-- How many packets are due at `now`.
abbrev pub due : ℕ → List Node → ℕ
due now [] = 0
due now (n ∷ q) = let rest = due now q in if leb n.t now then suc rest else rest

-- A packet as dtls_send_multi queues it: for a peer that is allocated, with a timeout of at most 2
-- seconds.
abbrev pub Ready : List Peer → Node → Type 0
Ready heap n =
    ((a : ℕ) × (n.peer ≡ some a) × ((p : Peer) × (deref heap a ≡ some p)))
    × ((1 ≤ n.timeout) × (n.timeout ≤ 2000))

abbrev pub AllReady : List Peer → List Node → Type 0
AllReady heap [] = 0 ≤ 0
AllReady heap (n ∷ q) = Ready heap n × AllReady heap q

deref-put :
    (heap : List Peer) (q : Peer) (a : ℕ) (p : Peer)
    → deref heap a ≡ some p
    → (p' : Peer) × (deref (put heap q) a ≡ some p')
unfolding deref put
deref-put [] q a p h = ground arith
deref-put (r ∷ heap) q a p h = elim (Bool-cases (r.addr == q.addr)) [
  | inl e ↦ elim (Bool-cases (r.addr == a)) [
    | inl f ↦ let here : (q.addr == a) ≡ true = ground arith in (q, rw (e, here) refl)
    | inr f ↦
        let gone : (q.addr == a) ≡ false = ground arith in (p, rw (e, gone) (skip r heap a p f h))
  ]
  | inr e ↦ elim (Bool-cases (r.addr == a)) [
    | inl f ↦ (r, rw (e, f) refl)
    | inr f ↦ let (p', k) = deref-put heap q a p (skip r heap a p f h) in (p', rw (e, f) k)
  ]
]
  where
    skip :
        (r : Peer) (heap : List Peer) (a : ℕ) (p : Peer)
        → (r.addr == a) ≡ false
        → deref (r ∷ heap) a ≡ some p
        → deref heap a ≡ some p
    skip r heap a p f h = subst (λ b. (if b then some r else deref heap a) ≡ some p) f h

AllReady-put :
    (heap : List Peer) (p : Peer) (q : List Node) → AllReady heap q → AllReady (put heap p) q
AllReady-put heap p [] h = h
AllReady-put heap p (n ∷ q) (((a, e, (o, d)), t), h) =
    (((a, e, deref-put heap p a o d), t), AllReady-put heap p q h)

AllReady-insert_node :
    (heap : List Peer) (q : List Node) (n : Node)
    → AllReady heap q
    → Ready heap n
    → AllReady heap (insert_node q n)
unfolding insert_node
AllReady-insert_node heap [] n h r = (r, h)
AllReady-insert_node heap (p ∷ q) n (s, h) r = elim (Bool-cases (leb p.t n.t)) [
  | inl e ↦ rw e (s, AllReady-insert_node heap q n h r)
  | inr e ↦ rw e (r, (s, h))
]

due-insert_node :
    (now : ℕ) (q : List Node) (n : Node) → now < n.t → due now (insert_node q n) ≡ due now q
unfolding insert_node
due-insert_node now [] n h = let late : leb n.t now ≡ false = ground arith in rw late refl
due-insert_node now (p ∷ q) n h =
    let late : leb n.t now ≡ false = ground arith in
    elim (Bool-cases (leb p.t n.t)) [
      | inl e ↦ rw (e, due-insert_node now q n h) refl
      | inr e ↦ rw (e, late) refl
    ]

due-none : (now : ℕ) (q : List Node) → NotBefore (now + 1) q → due now q ≡ 0
due-none now [] h = refl
due-none now (n ∷ q) (a, b) =
    let late : leb n.t now ≡ false = ground arith in rw (late, due-none now q b) refl

due-le : (now : ℕ) (q : List Node) → due now q ≤ length q
due-le now [] = omega arith
due-le now (n ∷ q) = elim (Bool-cases (leb n.t now)) [
  | inl e ↦ rw e (omega (arith, due-le now q))
  | inr e ↦ rw e (omega (arith, due-le now q))
]

backoff :
    (t cnt : ℕ)
    → 1 ≤ t
    → t ≤ 2000
    → cnt < 7
    → (1 ≤ t * 2 ^ ((cnt + 1) % 2 ^ 8) % 2 ^ 32) × (t * 2 ^ ((cnt + 1) % 2 ^ 8) % 2 ^ 32 ≤ 256000)
backoff t zero a b h = omega arith
backoff t (suc zero) a b h = omega arith
backoff t (suc (suc zero)) a b h = omega arith
backoff t (suc (suc (suc zero))) a b h = omega arith
backoff t (suc (suc (suc (suc zero)))) a b h = omega arith
backoff t (suc (suc (suc (suc (suc zero))))) a b h = omega arith
backoff t (suc (suc (suc (suc (suc (suc zero)))))) a b h = omega arith
backoff t (suc (suc (suc (suc (suc (suc (suc n))))))) a b h = omega arith

-- What the code relies on in the clock: it does not run backwards, and does not come near the wrap.
pub record IsClock (ticks : ℕ → ℕ) : Type 0 where
  pub later : (i j : ℕ) → i ≤ j → ticks i ≤ ticks j
  pub bounded : (i : ℕ) → ticks i < 2 ^ 63

-- Every packet of the context's queue is ready, and the queue is in order.
abbrev pub IsTimed : Context → Type 0
IsTimed c = AllReady c.heap c.sendqueue × Sorted c.sendqueue

module _ (set_key : SetKey) (ticks : ℕ → ℕ) (clock : IsClock ticks) where
  postponed-t :
      (i k : ℕ) (n : Node)
      → i ≤ k
      → 1 ≤ n.timeout
      → n.timeout ≤ 2000
      → n.retransmit_cnt < 7
      → ticks i < (postponed set_key ticks (ticks k) n).t
  unfolding postponed
  postponed-t i k n le a b h =
      let (up, small) = backoff n.timeout n.retransmit_cnt a b h in
      let order = clock.later i k le in let bound = clock.bounded k in omega arith

  -- What one call of dtls_retransmit leaves, when the loop began at reading `i` of the clock.
  abbrev Progress : ℕ → Context → Context → Type 0
  Progress i c c' =
      IsTimed c' × ((due (ticks i) c'.sendqueue ≡ due (ticks i) c.sendqueue) × (c.reads ≤ c'.reads))

  resend-Progress :
      (i : ℕ) (n : Node) (p : Peer) (c : Context)
      → IsTimed c
      → Ready c.heap n
      → i ≤ c.reads
      → n.retransmit_cnt < 7
      → Progress i c (resend set_key ticks n p c)
  unfolding resend postponed
  resend-Progress i n p c (ready, sorted) ((a, e, (o, d)), (low, high)) le h =
      let n' = postponed set_key ticks (ticks c.reads) n in
      let queue = insert_node c.sendqueue n' in
      (
        (
          AllReady-put c.heap _ queue
              (AllReady-insert_node c.heap c.sendqueue n' ready ((a, e, (o, d)), (low, high))),
          insert_node-Sorted c.sendqueue n' sorted,
        ),
        (
          due-insert_node (ticks i) c.sendqueue n' (postponed-t i c.reads n le low high h),
          omega arith,
        ),
      )

  retransmit-Progress :
      (i : ℕ) (n : Node) (c : Context)
      → IsTimed c
      → Ready c.heap n
      → i ≤ c.reads
      → (c' : Context) × (retransmit set_key ticks n c ≡ some c') × Progress i c c'
  unfolding retransmit
  retransmit-Progress i n c timed ((a, e, (p, d)), bounds) le =
      elim (Bool-cases (ltb n.retransmit_cnt 7)) [
        | inl h ↦ (
          resend set_key ticks n p c,
          rw (e, h, d) refl,
          resend-Progress i n p c timed ((a, e, (p, d)), bounds) le (ltb→lt n.retransmit_cnt 7 h),
        )
        | inr h ↦ (c, rw (e, h) refl, (timed, (refl, omega arith)))
      ]

  -- What the loop that began at reading `i` leaves.
  abbrev Checked : ℕ → Context → Type 0
  Checked i c = IsTimed c × (due (ticks i) c.sendqueue ≡ 0)

  Checked-of :
      (i : ℕ) (c : Context) (q : List Node)
      → c.sendqueue ≡ q
      → AllReady c.heap q × Sorted q
      → due (ticks i) q ≡ 0
      → Checked i c
  Checked-of i c q h timed idle =
      (subst (λ t. AllReady c.heap t × Sorted t) (sym h) timed, ap (due (ticks i)) h ∙ idle)

  check_loop-step :
      (fuel now : ℕ) (c c1 : Context) (n : Node) (q : List Node)
      → c.sendqueue ≡ n ∷ q
      → leb n.t now ≡ true
      → retransmit set_key ticks n (record c { sendqueue = q }) ≡ some c1
      → check_loop set_key ticks (suc fuel) now true c ≡ check_loop set_key ticks fuel now true c1
  unfolding check_loop pop_first
  check_loop-step fuel now c c1 n q same e run = rw (same, e, run) refl

  check_loop_lem :
      (fuel i : ℕ) (c : Context) (q : List Node)
      → c.sendqueue ≡ q
      → AllReady c.heap q × Sorted q
      → i ≤ c.reads
      → due (ticks i) q ≤ fuel
      → (c' : Context) × (check_loop set_key ticks fuel (ticks i) true c ≡ some c') × Checked i c'
  unfolding check_loop pop_first
  check_loop_lem zero i c q same timed le h = (c, refl, Checked-of i c q same timed (omega arith))
  check_loop_lem (suc fuel) i c [] same timed le h =
      (c, rw same refl, Checked-of i c [] same timed refl)
  check_loop_lem (suc fuel) i c (n ∷ q) same ((ready, all), (first, sorted)) le h =
      elim (Bool-cases (leb n.t (ticks i))) [
        | inl e ↦
            let (c1, run, (timed, (count, more))) =
              retransmit-Progress i n (record c { sendqueue = q }) (all, sorted) ready le in
            let fewer : suc (due (ticks i) q) ≤ suc fuel =
              subst (λ b. (if b then suc (due (ticks i) q) else due (ticks i) q) ≤ suc fuel) e h in
            let (c', done, result) =
              check_loop_lem fuel i c1 c1.sendqueue refl timed (omega arith) (omega arith) in
            (c', check_loop-step fuel (ticks i) c c1 n q same e run ∙ done, result)
        | inr e ↦
            let late : ticks i + 1 ≤ n.t = ground arith in
            let idle : due (ticks i) (n ∷ q) ≡ 0 =
              due-none (ticks i) (n ∷ q) (late, NotBefore-weaken (ticks i + 1) n.t q late first) in
            (c, rw (same, e) refl, Checked-of i c (n ∷ q) same ((ready, all), (first, sorted)) idle)
      ]

  -- Checking all packets ends with as much fuel as the queue is long, without a fault, and leaves
  -- a queue in order in which no packet is due at the time at which the check began. The queue
  -- must be in order and every packet be for an allocated peer, with a timeout of 1 to 2000 ticks;
  -- the clock must not run backwards and stay below 2 ^ 63.
  pub check_retransmit-due :
      (c : Context)
      → IsTimed c
      → (next : ℕ) × (c' : Context) × (check_retransmit set_key ticks true c ≡ some (next, c'))
        × (IsTimed c' × (due (ticks c.reads) c'.sendqueue ≡ 0))
  unfolding check_retransmit
  check_retransmit-due c timed =
      let (c', done, result) =
        check_loop_lem (length c.sendqueue) c.reads (record c { reads = c.reads + 1 }) c.sendqueue
          refl timed (omega arith) (due-le (ticks c.reads) c.sendqueue) in
      (next_time set_key ticks c'.sendqueue, c', rw done refl, result)
