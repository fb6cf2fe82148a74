-- ===== src/Engine/Alerts/Safety.antt =====
-- No use after free: an alert that ends a connection leaves no link and no queued packet that leads to
-- the object that is released.
use gc2021_pqdtls.Base.{
  ℕ, ◌≤◌, ltb, ltb-false, ◌==◌, ==_iff, true, false, not, ◌&&◌, ◌||◌, Bool-cases, inl, inr, none,
  some, List, [], ◌∷◌, length, ◌≡◌, refl, ap, subst, sym, ◌∙◌, arith,
}
use gc2021_pqdtls.Alert.{Result, ok}
use gc2021_pqdtls.Session.{session_equals}
use gc2021_pqdtls.Peers.{Peer, deref, free_peer, delete_peer}
use gc2021_pqdtls.Peers.Linked.{
  Linked, Unlinked, delete_peer-free_peer, deref-free_peer, Linked-delete_peer,
}
use gc2021_pqdtls.Netq.{Node}
use gc2021_pqdtls.Record.{SetKey}
use gc2021_pqdtls.Engine.{Context, stop_queue}
use gc2021_pqdtls.Engine.Alerts.{
  stop_retransmission, destroy_peer, answer_close, release, handle_alert,
}
use gc2021_pqdtls.Engine.Alerts.Kept.{some-inj, deref-freed, Kept, close-Same, answer_close-Same}

-- A queued packet for an object that is there.
abbrev pub Held : List Peer → List Node → Type 0
Held heap [] = 0 ≤ 0
Held heap (n ∷ q) =
    ((b : ℕ) × (n.peer ≡ some b) × ((p : Peer) × (deref heap b ≡ some p))) × Held heap q

-- A queued packet for an object that is there, and is not the one at `a`.
abbrev pub HeldWithout : ℕ → List Peer → List Node → Type 0
HeldWithout a heap [] = 0 ≤ 0
HeldWithout a heap (n ∷ q) =
    ((b : ℕ) × (n.peer ≡ some b) × (((b == a) ≡ false) × ((p : Peer) × (deref heap b ≡ some p))))
    × HeldWithout a heap q

Held-Kept : (x y : List Peer) (q : List Node) → Kept x y → Held x q → Held y q
Held-Kept x y [] k h = h
Held-Kept x y (n ∷ q) k ((b, e, (p, d)), h) =
    let (p', d', s) = k b p d in ((b, e, (p', d')), Held-Kept x y q k h)

HeldWithout-Kept :
    (a : ℕ) (x y : List Peer) (q : List Node) → Kept x y → HeldWithout a x q → HeldWithout a y q
HeldWithout-Kept a x y [] k h = h
HeldWithout-Kept a x y (n ∷ q) k ((b, e, (o, (p, d))), h) =
    let (p', d', s) = k b p d in ((b, e, (o, (p', d'))), HeldWithout-Kept a x y q k h)

HeldWithout-free_peer :
    (a : ℕ) (x : List Peer) (q : List Node) → HeldWithout a x q → HeldWithout a (free_peer x a) q
HeldWithout-free_peer a x [] h = h
HeldWithout-free_peer a x (n ∷ q) ((b, e, (o, (p, d))), h) =
    ((b, e, (o, (p, deref-free_peer x a b o ∙ d))), HeldWithout-free_peer a x q h)

pub Linked-Kept : (x y : List Peer) (peers : List ℕ) → Kept x y → Linked x peers → Linked y peers
Linked-Kept x y [] k h = h
Linked-Kept x y (l ∷ next) k ((p, d), (u, h)) =
    let (p', d', s) = k l p d in ((p', d'), (u, Linked-Kept x y next k h))

module _ (set_key : SetKey) (write : List ℕ → Result ℕ) (ticks : ℕ → ℕ) where
  -- The loop of dtls_stop_retransmission takes every packet for the object at `a` off the queue.
  stop_queue-Held :
      (heap : List Peer) (a : ℕ) (p : Peer) (q : List Node)
      → deref heap a ≡ some p
      → session_equals p.session p.session ≡ true
      → Held heap q
      → (q' : List Node) × (stop_queue set_key write ticks heap p.session q ≡ some q')
        × HeldWithout a heap q'
  unfolding stop_queue
  stop_queue-Held heap a p [] d s h = ([], refl, h)
  stop_queue-Held heap a p (n ∷ q) d s ((b, e, (o, f)), h) =
      let (rest, run, safe) = stop_queue-Held heap a p q d s h in
      elim (Bool-cases (session_equals o.session p.session)) [
        | inl same ↦ (rest, rw (e, f, run, same) refl, safe)
        | inr differ ↦
            (n ∷ rest, rw (e, f, run, differ) refl, ((b, e, (other b o f differ, (o, f))), safe))
      ]
    where
      other :
          (b : ℕ) (o : Peer)
          → deref heap b ≡ some o
          → session_equals o.session p.session ≡ false
          → (b == a) ≡ false
      other b o f differ = elim (Bool-cases (b == a)) [
        | inl e ↦
            let same : o ≡ p = some-inj o p (sym f ∙ ap (deref heap) ((==_iff b a).0 e) ∙ d) in
            let clash : session_equals o.session p.session ≡ true =
              ap (λ (t : Peer). session_equals t.session p.session) same ∙ s in
            ground arith
        | inr e ↦ e
      ]

  -- What is left when a peer is gone: no object at `a`, no link to it, no packet for it, and every
  -- other link and packet good.
  abbrev pub Gone : ℕ → Context → Type 0
  Gone a c =
      (deref c.heap a ≡ none)
      × (Unlinked a c.peers × (Linked c.heap c.peers × HeldWithout a c.heap c.sendqueue))

  destroy_peer-Gone :
      (a : ℕ) (c : Context) (p : Peer)
      → deref c.heap a ≡ some p
      → Linked c.heap c.peers
      → HeldWithout a c.heap c.sendqueue
      → (c' : Context) × (destroy_peer set_key write ticks a true c ≡ some c') × Gone a c'
  unfolding destroy_peer
  destroy_peer-Gone a c p d linked held =
      elim (Bool-cases (not (p.state == 14) && not (p.state == 13))) [
        | inl open_ ↦
            let (r, c1, run, same) = close-Same set_key write ticks p.session c in
            let result =
              dropped c1
                (Linked-Kept c.heap c1.heap c1.peers same.0
                  (subst (Linked c.heap) (sym same.1.0) linked))
                (HeldWithout-Kept a c.heap c1.heap c1.sendqueue same.0
                  (subst (HeldWithout a c.heap) (sym same.1.1) held)) in
            (
              record c1 { peers = delete_peer c1.peers a; heap = free_peer c1.heap a },
              rw (d, open_, run) refl,
              result,
            )
        | inr over ↦ (
          record c { peers = delete_peer c.peers a; heap = free_peer c.heap a },
          rw (d, over) refl,
          dropped c linked held,
        )
      ]
    where
      dropped :
          (c : Context)
          → Linked c.heap c.peers
          → HeldWithout a c.heap c.sendqueue
          → Gone a (record c { peers = delete_peer c.peers a; heap = free_peer c.heap a })
      dropped c linked held =
          let (k, u) = delete_peer-free_peer c.heap c.peers a linked in
          (deref-freed c.heap a, (u, (k, HeldWithout-free_peer a c.heap c.sendqueue held)))

  release-Gone :
      (a : ℕ) (c : Context) (p : Peer)
      → deref c.heap a ≡ some p
      → session_equals p.session p.session ≡ true
      → Linked c.heap c.peers
      → Held c.heap c.sendqueue
      → (c' : Context) × (release set_key write ticks a c ≡ some c') × Gone a c'
  unfolding release stop_retransmission
  release-Gone a c p d s linked held =
      let (q, run, safe) = stop_queue-Held c.heap a p c.sendqueue d s held in
      let (c', done, gone) = destroy_peer-Gone a (record c { sendqueue = q }) p d linked safe in
      (c', rw (d, run) done, gone)

  -- The peer is unlinked, and the event raised.
  abbrev announced : ℕ → Peer → ℕ → ℕ → Context → Context
  announced a p level description c = record c {
    peers = delete_peer c.peers a;
    events = (p.session, (level, description)) ∷ c.events;
  }

  abbrev IsSound : ℕ → Peer → Context → Type 0
  IsSound a p c =
      (deref c.heap a ≡ some p)
      × ((session_equals p.session p.session ≡ true)
          × (Linked c.heap c.peers × Held c.heap c.sendqueue))

  announced-IsSound :
      (a : ℕ) (p : Peer) (level description : ℕ) (c : Context)
      → IsSound a p c
      → IsSound a p (announced a p level description c)
  announced-IsSound a p level description c (d, (s, (k, h))) =
      (d, (s, ((Linked-delete_peer c.heap c.peers a k).0, h)))

  answered-IsSound :
      (a : ℕ) (p : Peer) (c : Context)
      → IsSound a p c
      → (c' : Context) × (answer_close set_key write ticks a c ≡ some c')
        × ((p' : Peer) × IsSound a p' c')
  answered-IsSound a p c (d, (s, (k, h))) =
      let (c', run, same) = answer_close-Same set_key write ticks a c p d in
      let (p', d', e) = same.0 a p d in
      (
        c',
        run,
        (
          p',
          (
            d',
            (
              subst (λ t. session_equals t t ≡ true) (sym e) s,
              (
                Linked-Kept c.heap c'.heap c'.peers same.0 (subst (Linked c.heap) (sym same.1.0) k),
                Held-Kept c.heap c'.heap c'.sendqueue same.0 (subst (Held c.heap) (sym same.1.1) h),
              ),
            ),
          ),
        ),
      )

  -- A fatal alert or a close_notify for a peer with a session that equals itself, where every link and
  -- every queued packet leads to an object: handle_alert returns 1 without a fault, the peer's object
  -- is released, no link and no queued packet leads to it, and the others lead to objects as before.
  pub handle_alert-Gone :
      (a : ℕ) (p : Peer) (level description : ℕ) (more : List ℕ) (c : Context)
      → ((level == 2) || (description == 0)) ≡ true
      → deref c.heap a ≡ some p
      → session_equals p.session p.session ≡ true
      → Linked c.heap c.peers
      → Held c.heap c.sendqueue
      → (c' : Context) × (handle_alert set_key write ticks (some a) (level ∷ description ∷ more) c
          ≡ some (ok 1, c'))
        × Gone a c'
  unfolding handle_alert
  handle_alert-Gone a p level description more c final d s k h =
      let long : ltb (length (level ∷ description ∷ more)) 2 ≡ false =
        ltb-false (length (level ∷ description ∷ more)) 2 (omega arith) in
      let c1 = announced a p level description c in
      let sound = announced-IsSound a p level description c (d, (s, (k, h))) in
      elim (Bool-cases (description == 0)) [
        | inl e ↦
            let (c2, run, (p2, (d2, (s2, (k2, h2))))) = answered-IsSound a p c1 sound in
            let (c', done, gone) = release-Gone a c2 p2 d2 s2 k2 h2 in
            (c', rw (long, d, final, e, run, done) refl, gone)
        | inr e ↦
            let (d1, (s1, (k1, h1))) = sound in
            let (c', done, gone) = release-Gone a c1 p d1 s1 k1 h1 in
            (c', rw (long, d, final, e, done) refl, gone)
      ]
