-- ===== src/Engine/Alerts/Kept.antt =====
-- What sending, closing and answering leave as it is: the objects with their sessions, the list of
-- peers and the queue.
use gc2021_pqdtls.Base.{
  ℕ, ◌%◌, ◌^◌, ◌==◌, ==_iff, ==_refl, if◌then◌else◌, false, Bool-cases, inl, inr, Option, none,
  some, Option-cases, List, [], ◌∷◌, ◌≡◌, refl, ap, subst, sym, ◌∙◌, arith,
}
use gc2021_pqdtls.Alert.{Result, ok, err}
use gc2021_pqdtls.Session.{Session}
use gc2021_pqdtls.Peers.{Peer, deref, put, free_peer, get_peer}
use gc2021_pqdtls.Peers.Linked.{get_peer_sound}
use gc2021_pqdtls.Security.{Security, Slots, params}
use gc2021_pqdtls.Record.{SetKey, prepare_record}
use gc2021_pqdtls.Engine.{
  Context, is_kept, transmit, send_multi, send, store_params, send_alert, close, set_state,
}
use gc2021_pqdtls.Engine.Alerts.{answer_close}

pub deref-addr : (heap : List Peer) (a : ℕ) (p : Peer) → deref heap a ≡ some p → p.addr ≡ a
unfolding deref
deref-addr [] a p h = ground arith
deref-addr (q ∷ heap) a p h = elim (Bool-cases (q.addr == a)) [
  | inl e ↦
      let same : ◌≡◌ {A = Option Peer} (some q) (some p) =
        subst (λ b. (if b then some q else deref heap a) ≡ some p) e h in
      sym (address same) ∙ (==_iff q.addr a).0 e
  | inr e ↦ deref-addr heap a p (subst (λ b. (if b then some q else deref heap a) ≡ some p) e h)
]
  where
    address_of : ℕ → Option Peer → ℕ
    address_of n none = n
    address_of n (some p) = p.addr

    address : {p q : Peer} → ◌≡◌ {A = Option Peer} (some p) (some q) → p.addr ≡ q.addr
    address e = ap (address_of 0) e

-- Every object of the first heap is in the second, with the same session.
abbrev pub Kept : List Peer → List Peer → Type 0
Kept heap heap' =
    (b : ℕ) (q : Peer)
    → deref heap b ≡ some q
    → (q' : Peer) × (deref heap' b ≡ some q') × (q'.session ≡ q.session)

pub Kept-refl : (heap : List Peer) → Kept heap heap
Kept-refl heap b q h = (q, h, refl)

Kept-trans : (x y z : List Peer) → Kept x y → Kept y z → Kept x z
Kept-trans x y z h k b q e =
    let (q', e', s) = h b q e in let (q'', e'', s') = k b q' e' in (q'', e'', s' ∙ s)

put-other :
    (heap : List Peer) (p : Peer) (b : ℕ)
    → (p.addr == b) ≡ false
    → deref (put heap p) b ≡ deref heap b
unfolding deref put
put-other [] p b h = refl
put-other (q ∷ heap) p b h = elim (Bool-cases (q.addr == p.addr)) [
  | inl e ↦ let other : (q.addr == b) ≡ false = ground arith in rw (e, h, other) refl
  | inr e ↦ elim (Bool-cases (q.addr == b)) [
    | inl f ↦ rw (e, f) refl
    | inr f ↦ rw (e, f) (put-other heap p b h)
  ]
]

pub put-same :
    (heap : List Peer) (p q : Peer)
    → deref heap p.addr ≡ some q
    → deref (put heap p) p.addr ≡ some p
unfolding deref put
put-same [] p q h = ground arith
put-same (r ∷ heap) p q h = elim (Bool-cases (r.addr == p.addr)) [
  | inl e ↦ rw (e, ==_refl p.addr) refl
  | inr e ↦
      rw (e, e)
        (put-same heap p q (subst (λ b. (if b then some r else deref heap p.addr) ≡ some q) e h))
]

pub some-inj : (p q : Peer) → ◌≡◌ {A = Option Peer} (some p) (some q) → p ≡ q
some-inj p q h = ap (λ o. or_else p o) h
  where
    or_else : Peer → Option Peer → Peer
    or_else p none = p
    or_else p (some q) = q

-- A write to an object that is there, which keeps its address and its session.
put-Kept :
    (heap : List Peer) (p p' : Peer)
    → deref heap p.addr ≡ some p
    → p'.addr ≡ p.addr
    → p'.session ≡ p.session
    → Kept heap (put heap p')
put-Kept heap p p' d a s b q h = elim (Bool-cases (p'.addr == b)) [
  | inl e ↦
      let here : p'.addr ≡ b = (==_iff p'.addr b).0 e in
      let same : q ≡ p = some-inj q p (sym h ∙ ap (deref heap) (sym here ∙ a) ∙ d) in
      (
        p',
        ap (deref (put heap p')) (sym here) ∙ put-same heap p' p (ap (deref heap) a ∙ d),
        s ∙ ap (λ (t : Peer). t.session) (sym same),
      )
  | inr e ↦ (q, put-other heap p' b e ∙ h, refl)
]

pub deref-freed : (heap : List Peer) (a : ℕ) → deref (free_peer heap a) a ≡ none
unfolding deref free_peer
deref-freed [] a = refl
deref-freed (p ∷ heap) a = elim (Bool-cases (p.addr == a)) [
  | inl e ↦ rw e (deref-freed heap a)
  | inr e ↦ rw (e, e) (deref-freed heap a)
]

-- A call that keeps the objects, the list of peers and the queue.
abbrev pub Same : Context → Context → Type 0
Same c c' = Kept c.heap c'.heap × ((c'.peers ≡ c.peers) × (c'.sendqueue ≡ c.sendqueue))

Same-refl : (c : Context) → Same c c
Same-refl c = (Kept-refl c.heap, (refl, refl))

Same-trans : (x y z : Context) → Same x y → Same y z → Same x z
Same-trans x y z (h, (p, q)) (k, (r, s)) = (Kept-trans x.heap y.heap z.heap h k, (r ∙ p, s ∙ q))

module _ (set_key : SetKey) (write : List ℕ → Result ℕ) (ticks : ℕ → ℕ) where
  abbrev with_state : ℕ → Peer → Context → Context
  with_state s p c = record c { heap = put c.heap (record p { state = s }) }

  with_state-Same :
      (a s : ℕ) (c : Context) (p : Peer) → deref c.heap a ≡ some p → Same c (with_state s p c)
  with_state-Same a s c p d = (
    put-Kept c.heap p (record p { state = s }) (ap (deref c.heap) (deref-addr c.heap a p d) ∙ d)
        refl refl,
    (refl, refl),
  )

  set_state-Same :
      (a s : ℕ) (c : Context) (p : Peer)
      → deref c.heap a ≡ some p
      → (c' : Context) × (set_state set_key write ticks a s c ≡ some c') × Same c c'
  set_state-Same a s c p d = (with_state s p c, rw d refl, with_state-Same a s c p d)

  pub transmit-Same :
      (peer : Option ℕ) (security : Option Security) (session : Session) (payload : List (List ℕ))
      (r : Result (List ℕ)) (c : Context)
      → ((transmit set_key write ticks none peer security session 21 payload r c).1.heap ≡ c.heap)
        × (((transmit set_key write ticks none peer security session 21 payload r c).1.peers
              ≡ c.peers)
            × ((transmit set_key write ticks none peer security session 21 payload r c).1.sendqueue
                ≡ c.sendqueue))
  unfolding transmit is_kept
  transmit-Same peer security session payload (ok buf) c = (refl, (refl, refl))
  transmit-Same peer security session payload (err n) c = (refl, (refl, refl))

  send_finish :
      (c c' : Context) (p : Peer) (slots : Slots)
      → (c'.heap ≡ c.heap) × ((c'.peers ≡ c.peers) × (c'.sendqueue ≡ c.sendqueue))
      → deref c.heap p.addr ≡ some p
      → Same c (record c' { heap = put c'.heap (record p { slots = slots }) })
  send_finish c c' p slots (h, rest) d = (
    subst (λ t. Kept c.heap (put t (record p { slots = slots }))) (sym h)
        (put-Kept c.heap p (record p { slots = slots }) d refl refl),
    rest,
  )

  send_alert-Same :
      (p : Peer) (level description : ℕ) (c : Context)
      → deref c.heap p.addr ≡ some p
      → Same c (send_alert set_key write ticks p level description c)
  unfolding send_alert send send_multi
  send_alert-Same p level description c d =
      let msg : List (List ℕ) = (level % 2 ^ 8 ∷ description % 2 ^ 8 ∷ []) ∷ [] in
      let prepared = prepare_record set_key (some p.role) (params p.slots) 21 msg 30000 in
      let after =
        transmit set_key write ticks none (some p.addr) prepared.1 p.session 21 msg prepared.0 c in
      send_finish c after.1 p (store_params p.slots prepared.1)
        (transmit-Same (some p.addr) prepared.1 p.session msg prepared.0 c) d

  -- dtls_close, for a list of peers that is linked well.
  pub close-Same :
      (session : Session) (c : Context)
      → (r : Result ℕ) × (c' : Context) × (close set_key write ticks session c ≡ some (r, c'))
        × Same c c'
  unfolding close
  close-Same session c = elim (Option-cases (get_peer c.heap c.peers session)) [
    | inl e ↦ (err 1, c, rw e refl, Same-refl c)
    | inr (p, e) ↦
        let (_, (a, on, d)) = get_peer_sound c.heap c.peers session p e in
        let here : deref c.heap p.addr ≡ some p = ap (deref c.heap) (deref-addr c.heap a p d) ∙ d in
        let c1 = send_alert set_key write ticks p 2 0 c in
        let first = send_alert-Same p 2 0 c here in
        let (p1, d1, s1) = first.0 p.addr p here in
        let (c2, run, second) = set_state-Same p.addr 13 c1 p1 d1 in
        (ok 0, c2, rw (e, run) refl, Same-trans c c1 c2 first second)
  ]

  pub answer_close-Same :
      (a : ℕ) (c : Context) (p : Peer)
      → deref c.heap a ≡ some p
      → (c' : Context) × (answer_close set_key write ticks a c ≡ some c') × Same c c'
  unfolding answer_close
  answer_close-Same a c p d = elim (Bool-cases (p.state == 13)) [
    | inl e ↦ (with_state 14 p c, rw (d, e) refl, with_state-Same a 14 c p d)
    | inr e ↦
        let c1 = with_state 13 p c in
        let first = with_state-Same a 13 c p d in
        let (p1, d1, s1) = first.0 a p d in
        let here : deref c1.heap p1.addr ≡ some p1 =
          ap (deref c1.heap) (deref-addr c1.heap a p1 d1) ∙ d1 in
        let c2 = send_alert set_key write ticks p1 2 0 c1 in
        (c2, rw (d, e, d1) refl, Same-trans c c1 c2 first (send_alert-Same p1 2 0 c1 here))
  ]
