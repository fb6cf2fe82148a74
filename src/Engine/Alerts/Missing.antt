-- ===== src/Engine/Alerts/Missing.antt =====
-- What is not allocated stays so when a connection is closed or its peer destroyed.
use gc2021_pqdtls.Base.{
  ℕ, ◌%◌, ◌^◌, ◌==◌, if◌then◌else◌, true, false, not, ◌&&◌, Bool-cases, inl, inr, Option, none,
  some, Option-cases, List, [], ◌∷◌, ◌≡◌, refl, subst, sym, arith,
}
use gc2021_pqdtls.Alert.{Result}
use gc2021_pqdtls.Session.{Session}
use gc2021_pqdtls.Peers.{Peer, deref, put, free_peer, get_peer}
use gc2021_pqdtls.Security.{params}
use gc2021_pqdtls.Record.{SetKey, prepare_record}
use gc2021_pqdtls.Engine.{
  Context, transmit, send_multi, send, store_params, send_alert, close, set_state,
}
use gc2021_pqdtls.Engine.Alerts.{destroy_peer}
use gc2021_pqdtls.Engine.Alerts.Kept.{transmit-Same}

put_missing :
    (heap : List Peer) (p : Peer) (b : ℕ) → deref heap b ≡ none → deref (put heap p) b ≡ none
unfolding deref put
put_missing [] p b h = refl
put_missing (q ∷ heap) p b h = elim (Bool-cases (q.addr == b)) [
  | inl e ↦
      let clash : ◌≡◌ {A = Option Peer} (some q) none =
        subst (λ t. (if t then some q else deref heap b) ≡ none) e h in
      ground arith
  | inr e ↦
      let rest : deref heap b ≡ none =
        subst (λ t. (if t then some q else deref heap b) ≡ none) e h in
      elim (Bool-cases (q.addr == p.addr)) [
        | inl f ↦ let other : (p.addr == b) ≡ false = ground arith in rw (f, other) rest
        | inr f ↦ rw (f, e) (put_missing heap p b rest)
      ]
]

free_peer_missing :
    (heap : List Peer) (a b : ℕ) → deref heap b ≡ none → deref (free_peer heap a) b ≡ none
unfolding deref free_peer
free_peer_missing [] a b h = refl
free_peer_missing (q ∷ heap) a b h = elim (Bool-cases (q.addr == b)) [
  | inl e ↦
      let clash : ◌≡◌ {A = Option Peer} (some q) none =
        subst (λ t. (if t then some q else deref heap b) ≡ none) e h in
      ground arith
  | inr e ↦
      let rest : deref heap b ≡ none =
        subst (λ t. (if t then some q else deref heap b) ≡ none) e h in
      elim (Bool-cases (q.addr == a)) [
        | inl f ↦ rw f (free_peer_missing heap a b rest)
        | inr f ↦ rw (f, e) (free_peer_missing heap a b rest)
      ]
]

-- Nothing is at the address after a call, if it returns.
abbrev pub Missing : ℕ → Option Context → Type 0
Missing b none = Unit {0}
Missing b (some c) = deref c.heap b ≡ none

abbrev result_context : Option (Result ℕ × Context) → Option Context
result_context none = none
result_context (some (r, c)) = some c

module _ (set_key : SetKey) (write : List ℕ → Result ℕ) (ticks : ℕ → ℕ) where
  send_alert_missing :
      (p : Peer) (level description b : ℕ) (c : Context)
      → deref c.heap b ≡ none
      → deref (send_alert set_key write ticks p level description c).heap b ≡ none
  unfolding send_alert send send_multi
  send_alert_missing p level description b c h =
      let msg : List (List ℕ) = (level % 2 ^ 8 ∷ description % 2 ^ 8 ∷ []) ∷ [] in
      let prepared = prepare_record set_key (some p.role) (params p.slots) 21 msg 30000 in
      let after =
        transmit set_key write ticks none (some p.addr) prepared.1 p.session 21 msg prepared.0 c in
      let same =
        transmit-Same set_key write ticks (some p.addr) prepared.1 p.session msg prepared.0 c in
      put_missing after.1.heap (record p { slots = store_params p.slots prepared.1 }) b
        (subst (λ t. deref t b ≡ none) (sym same.0) h)

  set_state-Missing :
      (a s b : ℕ) (c : Context)
      → deref c.heap b ≡ none
      → Missing b (set_state set_key write ticks a s c)
  set_state-Missing a s b c h = elim (Option-cases (deref c.heap a)) [
    | inl e ↦ rw e tt
    | inr (p, e) ↦ rw e (put_missing c.heap (record p { state = s }) b h)
  ]

  close-Missing :
      (session : Session) (b : ℕ) (c : Context)
      → deref c.heap b ≡ none
      → Missing b (result_context (close set_key write ticks session c))
  unfolding close
  close-Missing session b c h = elim (Option-cases (get_peer c.heap c.peers session)) [
    | inl e ↦ rw e h
    | inr (p, e) ↦
        let c1 = send_alert set_key write ticks p 2 0 c in
        let safe = set_state-Missing p.addr 13 b c1 (send_alert_missing p 2 0 b c h) in
        elim (Option-cases (set_state set_key write ticks p.addr 13 c1)) [
          | inl f ↦ rw (e, f) tt
          | inr (c2, f) ↦ rw (e, f) (subst (Missing b) f safe)
        ]
  ]

  pub destroy_peer-Missing :
      (a b : ℕ) (c : Context)
      → deref c.heap b ≡ none
      → Missing b (destroy_peer set_key write ticks a true c)
  unfolding destroy_peer
  destroy_peer-Missing a b c h = elim (Option-cases (deref c.heap a)) [
    | inl e ↦ rw e tt
    | inr (p, e) ↦ elim (Bool-cases (not (p.state == 14) && not (p.state == 13))) [
      | inl f ↦
          let safe = close-Missing p.session b c h in
          elim (Option-cases (close set_key write ticks p.session c)) [
            | inl g ↦ rw (e, f, g) tt
            | inr ((r, c1), g) ↦
                rw (e, f, g)
                  (free_peer_missing c1.heap a b (subst (λ o. Missing b (result_context o)) g safe))
          ]
      | inr f ↦ rw (e, f) (free_peer_missing c.heap a b h)
    ]
  ]
