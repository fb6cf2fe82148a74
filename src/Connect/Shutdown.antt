-- ===== src/Connect/Shutdown.antt =====
-- A context is released without a use after free, and with no peer on its list.
use gc2021_pqdtls.Base.{
  ℕ, true, ◌==◌, ==_refl, not, ◌&&◌, Bool-cases, inl, inr, ◌⊎◌, none, arith, some, List, [], ◌∷◌,
  length, ◌≡◌, refl, ap, subst, sym, ◌∙◌,
}
use gc2021_pqdtls.Alert.{Result}
use gc2021_pqdtls.Peers.{Peer, deref, free_peer, delete_peer}
use gc2021_pqdtls.Peers.Linked.{Linked, On, delete_peer-free_peer}
use gc2021_pqdtls.Record.{SetKey}
use gc2021_pqdtls.Engine.{Context}
use gc2021_pqdtls.Engine.Alerts.{destroy_peer}
use gc2021_pqdtls.Engine.Alerts.Kept.{close-Same, deref-freed}
use gc2021_pqdtls.Engine.Alerts.Missing.{Missing, destroy_peer-Missing}
use gc2021_pqdtls.Engine.Alerts.Safety.{Linked-Kept}
use gc2021_pqdtls.Connect.{next_peer, free_loop, free_context, first_peer}

delete_peer-first : (l : ℕ) (next : List ℕ) → delete_peer (l ∷ next) l ≡ next
unfolding delete_peer
delete_peer-first l next = rw (==_refl l) refl

next_peer-first_peer :
    (set_key : SetKey) (write : List ℕ → Result ℕ) (ticks : ℕ → ℕ) (l : ℕ) (next : List ℕ)
    → next_peer (l ∷ next) l ≡ first_peer set_key write ticks next
unfolding next_peer
next_peer-first_peer set_key write ticks l [] = rw (==_refl l) refl
next_peer-first_peer set_key write ticks l (m ∷ next) = rw (==_refl l) refl

module _ (set_key : SetKey) (write : List ℕ → Result ℕ) (ticks : ℕ → ℕ) where
  -- What is left when peers are destroyed: a list of others, and the packets in the queue.
  abbrev After : Context → List ℕ → Context → Type 0
  After c peers c' = (c'.peers ≡ peers) × (Linked c'.heap peers × (c'.sendqueue ≡ c.sendqueue))

  destroy_peer-After :
      (a : ℕ) (c : Context) (p : Peer)
      → deref c.heap a ≡ some p
      → Linked c.heap c.peers
      → (c' : Context) × (destroy_peer set_key write ticks a true c ≡ some c')
        × ((deref c'.heap a ≡ none) × After c (delete_peer c.peers a) c')
  unfolding destroy_peer
  destroy_peer-After a c p d linked =
      elim (Bool-cases (not (p.state == 14) && not (p.state == 13))) [
        | inl open_ ↦
            let (r, c1, run, same) = close-Same set_key write ticks p.session c in
            (
              record c1 { peers = delete_peer c1.peers a; heap = free_peer c1.heap a },
              rw (d, open_, run) refl,
              (
                deref-freed c1.heap a,
                (
                  ap (λ ps. delete_peer ps a) same.1.0,
                  (
                    (delete_peer-free_peer c1.heap c.peers a
                        (Linked-Kept c.heap c1.heap c.peers same.0 linked)).0,
                    same.1.1,
                  ),
                ),
              ),
            )
        | inr over ↦ (
          record c { peers = delete_peer c.peers a; heap = free_peer c.heap a },
          rw (d, over) refl,
          (deref-freed c.heap a, (refl, ((delete_peer-free_peer c.heap c.peers a linked).0, refl))),
        )
      ]

  -- No object is at an address of the list, nor at one where there was none.
  abbrev Released : Context → List ℕ → Context → Type 0
  Released c peers c' = (b : ℕ) → On b peers ⊎ (deref c.heap b ≡ none) → deref c'.heap b ≡ none

  destroy_peer-Released :
      (l : ℕ) (next : List ℕ) (c c1 c2 : Context)
      → destroy_peer set_key write ticks l true c ≡ some c1
      → deref c1.heap l ≡ none
      → Released c1 next c2
      → Released c (l ∷ next) c2
  destroy_peer-Released l next c c1 c2 run gone rest b (inl (inl e)) =
      rest b (inr (subst (λ t. deref c1.heap t ≡ none) e gone))
  destroy_peer-Released l next c c1 c2 run gone rest b (inl (inr on)) = rest b (inl on)
  destroy_peer-Released l next c c1 c2 run gone rest b (inr h) =
      rest b (inr (subst (Missing b) run (destroy_peer-Missing set_key write ticks l b c h)))

  free_loop-After :
      (peers : List ℕ) (c : Context)
      → c.peers ≡ peers
      → Linked c.heap peers
      → (c' : Context) × (free_loop set_key write ticks
            (length peers)
            (first_peer set_key write ticks peers)
            c
          ≡ some c')
        × (Released c peers c' × After c [] c')
  unfolding free_loop
  free_loop-After [] c e linked = (c, refl, (empty_list, (e, (linked, refl))))
    where
      empty_list : Released c [] c
      empty_list b (inl on) = absurd (ground arith)
      empty_list b (inr h) = h
  free_loop-After (l ∷ next) c e ((p, d), linked) =
      let (c1, run, (gone, (e1, (k1, q1)))) =
        destroy_peer-After l c p d (subst (Linked c.heap) (sym e) ((p, d), linked)) in
      let rest : delete_peer c.peers l ≡ next =
        ap (λ ps. delete_peer ps l) e ∙ delete_peer-first l next in
      let (c2, more, (r2, (e2, (k2, q2)))) =
        free_loop-After next c1 (e1 ∙ rest) (subst (Linked c1.heap) rest k1) in
      (
        c2,
        rw (d, run, e, next_peer-first_peer set_key write ticks l next) more,
        (destroy_peer-Released l next c c1 c2 run gone r2, (e2, (k2, q2 ∙ q1))),
      )

  -- For a context whose links lead to objects, each of them linked once: dtls_free_context uses no
  -- object that is not allocated and returns; then no peer is on the list, every object that was on it
  -- is released, and the queue of packets is as it was.
  pub free_context-Released :
      (c : Context)
      → Linked c.heap c.peers
      → (c' : Context) × (free_context set_key write ticks c ≡ some c')
        × ((c'.peers ≡ [])
            × (((b : ℕ) → On b c.peers → deref c'.heap b ≡ none) × (c'.sendqueue ≡ c.sendqueue)))
  unfolding free_context
  free_context-Released c linked =
      let (c', run, (r, (e, (k, q)))) = free_loop-After c.peers c refl linked in
      (c', run, (e, ((λ b on. r b (inl on)), q)))
