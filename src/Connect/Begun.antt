-- ===== src/Connect/Begun.antt =====
-- dtls_connect to an endpoint without a peer, and a further one while the handshake goes on.
use gc2021_pqdtls.Base.{
  ℕ, arith, suc, ◌==◌, ==_refl, Bool, true, false, Option, some, none, List, [], ◌∷◌, ◌≡◌, refl, ap,
  subst, ◌∙◌,
}
use gc2021_pqdtls.Alert.{Result, ok, err}
use gc2021_pqdtls.Security.{security_new, client}
use gc2021_pqdtls.Session.{Session, session_equals}
use gc2021_pqdtls.Peers.{Peer, deref, put, new_peer, add_peer, get_peer}
use gc2021_pqdtls.Peers.Linked.{Unlinked}
use gc2021_pqdtls.Record.{SetKey}
use gc2021_pqdtls.Engine.Alerts.Kept.{deref-addr, put-same}
use gc2021_pqdtls.Connect.{
  Host, Start, listed, connect, connect_peer, renegotiate, raise_event, event_connect,
}

-- An object that no link leads to is not found.
get_peer-Unlinked :
    (p : Peer) (heap : List Peer) (peers : List ℕ) (session : Session)
    → Unlinked p.addr peers
    → get_peer (p ∷ heap) peers session ≡ get_peer heap peers session
unfolding get_peer deref
get_peer-Unlinked p heap [] session u = refl
get_peer-Unlinked p heap (l ∷ next) session (u, k) =
    let other : (p.addr == l) ≡ false = ground arith in
    rw (other, get_peer-Unlinked p heap next session k) refl

-- A peer as dtls_new_peer makes it.
abbrev pub fresh : ℕ → Session → Peer
fresh a session = record {
  addr = a;
  session = session;
  role = client;
  state = 0;
  slots = record { slot0 = security_new true; slot1 = none };
}

module _ (World : Type 0) (set_key : SetKey) (write : List ℕ → Result ℕ) (ticks : ℕ → ℕ)
    (start : Start World) where
  connect_refused :
      (alloc : Option ℕ) (params : Bool) (dst : Session) (s : Host World) (p : Peer)
      → get_peer s.context.heap s.context.peers dst ≡ some p
      → p.session ≡ dst
      → (p.state == 12) ≡ false
      → connect World set_key write ticks start alloc params dst s ≡ some (err 1, s)
  unfolding connect connect_peer renegotiate
  connect_refused alloc params dst s p h e st =
      let again : get_peer s.context.heap s.context.peers p.session ≡ some p =
        ap (get_peer s.context.heap s.context.peers) e ∙ h in
      rw (h, again, ==_refl p.addr, st) refl

  abbrev with_peer : Peer → Host World → Host World
  with_peer p s = record s { context = record s.context { heap = p ∷ s.context.heap } }

  -- What dtls_send_client_hello is called with.
  abbrev pub ready : ℕ → Session → World → Host World → Host World
  ready a dst w s =
      record (listed World set_key write ticks start (fresh a dst) (with_peer (fresh a dst) s)) {
        world = w;
      }

  -- The peer waits for an answer, and the application is told.
  abbrev pub begun : Session → Peer → Host World → Host World
  begun dst p s = raise_event World set_key write ticks start dst event_connect (record s {
    context = record s.context { heap = put s.context.heap (record p { state = 8 }) };
  })

  connected_peer :
      (a n : ℕ) (dst : Session) (s s3 : Host World) (w : World) (p : Peer)
      → get_peer s.context.heap s.context.peers dst ≡ none
      → Unlinked a s.context.peers
      → start.handshake_new a (start.key_generation s.world) ≡ (true, w)
      → start.send_client_hello a (ready a dst w s) ≡ some (ok (suc n), s3)
      → deref s3.context.heap a ≡ some p
      → connect World set_key write ticks start (some a) true dst s
        ≡ some (ok (suc n), begun dst p s3)
  unfolding connect connect_peer new_peer security_new
  connected_peer a n dst s s3 w p h u hs sent d =
      let unknown : get_peer (fresh a dst ∷ s.context.heap) s.context.peers dst ≡ none =
        get_peer-Unlinked (fresh a dst) s.context.heap s.context.peers dst u ∙ h in
      rw (h, unknown, hs, sent, d) refl

  begun-found :
      (a : ℕ) (dst : Session) (s s3 : Host World) (p : Peer)
      → session_equals dst dst ≡ true
      → deref s3.context.heap a ≡ some p
      → p.session ≡ dst
      → s3.context.peers ≡ add_peer s.context.peers a
      → get_peer (begun dst p s3).context.heap (begun dst p s3).context.peers dst
        ≡ some (record p { state = 8 })
  unfolding get_peer add_peer
  begun-found a dst s s3 p same d e peers =
      let waiting : Peer = record p { state = 8 } in
      let at_a : p.addr ≡ a = deref-addr s3.context.heap a p d in
      let here : deref (put s3.context.heap waiting) a ≡ some waiting =
        subst (λ t. deref (put s3.context.heap waiting) t ≡ some waiting) at_a
          (put-same s3.context.heap waiting p (ap (deref s3.context.heap) at_a ∙ d)) in
      rw (peers, here, e, same) refl

  -- dtls_connect to an endpoint, that equals itself, without a peer, where the new object at `a` is on
  -- no link, everything can be allocated, and sending the ClientHello succeeds with a positive result,
  -- keeps the session of the object and leaves it at the head of the list: dtls_connect returns that
  -- result, a lookup of the endpoint finds the new peer waiting for a ServerHello, and a further
  -- dtls_connect to it is refused with -1 and changes nothing.
  pub connect-connect :
      (a n : ℕ) (dst : Session) (s s3 : Host World) (w : World) (p : Peer) (alloc : Option ℕ)
      (params : Bool)
      → session_equals dst dst ≡ true
      → get_peer s.context.heap s.context.peers dst ≡ none
      → Unlinked a s.context.peers
      → start.handshake_new a (start.key_generation s.world) ≡ (true, w)
      → start.send_client_hello a (ready a dst w s) ≡ some (ok (suc n), s3)
      → deref s3.context.heap a ≡ some p
      → p.session ≡ dst
      → s3.context.peers ≡ add_peer s.context.peers a
      → (s4 : Host World) × (connect World set_key write ticks start (some a) true dst s
          ≡ some (ok (suc n), s4))
        × ((get_peer s4.context.heap s4.context.peers dst ≡ some (record p { state = 8 }))
            × (connect World set_key write ticks start alloc params dst s4 ≡ some (err 1, s4)))
  connect-connect a n dst s s3 w p alloc params same h u hs sent d e peers =
      let found = begun-found a dst s s3 p same d e peers in
      (
        begun dst p s3,
        connected_peer a n dst s s3 w p h u hs sent d,
        (
          found,
          connect_refused alloc params dst (begun dst p s3) (record p { state = 8 }) found e refl,
        ),
      )
