-- ===== src/Connect.antt =====
-- How connections begin and end on request: dtls_connect, dtls_connect_peer, dtls_renegotiate,
-- dtls_reset_peer and dtls_free_context of dtls.c. `none` is a use of an object that is not allocated.
-- The functions that send hellos, the handshake parameters and the keys of K2SN-MSS are the record
-- `Start`. The result -1 is `err 1`.
pub mod Begun
pub mod Shutdown
use gc2021_pqdtls.Base.{
  ℕ, zero, suc, ◌==◌, if◌then◌else◌, Bool, true, false, not, Option, none, some, List, [], ◌∷◌,
  length,
}
use gc2021_pqdtls.Alert.{Result, ok, err}
use gc2021_pqdtls.Security.{Role, client, server}
use gc2021_pqdtls.Session.{Session}
use gc2021_pqdtls.Peers.{Peer, deref, put, new_peer, add_peer, get_peer}
use gc2021_pqdtls.Record.{SetKey}
use gc2021_pqdtls.Engine.{Context, set_state}
use gc2021_pqdtls.Engine.Alerts.{bind, at, destroy_peer, release}
use gc2021_pqdtls.Extensions.{state_connected}
use gc2021_pqdtls.Machine.{state_clienthello}

-- DTLS_EVENT_CONNECT and DTLS_EVENT_RENEGOTIATE
abbrev pub event_connect : ℕ
event_connect = 476

abbrev pub event_renegotiate : ℕ
event_renegotiate = 479

-- `next` of the object at an address.
unfoldable pub next_peer : List ℕ → ℕ → Option ℕ
next_peer [] a = none
next_peer (l ∷ next) a = let rest = next_peer next a in if l == a then head next else rest
  where
    head : List ℕ → Option ℕ
    head [] = none
    head (l ∷ next) = some l

module _ (set_key : SetKey) (write : List ℕ → Result ℕ) (ticks : ℕ → ℕ) where
  -- dtls_reset_peer
  unfoldable pub reset_peer : ℕ → Context → Option Context
  reset_peer a c = release set_key write ticks a c

  -- The loop of dtls_free_context at the peer `p`; `fuel` bounds the number of rounds.
  unfoldable pub free_loop : ℕ → Option ℕ → Context → Option Context
  free_loop fuel none c = some c
  free_loop zero (some a) c = none
  free_loop (suc fuel) (some a) c = at set_key write ticks (deref c.heap a) (λ p.
      bind set_key write ticks (destroy_peer set_key write ticks a true c)
        (free_loop fuel (next_peer c.peers a)))

  abbrev pub first_peer : List ℕ → Option ℕ
  first_peer [] = none
  first_peer (l ∷ next) = some l

  -- dtls_free_context, for a context that is not NULL: what it is when it is released.
  unfoldable pub free_context : Context → Option Context
  free_context c = free_loop (length c.peers) (first_peer c.peers) c

module _ (World : Type 0) where
  pub record Host : Type 0 where
    pub context : Context
    pub world : World

  abbrev pub Outcome : Type 0
  Outcome = Option (Result ℕ × Host)

  pub record Start : Type 0 where
    -- dtls_handshake_new for the peer at an address, with both message numbers 0.
    pub handshake_new : ℕ → World → Bool × World
    pub key_generation : World → World
    -- dtls_send_client_hello without a cookie, and dtls_send_hello_request.
    pub send_client_hello : ℕ → Host → Outcome
    pub send_hello_request : ℕ → Host → Outcome

module _ (World : Type 0) (set_key : SetKey) (write : List ℕ → Result ℕ) (ticks : ℕ → ℕ)
    (start : Start World) where
  abbrev pub stored : Result ℕ → World → Option Context → Outcome World
  stored r w none = none
  stored r w (some c) = some (r, record { context = c; world = w })

  abbrev pub greeted : ℕ → Outcome World → Outcome World
  greeted a none = none
  greeted a (some (err n, s)) = some (err n, s)
  greeted a (some (ok r, s)) =
      stored (ok r) s.world (set_state set_key write ticks a state_clienthello s.context)

  -- A ClientHello is sent, and the peer waits for the answer.
  abbrev pub greet : ℕ → Host World → Outcome World
  greet a s = greeted a (start.send_client_hello a s)

  abbrev pub with_params : Host World → (Host World → Outcome World) → Bool × World → Outcome World
  with_params s next (false, w) = some (err 1, record s { world = w })
  with_params s next (true, w) = next (record s { world = w })

  -- dtls_renegotiate
  unfoldable pub renegotiate : Session → Host World → Outcome World
  renegotiate dst s = by_peer (get_peer s.context.heap s.context.peers dst)
    where
      by_role : Role → ℕ → Host World → Outcome World
      by_role client a s' = greet a s'
      by_role server a s' = start.send_hello_request a s'

      by_peer : Option Peer → Outcome World
      by_peer none = some (err 1, s)
      by_peer (some p) =
          if not (p.state == state_connected)
          then some (err 1, s)
          else with_params s (by_role p.role p.addr) (start.handshake_new p.addr s.world)

  abbrev pub is_at : ℕ → Option Peer → Bool
  is_at a none = false
  is_at a (some p) = p.addr == a

  -- The peer becomes a client and goes on the list.
  abbrev pub listed : Peer → Host World → Host World
  listed p s = record {
    context = record s.context {
      heap = put s.context.heap (record p { role = client });
      peers = add_peer s.context.peers p.addr;
    };
    world = start.key_generation s.world;
  }

  -- dtls_connect_peer for an object that is not NULL.
  unfoldable pub connect_peer : Peer → Host World → Outcome World
  connect_peer p s =
      if is_at p.addr (get_peer s.context.heap s.context.peers p.session)
      then renegotiate p.session s
      else with_params (listed p s) (greet p.addr) (start.handshake_new p.addr (listed p s).world)

  abbrev pub raise_event : Session → ℕ → Host World → Host World
  raise_event session code s = record s {
    context = record s.context { events = (session, (0, code)) ∷ s.context.events };
  }

  abbrev pub announced : Session → Outcome World → Outcome World
  announced session none = none
  announced session (some (err n, s)) = some (err n, s)
  announced session (some (ok zero, s)) = some (ok 0, raise_event session event_renegotiate s)
  announced session (some (ok (suc n), s)) = some (ok (suc n), raise_event session event_connect s)

  -- dtls_connect; `alloc` and `params` are what dtls_new_peer can allocate.
  unfoldable pub connect : Option ℕ → Bool → Session → Host World → Outcome World
  connect alloc params dst s = by_peer (get_peer s.context.heap s.context.peers dst)
    where
      made : Option Peer → Outcome World
      made none = some (err 1, s)
      made (some p) =
          announced p.session
            (connect_peer p (record s { context = record s.context { heap = p ∷ s.context.heap } }))

      by_peer : Option Peer → Outcome World
      by_peer none = made (new_peer alloc params dst)
      by_peer (some p) = announced p.session (connect_peer p s)
