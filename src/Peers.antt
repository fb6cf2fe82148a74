-- ===== src/Peers.antt =====
-- The peers of a context: dtls-peer.c and the list operations of dtls.c. The objects that are
-- allocated are a list of peers with their addresses; the linked list is the list of the addresses
-- that ctx->peers leads through.
pub mod Linked
use gc2021_pqdtls.Base.{
  ℕ, ◌==◌, if◌then◌else◌, Bool, true, false, Option, none, some, List, [], ◌∷◌,
}
use gc2021_pqdtls.Security.{Security, Slots, Role, client, security_new}
use gc2021_pqdtls.Session.{Session, session_equals}

abbrev pub state_init : ℕ
state_init = 0

abbrev pub state_closing : ℕ
state_closing = 13

abbrev pub state_closed : ℕ
state_closed = 14

pub record Peer : Type 0 where
  pub addr : ℕ
  pub session : Session
  pub role : Role
  pub state : ℕ
  pub slots : Slots

-- The object at an address.
unfoldable pub deref : List Peer → ℕ → Option Peer
deref [] a = none
deref (p ∷ heap) a = let rest = deref heap a in if p.addr == a then some p else rest

-- A write to the object.
unfoldable pub put : List Peer → Peer → List Peer
put [] p = []
put (q ∷ heap) p = let rest = put heap p in if q.addr == p.addr then p ∷ heap else q ∷ rest

-- dtls_free_peer
unfoldable pub free_peer : List Peer → ℕ → List Peer
free_peer [] a = []
free_peer (p ∷ heap) a = let rest = free_peer heap a in if p.addr == a then rest else p ∷ rest

-- dtls_new_peer: `at` is the address that memb_alloc gives, NULL where it fails; `params` is whether
-- the security parameters can be allocated.
unfoldable pub new_peer : Option ℕ → Bool → Session → Option Peer
unfolding security_new
new_peer none params session = none
new_peer (some a) params session = with_params (security_new params)
  where
    with_params : Option Security → Option Peer
    with_params none = none
    with_params (some s) = some (record {
      addr = a;
      session = session;
      role = client;
      state = state_init;
      slots = record { slot0 = some s; slot1 = none };
    })

-- add_peer
unfoldable pub add_peer : List ℕ → ℕ → List ℕ
add_peer peers a = a ∷ peers

-- delete_peer
unfoldable pub delete_peer : List ℕ → ℕ → List ℕ
delete_peer [] a = []
delete_peer (l ∷ next) a = let rest = delete_peer next a in if l == a then next else l ∷ rest

abbrev matching : Option Peer → Session → Option Peer → Option Peer
matching none session rest = none
matching (some p) session rest = if session_equals p.session session then some p else rest

-- dtls_get_peer; a link that leads to no object, which no list of the code has, ends the search.
unfoldable pub get_peer : List Peer → List ℕ → Session → Option Peer
get_peer heap [] session = none
get_peer heap (l ∷ next) session = matching (deref heap l) session (get_peer heap next session)
