-- ===== src/Tests/Connect.antt =====
-- Connections that begin and end, at concrete inputs.
use gc2021_pqdtls.Base.{ℕ, ◌≡◌, refl, true, none, some, List, [], ◌∷◌, length, arith}
use gc2021_pqdtls.Alert.{Result, ok, err}
use gc2021_pqdtls.Security.{server}
use gc2021_pqdtls.Session.{Session, session_equals}
use gc2021_pqdtls.Peers.{Peer, deref, put, add_peer, get_peer}
use gc2021_pqdtls.Peers.Linked.{On}
use gc2021_pqdtls.Record.{SetKey}
use gc2021_pqdtls.Engine.{Context}
use gc2021_pqdtls.Connect.{Host, Start, connect, free_context}
use gc2021_pqdtls.Connect.Begun.{fresh, ready, connect-connect}
use gc2021_pqdtls.Connect.Shutdown.{free_context-Released}

abbrev home : Session
home = record { size = 16; family = 2; port = 20220; address = 127 ∷ 0 ∷ 0 ∷ 1 ∷ []; ifindex = 0 }

abbrev guest : Peer
guest = record {
  addr = 5;
  session = home;
  role = server;
  state = 12;
  slots = record { slot0 = none; slot1 = none };
}

abbrev empty_context : Context
empty_context = record {
  heap = [];
  peers = [];
  sendqueue = [];
  written = [];
  events = [];
  reads = 0;
}

abbrev no_keys : SetKey
no_keys key = none

abbrev sends : List ℕ → Result ℕ
sends b = ok (length b)

abbrev at_once : ℕ → ℕ
at_once n = n

abbrev context : Context
context = record empty_context { heap = guest ∷ []; peers = 5 ∷ [] }

free_context-Released_example :
    (c' : Context) × (free_context no_keys sends at_once context ≡ some c')
    × ((c'.peers ≡ [])
        × (((b : ℕ) → On b context.peers → deref c'.heap b ≡ none)
            × (c'.sendqueue ≡ context.sendqueue)))
free_context-Released_example =
    free_context-Released no_keys sends at_once context
      ((guest, unfold deref in refl), (omega arith, omega arith))

abbrev World : Type 0
World = Unit {0}

-- Everything that is asked for succeeds.
abbrev start : Start World
start = record {
  handshake_new = λ a w. (true, w);
  key_generation = λ w. w;
  send_client_hello = λ a s. some (ok 7, s);
  send_hello_request = λ a s. some (ok 7, s);
}

abbrev host : Host World
host = record { context = empty_context; world = tt }

connect-connect_example :
    (s4 : Host World) × (connect World no_keys sends at_once start (some 5) true home host
      ≡ some (ok 7, s4))
    × ((get_peer s4.context.heap s4.context.peers home ≡ some (record (fresh 5 home) { state = 8 }))
        × (connect World no_keys sends at_once start none true home s4 ≡ some (err 1, s4)))
connect-connect_example =
    connect-connect World no_keys sends at_once start 5 6 home host
      (ready World no_keys sends at_once start 5 home tt host) tt (fresh 5 home) none true
      (unfold session_equals in refl) (unfold get_peer in refl) (omega arith) refl refl
      (unfold put deref in refl) refl (unfold add_peer in refl)
