-- ===== src/Engine.antt =====
-- Sending, retransmission, alerts and the end of a connection in dtls.c, over one state: the peers,
-- the queue of packets to retransmit, and what the callbacks were given. The key schedule, the
-- result of the write callback and the clock are parameters; `reads` counts the calls of
-- dtls_ticks. A result `none` is a use of a peer that is not allocated.
pub mod Timer
pub mod Alerts
use gc2021_pqdtls.Base.{
  ℕ, zero, suc, ◌+◌, ◌-◌, ◌*◌, ◌%◌, ◌^◌, ltb, leb, ◌==◌, if◌then◌else◌, Bool, true, false, not,
  ◌&&◌, ◌||◌, Option, none, some, List, [], ◌∷◌, ◌++◌, length,
}
use gc2021_pqdtls.Numeric.{byte_at}
use gc2021_pqdtls.Alert.{
  Result, ok, err, level_fatal, close_notify, internal_error, decode_error, alert_fatal_create,
  alert_from_err,
}
use gc2021_pqdtls.Security.{Security, Slots, Role, params, params_epoch}
use gc2021_pqdtls.Session.{Session, session_equals}
use gc2021_pqdtls.Peers.{
  Peer, deref, put, free_peer, delete_peer, get_peer, state_closing, state_closed,
}
use gc2021_pqdtls.Netq.{Node, insert_node, node_new, pop_first}
use gc2021_pqdtls.Record.{SetKey, prepare_record}

-- DTLS_MAX_BUF
abbrev pub max_buf : ℕ
max_buf = 30000

-- DTLS_DEFAULT_MAX_RETRANSMIT
abbrev pub max_retransmit : ℕ
max_retransmit = 7

abbrev pub ticks_per_second : ℕ
ticks_per_second = 1000

abbrev pub ct_change_cipher_spec : ℕ
ct_change_cipher_spec = 20

abbrev pub ct_alert : ℕ
ct_alert = 21

abbrev pub ct_handshake : ℕ
ct_handshake = 22

abbrev pub ht_hello_verify_request : ℕ
ht_hello_verify_request = 3

-- dtls_context_t, with what was written and the events that were raised, the last one first.
pub record Context : Type 0 where
  pub heap : List Peer
  pub peers : List ℕ
  pub sendqueue : List Node
  pub written : List (Session × List ℕ)
  pub events : List (Session × (ℕ × ℕ))
  pub reads : ℕ

abbrev is_epoch : Option Security → ℕ → Bool
is_epoch none e = false
is_epoch (some s) e = s.epoch == e

-- The parameters that a pointer to one of the slots led to, after they changed.
abbrev pub store_params : Slots → Option Security → Slots
store_params p none = p
store_params p (some s) =
    if is_epoch p.slot0 s.epoch
    then record { slot0 = some s; slot1 = p.slot1 }
    else record { slot0 = p.slot0; slot1 = some s }

-- concat of the payloads: `n->data`, and its length overall_len
abbrev pub gathered : List (List ℕ) → List ℕ
gathered [] = []
gathered (d ∷ ds) = d ++ gathered ds

abbrev first : List (List ℕ) → List ℕ
first [] = []
first (d ∷ ds) = d

-- Whether dtls_send_multi keeps a copy for retransmission.
unfoldable pub is_kept : ℕ → List (List ℕ) → Bool
is_kept type payload =
    ((type == ct_handshake) && not (byte_at (first payload) 0 == ht_hello_verify_request))
    || (type == ct_change_cipher_spec)

abbrev epoch_of : Option Security → ℕ
epoch_of none = 0
epoch_of (some s) = s.epoch

module _ (set_key : SetKey) (write : List ℕ → Result ℕ) (ticks : ℕ → ℕ) where
  -- The result of dtls_send_multi: what the callback gave, less the overhead of the record.
  abbrev sent_length : ℕ → ℕ → Result ℕ → Result ℕ
  sent_length overall len (err n) = err n
  sent_length overall len (ok zero) = ok 0
  sent_length overall len (ok (suc n)) =
      if ltb (overall + suc n) len
      then err (len - (overall + suc n))
      else ok (overall + suc n - len)

  abbrev enqueue : Option Node → Option ℕ → Option Security → ℕ → List (List ℕ) → Context → Context
  enqueue none peer security type payload c = c
  enqueue (some n) peer security type payload c = record c {
    reads = c.reads + 1;
    sendqueue = insert_node c.sendqueue (record n {
      t = (ticks c.reads + 2 * ticks_per_second) % 2 ^ 64;
      timeout = 2 * ticks_per_second;
      peer = peer;
      epoch = epoch_of security;
      type = type;
      packet = gathered payload;
    });
  }

  -- The part of dtls_send_multi behind dtls_prepare_record.
  unfoldable pub transmit :
      Option ℕ
      → Option ℕ
      → Option Security
      → Session
      → ℕ
      → List (List ℕ)
      → Result (List ℕ)
      → Context
      → Result ℕ × Context
  unfolding node_new insert_node is_kept
  transmit alloc peer security session type payload (err n) c = (err n, c)
  transmit alloc peer security session type payload (ok sendbuf) c =
      let kept =
        if is_kept type payload then enqueue (node_new alloc) peer security type payload c else c in
      (
        sent_length (length (gathered payload)) (length sendbuf) (write sendbuf),
        record kept { written = (session, sendbuf) ∷ kept.written },
      )

  -- dtls_send_multi: its result, the parameters after it, and the context. `alloc` is the address that
  -- netq_node_new gets; `epoch_of` reads the parameters behind dtls_prepare_record, which keeps it.
  unfoldable pub send_multi :
      Option ℕ
      → Option (ℕ × Role)
      → Option Security
      → Session
      → ℕ
      → List (List ℕ)
      → Context
      → Result ℕ × (Option Security × Context)
  unfolding transmit prepare_record
  send_multi alloc peer security session type payload c =
      let (record_or_err, after) =
        prepare_record set_key (role_of peer) security type payload max_buf in
      let (result, c') = transmit alloc (addr_of peer) after session type payload record_or_err c in
      (result, (after, c'))
    where
      role_of : Option (ℕ × Role) → Option Role
      role_of none = none
      role_of (some (a, r)) = some r

      addr_of : Option (ℕ × Role) → Option ℕ
      addr_of none = none
      addr_of (some (a, r)) = some a

  -- dtls_send to a peer that is not NULL.
  unfoldable pub send : Option ℕ → Peer → ℕ → List ℕ → Context → Result ℕ × Context
  unfolding send_multi params
  send alloc p type buf c =
      let (result, (security, c')) =
        send_multi alloc (some (p.addr, p.role)) (params p.slots) p.session type (buf ∷ []) c in
      (
        result,
        record c' { heap = put c'.heap (record p { slots = store_params p.slots security }) },
      )

  -- dtls_send_alert; an alert is never kept for retransmission, so nothing is allocated.
  unfoldable pub send_alert : Peer → ℕ → ℕ → Context → Context
  unfolding send
  send_alert p level description c =
      (send none p ct_alert (level % 2 ^ 8 ∷ description % 2 ^ 8 ∷ []) c).1

  abbrev pub set_state : ℕ → ℕ → Context → Option Context
  set_state a s c = stated (deref c.heap a)
    where
      stated : Option Peer → Option Context
      stated none = none
      stated (some p) = some (record c { heap = put c.heap (record p { state = s }) })

  -- dtls_close: -1 where there is no such peer.
  unfoldable pub close : Session → Context → Option (Result ℕ × Context)
  unfolding send_alert get_peer
  close remote c = closing (get_peer c.heap c.peers remote)
    where
      done : Option Context → Option (Result ℕ × Context)
      done none = none
      done (some c') = some (ok 0, c')

      closing : Option Peer → Option (Result ℕ × Context)
      closing none = some (err 1, c)
      closing (some p) =
          done (set_state p.addr state_closing (send_alert p level_fatal close_notify c))

  -- dtls_stop_retransmission for the peer at `a`; a node whose peer is NULL or gone is a fault.
  unfoldable pub stop_queue : List Peer → Session → List Node → Option (List Node)
  stop_queue heap session [] = some []
  stop_queue heap session (n ∷ q) = next n.peer (stop_queue heap session q)
    where
      keep : Option Peer → Option (List Node) → Option (List Node)
      keep none rest = none
      keep (some p) none = none
      keep (some p) (some rest) = some (if session_equals p.session session then rest else n ∷ rest)

      next : Option ℕ → Option (List Node) → Option (List Node)
      next none rest = none
      next (some a) rest = keep (deref heap a) rest
