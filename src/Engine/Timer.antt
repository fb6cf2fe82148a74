-- ===== src/Engine/Timer.antt =====
-- dtls_retransmit and dtls_check_retransmit of dtls.c. The loop of the latter runs on fuel, which is
-- the length of the queue.
pub mod Deadline
use gc2021_pqdtls.Base.{
  ℕ, zero, suc, ◌+◌, ◌*◌, ◌%◌, ◌^◌, ltb, leb, if◌then◌else◌, Bool, Option, none, some, List, [],
  ◌∷◌, length,
}
use gc2021_pqdtls.Alert.{Result, ok, err}
use gc2021_pqdtls.Security.{Security, params_epoch}
use gc2021_pqdtls.Session.{Session}
use gc2021_pqdtls.Peers.{Peer, deref, put}
use gc2021_pqdtls.Netq.{Node, insert_node, pop_first}
use gc2021_pqdtls.Record.{SetKey, prepare_record}
use gc2021_pqdtls.Engine.{Context, max_buf, max_retransmit, store_params}

module _ (set_key : SetKey) (ticks : ℕ → ℕ) where
  -- The node with its counter and its next deadline, when the clock reads `now`.
  unfoldable pub postponed : ℕ → Node → Node
  postponed now node =
      let cnt = (node.retransmit_cnt + 1) % 2 ^ 8 in
      record node { retransmit_cnt = cnt; t = (now + node.timeout * 2 ^ cnt % 2 ^ 32) % 2 ^ 64 }

  abbrev pub logged : Session → Result (List ℕ) → List (Session × List ℕ) → List (Session × List ℕ)
  logged session (err n) written = written
  logged session (ok pkt) written = (session, pkt) ∷ written

  -- The branch that sends, to the peer object `p`.
  unfoldable pub resend : Node → Peer → Context → Context
  unfolding postponed
  resend node p c =
      let (result, after) =
        prepare_record set_key (some p.role) (params_epoch p.slots node.epoch) node.type
          (node.packet ∷ []) max_buf in
      record c {
        reads = c.reads + 1;
        sendqueue = insert_node c.sendqueue (postponed (ticks c.reads) node);
        heap = put c.heap (record p { slots = store_params p.slots after });
        written = logged p.session result c.written;
      }

  abbrev pub resend_to : Option Peer → Node → Context → Option Context
  resend_to none node c = none
  resend_to (some p) node c = some (resend node p c)

  -- dtls_retransmit, for a node that is no more in the queue. A node that is not sent again is freed.
  unfoldable pub retransmit : Node → Context → Option Context
  retransmit node c = again node.peer
    where
      again : Option ℕ → Option Context
      again none = some c
      again (some a) =
          if ltb node.retransmit_cnt max_retransmit
          then resend_to (deref c.heap a) node c
          else some c

  abbrev pub go_on : Bool → (Context → Option Context) → Option Context → Option Context
  go_on all rest none = none
  go_on all rest (some c) = if all then rest c else some c

  abbrev pub due_first : ℕ → (Node → Option Context) → Context → Option Node → Option Context
  due_first now run c none = some c
  due_first now run c (some n) = if leb n.t now then run n else some c

  -- The while loop.
  unfoldable pub check_loop : ℕ → ℕ → Bool → Context → Option Context
  unfolding retransmit
  check_loop zero now all c = some c
  check_loop (suc fuel) now all c =
      let (first, queue) = pop_first c.sendqueue in
      let rest = check_loop fuel now all in
      due_first now (λ n. go_on all rest (retransmit n (record c { sendqueue = queue }))) c first

  abbrev pub next_time : List Node → ℕ
  next_time [] = 0
  next_time (n ∷ q) = n.t

  abbrev with_next : Option Context → Option (ℕ × Context)
  with_next none = none
  with_next (some c) = some (next_time c.sendqueue, c)

  -- dtls_check_retransmit: what it stores in `next`, and the context.
  unfoldable pub check_retransmit : Bool → Context → Option (ℕ × Context)
  check_retransmit all c =
      with_next
        (check_loop (length c.sendqueue) (ticks c.reads) all (record c { reads = c.reads + 1 }))
