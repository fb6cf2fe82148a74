-- ===== src/Reorder/Drain.antt =====
-- handle_handshake with the expected message.

use gc2021_pqdtls.Base.{ℕ, ◌<◌, ◌⊎◌, Option, none, some, List, [], length, ◌≡◌}
use gc2021_pqdtls.Alert.{Result, ok, err}
use gc2021_pqdtls.Netq.{Node}
use gc2021_pqdtls.Reassembly.{Pointer}
use gc2021_pqdtls.Reorder.{Params, Link, MessageHandler, find_seq, removed}
use gc2021_pqdtls.Reorder.Deliver.{Unique}

-- A message that is handled leaves the buffered ones, if there are handshake parameters behind it:
-- the queue is as it was, or the parameters are new and it is empty.
abbrev pub QueueKept : Option Params → Option Params → Type 0
QueueKept before none = Unit {0}
QueueKept none (some p') = p'.reorder_queue ≡ []
QueueKept (some p) (some p') = (p'.reorder_queue ≡ p.reorder_queue) ⊎ (p'.reorder_queue ≡ [])

module _ (World : Type 0) (handle_msg : MessageHandler World) (peer_state : World → ℕ)
    (stale : List ℕ → List ℕ) where
  abbrev pub KeepsQueue : Type 0
  KeepsQueue =
      (state : ℕ) (msg : List ℕ) (l l' : Link World) (res : ℕ)
      → handle_msg state msg l ≡ some (ok res, l')
      → QueueKept l.params l'.params

  -- What follows on the outcome of one message: a fault or a refusal is the end, and so is a message
  -- that ends the handshake, or one behind which the next is missing; else the buffered message with
  -- the number that is now expected is taken off the queue and handled, with what follows on that.
  pub data Drained : Option (Result ℕ × Link World) → Option (Result ℕ × Link World) → Type 0 where
    faulted : Drained none none
    refused : {n : ℕ} {l : Link World} → Drained (some (err n, l)) (some (err n, l))
    over :
        {res : ℕ} {l : Link World} → l.params ≡ none → Drained (some (ok res, l)) (some (ok res, l))
    missing :
        {res : ℕ} {l : Link World} {p : Params}
        → l.params ≡ some p
        → find_seq p.mseq_r p.reorder_queue ≡ none
        → Drained (some (ok res, l)) (some (ok res, l))
    due :
        {res : ℕ} {l : Link World} {p : Params} {node : Node} {out : Option (Result ℕ × Link World)}
        → l.params ≡ some p
        → find_seq p.mseq_r p.reorder_queue ≡ some node
        → Drained
            (handle_msg
              (peer_state l.world)
              node.packet
              (removed World handle_msg peer_state stale l p node))
            out
        → Drained (some (ok res, l)) out

  abbrev Fits : ℕ → Option Params → Type 0
  Fits fuel none = 0 < fuel
  Fits fuel (some p) = Unique p.reorder_queue × (length p.reorder_queue < fuel)

  abbrev at : Option ℕ → Option Params → World → Link World
  at peer params w = record { peer = peer; params = params; world = w }

  -- The connection with these parameters.
  abbrev pub link : ℕ → List Node → Pointer → World → Option ℕ → Link World
  link seq q buf w peer = record {
    peer = peer;
    params = some (record { mseq_r = seq; reorder_queue = q; reassemble_buf = buf });
    world = w;
  }
