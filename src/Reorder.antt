-- ===== src/Reorder.antt =====
-- handle_handshake of dtls.c: handshake messages in the order of their sequence numbers. The switch
-- on the message type, handle_handshake_msg, is the parameter `handle_msg`, over everything else that
-- it reads and changes (`World`). `stale` is what a freed block of memory reads as: a message that
-- was put together from fragments is freed before it is handled. `none` is a use of memory that is
-- not allocated, or a handler that goes on without end.
pub mod Deliver
pub mod Drain
pub mod Buffered
use gc2021_pqdtls.Base.{
  ℕ, zero, suc, ◌+◌, ltb, ◌==◌, if◌then◌else◌, Bool, true, false, not, ◌&&◌, ◌||◌, Option, none,
  some, List, [], ◌∷◌, length, drop,
}
use gc2021_pqdtls.Numeric.{byte_at, uint16_to_int, uint24_to_int}
use gc2021_pqdtls.Alert.{Result, ok, err, alert_fatal_create, decode_error, handshake_failure}
use gc2021_pqdtls.Cookie.{hs_length}
use gc2021_pqdtls.Engine.{max_buf}
use gc2021_pqdtls.Netq.{Node, insert_node, remove, node_new}
use gc2021_pqdtls.Reassembly.{Pointer, free_reassemble_buffer, reassemble}

-- DTLS_HT_HELLO_REQUEST, DTLS_HT_CLIENT_HELLO
abbrev pub ht_hello_request : ℕ
ht_hello_request = 0

abbrev pub ht_client_hello : ℕ
ht_client_hello = 1

-- The fields of dtls_handshake_parameters_t that order messages.
pub record Params : Type 0 where
  pub mseq_r : ℕ
  pub reorder_queue : List Node
  pub reassemble_buf : Pointer

-- hs_header->message_seq
unfoldable pub message_seq : List ℕ → ℕ
message_seq msg = uint16_to_int (drop 4 msg)

-- The search of the queue for a message.
unfoldable pub find_seq : ℕ → List Node → Option Node
find_seq seq [] = none
find_seq seq (node ∷ next) =
    let rest = find_seq seq next in if message_seq node.packet == seq then some node else rest

module _ (World : Type 0) where
  -- The peer's address, its handshake parameters, and the rest of the state.
  pub record Link : Type 0 where
    pub peer : Option ℕ
    pub params : Option Params
    pub world : World

  abbrev pub MessageHandler : Type 0
  MessageHandler = ℕ → List ℕ → Link → Option (Result ℕ × Link)

module _ (World : Type 0) (handle_msg : MessageHandler World) (peer_state : World → ℕ)
    (stale : List ℕ → List ℕ) where
  abbrev pub go_on :
      Option (Result ℕ × Link World)
      → (ℕ → Link World → Option (Result ℕ × Link World))
      → Option (Result ℕ × Link World)
  go_on none next = none
  go_on (some (err n, l)) next = some (err n, l)
  go_on (some (ok res, l)) next = next res l

  abbrev pub removed : Link World → Params → Node → Link World
  removed l p node = record l {
    params = some (record p { reorder_queue = remove p.reorder_queue node.addr });
  }

  -- The loop over the buffered messages; `fuel` bounds its rounds.
  unfoldable pub drain : ℕ → ℕ → Link World → Option (Result ℕ × Link World)
  drain zero res l = none
  drain (suc fuel) res l = with_params l.params (drain fuel)
    where
      found :
          Params
          → Option Node
          → (ℕ → Link World → Option (Result ℕ × Link World))
          → Option (Result ℕ × Link World)
      found p none next = some (ok res, l)
      found p (some node) next =
          go_on (handle_msg (peer_state l.world) node.packet (removed l p node)) next

      with_params :
          Option Params
          → (ℕ → Link World → Option (Result ℕ × Link World))
          → Option (Result ℕ × Link World)
      with_params none next = some (ok res, l)
      with_params (some p) next = found p (find_seq p.mseq_r p.reorder_queue) next

  abbrev queue_length : Option Params → ℕ
  queue_length none = 0
  queue_length (some p) = length p.reorder_queue

  -- A message that is ahead is kept, unless it is too long, there already, or memory is short.
  unfoldable pub buffer_message : Option ℕ → Option ℕ → List ℕ → Params → Params
  unfolding node_new
  buffer_message alloc peer msg p =
      if ltb max_buf (length msg)
      then p
      else stored (find_seq (message_seq msg) p.reorder_queue) (node_new alloc)
    where
      stored : Option Node → Option Node → Params
      stored (some there) n = p
      stored none none = p
      stored none (some n) = record p {
        reorder_queue = insert_node p.reorder_queue (record n { peer = peer; packet = msg });
      }

  -- The expected message, and then those that it lets through. `fragmented` is whether it was put together
  -- from fragments.
  unfoldable pub expected : ℕ → Bool → List ℕ → Params → Link World → Option (Result ℕ × Link World)
  expected state fragmented msg p l = freed (free_reassemble_buffer p.reassemble_buf)
    where
      freed : Option Pointer → Option (Result ℕ × Link World)
      freed none = none
      freed (some buf) =
          go_on
            (handle_msg state (if fragmented then stale msg else msg)
              (record l { params = some (record p { reassemble_buf = buf }) }))
            (λ res l'. drain (queue_length l'.params + 1) res l')

  -- A message without handshake parameters: only one that starts a handshake is handled.
  unfoldable pub without_params : ℕ → List ℕ → Link World → Option (Result ℕ × Link World)
  without_params state msg l =
      if not (byte_at msg 0 == ht_client_hello) && no_peer l.peer
      then some (err (alert_fatal_create handshake_failure), l)
      else if (byte_at msg 0 == ht_client_hello) || (byte_at msg 0 == ht_hello_request)
      then handle_msg state msg l
      else some (ok 0, l)
    where
      no_peer : Option ℕ → Bool
      no_peer none = true
      no_peer (some a) = false

  -- The three cases on the sequence number.
  unfoldable pub sequenced :
      Option ℕ → ℕ → Bool → List ℕ → Params → Link World → Option (Result ℕ × Link World)
  sequenced alloc state fragmented msg p l =
      if ltb (message_seq msg) p.mseq_r
      then some (ok 0, l)
      else if ltb p.mseq_r (message_seq msg)
      then some (ok 0, record l { params = some (buffer_message alloc l.peer msg p) })
      else expected state fragmented msg p l

  -- A message that is complete.
  unfoldable pub handle_whole :
      Option ℕ → ℕ → Bool → List ℕ → Link World → Option (Result ℕ × Link World)
  handle_whole alloc state fragmented msg l = by_params l.params
    where
      by_params : Option Params → Option (Result ℕ × Link World)
      by_params none = without_params state msg l
      by_params (some p) = sequenced alloc state fragmented msg p l

  abbrev pub has_peer : Option ℕ → Bool
  has_peer none = false
  has_peer (some a) = true

  abbrev pub pointer : Option Params → Option Pointer
  pointer none = none
  pointer (some p) = some p.reassemble_buf

  abbrev pub store_pointer : Option Params → Option Pointer → Option Params
  store_pointer none b = none
  store_pointer (some p) none = some p
  store_pointer (some p) (some b) = some (record p { reassemble_buf = b })

  -- handle_handshake. `struct` and `malloc` are the allocations of the reassembly buffer, `alloc` that
  -- of a node of the queue.
  unfoldable pub handle_handshake :
      Bool
      → (ℕ → Option (List ℕ))
      → Option ℕ
      → ℕ
      → List ℕ
      → Link World
      → Option (Result ℕ × Link World)
  handle_handshake struct malloc alloc state msg l =
      if ltb (length msg) hs_length
      then some (err (alert_fatal_create decode_error), l)
      else arrived (reassemble struct malloc msg (has_peer l.peer) (pointer l.params))
    where
      fragmented : Bool
      fragmented = ltb (uint24_to_int (drop 9 msg)) (uint24_to_int (drop 1 msg))

      arrived : Option (Result (List ℕ) × Option Pointer) → Option (Result ℕ × Link World)
      arrived none = none
      arrived (some (err n, b)) = some (err n, record l { params = store_pointer l.params b })
      arrived (some (ok m, b)) =
          handle_whole alloc state fragmented m (record l { params = store_pointer l.params b })
