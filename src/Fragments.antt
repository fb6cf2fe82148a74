-- ===== src/Fragments.antt =====
-- Sending handshake messages in dtls.c: dtls_set_handshake_header and dtls_send_handshake_msg_hash,
-- which cuts a message into fragments and sends each in a record of its own. A message is `none`
-- where the C pointer is NULL, and has its length with it. The result `none` is a use of handshake
-- parameters that are not there. The peer is its address and role.
pub mod Pieces
use gc2021_pqdtls.Base.{
  ℕ, zero, suc, ◌+◌, ◌-◌, ◌/◌, ◌%◌, ◌^◌, min, ltb, leb, ◌==◌, if◌then◌else◌, Bool, true, false,
  ◌&&◌, Option, none, some, List, [], ◌∷◌, ◌++◌, length, take, drop, replicate,
}
use gc2021_pqdtls.Numeric.{int_to_uint8, int_to_uint16, int_to_uint24}
use gc2021_pqdtls.Alert.{Result, ok, err, alert_fatal_create, internal_error}
use gc2021_pqdtls.Hmac.{Hash}
use gc2021_pqdtls.Security.{Security, Role, params}
use gc2021_pqdtls.Session.{Session}
use gc2021_pqdtls.Peers.{Peer}
use gc2021_pqdtls.Record.{SetKey}
use gc2021_pqdtls.Engine.{Context, send_multi, ct_handshake}

-- DTLS_MAX_HS_PAYLOAD
abbrev pub max_hs_payload : ℕ
max_hs_payload = 1252

-- `mseq_s++` of the 16-bit counter.
abbrev pub next_mseq : Bool → ℕ → ℕ
next_mseq seq_nr_inc mseq_s = if seq_nr_inc then (mseq_s + 1) % 2 ^ 16 else mseq_s

-- dtls_set_handshake_header: the 12 bytes, and the counter after them. The counter is `none` where
-- the peer or its handshake parameters are NULL.
unfoldable pub set_handshake_header : ℕ → Option ℕ → ℕ → ℕ → ℕ → Bool → List ℕ × Option ℕ
set_handshake_header type none len frag_offset frag_length seq_nr_inc = (
  int_to_uint8 type
      ++ int_to_uint24 len
      ++ replicate 2 0
      ++ int_to_uint24 frag_offset
      ++ int_to_uint24 frag_length,
  none,
)
set_handshake_header type (some mseq_s) len frag_offset frag_length seq_nr_inc = (
  int_to_uint8 type
      ++ int_to_uint24 len
      ++ int_to_uint16 mseq_s
      ++ int_to_uint24 frag_offset
      ++ int_to_uint24 frag_length,
  some (next_mseq seq_nr_inc mseq_s),
)

-- The sum of two C results, of which an error is a negative number.
abbrev pub add_result : Result ℕ → Result ℕ → Result ℕ
add_result (ok a) (ok b) = ok (a + b)
add_result (ok a) (err b) = if leb b a then ok (a - b) else err (b - a)
add_result (err a) (ok b) = if leb a b then ok (b - a) else err (a - b)
add_result (err a) (err b) = err (a + b)

abbrev pub size : Option (List ℕ) → ℕ
size none = 0
size (some d) = length d

module _ (h : Hash) where
  -- dtls_hs_state_t
  pub record HsState : Type 0 where
    pub mseq_s : ℕ
    pub mseq_r : ℕ
    pub hs_hash : h.Ctx

  -- update_hs_hash; the loop skips it for data that is NULL.
  unfoldable pub update_hs_hash : HsState → List ℕ → HsState
  update_hs_hash hs bytes = record hs { hs_hash = h.update hs.hs_hash bytes }

  -- clear_hs_hash
  unfoldable pub clear_hs_hash : HsState → HsState
  clear_hs_hash hs = record hs { hs_hash = h.init }

  -- finalize_hs_hash on a copy of the state, as check_finished and dtls_send_finished make it.
  unfoldable pub finalize_hs_hash : HsState → List ℕ
  finalize_hs_hash hs = h.finalize hs.hs_hash

  abbrev pub counter : Option HsState → Option ℕ
  counter none = none
  counter (some hs) = some hs.mseq_s

  abbrev pub store_counter : Option HsState → Option ℕ → Option HsState
  store_counter none n = none
  store_counter (some hs) none = some hs
  store_counter (some hs) (some n) = some (record hs { mseq_s = n })

  -- What the loop works on: the handshake state, the security parameters and the context.
  pub record Sender : Type 0 where
    pub hs : Option HsState
    pub security : Option Security
    pub context : Context

  abbrev hash_data : HsState → Option (List ℕ) → HsState
  hash_data hs none = hs
  hash_data hs (some d) = update_hs_hash hs d

  -- The header of the whole message and the message are hashed once, before it is cut.
  unfoldable pub hash_message : ℕ → Option (List ℕ) → Option HsState → Option (Option HsState)
  hash_message type data_opt none = none
  hash_message type data_opt (some hs) =
      let len = size data_opt in
      let buf = (set_handshake_header type (some hs.mseq_s) len 0 len false).0 in
      some (some (hash_data (update_hs_hash hs buf) data_opt))

module _ (h : Hash) (set_key : SetKey) (write : List ℕ → Result ℕ) (ticks : ℕ → ℕ) where
  abbrev chunk : Bool → ℕ → Option (List ℕ) → List (List ℕ)
  chunk last remaining none = []
  chunk last remaining (some d) = take (if last then remaining else max_hs_payload) d ∷ []

  -- One round behind the hashing: the fragment of the next bytes is sent.
  unfoldable pub send_fragment :
      (ℕ → Option ℕ)
      → Option (ℕ × Role)
      → Session
      → ℕ
      → ℕ
      → ℕ
      → Option (List ℕ)
      → Sender h
      → Result ℕ × Sender h
  send_fragment alloc peer session type data_length remaining rest s =
      let last = ltb remaining max_hs_payload in
      let offset = data_length - remaining in
      let (buf, mseq_s) =
        set_handshake_header type (counter h s.hs) data_length offset (min remaining max_hs_payload)
          last in
      let (result, (security, c)) =
        send_multi set_key write ticks (alloc offset) peer s.security session ct_handshake
          (buf ∷ chunk last remaining rest) s.context in
      (result, record { hs = store_counter h s.hs mseq_s; security = security; context = c })

  abbrev advance : Option (List ℕ) → Option (List ℕ)
  advance none = none
  advance (some d) = some (drop max_hs_payload d)

  -- The rounds of the loop; `fuel` bounds their number.
  unfoldable pub send_loop :
      ℕ
      → (ℕ → Option ℕ)
      → Option (ℕ × Role)
      → Session
      → ℕ
      → ℕ
      → ℕ
      → Option (List ℕ)
      → Result ℕ
      → Sender h
      → Option (Result ℕ × Sender h)
  send_loop zero alloc peer session type data_length remaining rest ret s = none
  send_loop (suc fuel) alloc peer session type data_length remaining rest ret s =
      let (result, s') = send_fragment alloc peer session type data_length remaining rest s in
      let total = add_result ret result in
      let left = if ltb remaining max_hs_payload then 0 else remaining - max_hs_payload in
      let more = send_loop fuel alloc peer session type data_length left (advance rest) total s' in
      if left == 0 then some (total, s') else more

  abbrev from_hashed :
      Option (Option (HsState h))
      → (Option (HsState h) → Option (Result ℕ × Sender h))
      → Option (Result ℕ × Sender h)
  from_hashed none next = none
  from_hashed (some hs) next = next hs

  -- dtls_send_handshake_msg_hash. `alloc` gives the address of the node that keeps the fragment at an
  -- offset.
  unfoldable pub send_handshake_msg_hash :
      (ℕ → Option ℕ)
      → Option (ℕ × Role)
      → Session
      → ℕ
      → Option (List ℕ)
      → Bool
      → Sender h
      → Option (Result ℕ × Sender h)
  send_handshake_msg_hash alloc peer session type message add_hash s =
      let len = size message in
      from_hashed (if add_hash then hash_message h type message s.hs else some s.hs) (λ hs.
        send_loop (len / max_hs_payload + 1) alloc peer session type len len message (ok 0)
          (record s { hs = hs }))
