-- ===== src/Reassembly.antt =====
-- The reassembly of fragmented handshake messages in dtls.c: dtls_free_reassemble_buffer,
-- dtls_init_reassemble_buffer and the part of handle_handshake that collects fragments. malloc is a
-- parameter: the bytes of a new block, or `none` for NULL. The result `none` is a use of memory that
-- is not allocated: a NULL or dangling pointer, or bytes outside a block.
pub mod Complete
pub mod Sent
pub mod Failures
use gc2021_pqdtls.Base.{
  ℕ, ◌+◌, ltb, ◌==◌, if◌then◌else◌, Bool, true, false, not, ◌&&◌, Option, none, some, List, ◌++◌,
  length, take, drop,
}
use gc2021_pqdtls.Numeric.{byte_at, int_to_uint24, uint24_to_int}
use gc2021_pqdtls.Alert.{Result, ok, err, alert_fatal_create, handshake_failure, record_overflow}
use gc2021_pqdtls.Cookie.{hs_length}
use gc2021_pqdtls.Engine.{max_buf}

-- DTLS_HS_FRAGMENTED, without its sign
abbrev pub hs_fragmented : ℕ
hs_fragmented = 244

-- dtls_hs_reassemble_t; its mseq_r is never used.
pub record Buffer : Type 0 where
  pub packet_length : ℕ
  pub last_offset : ℕ
  pub block : List ℕ

-- handshake_params->reassemble_buf
pub data Pointer : Type 0 where
  null : Pointer
  dangling : Pointer
  to : Buffer → Pointer

-- dtls_free_reassemble_buffer
unfoldable pub free_reassemble_buffer : Pointer → Option Pointer
free_reassemble_buffer null = some null
free_reassemble_buffer dangling = none
free_reassemble_buffer (to b) = some null

-- dtls_init_reassemble_buffer: whether it succeeds, and the pointer it leaves. `struct` is whether the
-- first allocation succeeds.
unfoldable pub init_reassemble_buffer : Bool → (ℕ → Option (List ℕ)) → ℕ → Pointer → Bool × Pointer
init_reassemble_buffer struct malloc packet_length p =
    if struct then with_data (malloc (packet_length + hs_length)) else (false, p)
  where
    with_data : Option (List ℕ) → Bool × Pointer
    with_data none = (false, dangling)
    with_data (some block) =
        (true, to (record { packet_length = packet_length; last_offset = 0; block = block }))

-- memcpy(block + at, src, n)
unfoldable pub memcpy : List ℕ → ℕ → List ℕ → ℕ → Option (List ℕ)
memcpy block at src n =
    if ltb (length src) n
    then none
    else if ltb (length block) (at + n)
    then none
    else some (take at block ++ take n src ++ drop (at + n) block)

-- The header of the first fragment as that of the whole message.
unfoldable pub rewrite_header : List ℕ → ℕ → List ℕ
rewrite_header d packet_length =
    take 1 d
    ++ int_to_uint24 packet_length
    ++ take 2 (drop 4 d)
    ++ int_to_uint24 0
    ++ int_to_uint24 packet_length
    ++ drop hs_length d

-- What the fragment leaves in the buffer decides how handle_handshake goes on.
unfoldable pub finish : ℕ → Buffer → Result (List ℕ) × Pointer
finish packet_length b =
    if ltb b.last_offset packet_length
    then (err hs_fragmented, to b)
    else let d = rewrite_header b.block b.packet_length in
      (ok (take (b.packet_length + hs_length) d), to (record b { block = d }))

abbrev stored : ℕ → ℕ → Buffer → Option (List ℕ) → Option (Result (List ℕ) × Pointer)
stored packet_length end b none = none
stored packet_length end b (some d) =
    some (finish packet_length (record b { last_offset = end; block = d }))

-- The check for a consecutive fragment, and the copy. `rest` is where `data` points to.
unfoldable pub append_fragment : ℕ → ℕ → ℕ → List ℕ → Pointer → Option (Result (List ℕ) × Pointer)
append_fragment packet_length offset len rest null =
    some (err (alert_fatal_create handshake_failure), null)
append_fragment packet_length offset len rest dangling = none
append_fragment packet_length offset len rest (to b) =
    if not (b.last_offset == offset)
    then some (err (alert_fatal_create handshake_failure), to b)
    else stored packet_length (offset + len) b (
        if offset == 0
        then memcpy b.block offset rest (len + hs_length)
        else memcpy b.block (offset + hs_length) rest len)

module _ (struct : Bool) (malloc : ℕ → Option (List ℕ)) where
  abbrev pub after_init : ℕ → ℕ → ℕ → List ℕ → Bool × Pointer → Option (Result (List ℕ) × Pointer)
  after_init packet_length offset len msg (true, p) = append_fragment packet_length offset len msg p
  after_init packet_length offset len msg (false, p) =
      some (err (alert_fatal_create record_overflow), p)

  abbrev pub after_free : ℕ → ℕ → ℕ → List ℕ → Option Pointer → Option (Result (List ℕ) × Pointer)
  after_free packet_length offset len msg none = none
  after_free packet_length offset len msg (some p) =
      after_init packet_length offset len msg (init_reassemble_buffer struct malloc packet_length p)

  -- A fragment for a peer that has handshake parameters.
  unfoldable pub take_fragment : List ℕ → Pointer → Option (Result (List ℕ) × Pointer)
  take_fragment msg p =
      let packet_length = uint24_to_int (drop 1 msg) in
      let offset = uint24_to_int (drop 6 msg) in
      let len = uint24_to_int (drop 9 msg) in
      if ltb max_buf packet_length
      then some (err (alert_fatal_create record_overflow), p)
      else if ltb packet_length (offset + len)
      then some (err (alert_fatal_create record_overflow), p)
      else if offset == 0
      then after_free packet_length offset len msg (free_reassemble_buffer p)
      else append_fragment packet_length offset len (drop hs_length msg) p

  -- The same where handshake_params is NULL: freeing does nothing, and every later step reads through
  -- it, unless the first allocation fails.
  unfoldable pub take_fragment_null : List ℕ → Option (Result (List ℕ))
  take_fragment_null msg =
      let packet_length = uint24_to_int (drop 1 msg) in
      let offset = uint24_to_int (drop 6 msg) in
      if ltb max_buf packet_length
      then some (err (alert_fatal_create record_overflow))
      else if ltb packet_length (offset + uint24_to_int (drop 9 msg))
      then some (err (alert_fatal_create record_overflow))
      else if (offset == 0) && not struct
      then some (err (alert_fatal_create record_overflow))
      else none

  -- The same without a peer, which is read before anything is allocated.
  unfoldable pub take_fragment_no_peer : List ℕ → Option (Result (List ℕ))
  take_fragment_no_peer msg =
      let packet_length = uint24_to_int (drop 1 msg) in
      if ltb max_buf packet_length
      then some (err (alert_fatal_create record_overflow))
      else if ltb packet_length (uint24_to_int (drop 6 msg) + uint24_to_int (drop 9 msg))
      then some (err (alert_fatal_create record_overflow))
      else none

  abbrev pub with_pointer :
      Option Pointer → Option (Result (List ℕ)) → Option (Result (List ℕ) × Option Pointer)
  with_pointer p none = none
  with_pointer p (some result) = some (result, p)

  abbrev pub some_pointer :
      Option (Result (List ℕ) × Pointer) → Option (Result (List ℕ) × Option Pointer)
  some_pointer none = none
  some_pointer (some (result, p)) = some (result, some p)

  abbrev pub fragment_for :
      List ℕ → Bool → Option Pointer → Option (Result (List ℕ) × Option Pointer)
  fragment_for msg false p = with_pointer p (take_fragment_no_peer msg)
  fragment_for msg true none = with_pointer none (take_fragment_null msg)
  fragment_for msg true (some p) = some_pointer (take_fragment msg p)

  -- The part of handle_handshake up to the whole message; the length was checked. `peer` is whether
  -- there is one, and `p` the pointer of its handshake parameters, if it has them.
  unfoldable pub reassemble :
      List ℕ → Bool → Option Pointer → Option (Result (List ℕ) × Option Pointer)
  reassemble msg peer p =
      if ltb (uint24_to_int (drop 9 msg)) (uint24_to_int (drop 1 msg))
      then fragment_for msg peer p
      else some (ok msg, p)
