-- ===== src/Reassembly/Failures.antt =====
-- When the reassembly stays inside its buffer, and when it does not.
use gc2021_pqdtls.Base.{
  ℕ, ◌+◌, ◌≤◌, ltb, ltb-false, ltb-false→le, ◌==◌, ==_iff, Bool, true, Bool-cases, inl, inr, Option,
  none, some, List, ◌++◌, length, take, drop, length-take, length-drop, length-append, ◌≡◌, ◌≢◌,
  refl, ◌∙◌, arith,
}
use gc2021_pqdtls.Numeric.{uint24_to_int, int_to_uint24}
use gc2021_pqdtls.Alert.{Result, err, alert_fatal_create, record_overflow}
use gc2021_pqdtls.Engine.{max_buf}
use gc2021_pqdtls.Reassembly.{
  Buffer, Pointer, null, dangling, to, free_reassemble_buffer, init_reassemble_buffer,
  rewrite_header, finish, append_fragment, take_fragment, after_free,
}
use gc2021_pqdtls.Reassembly.Complete.{memcpy-copied, length-copied}

-- A pointer that may be used: the block of a buffer has room for the header and the packet.
abbrev pub IsSound : Pointer → Type 0
IsSound null = Unit {0}
IsSound dangling = 1 ≤ 0
IsSound (to b) = length b.block ≡ b.packet_length + 12

-- A fragment that continues the message in the buffer.
abbrev pub Continues : ℕ → Pointer → Type 0
Continues packet_length null = Unit {0}
Continues packet_length dangling = Unit {0}
Continues packet_length (to b) = b.packet_length ≡ packet_length

abbrev pub Answered : Option (Result (List ℕ) × Pointer) → Type 0
Answered o = (r : Result (List ℕ)) × (p : Pointer) × (o ≡ some (r, p)) × IsSound p

length-rewrite_header :
    (d : List ℕ) (n : ℕ) → 12 ≤ length d → length (rewrite_header d n) ≡ length d
unfolding rewrite_header int_to_uint24
length-rewrite_header d n h =
    let field : length (int_to_uint24 n) ≡ 3 = refl in
    let a = take 1 d ++ int_to_uint24 n in
    let b = a ++ take 2 (drop 4 d) in
    omega (
      arith,
      length-append (b ++ int_to_uint24 0 ++ int_to_uint24 n) (drop 12 d),
      length-append (b ++ int_to_uint24 0) (int_to_uint24 n),
      length-append b (int_to_uint24 0),
      length-append a (take 2 (drop 4 d)),
      length-append (take 1 d) (int_to_uint24 n),
      length-take 1 d,
      length-take 2 (drop 4 d),
      length-drop 4 d,
      length-drop 12 d,
    )

finish-IsSound :
    (n : ℕ) (b : Buffer) → length b.block ≡ b.packet_length + 12 → IsSound (finish n b).1
unfolding finish
finish-IsSound n b h = elim (Bool-cases (ltb b.last_offset n)) [
  | inl e ↦ rw e h
  | inr e ↦ rw e (length-rewrite_header b.block b.packet_length (omega arith) ∙ h)
]

finished :
    (n : ℕ) (b : Buffer) → length b.block ≡ b.packet_length + 12 → Answered (some (finish n b))
finished n b h = ((finish n b).0, (finish n b).1, refl, finish-IsSound n b h)

append_fragment-Answered :
    (packet_length offset len : ℕ) (rest : List ℕ) (p : Pointer)
    → IsSound p
    → Continues packet_length p
    → offset + len ≤ packet_length
    → len ≤ length rest
    → (offset ≡ 0 → len + 12 ≤ length rest)
    → Answered (append_fragment packet_length offset len rest p)
unfolding append_fragment
append_fragment-Answered packet_length offset len rest null s c h1 h2 h3 = (_, _, refl, tt)
append_fragment-Answered packet_length offset len rest dangling s c h1 h2 h3 = absurd (omega arith)
append_fragment-Answered packet_length offset len rest (to b) s c h1 h2 h3 =
    elim (Bool-cases (b.last_offset == offset)) [
      | inr e ↦ rw e (_, _, refl, s)
      | inl e ↦ elim (Bool-cases (offset == 0)) [
        | inl z ↦
            let start : offset ≡ 0 = (==_iff offset 0).0 z in
            let enough : len + 12 ≤ length rest = h3 start in
            let room : offset + (len + 12) ≤ length b.block = omega arith in
            rw (e, z, memcpy-copied b.block offset rest (len + 12) enough room)
              (finished packet_length _
                (length-copied b.block offset rest (len + 12) enough room ∙ s))
        | inr z ↦
            let room : offset + 12 + len ≤ length b.block = omega arith in
            rw (e, z, memcpy-copied b.block (offset + 12) rest len h2 room)
              (finished packet_length _ (length-copied b.block (offset + 12) rest len h2 room ∙ s))
      ]
    ]

freed : (p : Pointer) → IsSound p → free_reassemble_buffer p ≡ some null
unfolding free_reassemble_buffer
freed null s = refl
freed dangling s = absurd (omega arith)
freed (to b) s = refl

module _ (struct : Bool) (malloc : ℕ → Option (List ℕ)) where
  opened-Answered :
      (packet_length offset len : ℕ) (msg : List ℕ) (p : Pointer)
      → ((n : ℕ) → (block : List ℕ) × (malloc n ≡ some block) × (length block ≡ n))
      → IsSound p
      → offset ≡ 0
      → offset + len ≤ packet_length
      → len + 12 ≤ length msg
      → Answered (after_free struct malloc packet_length offset len msg (free_reassemble_buffer p))
  unfolding init_reassemble_buffer
  opened-Answered packet_length offset len msg p given s z h1 h2 =
      let (block, fit, size) = given (packet_length + 12) in
      elim (Bool-cases struct) [
        | inr e ↦ rw (freed p s, e) (_, _, refl, tt)
        | inl e ↦
            rw (freed p s, e, fit)
              (append_fragment-Answered packet_length offset len msg
                (to (record { packet_length = packet_length; last_offset = 0; block = block })) size
                refl h1 (omega arith) (λ q. h2))
      ]

  -- A buffer stays sound, and no byte outside a block is used, by a fragment that brings all the bytes
  -- it claims and, unless it is a first one, claims the packet length of the buffer. The allocation of
  -- the data succeeds.
  pub take_fragment-Answered :
      (msg : List ℕ) (p : Pointer)
      → ((n : ℕ) → (block : List ℕ) × (malloc n ≡ some block) × (length block ≡ n))
      → IsSound p
      → 12 + uint24_to_int (drop 9 msg) ≤ length msg
      → (uint24_to_int (drop 6 msg) ≢ 0 → Continues (uint24_to_int (drop 1 msg)) p)
      → Answered (take_fragment struct malloc msg p)
  unfolding take_fragment
  take_fragment-Answered msg p given s h1 h2 =
      let packet_length = uint24_to_int (drop 1 msg) in
      let offset = uint24_to_int (drop 6 msg) in
      let len = uint24_to_int (drop 9 msg) in
      elim (Bool-cases (ltb max_buf packet_length)) [
        | inl e ↦ rw e (_, _, refl, s)
        | inr e ↦ elim (Bool-cases (ltb packet_length (offset + len))) [
          | inl f ↦ rw (e, f) (_, _, refl, s)
          | inr f ↦
              let fits : offset + len ≤ packet_length =
                ltb-false→le packet_length (offset + len) f in
              elim (Bool-cases (offset == 0)) [
                | inl z ↦
                    rw (e, f, z)
                      (opened-Answered packet_length offset len msg p given s
                        ((==_iff offset 0).0 z) fits (omega arith))
                | inr z ↦
                    rw (e, f, z)
                      (append_fragment-Answered packet_length offset len (drop 12 msg) p s
                        (h2 (ground arith)) fits (omega (arith, length-drop 12 msg))
                        (λ q. absurd (ground arith)))
              ]
        ]
      ]

  -- An allocation that fails leaves the pointer dangling, and the next fragment that passes the two
  -- checks on its lengths uses freed memory.
  pub take_fragment-dangling :
      (msg next : List ℕ) (p : Pointer)
      → IsSound p
      → struct ≡ true
      → malloc (uint24_to_int (drop 1 msg) + 12) ≡ none
      → uint24_to_int (drop 6 msg) ≡ 0
      → uint24_to_int (drop 6 msg) + uint24_to_int (drop 9 msg) ≤ uint24_to_int (drop 1 msg)
      → uint24_to_int (drop 1 msg) ≤ max_buf
      → uint24_to_int (drop 6 next) + uint24_to_int (drop 9 next) ≤ uint24_to_int (drop 1 next)
      → uint24_to_int (drop 1 next) ≤ max_buf
      → (take_fragment struct malloc msg p
          ≡ some (err (alert_fatal_create record_overflow), dangling))
        × (take_fragment struct malloc next dangling ≡ none)
  unfolding take_fragment init_reassemble_buffer free_reassemble_buffer append_fragment
  take_fragment-dangling msg next p s h1 h2 h3 h4 h5 h6 h7 = (
    rw (ltb-false _ _ h5, ltb-false _ _ h4, h3, freed p s, h1, h2) refl,
    rw (ltb-false _ _ h7, ltb-false _ _ h6)
        (elim (Bool-cases (uint24_to_int (drop 6 next) == 0)) [
          | inl e ↦ rw e refl
          | inr e ↦ rw e refl
        ]),
  )
