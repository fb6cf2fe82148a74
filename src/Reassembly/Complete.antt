-- ===== src/Reassembly/Complete.antt =====
-- Consecutive fragments of a message give back the message.
use gc2021_pqdtls.Base.{
  ℕ, zero, suc, ◌+◌, ◌%◌, ◌^◌, ◌<◌, ◌≤◌, ltb, lt→ltb, ltb-false, ◌==◌, ==_iff, Bool, true, false,
  Option, none, some, List, [], ◌∷◌, ◌++◌, length, take, drop, length-take, length-drop,
  length-append, take-append, drop-append, take-all, ◌≡◌, refl, ap, sym, ◌∙◌, arith, ◌≢◌,
}
use mathlib.Core.List.{append-nil, append_assoc}
use gc2021_pqdtls.Numeric.{int_to_uint8, int_to_uint16, int_to_uint24, uint24_to_int}
use gc2021_pqdtls.Numeric.RoundTrip.{uint24-int_to_uint}
use gc2021_pqdtls.Alert.{Result, ok, err}
use gc2021_pqdtls.Engine.{gathered, max_buf}
use gc2021_pqdtls.Fragments.{set_handshake_header}
use gc2021_pqdtls.Fragments.Pieces.{header}
use gc2021_pqdtls.Reassembly.{
  hs_fragmented, Buffer, Pointer, null, dangling, to, free_reassemble_buffer,
  init_reassemble_buffer, memcpy, rewrite_header, finish, append_fragment, take_fragment,
  after_free,
}

pub header_fields :
    (type m len offset n : ℕ) (d : List ℕ)
    → (uint24_to_int (drop 1 (header type m len offset n ++ d)) ≡ len % 2 ^ 24)
      × (uint24_to_int (drop 6 (header type m len offset n ++ d)) ≡ offset % 2 ^ 24)
      × (uint24_to_int (drop 9 (header type m len offset n ++ d)) ≡ n % 2 ^ 24)
unfolding set_handshake_header int_to_uint8 int_to_uint16 int_to_uint24
header_fields type m len offset n d =
    (uint24-int_to_uint len _, uint24-int_to_uint offset _, uint24-int_to_uint n d)

pub length-header : (type m len offset n : ℕ) → length (header type m len offset n) ≡ 12
unfolding set_handshake_header int_to_uint8 int_to_uint16 int_to_uint24
length-header type m len offset n = refl

rewrite_header-header :
    (type m len offset n : ℕ) (d : List ℕ)
    → rewrite_header (header type m len offset n ++ d) len ≡ header type m len 0 len ++ d
unfolding rewrite_header set_handshake_header int_to_uint8 int_to_uint16 int_to_uint24
rewrite_header-header type m len offset n d = refl

-- The bytes that a copy leaves up to its end.
abbrev pub copied : List ℕ → ℕ → List ℕ → ℕ → List ℕ
copied block at src n = take at block ++ take n src ++ drop (at + n) block

pub memcpy-copied :
    (block : List ℕ) (at : ℕ) (src : List ℕ) (n : ℕ)
    → n ≤ length src
    → at + n ≤ length block
    → memcpy block at src n ≡ some (copied block at src n)
unfolding memcpy
memcpy-copied block at src n h1 h2 =
    rw (ltb-false (length src) n h1, ltb-false (length block) (at + n) h2) refl

pub length-copied :
    (block : List ℕ) (at : ℕ) (src : List ℕ) (n : ℕ)
    → n ≤ length src
    → at + n ≤ length block
    → length (copied block at src n) ≡ length block
length-copied block at src n h1 h2 = omega (
  arith,
  length-append (take at block ++ take n src) (drop (at + n) block),
  length-append (take at block) (take n src),
  length-take at block,
  length-take n src,
  length-drop (at + n) block,
)

take-copied :
    (block : List ℕ) (at : ℕ) (src : List ℕ) (n : ℕ)
    → n ≤ length src
    → at + n ≤ length block
    → take (at + n) (copied block at src n) ≡ take at block ++ take n src
take-copied block at src n h1 h2 =
    take-append (at + n) (take at block ++ take n src) (drop (at + n) block) (
      omega (
        arith,
        length-append (take at block) (take n src),
        length-take at block,
        length-take n src,
      ))

-- The buffer holds the header of a message of `len` bytes and the bytes received so far.
pub record Collected (head received : List ℕ) (len : ℕ) (b : Buffer) : Type 0 where
  pub same_length : b.packet_length ≡ len
  pub at_end : b.last_offset ≡ length received
  pub allocated : length b.block ≡ len + 12
  pub holds : take (length received + 12) b.block ≡ head ++ received

-- The next fragment behind the first is copied.
append_fragment-Collected :
    {head received : List ℕ} {len : ℕ} {b : Buffer} (d : List ℕ)
    → Collected head received len b
    → length received ≢ 0
    → length received + length d ≤ len
    → (b' : Buffer) × Collected head (received ++ d) len b'
      × (append_fragment len (length received) (length d) d (to b) ≡ some (finish len b'))
unfolding append_fragment
append_fragment-Collected {head} {received} {len} {b} d v h1 h2 =
    let o = length received in
    let room : o + 12 + length d ≤ length b.block = omega (arith, v.allocated) in
    let fits : length d ≤ length d = omega arith in
    let same : (b.last_offset == o) ≡ true = (==_iff b.last_offset o).1 v.at_end in
    let later : (o == 0) ≡ false = ground arith in
    let copy = memcpy-copied b.block (o + 12) d (length d) fits room in
    (
      record {
        packet_length = b.packet_length;
        last_offset = o + length d;
        block = copied b.block (o + 12) d (length d);
      },
      record {
        same_length = v.same_length;
        at_end = sym (length-append received d);
        allocated = length-copied b.block (o + 12) d (length d) fits room ∙ v.allocated;
        holds = rw (length-append received d) (
            ap (λ (k : ℕ). take k (copied b.block (o + 12) d (length d))) (omega arith)
            ∙ take-copied b.block (o + 12) d (length d) fits room
            ∙ rw (v.holds, take-all (length d) d fits) (append_assoc head received d));
      },
      rw (same, later, copy) refl,
    )

finish_wait :
    {head received : List ℕ} {len : ℕ} {b : Buffer}
    → Collected head received len b
    → length received < len
    → finish len b ≡ (err hs_fragmented, to b)
unfolding finish
finish_wait {b = b} v h = rw (v.at_end, lt→ltb _ _ h) refl

finish_whole :
    (type m len n : ℕ) {received : List ℕ} {b : Buffer}
    → Collected (header type m len 0 n) received len b
    → length received ≡ len
    → (finish len b).0 ≡ ok (header type m len 0 len ++ received)
unfolding finish
finish_whole type m len n {received} {b} v h =
    let over : ltb b.last_offset len ≡ false =
      ltb-false b.last_offset len (omega (arith, v.at_end)) in
    let all : b.block ≡ header type m len 0 n ++ received =
      sym (take-all (length received + 12) b.block (omega (arith, v.allocated))) ∙ v.holds in
    let fixed = rewrite_header-header type m len 0 n received in
    let full : length (header type m len 0 len ++ received) ≤ len + 12 =
      omega
        (arith, length-append (header type m len 0 len) received, length-header type m len 0 len) in
    rw (over, v.same_length, all, fixed) (ap ok (take-all (len + 12) _ full))

-- The first fragment opens a buffer.
append_first :
    (head d block : List ℕ) (len : ℕ)
    → length head ≡ 12
    → length block ≡ len + 12
    → length d ≤ len
    → (b : Buffer) × Collected head d len b
      × (append_fragment len 0
            (length d)
            (head ++ d)
            (to (record { packet_length = len; last_offset = 0; block = block }))
          ≡ some (finish len b))
unfolding append_fragment
append_first head d block len h1 h2 h3 =
    let n = length d + 12 in
    let size : length (head ++ d) ≡ n = length-append head d ∙ omega arith in
    let enough : n ≤ length (head ++ d) = omega arith in
    let fits : 0 + n ≤ length block = omega arith in
    (
      record {
        packet_length = len;
        last_offset = 0 + length d;
        block = copied block 0 (head ++ d) n;
      },
      record {
        same_length = refl;
        at_end = omega arith;
        allocated = length-copied block 0 (head ++ d) n enough fits ∙ h2;
        holds =
            ap (λ (k : ℕ). take k (copied block 0 (head ++ d) n)) (omega arith)
            ∙ take-copied block 0 (head ++ d) n enough fits
            ∙ take-all n (head ++ d) (omega arith);
      },
      rw (memcpy-copied block 0 (head ++ d) n enough fits) refl,
    )

small : (v : ℕ) → v ≤ max_buf → v % 2 ^ 24 ≡ v
small v h = omega arith

-- The fragments of a message that is cut into these chunks.
abbrev pub fragments : ℕ → ℕ → ℕ → ℕ → List (List ℕ) → List (List ℕ)
fragments type m len offset [] = []
fragments type m len offset (d ∷ ds) =
    (header type m len offset (length d) ++ d) ∷ fragments type m len (offset + length d) ds

-- The answers to all fragments but the last, and then the message.
abbrev pub answers : ℕ → List ℕ → List (Result (List ℕ))
answers zero msg = ok msg ∷ []
answers (suc n) msg = err hs_fragmented ∷ answers n msg

abbrev pub NonEmpty : List (List ℕ) → Type 0
NonEmpty [] = Unit {0}
NonEmpty (d ∷ ds) = (length d ≢ 0) × NonEmpty ds

module _ (struct : Bool) (malloc : ℕ → Option (List ℕ)) where
  abbrev consed :
      Result (List ℕ) → Option (List (Result (List ℕ))) → Option (List (Result (List ℕ)))
  consed r none = none
  consed r (some rs) = some (r ∷ rs)

  abbrev next_answer :
      Option (Result (List ℕ) × Pointer)
      → (Pointer → Option (List (Result (List ℕ))))
      → Option (List (Result (List ℕ)))
  next_answer none rest = none
  next_answer (some (r, p)) rest = consed r (rest p)

  -- The answers to the fragments that come in one after the other.
  abbrev pub feed : List (List ℕ) → Pointer → Option (List (Result (List ℕ)))
  feed [] p = some []
  feed (f ∷ fs) p = next_answer (take_fragment struct malloc f p) (feed fs)

  take_fragment_later :
      (type m len offset n : ℕ) (d : List ℕ) (p : Pointer)
      → offset ≢ 0
      → offset + n ≤ len
      → len ≤ max_buf
      → take_fragment struct malloc (header type m len offset n ++ d) p
        ≡ append_fragment len offset n d p
  unfolding take_fragment
  take_fragment_later type m len offset n d p h1 h2 h3 =
      let (f1, f2, f3) = header_fields type m len offset n d in
      let later : (offset == 0) ≡ false = ground arith in
      rw
        (
          f1 ∙ small len (omega arith),
          f2 ∙ small offset (omega arith),
          f3 ∙ small n (omega arith),
          ltb-false max_buf len h3,
          ltb-false len (offset + n) h2,
          later,
        )
        (ap (λ (src : List ℕ). append_fragment len offset n src p)
          (drop-append 12 (header type m len offset n) d (length-header type m len offset n)))

  opened_as :
      (len n : ℕ) (msg block : List ℕ) (p : Pointer)
      → p ≢ dangling
      → struct ≡ true
      → malloc (len + 12) ≡ some block
      → after_free struct malloc len 0 n msg (free_reassemble_buffer p)
        ≡ append_fragment len 0 n msg
            (to (record { packet_length = len; last_offset = 0; block = block }))
  unfolding free_reassemble_buffer init_reassemble_buffer
  opened_as len n msg block null h1 h2 h3 = rw (h2, h3) refl
  opened_as len n msg block dangling h1 h2 h3 = absurd (h1 refl)
  opened_as len n msg block (to b) h1 h2 h3 = rw (h2, h3) refl

  take_fragment_first :
      (type m len n : ℕ) (d block : List ℕ) (p : Pointer)
      → n ≤ len
      → len ≤ max_buf
      → p ≢ dangling
      → struct ≡ true
      → malloc (len + 12) ≡ some block
      → take_fragment struct malloc (header type m len 0 n ++ d) p
        ≡ append_fragment len 0 n
            (header type m len 0 n ++ d)
            (to (record { packet_length = len; last_offset = 0; block = block }))
  unfolding take_fragment
  take_fragment_first type m len n d block p h1 h2 h3 h4 h5 =
      let (f1, f2, f3) = header_fields type m len 0 n d in
      rw
        (
          f1 ∙ small len (omega arith),
          f2,
          f3 ∙ small n (omega arith),
          ltb-false max_buf len h2,
          ltb-false len (0 + n) (omega arith),
        )
        (opened_as len n (header type m len 0 n ++ d) block p h3 h4 h5)

  wait_then :
      {head received : List ℕ} {len : ℕ} {b : Buffer} (fs : List (List ℕ))
      (rs : List (Result (List ℕ)))
      → Collected head received len b
      → length received < len
      → feed fs (to b) ≡ some rs
      → next_answer (some (finish len b)) (feed fs) ≡ some (err hs_fragmented ∷ rs)
  wait_then fs rs v h e = rw (finish_wait v h, e) refl

  feed_rest :
      (type m len n : ℕ) (received d : List ℕ) (ds : List (List ℕ)) (b : Buffer)
      → Collected (header type m len 0 n) received len b
      → length received ≢ 0
      → NonEmpty (d ∷ ds)
      → length received + length (gathered (d ∷ ds)) ≡ len
      → len ≤ max_buf
      → feed (fragments type m len (length received) (d ∷ ds)) (to b)
        ≡ some (answers (length ds) (header type m len 0 len ++ (received ++ gathered (d ∷ ds))))
  feed_rest type m len n received d [] b v h1 h2 h3 h4 =
      let room : length received + length d ≤ len = omega (arith, length-append d []) in
      let (b', v', e) = append_fragment-Collected d v h1 room in
      rw (take_fragment_later type m len (length received) (length d) d (to b) h1 room h4, e)
        (ap (λ r. some (r ∷ []))
          (finish_whole type m len n v'
              (omega (arith, length-append received d, length-append d []))
            ∙ rw (append-nil d) refl))
  feed_rest type m len n received d (d2 ∷ ds) b v h1 (k, ks) h3 h4 =
      let split : length (d ++ gathered (d2 ∷ ds)) ≡ length d + length (gathered (d2 ∷ ds)) =
        length-append d (gathered (d2 ∷ ds)) in
      let next : length d2 ≢ 0 = ks.0 in
      let room : length received + length d ≤ len = omega arith in
      let size : length (received ++ d) ≡ length received + length d = length-append received d in
      let (b', v', e) = append_fragment-Collected d v h1 room in
      rw (take_fragment_later type m len (length received) (length d) d (to b) h1 room h4, e)
        (wait_then (fragments type m len (length received + length d) (d2 ∷ ds)) _ v'
          (omega (arith, size, length-append d2 (gathered ds)))
          (ap (λ (k : ℕ). feed (fragments type m len k (d2 ∷ ds)) (to b')) (sym size)
            ∙ feed_rest type m len n (received ++ d) d2 ds b' v' (omega (arith, size)) ks
                (omega (arith, size)) h4
            ∙ ap (λ (w : List ℕ). some (answers (length ds) (header type m len 0 len ++ w)))
                (append_assoc received d (gathered (d2 ∷ ds)))))

  -- A message that is cut into several non-empty fragments, which come in one after the other, is
  -- waited for, and then given whole, behind its header as if it came unfragmented, whatever buffer
  -- was left before. The message fits in the largest packet, and the allocations succeed.
  pub feed-fragments :
      (type m : ℕ) (d d2 : List ℕ) (ds : List (List ℕ)) (p : Pointer) (block : List ℕ)
      → let len = length (gathered (d ∷ d2 ∷ ds)) in
        NonEmpty (d ∷ d2 ∷ ds)
        → len ≤ max_buf
        → p ≢ dangling
        → struct ≡ true
        → malloc (len + 12) ≡ some block
        → length block ≡ len + 12
        → feed (fragments type m len 0 (d ∷ d2 ∷ ds)) p
          ≡ some (answers (suc (length ds)) (header type m len 0 len ++ gathered (d ∷ d2 ∷ ds)))
  feed-fragments type m d d2 ds p block (k, ks) h1 h2 h3 h4 h5 =
      let len = length (gathered (d ∷ d2 ∷ ds)) in
      let split : len ≡ length d + length (gathered (d2 ∷ ds)) =
        length-append d (gathered (d2 ∷ ds)) in
      let next : length d2 ≢ 0 = ks.0 in
      let (b, v, e) =
        append_first (header type m len 0 (length d)) d block len
          (length-header type m len 0 (length d)) h5 (omega arith) in
      rw (take_fragment_first type m len (length d) d block p (omega arith) h1 h2 h3 h4, e)
        (wait_then (fragments type m len (0 + length d) (d2 ∷ ds)) _ v
          (omega (arith, length-append d2 (gathered ds)))
          (ap (λ (o : ℕ). feed (fragments type m len o (d2 ∷ ds)) (to b)) (omega arith)
            ∙ feed_rest type m len (length d) d d2 ds b v k ks (omega arith) h1))
