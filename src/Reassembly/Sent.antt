-- ===== src/Reassembly/Sent.antt =====
-- Both ends of a fragmented message: what dtls_send_handshake_msg_hash cuts, handle_handshake puts
-- together.
use gc2021_pqdtls.Base.{
  ℕ, zero, suc, ◌+◌, ◌-◌, ◌*◌, ◌/◌, ◌<◌, ◌≤◌, ltb, ltb→lt, ltb-false→le, ◌==◌, ==_iff, Bool, true,
  false, Bool-cases, inl, inr, Option, some, List, [], ◌∷◌, ◌++◌, length, take, drop, length-take,
  length-drop, take-append-drop, take-all, length-append, map, ◌≡◌, ◌≢◌, refl, ap, sym, subst, ◌∙◌,
  arith,
}
use mathlib.Core.List.{append-nil}
use gc2021_pqdtls.Engine.{gathered, max_buf}
use gc2021_pqdtls.Fragments.{max_hs_payload}
use gc2021_pqdtls.Fragments.Pieces.{header, pieces, pieces_last, pieces_full, pieces_more}
use gc2021_pqdtls.Reassembly.{Pointer, dangling}
use gc2021_pqdtls.Reassembly.Complete.{fragments, answers, NonEmpty, feed, feed-fragments}

-- The pieces as they go out, each behind its header.
abbrev pub payloads : ℕ → ℕ → ℕ → List (ℕ × (ℕ × List ℕ)) → List (List ℕ)
payloads type m len ps = map (λ (p : ℕ × (ℕ × List ℕ)). header type m len p.0 p.1.0 ++ p.1.1) ps

-- The pieces are the fragments of a cut of the message into non-empty chunks.
record Cut (type m len offset : ℕ) (ps : List (ℕ × (ℕ × List ℕ))) (d : List ℕ) : Type 0 where
  first : List ℕ
  others : List (List ℕ)
  short : length first ≤ max_hs_payload
  non_empty : NonEmpty (first ∷ others)
  whole : gathered (first ∷ others) ≡ d
  number : length ps ≡ suc (length others)
  same : payloads type m len ps ≡ fragments type m len offset (first ∷ others)

Cut-one :
    (type m len offset n : ℕ) (d e : List ℕ)
    → length d ≢ 0
    → length d ≡ n
    → n ≤ max_hs_payload
    → e ≡ d
    → Cut type m len offset ((offset, (n, d)) ∷ []) e
Cut-one type m len offset n d e h1 h2 h3 h4 = record {
  first = d;
  others = [];
  short = omega arith;
  non_empty = (h1, tt);
  whole = append-nil d ∙ sym h4;
  number = refl;
  same = rw h2 refl;
}

more_than : {n : ℕ} → max_hs_payload ≤ n → (n == max_hs_payload) ≡ false → max_hs_payload < n
more_than big f = ground arith

cut :
    (type m len fuel offset : ℕ) (d : List ℕ)
    → length d ≢ 0
    → length d < fuel * max_hs_payload
    → Cut type m len offset (pieces fuel offset d) d
cut type m len zero offset d h1 h2 = absurd (omega arith)
cut type m len (suc fuel) offset d h1 h2 = elim (Bool-cases (ltb (length d) max_hs_payload)) [
  | inl e ↦
      let small : length d < max_hs_payload = ltb→lt (length d) max_hs_payload e in
      rw (pieces_last fuel offset d small)
        (Cut-one type m len offset (length d) d d h1 refl (omega arith) refl)
  | inr e ↦
      let big : max_hs_payload ≤ length d = ltb-false→le (length d) max_hs_payload e in
      let size : length (take max_hs_payload d) ≡ max_hs_payload =
        length-take max_hs_payload d ∙ omega arith in
      elim (Bool-cases (length d == max_hs_payload)) [
        | inl f ↦
            let exact : length d ≡ max_hs_payload = (==_iff (length d) max_hs_payload).0 f in
            rw (pieces_full fuel offset d exact) (
              Cut-one type m len offset max_hs_payload (take max_hs_payload d) d (omega arith) size
                (omega arith) (sym (take-all max_hs_payload d (omega arith))))
        | inr f ↦
            let left : length (drop max_hs_payload d) ≡ length d - max_hs_payload =
              length-drop max_hs_payload d in
            let more : max_hs_payload < length d = more_than big f in
            let v : Cut type m len (offset + max_hs_payload)
                (pieces fuel (offset + max_hs_payload) (drop max_hs_payload d))
                (drop max_hs_payload d) =
              cut type m len fuel (offset + max_hs_payload) (drop max_hs_payload d) (omega arith)
                (omega arith) in
            rw (pieces_more fuel offset d more) (record {
              first = take max_hs_payload d;
              others = v.first ∷ v.others;
              short = omega arith;
              non_empty = (omega arith, v.non_empty);
              whole = rw v.whole (take-append-drop max_hs_payload d);
              number = ap suc v.number;
              same = rw (size, v.same) refl;
            })
      ]
]

module _ (struct : Bool) (malloc : ℕ → Option (List ℕ)) where
  from_chunks :
      (type m : ℕ) (d : List ℕ) (ds : List (List ℕ)) (p : Pointer) (block : List ℕ)
      → let len = length (gathered (d ∷ ds)) in
        length d ≤ max_hs_payload
        → NonEmpty (d ∷ ds)
        → max_hs_payload < len
        → len ≤ max_buf
        → p ≢ dangling
        → struct ≡ true
        → malloc (len + 12) ≡ some block
        → length block ≡ len + 12
        → feed struct malloc (fragments type m len 0 (d ∷ ds)) p
          ≡ some (answers (length ds) (header type m len 0 len ++ gathered (d ∷ ds)))
  from_chunks type m d [] p block h k h0 h1 h2 h3 h4 h5 = absurd (omega (arith, length-append d []))
  from_chunks type m d (d2 ∷ ds) p block h k h0 h1 h2 h3 h4 h5 =
      feed-fragments struct malloc type m d d2 ds p block k h1 h2 h3 h4 h5

  reassembled :
      (type m : ℕ) (d : List ℕ) (p : Pointer) (block : List ℕ) (ps : List (ℕ × (ℕ × List ℕ)))
      → Cut type m (length d) 0 ps d
      → max_hs_payload < length d
      → length d ≤ max_buf
      → p ≢ dangling
      → struct ≡ true
      → malloc (length d + 12) ≡ some block
      → length block ≡ length d + 12
      → feed struct malloc (payloads type m (length d) ps) p
        ≡ some (answers (length ps - 1) (header type m (length d) 0 (length d) ++ d))
  reassembled type m d p block ps v h0 h1 h2 h3 h4 h5 =
      let size : length (gathered (v.first ∷ v.others)) ≡ length d = ap length v.whole in
      let fits : malloc (length (gathered (v.first ∷ v.others)) + 12) ≡ some block = rw size h4 in
      let count : length ps - 1 ≡ length v.others = omega (arith, v.number) in
      rw (count, v.same)
        (subst
          (λ (e : List ℕ).
            feed struct malloc (fragments type m (length e) 0 (v.first ∷ v.others)) p
            ≡ some (answers (length v.others) (header type m (length e) 0 (length e) ++ e)))
          v.whole
          (from_chunks type m v.first v.others p block v.short v.non_empty (omega arith)
            (omega arith) h2 h3 fits (omega arith)))

  -- What was sent for a message that is longer than one fragment and fits in the largest packet is
  -- put together again: the receiver waits for every piece but the last, and then has the message
  -- behind its header as if it came unfragmented, whatever buffer was left before. The allocations
  -- succeed.
  pub feed-pieces :
      (type m : ℕ) (d : List ℕ) (p : Pointer) (block : List ℕ)
      → max_hs_payload < length d
      → length d ≤ max_buf
      → p ≢ dangling
      → struct ≡ true
      → malloc (length d + 12) ≡ some block
      → length block ≡ length d + 12
      → let ps = pieces (length d / max_hs_payload + 1) 0 d in
        feed struct malloc (payloads type m (length d) ps) p
        ≡ some (answers (length ps - 1) (header type m (length d) 0 (length d) ++ d))
  feed-pieces type m d p block h0 h1 h2 h3 h4 h5 =
      let fuel = length d / max_hs_payload + 1 in
      reassembled type m d p block (pieces fuel 0 d)
        (cut type m (length d) fuel 0 d (omega arith) (omega arith)) h0 h1 h2 h3 h4 h5
