-- ===== src/Fragments/Pieces.antt =====
-- dtls_send_handshake_msg_hash against a cut of the message that is made beforehand.
use gc2021_pqdtls.Base.{
  ℕ, zero, suc, ◌+◌, ◌-◌, ◌*◌, ◌/◌, ◌%◌, ◌<◌, ◌≤◌, min, ltb, lt→ltb, ltb-false, ltb→lt,
  ltb-false→le, ◌==◌, if◌then◌else◌, Bool, true, false, not, ◌&&◌, Bool-cases, inl, inr, Option,
  some, List, [], ◌∷◌, ◌++◌, length, take, drop, length-drop, take-all, ◌≡◌, refl, ap, ◌∙◌, arith,
  ==_iff,
}
use gc2021_pqdtls.Alert.{Result, ok}
use gc2021_pqdtls.Hmac.{Hash}
use gc2021_pqdtls.Security.{Security, Role}
use gc2021_pqdtls.Session.{Session}
use gc2021_pqdtls.Record.{SetKey}
use gc2021_pqdtls.Engine.{Context, send_multi, ct_handshake}
use gc2021_pqdtls.Fragments.{
  max_hs_payload, next_mseq, set_handshake_header, add_result, Sender, update_hs_hash, hash_message,
  send_fragment, send_loop, send_handshake_msg_hash,
}

-- The header of a fragment.
abbrev pub header : ℕ → ℕ → ℕ → ℕ → ℕ → List ℕ
header type mseq len offset frag_length =
    (set_handshake_header type (some mseq) len offset frag_length false).0

-- The message cut at every multiple of the payload size: offsets, lengths and bytes.
unfoldable pub pieces : ℕ → ℕ → List ℕ → List (ℕ × (ℕ × List ℕ))
pieces zero offset d = []
pieces (suc fuel) offset d =
    let rest = pieces fuel (offset + max_hs_payload) (drop max_hs_payload d) in
    if ltb (length d) max_hs_payload
    then (offset, (length d, d)) ∷ []
    else (offset, (max_hs_payload, take max_hs_payload d))
      ∷ (if length d == max_hs_payload then [] else rest)

pub pieces_last :
    (fuel offset : ℕ) (d : List ℕ)
    → length d < max_hs_payload
    → pieces (suc fuel) offset d ≡ (offset, (length d, d)) ∷ []
unfolding pieces
pieces_last fuel offset d small = rw (lt→ltb (length d) max_hs_payload small) refl

pub pieces_full :
    (fuel offset : ℕ) (d : List ℕ)
    → length d ≡ max_hs_payload
    → pieces (suc fuel) offset d ≡ (offset, (max_hs_payload, take max_hs_payload d)) ∷ []
unfolding pieces
pieces_full fuel offset d size = rw size refl

pub pieces_more :
    (fuel offset : ℕ) (d : List ℕ)
    → max_hs_payload < length d
    → pieces (suc fuel) offset d
      ≡ (offset, (max_hs_payload, take max_hs_payload d))
        ∷ pieces fuel (offset + max_hs_payload) (drop max_hs_payload d)
unfolding pieces
pieces_more fuel offset d big =
    let more : (length d == max_hs_payload) ≡ false = ground arith in
    rw (ltb-false (length d) max_hs_payload (omega arith), more) refl

-- A message that fills its last fragment.
abbrev pub is_full : ℕ → Bool
is_full n = ltb 0 n && (n % max_hs_payload == 0)

min_left : {n : ℕ} → n < max_hs_payload → min n max_hs_payload ≡ n
min_left small = omega arith

min_right : {n : ℕ} → max_hs_payload ≤ n → min n max_hs_payload ≡ max_hs_payload
min_right big = omega arith

some_left_more :
    {n : ℕ} → max_hs_payload ≤ n → (n == max_hs_payload) ≡ false → (n - max_hs_payload == 0) ≡ false
some_left_more big f = ground arith

more_than : {n : ℕ} → max_hs_payload ≤ n → (n == max_hs_payload) ≡ false → max_hs_payload < n
more_than big f = ground arith

is_full_small : {n : ℕ} → n < max_hs_payload → is_full n ≡ false
is_full_small small = ground arith

is_full_more : {n : ℕ} → max_hs_payload < n → is_full (n - max_hs_payload) ≡ is_full n
is_full_more {n} big =
    let same : (n - max_hs_payload) % max_hs_payload ≡ n % max_hs_payload = omega arith in
    rw (same, lt→ltb 0 n (omega arith), lt→ltb 0 (n - max_hs_payload) (omega arith)) refl

module _ (h : Hash) (set_key : SetKey) (write : List ℕ → Result ℕ) (ticks : ℕ → ℕ) where
  -- The pieces sent one after the other by dtls_send_multi.
  abbrev pub send_pieces :
      (ℕ → Option ℕ)
      → Option (ℕ × Role)
      → Session
      → (ℕ → ℕ → List ℕ)
      → List (ℕ × (ℕ × List ℕ))
      → Result ℕ
      → Option Security
      → Context
      → Result ℕ × (Option Security × Context)
  send_pieces alloc peer session header_at [] ret security c = (ret, (security, c))
  send_pieces alloc peer session header_at ((offset, (n, d)) ∷ ps) ret security c =
      let (result, (security', c')) =
        send_multi set_key write ticks (alloc offset) peer security session ct_handshake
          (header_at offset n ∷ d ∷ []) c in
      send_pieces alloc peer session header_at ps (add_result ret result) security' c'

  abbrev pub finished :
      ℕ → ℕ → h.Ctx → Result ℕ × (Option Security × Context) → Option (Result ℕ × Sender h)
  finished mseq_s mseq_r hash (ret, (security, c)) = some (
    ret,
    record {
      hs = some (record { mseq_s = mseq_s; mseq_r = mseq_r; hs_hash = hash });
      security = security;
      context = c;
    },
  )

  module _ (alloc : ℕ → Option ℕ) (peer : Option (ℕ × Role)) (session : Session)
      (type len : ℕ) where
    send_loop-pieces :
        (fuel n : ℕ) (d : List ℕ) (ret : Result ℕ) (m r : ℕ) (x : h.Ctx)
        (security : Option Security) (c : Context)
        → length d ≡ n
        → n < fuel * max_hs_payload
        → n ≤ len
        → send_loop h set_key write ticks fuel alloc peer session type len n (some d) ret (record {
          hs = some (record { mseq_s = m; mseq_r = r; hs_hash = x });
          security = security;
          context = c;
        })
          ≡ finished (next_mseq (not (is_full n)) m) r x (
              send_pieces alloc peer session
                (header type m len)
                (pieces fuel (len - n) d)
                ret
                security
                c)
    unfolding send_loop send_fragment set_handshake_header
    send_loop-pieces zero n d ret m r x security c h0 h1 h2 = absurd (omega arith)
    send_loop-pieces (suc fuel) n d ret m r x security c h0 h1 h2 =
        elim (Bool-cases (ltb n max_hs_payload)) [
          | inl e ↦
              let small : n < max_hs_payload = ltb→lt n max_hs_payload e in
              rw
                (
                  pieces_last fuel (len - n) d (omega arith),
                  h0,
                  e,
                  take-all n d (omega arith),
                  min_left small,
                  is_full_small small,
                )
                refl
          | inr e ↦
              let big : max_hs_payload ≤ n = ltb-false→le n max_hs_payload e in
              let left : length (drop max_hs_payload d) ≡ n - max_hs_payload =
                length-drop max_hs_payload d ∙ omega arith in
              elim (Bool-cases (n == max_hs_payload)) [
                | inl f ↦
                    let size : n ≡ max_hs_payload = (==_iff n max_hs_payload).0 f in
                    let none_left : (n - max_hs_payload == 0) ≡ true = ground arith in
                    let full : is_full n ≡ true = ap is_full size in
                    rw
                      (
                        pieces_full fuel (len - n) d (omega arith),
                        e,
                        min_right big,
                        none_left,
                        full,
                      )
                      refl
                | inr f ↦
                    let some_left : (n - max_hs_payload == 0) ≡ false = some_left_more big f in
                    let more : max_hs_payload < n = more_than big f in
                    let next : len - (n - max_hs_payload) ≡ len - n + max_hs_payload =
                      omega arith in
                    rw (pieces_more fuel (len - n) d (omega arith), e, min_right big, some_left)
                      (send_loop-pieces fuel (n - max_hs_payload) (drop max_hs_payload d) _ m r x _
                          _ left (omega arith) (omega arith)
                        ∙ rw (is_full_more more, next) refl)
              ]
        ]

    -- A message is sent as its pieces, in order, each behind a header with its offset. The handshake
    -- hash is that of the whole message behind its header. The sequence number goes up by one, unless
    -- the message is not empty and fills its last fragment: then it stays.
    pub send_handshake_msg_hash-pieces :
        (d : List ℕ) (m r : ℕ) (x : h.Ctx) (security : Option Security) (c : Context)
        → length d ≡ len
        → send_handshake_msg_hash h set_key write ticks alloc peer session type
            (some d)
            true
            (record {
              hs = some (record { mseq_s = m; mseq_r = r; hs_hash = x });
              security = security;
              context = c;
            })
          ≡ finished
              (next_mseq (not (is_full len)) m)
              r
              (h.update x (header type m len 0 len ++ d))
              (send_pieces alloc peer session
                (header type m len)
                (pieces (len / max_hs_payload + 1) 0 d)
                (ok 0)
                security
                c)
    unfolding send_handshake_msg_hash hash_message update_hs_hash
    send_handshake_msg_hash-pieces d m r x security c size =
        rw (size, h.update-append x (header type m len 0 len) d)
          (send_loop-pieces (len / max_hs_payload + 1) len d (ok 0) m r _ security c size
              (omega arith) (omega arith)
            ∙ ap
                (λ (o : ℕ).
                  finished (next_mseq (not (is_full len)) m) r
                    (h.update x (header type m len 0 len ++ d))
                    (send_pieces alloc peer session (header type m len)
                      (pieces (len / max_hs_payload + 1) o d) (ok 0) security c))
                (omega arith))
