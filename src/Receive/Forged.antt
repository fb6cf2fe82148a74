-- ===== src/Receive/Forged.antt =====
-- Records that are not opened, and the end of the loop over the records.
use gc2021_pqdtls.Base.{
  ℕ, zero, suc, ◌≤◌, ltb, ◌==◌, false, Bool-cases, Option, none, some, List, [], ◌∷◌, length, take,
  drop, length-drop, ◌≡◌, ◌⊎◌, inl, inr, refl, sym, ap, arith,
}
use mathlib.Core.Option.{some-injective}
use gc2021_pqdtls.Numeric.{uint16_to_int}
use gc2021_pqdtls.Alert.{Result, ok, err, alert_fatal_create}
use gc2021_pqdtls.Security.{Security, Role, Slots, tls_null_with_null_null, params_epoch}
use gc2021_pqdtls.Session.{Session}
use gc2021_pqdtls.Peers.{Peer, deref, put, get_peer}
use gc2021_pqdtls.Record.{SetKey, is_record, decrypt_verify, verified, freed, rh_length, unseal}
use gc2021_pqdtls.Engine.{Context}
use gc2021_pqdtls.Receive.{
  decrypt_error, hs_attempt, Turn, next, return, Payload, refuse_record, open_record, one_record,
  records, address, handle_message,
}

put_back : (heap : List Peer) (p : Peer) → deref heap p.addr ≡ some p → put heap p ≡ heap
unfolding deref put
put_back [] p h = refl
put_back (q ∷ heap) p h = elim (Bool-cases (q.addr == p.addr)) [
  | inl e ↦ rw e (ap (λ x. x ∷ heap) (sym (some-injective q p (rw e at h))))
  | inr e ↦ rw e (ap (λ xs. q ∷ xs) (put_back heap p (rw e at h)))
]

freed-err :
    (p : Slots) (o : Result (List ℕ)) (n : ℕ) → (freed p o).0 ≡ err n → freed p o ≡ (err n, p)
freed-err p (err m) n h = ap (λ r. (r, p)) h
freed-err p (ok out) n h = absurd (ground arith)

verified-err :
    (set_key : SetKey) (role : Role) (p : Slots) (s : Option Security) (packet : List ℕ) (n : ℕ)
    → (verified set_key role p s packet).0 ≡ err n
    → verified set_key role p s packet ≡ (err n, p)
unfolding verified
verified-err set_key role p none packet n h = ap (λ r. (r, p)) h
verified-err set_key role p (some s) packet n h =
    elim (Bool-cases (s.cipher == tls_null_with_null_null)) [
      | inl e ↦ elim (Bool-cases (ltb (length packet) rh_length)) [
        | inl f ↦ rw (e, f) (ap (λ r. (r, p)) (rw (e, f) at h))
        | inr f ↦
            let clash : ok (drop rh_length packet) ≡ err n = rw (e, f) at h in absurd (ground arith)
      ]
      | inr e ↦
          rw e (freed-err p (unseal set_key role s packet (drop rh_length packet)) n (rw e at h))
    ]

-- The record at the start of a datagram, and what the peer makes of it.
abbrev pub opens : SetKey → Peer → List ℕ → Result (List ℕ)
opens set_key p msg = (decrypt_verify set_key (some (p.role, p.slots)) (take (is_record msg) msg)).0

module _ (set_key : SetKey) (write : List ℕ → Result ℕ) (ticks : ℕ → ℕ)
    (on_ccs : Option ℕ → List ℕ → Context → Option (Result ℕ × Context))
    (on_handshake : Option ℕ → Session → Payload → Context → Option (Result ℕ × Context))
    (on_data : ℕ → List ℕ → Context → Option Context) where
  open_record-forged :
      (p : Peer) (session : Session) (packet msg : List ℕ) (c : Context) (n : ℕ)
      → deref c.heap p.addr ≡ some p
      → p.state ≡ 12
      → (decrypt_verify set_key (some (p.role, p.slots)) packet).0 ≡ err n
      → hs_attempt msg p ≡ some false
      → open_record set_key write ticks on_ccs on_handshake on_data p session packet msg c
        ≡ some (return (err (alert_fatal_create decrypt_error)) c)
  unfolding open_record decrypt_verify refuse_record
  open_record-forged p session packet msg c n d s e a =
      let failed =
        verified-err set_key p.role p.slots (params_epoch p.slots (uint16_to_int (drop 3 packet)))
          packet n e in
      rw (failed, a, put_back c.heap p d, s) refl

  -- A record that a connected peer cannot open, and that does not start a handshake, is refused with
  -- the rest of its datagram, and changes nothing: not the peer, its keys and its queue, nor any other
  -- connection.
  pub handle_message-forged :
      (session : Session) (msg : List ℕ) (c : Context) (p : Peer) (n : ℕ)
      → get_peer c.heap c.peers session ≡ some p
      → deref c.heap p.addr ≡ some p
      → p.state ≡ 12
      → (is_record msg == 0) ≡ false
      → opens set_key p msg ≡ err n
      → hs_attempt msg p ≡ some false
      → handle_message set_key write ticks on_ccs on_handshake on_data session msg c
        ≡ some (err (alert_fatal_create decrypt_error), c)
  unfolding handle_message records one_record is_record
  handle_message-forged session [] c p n g d s r e a = absurd (ground arith)
  handle_message-forged session (b ∷ rest) c p n g d s r e a =
      let msg = b ∷ rest in
      rw (g, r, d, open_record-forged p session (take (is_record msg) msg) msg c n d s e a) refl

is_record-bounds :
    (msg : List ℕ)
    → (is_record msg == 0) ≡ false
    → (13 ≤ is_record msg) × (is_record msg ≤ length msg)
unfolding is_record
is_record-bounds msg h = ground arith

module _ (set_key : SetKey) (write : List ℕ → Result ℕ) (ticks : ℕ → ℕ)
    (on_ccs : Option ℕ → List ℕ → Context → Option (Result ℕ × Context))
    (on_handshake : Option ℕ → Session → Payload → Context → Option (Result ℕ × Context))
    (on_data : ℕ → List ℕ → Context → Option Context) where
  abbrev pub Returns : Option (Result ℕ × Context) → Type 0
  Returns o = (r : Result ℕ) × ((c : Context) × (o ≡ some (r, c)))

  -- The handling of one of the records of a datagram faults: of the first, or of a later one in the
  -- context that those before it leave.
  pub data Faulted (peer : Option ℕ) (session : Session) : List ℕ → Context → Type 0 where
    here :
        {msg : List ℕ} {c : Context}
        → (is_record msg == 0) ≡ false
        → one_record set_key write ticks on_ccs on_handshake on_data peer session
            (take (is_record msg) msg)
            msg
            c
          ≡ none
        → Faulted peer session msg c
    later :
        {msg : List ℕ} {c c' : Context}
        → (is_record msg == 0) ≡ false
        → one_record set_key write ticks on_ccs on_handshake on_data peer session
            (take (is_record msg) msg)
            msg
            c
          ≡ some (next c')
        → Faulted peer session (drop (is_record msg) msg) c'
        → Faulted peer session msg c

  Turn-cases :
      (o : Option Turn)
      → (o ≡ none)
        ⊎ (((c : Context) × (o ≡ some (next c)))
            ⊎ ((r : Result ℕ) × ((c : Context) × (o ≡ some (return r c)))))
  Turn-cases none = inl refl
  Turn-cases (some (next c)) = inr (inl (c, refl))
  Turn-cases (some (return r c)) = inr (inr (r, (c, refl)))

  records-Returns :
      (fuel : ℕ) (peer : Option ℕ) (session : Session) (msg : List ℕ) (c : Context)
      → length msg ≤ fuel
      → Returns (records set_key write ticks on_ccs on_handshake on_data fuel peer session msg c)
        ⊎ Faulted peer session msg c
  unfolding records
  records-Returns zero peer session [] c h = inl (ok 0, (c, unfold is_record in refl))
  records-Returns zero peer session (b ∷ msg) c h = absurd (omega arith)
  records-Returns (suc fuel) peer session msg c h = elim (Bool-cases (is_record msg == 0)) [
    | inl e ↦ inl (rw e (ok 0, (c, refl)))
    | inr e ↦
        let (long, short) = is_record-bounds msg e in
        elim (Turn-cases (
          one_record set_key write ticks on_ccs on_handshake on_data peer session
            (take (is_record msg) msg) msg c)) [
              | inl f ↦ inr (here e f)
              | inr (inl (c', f)) ↦
                  elim (records-Returns fuel peer session (drop (is_record msg) msg) c'
                    (omega (arith, length-drop (is_record msg) msg))) [
                      | inl done ↦ inl (rw (e, f) done)
                      | inr fault ↦ inr (later e f fault)
                    ]
              | inr (inr (r, (c', f))) ↦ inl (rw (e, f) (r, (c', refl)))
            ]
  ]

  -- Whatever the bytes of a datagram and the handlers of its records, dtls_handle_message returns,
  -- unless the handling of one of the records uses memory that is not allocated: the loop ends, since
  -- each record takes at least the 13 bytes of its header off the datagram.
  pub handle_message-Returns :
      (session : Session) (msg : List ℕ) (c : Context)
      → Returns (handle_message set_key write ticks on_ccs on_handshake on_data session msg c)
        ⊎ Faulted
            (address set_key write ticks on_ccs on_handshake on_data
              (get_peer c.heap c.peers session))
            session
            msg
            c
  unfolding handle_message
  handle_message-Returns session msg c = records-Returns (length msg) _ session msg c (omega arith)
