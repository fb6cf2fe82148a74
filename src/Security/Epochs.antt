-- ===== src/Security/Epochs.antt =====
-- The two slots over a connection's life: a pending epoch is added, becomes the current one, and
-- the old one is dropped.
use gc2021_pqdtls.Base.{
  ℕ, ◌+◌, ◌%◌, ◌^◌, ◌<◌, ◌≡◌, refl, ltb, ◌==◌, Option, none, some, true, false, arith, replicate,
  ==_refl, lt→ltb, ltb-false,
}
use gc2021_pqdtls.Security.{
  Security, Slots, security_new, params, params_epoch, params_next, params_free_other,
  params_switch,
}

-- What a handshake negotiates into before it fills it in.
abbrev pub fresh : ℕ → Security
fresh e = record { compression = 0; cipher = 0; epoch = e; rseq = 0; key_block = replicate 40 0 }

abbrev pub current : Security → Option Security → Slots
current s t = record { slot0 = some s; slot1 = t }

abbrev pub pending : Security → Slots
pending s = current s (some (fresh ((s.epoch + 1) % 2 ^ 16)))

next_epoch : (n : ℕ) → n < 65535 → (n + 1) % 2 ^ 16 ≡ n + 1
next_epoch n h = omega arith

other_epoch : (n : ℕ) → (n == n + 1) ≡ false
other_epoch n = ground arith

-- A handshake that starts at epoch n, below the last one: both epochs are found while the new one is
-- pending, and freeing the other slot keeps it; after the switch the new parameters are the current
-- ones, and freeing the other slot drops the old epoch, which is then found no more.
pub rekey :
    (s : Security) (t : Option Security)
    → s.epoch < 65535
    → (params_next true (current s t) ≡ some (pending s))
      × (params_epoch (pending s) s.epoch ≡ some s)
      × (params_epoch (pending s) (s.epoch + 1) ≡ some (fresh (s.epoch + 1)))
      × (params_free_other (pending s) ≡ pending s)
      × (params (params_switch (pending s)) ≡ some (fresh (s.epoch + 1)))
      × (params_free_other (params_switch (pending s)) ≡ current (fresh (s.epoch + 1)) none)
      × (params_epoch (params_free_other (params_switch (pending s))) s.epoch ≡ none)
unfolding params_next security_new params_epoch params params_free_other params_switch
rekey s t h =
    let e = next_epoch s.epoch h in
    let up : ltb s.epoch (s.epoch + 1) ≡ true = lt→ltb s.epoch (s.epoch + 1) (omega arith) in
    let down : ltb (s.epoch + 1) s.epoch ≡ false = ltb-false (s.epoch + 1) s.epoch (omega arith) in
    let differ : (s.epoch + 1 == s.epoch) ≡ false = ground arith in
    (
      ground arith,
      rw (==_refl s.epoch) refl,
      rw (e, other_epoch s.epoch, ==_refl (s.epoch + 1)) refl,
      rw (e, up) refl,
      rw e refl,
      rw (e, down) refl,
      rw (e, down, differ) refl,
    )

-- In the last epoch the next one is numbered 0, so that freeing the other slot, which a valid record
-- brings about, drops the parameters that the handshake is still negotiating.
pub free_other-last_epoch :
    (s : Security) (t : Option Security)
    → s.epoch ≡ 65535
    → (params_next true (current s t) ≡ some (pending s))
      × (params_free_other (pending s) ≡ current s none)
unfolding params_next security_new params_free_other
free_other-last_epoch s t h =
    let wrap : (s.epoch + 1) % 2 ^ 16 ≡ 0 = omega arith in
    let down : ltb s.epoch 0 ≡ false = ltb-false s.epoch 0 (omega arith) in
    (ground arith, rw (wrap, down) refl)
