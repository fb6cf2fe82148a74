-- ===== src/Keys/Ends.antt =====
-- From the shared secret to application data: what one end sends under the derived keys, the other
-- end reads.
use gc2021_pqdtls.Base.{
  ℕ, ◌+◌, ◌%◌, ◌^◌, ◌≤◌, ◌<◌, ◌==◌, ==_refl, true, false, Option, none, some, List, length, IsBytes,
  ◌≡◌, refl, sym, ap, ◌∙◌, arith,
}
use gc2021_pqdtls.Alert.{Result, ok}
use gc2021_pqdtls.Hmac.{Hash}
use gc2021_pqdtls.Security.{
  Security, Role, Slots, params, params_epoch, params_switch, params_free_other,
}
use gc2021_pqdtls.Security.KeyBlock.{opposite}
use gc2021_pqdtls.Security.Epochs.{current}
use gc2021_pqdtls.Record.{SetKey, prepare_record, decrypt_verify}
use gc2021_pqdtls.Record.Seal.{IsKeySchedule, concat, decrypt_verify-prepare_record}
use gc2021_pqdtls.Keys.{Handshake, Derived, calculate_key_block}
use gc2021_pqdtls.Keys.Block.{full, negotiated, length-key_block, calculate_key_block-rfc5246}

module _ (h : Hash) (hs : Handshake) (psk : List ℕ) (b : IsBytes psk) where
  slots_of :
      (s : Security) (d : Derived)
      → s.epoch < 65535
      → hs.cipher ≡ 0xC0A8
      → length psk ≤ 16
      → calculate_key_block h true full full (ok psk) none hs (current s none) ≡ some d
      → d.slots ≡ current s (some (negotiated h hs psk b (s.epoch + 1)))
  slots_of s d small c le e =
      let next : (s.epoch + 1) % 2 ^ 16 ≡ s.epoch + 1 = omega arith in
      ap slots (sym e ∙ calculate_key_block-rfc5246 h hs psk b none s none c le)
      ∙ ap (λ (k : ℕ). current s (some (negotiated h hs psk b k))) next
    where
      slots : Option Derived → Slots
      slots none = d.slots
      slots (some x) = x.slots

  switched_epoch :
      (s : Security) (t : Security)
      → s.epoch ≡ t.epoch
      → params_epoch
          (params_switch (current s (some (negotiated h hs psk b (t.epoch + 1)))))
          (t.epoch + 1)
        ≡ some (negotiated h hs psk b (t.epoch + 1))
  unfolding params_epoch params_switch
  switched_epoch s t e = rw (==_refl (t.epoch + 1)) refl

  -- Two ends in the same epoch, below the last one, that derive their key blocks from one key, one
  -- pair of random values and the PSK suite, and switch to them: an encrypted record that either
  -- prepares, of payloads that fit, is read back by the other. The block cipher must take every key
  -- of 16 bytes and write blocks of 16 bytes.
  pub decrypt_verify-calculate_key_block :
      (set_key : SetKey) (schedule : IsKeySchedule set_key) (s t : Security) (ds dt : Derived)
      (r : Role) (type : ℕ) (payload : List (List ℕ)) (rlen : ℕ)
      → s.epoch < 65535
      → t.epoch ≡ s.epoch
      → hs.cipher ≡ 0xC0A8
      → length psk ≤ 16
      → calculate_key_block h true full full (ok psk) none hs (current s none) ≡ some ds
      → calculate_key_block h true full full (ok psk) none hs (current t none) ≡ some dt
      → IsBytes (concat payload)
      → 21 + length (concat payload) ≤ rlen
      → (pkt : List ℕ) × ((prepare_record set_key
            (some r)
            (params (params_switch ds.slots))
            type
            payload
            rlen).0
          ≡ ok pkt)
        × (decrypt_verify set_key (some (opposite r, params_switch dt.slots)) pkt
            ≡ (ok (concat payload), some (params_free_other (params_switch dt.slots))))
  unfolding params params_switch
  decrypt_verify-calculate_key_block set_key schedule s t ds dt r type payload rlen small same c le
        es et bytes fits =
      let slots_s = slots_of s ds small c le es in
      let slots_t =
        slots_of t dt (omega arith) c le et
        ∙ ap (λ (k : ℕ). current t (some (negotiated h hs psk b (k + 1)))) same in
      let mine = negotiated h hs psk b (s.epoch + 1) in
      let on : (mine.cipher == 0) ≡ false = rw c refl in
      let (pkt, sent, read) =
        decrypt_verify-prepare_record set_key schedule mine r type payload rlen
          (params_switch (current t (some mine))) 0 (omega arith) on (length-key_block h hs psk b)
          bytes fits (switched_epoch t s same) in
      (pkt, rw slots_s (ap (λ (x : Result (List ℕ) × Option Security). x.0) sent), rw slots_t read)
