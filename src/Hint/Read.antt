-- ===== src/Hint/Read.antt =====
-- The hint of a server at a client, and which messages a client takes.
use mathlib.Core.List.{append-nil}
use gc2021_pqdtls.Base.{
  ℕ, ◌+◌, ◌-◌, ◌≤◌, ltb, ltb-false, ==_refl, false, some, List, [], ◌++◌, length, take, take-append,
  drop-append, length-append, ◌≡◌, refl, ap, sym, ◌∙◌, arith,
}
use gc2021_pqdtls.Numeric.{int_to_uint16, uint16_to_int}
use gc2021_pqdtls.Numeric.RoundTrip.{uint16-int_to_uint}
use gc2021_pqdtls.Extensions.Offers.{length-int_to_uint16, drop-int_to_uint16}
use gc2021_pqdtls.Alert.{ok}
use gc2021_pqdtls.Hint.{server_key_exchange_psk, check_server_key_exchange_psk}

-- A hint of at most 32 bytes, as a server writes it behind a header of 12 bytes, is what the client
-- stores.
pub check_server_key_exchange_psk-server_key_exchange_psk :
    (header hint identity : List ℕ)
    → length header ≡ 12
    → length hint ≤ 32
    → (body : List ℕ) × (server_key_exchange_psk hint ≡ ok body)
      × (check_server_key_exchange_psk (some identity) (header ++ body) ≡ (ok 0, some hint))
unfolding server_key_exchange_psk check_server_key_exchange_psk
check_server_key_exchange_psk-server_key_exchange_psk header hint identity h small =
    let body = int_to_uint16 (length hint) ++ hint in
    let short : ltb 32 (length hint) ≡ false = ltb-false 32 (length hint) (omega arith) in
    let size_body : length body ≡ 2 + length hint = omega (
      arith,
      length-append (int_to_uint16 (length hint)) hint,
      length-int_to_uint16 (length hint),
    ) in
    let size : length (header ++ body) ≡ 14 + length hint =
      omega (arith, length-append header body) in
    let long : ltb (length (header ++ body)) 14 ≡ false = ltb-false _ _ (omega arith) in
    let len_read : uint16_to_int body ≡ length hint =
      uint16-int_to_uint (length hint) hint ∙ omega arith in
    let left : length (header ++ body) - 12 - 2 ≡ length hint = omega arith in
    let whole : take (length hint) hint ≡ hint =
      ap (take (length hint)) (sym (append-nil hint)) ∙ take-append (length hint) hint [] refl in
    (
      body,
      rw short refl,
      rw
          (
            long,
            drop-append 12 header body h,
            len_read,
            left,
            ==_refl (length hint),
            short,
            drop-int_to_uint16 (length hint) hint,
            whole,
          )
          refl,
    )
