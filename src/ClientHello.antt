-- ===== src/ClientHello.antt =====
-- dtls_update_parameters of dtls.c: what a server takes from a ClientHello. The message comes with its
-- handshake header; `none` is a failed assertion, or a read behind the message that the code acts on.
pub mod Negotiation
use gc2021_pqdtls.Base.{
  ℕ, zero, suc, ◌+◌, ◌-◌, ltb, ◌==◌, if◌then◌else◌, Bool, true, false, Option, none, some, List, [],
  ◌∷◌, ◌++◌, length, take, drop,
}
use gc2021_pqdtls.Numeric.{uint8_to_int, uint16_to_int}
use gc2021_pqdtls.Alert.{Result, ok, err, alert_fatal_create, internal_error}
use gc2021_pqdtls.Security.{Security, tls_null_with_null_null}
use gc2021_pqdtls.Cookie.{hs_length, ch_length, skip_var_field}
use gc2021_pqdtls.Keys.{Handler, Handshake, known_cipher}
use gc2021_pqdtls.Extensions.{read_uint8, read_uint16, extension_error, check_tls_extension}

-- TLS_COMPRESSION_NULL, the one entry of compression_methods
abbrev pub compression_null : ℕ
compression_null = 0

module _ (c : Handler) where
  abbrev pub cipher_step : Option ℕ → Option (Option ℕ) → Option (Option ℕ)
  cipher_step none later = none
  cipher_step (some code) later = if known_cipher c code false then some (some code) else later

  -- The loop over the suites once `i` has become negative: only a known suite ends it.
  unfoldable pub cipher_overrun : List ℕ → Option (Option ℕ)
  cipher_overrun [] = none
  cipher_overrun (a ∷ []) = none
  cipher_overrun (a ∷ b ∷ rest) =
      cipher_step (some (uint16_to_int (a ∷ b ∷ rest))) (cipher_overrun rest)

  -- The loop over the suites: the first that is known. An odd `i` goes from 1 to -1.
  unfoldable pub cipher_loop : ℕ → List ℕ → Option (Option ℕ)
  cipher_loop zero rest = some none
  cipher_loop (suc zero) rest = cipher_overrun rest
  cipher_loop (suc (suc i)) rest = cipher_step (read_uint16 rest) (cipher_loop i (drop 2 rest))

-- The loop over the compression methods: where `data` stands behind the one that is known.
unfoldable pub compression_loop : ℕ → List ℕ → Option (Option (List ℕ))
compression_loop zero rest = some none
compression_loop (suc i) rest = step (read_uint8 rest) (compression_loop i (drop 1 rest))
  where
    step : Option ℕ → Option (Option (List ℕ)) → Option (Option (List ℕ))
    step none later = none
    step (some m) later = if m == compression_null then some (some (drop 1 rest)) else later

abbrev pub client_random : List ℕ → List ℕ
client_random msg = take 32 (drop (hs_length + 2) msg)

module _ (c : Handler) (state : ℕ) (security : Option Security) where
  abbrev pub Outcome : Type 0
  Outcome = Option (Result ℕ × Handshake)

  abbrev pub failed : Handshake → Outcome
  failed config = some (extension_error true state, config)

  -- No suites: a renegotiation keeps what the peer has.
  unfoldable pub keep_suite : Handshake → Outcome
  keep_suite config = kept security
    where
      kept : Option Security → Outcome
      kept none = failed config
      kept (some s) =
          if s.cipher == tls_null_with_null_null
          then failed config
          else some (ok 0, record config { cipher = s.cipher; compression = s.compression })

  abbrev pub own_compression : Option Security → ℕ
  own_compression none = compression_null
  own_compression (some s) = s.compression

  abbrev pub with_result : Handshake → Option (Result ℕ) → Outcome
  with_result config none = none
  with_result config (some r) = some (r, config)

  -- The part from the compression methods on; `rest` starts at their length.
  unfoldable pub read_compression : List ℕ → ℕ → Handshake → Outcome
  read_compression rest data_length config =
      let i = uint8_to_int rest in
      if ltb data_length 1
      then some (ok 0, record config { compression = own_compression security })
      else if ltb data_length (i + 1)
      then failed config
      else searched (data_length - (1 + i)) (compression_loop i (drop 1 rest))
    where
      searched : ℕ → Option (Option (List ℕ)) → Outcome
      searched left none = none
      searched left (some none) = failed config
      searched left (some (some behind)) =
          let config' = record config { compression = compression_null } in
          with_result config' (check_tls_extension (some config'.cipher) state behind left true)

  -- The part from the cipher suites on.
  unfoldable pub read_suites : List ℕ → Handshake → Outcome
  read_suites rest config =
      let i = uint16_to_int rest in
      if ltb (length rest) (i + 2)
      then keep_suite config
      else searched i (cipher_loop c i (drop 2 rest))
    where
      searched : ℕ → Option (Option ℕ) → Outcome
      searched i none = none
      searched i (some none) = failed (record config { cipher = tls_null_with_null_null })
      searched i (some (some code)) =
          read_compression (drop (i + 2) rest) (length rest - (2 + i))
            (record config { cipher = code })

  abbrev pub behind : Option (List ℕ) → Handshake → (List ℕ → Outcome) → Outcome
  behind none config next = failed config
  behind (some rest) config next = next rest

  -- The part behind the client's random bytes.
  unfoldable pub read_hello : List ℕ → Handshake → Outcome
  read_hello msg config =
      behind (skip_var_field (drop (hs_length + ch_length) msg)) config
        (λ rest. behind (skip_var_field rest) config (λ suites. read_suites suites config))

  abbrev pub some_config : Outcome → Option (Result ℕ × Option Handshake)
  some_config none = none
  some_config (some (r, config)) = some (r, some config)

  -- dtls_update_parameters: its result and the handshake parameters, `none` for NULL.
  unfoldable pub update_parameters :
      Bool → Option Handshake → List ℕ → Option (Result ℕ × Option Handshake)
  update_parameters false config msg = some (err (alert_fatal_create internal_error), config)
  update_parameters true none msg = some (extension_error true state, none)
  update_parameters true (some hs) msg =
      if ltb (hs_length + ch_length) (length msg)
      then some_config (read_hello msg (record hs { tmp = client_random msg ++ drop 32 hs.tmp }))
      else none
