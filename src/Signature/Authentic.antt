-- ===== src/Signature/Authentic.antt =====
-- What it takes for a client to accept a ServerKeyExchange.
use gc2021_pqdtls.Base.{
  ℕ, ◌+◌, ltb, ◌||◌, if◌then◌else◌, Bool, true, false, Option, none, some, List, ◌++◌, length, take,
  drop, ◌≡◌, refl, ap, sym, ◌∙◌,
}
use gc2021_pqdtls.Alert.{Result, ok, err, alert_fatal_create, decode_error}
use gc2021_pqdtls.Hmac.{Hash}
use gc2021_pqdtls.Cookie.{hs_length}
use gc2021_pqdtls.EcKey.{ec_key_to_uint32}
use gc2021_pqdtls.Signature.{
  Found, Validate, less, check_ecdsa_signature_elem, ecdsa_verify_sig_hash,
}
use gc2021_pqdtls.Signature.KeyExchange.{
  Exchange, params_length, ecdsa_verify_sig, verify_params, store_point, verdict, verify_found,
  if_curve, check_curve, check_exchange, some_exchange, check_server_key_exchange_ecdsa,
}

module _ (validate : Validate) (h : Hash) where
  -- What the server signs.
  abbrev pub signed_bytes : Exchange h → List ℕ → List ℕ
  signed_bytes config key_params =
      (take 32 config.tmp ++ take 32 (drop 32 config.tmp)) ++ take params_length key_params

  -- The signature r, s is valid for the bytes under the key that the handshake has for the server.
  abbrev pub IsSigned : Exchange h → List ℕ → List ℕ → List ℕ → Type 0
  IsSigned config key_params r s =
      (n : ℕ) × (validate (ec_key_to_uint32 config.other_pub_x 32)
          (ec_key_to_uint32 config.other_pub_y 32)
          (ec_key_to_uint32 (h.finalize (h.update h.init (signed_bytes config key_params))) 32)
          (ec_key_to_uint32 r 32) (ec_key_to_uint32 s 32)
        ≡ ok n)

  -- The places of both numbers of the signature, as they are read behind the parameters.
  abbrev pub places : List ℕ → ℕ → ℕ → Found
  places packet at data_length =
      check_ecdsa_signature_elem packet (at + 12 + 69) (less data_length 69)

  -- The signature in the message is valid for its parameters, which the server signed.
  abbrev pub IsSignedBy : Exchange h → List ℕ → List ℕ → Found → Type 0
  IsSignedBy config packet key_params none = ⊥
  IsSignedBy config packet key_params (some (err n)) = ⊥
  IsSignedBy config packet key_params (some (ok (n, (place_r, place_s)))) =
      IsSigned config key_params (drop place_r packet) (drop place_s packet)

  -- An outcome that accepts the message has the point of the message, and a signature that was found
  -- and is valid.
  abbrev pub Justified :
      Exchange h → List ℕ → List ℕ → Found → Option (Result ℕ × Exchange h) → Type 0
  Justified config packet key_params found none = Unit {0}
  Justified config packet key_params found (some (err n, c)) = Unit {0}
  Justified config packet key_params found (some (ok n, c)) =
      IsSignedBy config packet key_params found
      × ((c.other_eph_pub_x ≡ take 32 (drop 5 key_params))
          × (c.other_eph_pub_y ≡ take 32 (drop 37 key_params)))

  verify_params-IsSigned :
      (config : Exchange h) (key_params r s : List ℕ) (n : ℕ)
      → verify_params validate h config key_params r s ≡ ok n
      → IsSigned config key_params r s
  unfolding verify_params ecdsa_verify_sig ecdsa_verify_sig_hash
  verify_params-IsSigned config key_params r s n e =
      let client = take 32 config.tmp in
      let server = take 32 (drop 32 config.tmp) in
      let params = take params_length key_params in
      let whole : h.update (h.update (h.update h.init client) server) params
          ≡ h.update h.init (signed_bytes config key_params) =
        ap (λ c. h.update c params) (h.update-append h.init client server)
        ∙ h.update-append h.init (client ++ server) params in
      (
        n,
        ap
              (λ c.
                validate (ec_key_to_uint32 config.other_pub_x 32)
                  (ec_key_to_uint32 config.other_pub_y 32) (ec_key_to_uint32 (h.finalize c) 32)
                  (ec_key_to_uint32 r 32) (ec_key_to_uint32 s 32))
              (sym whole)
            ∙ e,
      )

  verdict-Justified :
      (config : Exchange h) (packet key_params : List ℕ) (place_n place_r place_s : ℕ)
      (v : Result ℕ)
      → verify_params validate h
          (store_point validate h config key_params)
          key_params
          (drop place_r packet)
          (drop place_s packet)
        ≡ v
      → Justified config packet key_params
          (some (ok (place_n, (place_r, place_s))))
          (some (verdict validate h v, store_point validate h config key_params))
  unfolding store_point verify_params
  verdict-Justified config packet key_params m place_r place_s (err n) e = tt
  verdict-Justified config packet key_params m place_r place_s (ok n) e = (
    verify_params-IsSigned config key_params (drop place_r packet) (drop place_s packet) n e,
    (refl, refl),
  )

  verify_found-Justified :
      (packet key_params : List ℕ) (config : Exchange h) (found : Found)
      → Justified config packet key_params found (
          verify_found validate h packet key_params
            (store_point validate h config key_params)
            found)
  unfolding verify_found
  verify_found-Justified packet key_params config none = tt
  verify_found-Justified packet key_params config (some (err n)) = tt
  verify_found-Justified packet key_params config (some (ok (n, (place_r, place_s)))) =
      by_room (ltb (length packet) (place_r + 32) || ltb (length packet) (place_s + 32))
    where
      stored : Exchange h
      stored = store_point validate h config key_params

      by_room :
          (outside : Bool)
          → Justified config packet key_params (some (ok (n, (place_r, place_s)))) (
              if outside
              then none
              else some (
                verdict validate h (
                    verify_params validate h stored key_params
                      (drop place_r packet)
                      (drop place_s packet)),
                stored,
              ))
      by_room true = tt
      by_room false = verdict-Justified config packet key_params n place_r place_s _ refl

  check_exchange-Justified :
      (packet : List ℕ) (at data_length : ℕ) (config : Exchange h)
      → Justified config packet
          (drop (at + hs_length) packet)
          (places packet at data_length)
          (check_exchange validate h packet at data_length config)
  unfolding check_exchange
  check_exchange-Justified packet at data_length config = by_length (ltb data_length 155)
    where
      key_params : List ℕ
      key_params = drop (at + hs_length) packet

      found : Found
      found = places packet at data_length

      next : Option (Result ℕ × Exchange h)
      next =
          verify_found validate h packet key_params (store_point validate h config key_params) found

      by_curve :
          (r : Result ℕ)
          → Justified config packet key_params found (if_curve validate h r config next)
      by_curve (err n) = tt
      by_curve (ok r) = verify_found-Justified packet key_params config found

      by_length :
          (short : Bool)
          → Justified config packet key_params found (
              if short
              then some (err (alert_fatal_create decode_error), config)
              else if_curve validate h (check_curve key_params) config next)
      by_length true = tt
      by_length false = by_curve (check_curve key_params)

  -- The same of the handshake parameters of a peer, before and after, for the message at `at`.
  abbrev pub Authentic :
      Option (Exchange h) → List ℕ → ℕ → ℕ → Option (Result ℕ × Option (Exchange h)) → Type 0
  Authentic config packet at data_length none = Unit {0}
  Authentic config packet at data_length (some (err n, c)) = Unit {0}
  Authentic none packet at data_length (some (ok n, c)) = ⊥
  Authentic (some config) packet at data_length (some (ok n, none)) = ⊥
  Authentic (some config) packet at data_length (some (ok n, some c)) =
      Justified config packet (drop (at + hs_length) packet) (places packet at data_length)
        (some (ok n, c))

  -- A client accepts a ServerKeyExchange only if the two numbers of a signature are found behind its
  -- parameters, and this signature is valid, under the public key that the handshake has for the
  -- server, for the hash of both random values and the parameters of the message; the ephemeral point
  -- that it then holds is the one in these parameters.
  pub check_server_key_exchange_ecdsa-Authentic :
      (config : Option (Exchange h)) (packet : List ℕ) (at data_length : ℕ)
      → Authentic config packet at data_length
          (check_server_key_exchange_ecdsa validate h config packet at data_length)
  unfolding check_server_key_exchange_ecdsa
  check_server_key_exchange_ecdsa-Authentic none packet at data_length = tt
  check_server_key_exchange_ecdsa-Authentic (some config) packet at data_length =
      by_outcome (check_exchange validate h packet at data_length hashed)
        (check_exchange-Justified packet at data_length hashed)
    where
      hashed : Exchange h
      hashed = record config {
        hs_hash = h.update config.hs_hash (take data_length (drop at packet));
      }

      moved :
          (found : Found) (n : ℕ) (c : Exchange h)
          → Justified hashed packet (drop (at + hs_length) packet) found (some (ok n, c))
          → Justified config packet (drop (at + hs_length) packet) found (some (ok n, c))
      moved none n c (j, k) = absurd j
      moved (some (err m)) n c (j, k) = absurd j
      moved (some (ok (m, (place_r, place_s)))) n c j = j

      by_outcome :
          (o : Option (Result ℕ × Exchange h))
          → Justified hashed packet (drop (at + hs_length) packet) (places packet at data_length) o
          → Authentic (some config) packet at data_length (some_exchange validate h o)
      by_outcome none j = tt
      by_outcome (some (err n, c)) j = tt
      by_outcome (some (ok n, c)) j = moved (places packet at data_length) n c j
