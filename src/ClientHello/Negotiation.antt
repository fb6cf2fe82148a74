-- ===== src/ClientHello/Negotiation.antt =====
-- dtls_update_parameters on an encoded ClientHello.
use mathlib.Core.List.{append_assoc}
use gc2021_pqdtls.Base.{
  ℕ, suc, ◌+◌, ◌-◌, ◌^◌, ◌<◌, ltb, lt→ltb, ltb-false, if◌then◌else◌, true, false, Bool-cases,
  Option-cases, inl, inr, Option, none, some, List, [], ◌∷◌, ◌++◌, length, take, drop, take-append,
  drop-append, length-append, ◌≡◌, refl, ap, sym, ◌∙◌, arith,
}
use gc2021_pqdtls.Numeric.{int_to_uint16, uint8_to_int, uint16_to_int}
use gc2021_pqdtls.Numeric.RoundTrip.{uint16-int_to_uint}
use gc2021_pqdtls.Alert.{Result}
use gc2021_pqdtls.Security.{Security, tls_null_with_null_null}
use gc2021_pqdtls.Cookie.Exchange.{skip_var_field-cons}
use gc2021_pqdtls.Keys.{Handler, Handshake, known_cipher}
use gc2021_pqdtls.Extensions.{read_uint8, extension_error}
use gc2021_pqdtls.Extensions.Offers.{
  uint16s, AllUint16, Extension, AllExtensions, encode, length-uint16s, length-int_to_uint16,
  drop-int_to_uint16, read_uint16-int_to_uint16,
}
use gc2021_pqdtls.Extensions.Parse.{answer, check_tls_extension-answer}
use gc2021_pqdtls.ClientHello.{
  compression_null, cipher_step, cipher_loop, compression_loop, client_random, read_compression,
  read_suites, read_hello, some_config, update_parameters,
}

module _ (c : Handler) where
  -- The first suite that the server knows.
  abbrev pub first_known : List ℕ → Option ℕ
  first_known [] = none
  first_known (x ∷ xs) =
      let rest = first_known xs in if known_cipher c x false then some x else rest

  cipher_step_lem :
      (x : ℕ) (later : Option ℕ)
      → cipher_step c (some x) (some later)
        ≡ some (if known_cipher c x false then some x else later)
  cipher_step_lem x later = elim (Bool-cases (known_cipher c x false)) [
    | inl e ↦ rw e refl
    | inr e ↦ rw e refl
  ]

  cipher_loop-uint16s :
      (codes rest : List ℕ)
      → AllUint16 codes
      → cipher_loop c (length codes + length codes) (uint16s codes ++ rest)
        ≡ some (first_known codes)
  unfolding cipher_loop
  cipher_loop-uint16s [] rest h = refl
  cipher_loop-uint16s (x ∷ codes) rest (h, k) =
      let n = length codes in
      let twice : suc n + suc n ≡ suc (suc (n + n)) = omega arith in
      rw (twice, append_assoc (int_to_uint16 x) (uint16s codes) rest)
        (rw
          (
            drop-int_to_uint16 x (uint16s codes ++ rest),
            read_uint16-int_to_uint16 x (uint16s codes ++ rest) h,
            cipher_loop-uint16s codes rest k,
          )
          (cipher_step_lem x (first_known codes)))

-- A ClientHello as it is meant: the 14 bytes of the header and the version, the random bytes, the
-- session id, the cookie, the suites, and the extensions. Its only compression method is null.
pub record Offer : Type 0 where
  pub start : List ℕ
  pub random : List ℕ
  pub session_id : List ℕ
  pub cookie : List ℕ
  pub suites : List ℕ
  pub extensions : List Extension

pub record IsOffer (m : Offer) : Type 0 where
  pub start_size : length m.start ≡ 14
  pub random_size : length m.random ≡ 32
  pub session_id_size : length m.session_id < 256
  pub cookie_size : length m.cookie < 256
  pub suites_size : length m.suites + length m.suites < 2 ^ 16
  pub suites_small : AllUint16 m.suites
  pub extensions_size : length (encode m.extensions) < 2 ^ 16
  pub extensions_fit : AllExtensions m.extensions

abbrev pub extension_part : Offer → List ℕ
extension_part m = int_to_uint16 (length (encode m.extensions)) ++ encode m.extensions

abbrev pub suite_part : Offer → List ℕ
suite_part m =
    int_to_uint16 (length m.suites + length m.suites)
    ++ (uint16s m.suites ++ (1 ∷ 0 ∷ extension_part m))

abbrev pub field : List ℕ → List ℕ → List ℕ
field xs rest = length xs ∷ (xs ++ rest)

abbrev pub encoded : Offer → List ℕ
encoded m = m.start ++ (m.random ++ field m.session_id (field m.cookie (suite_part m)))

module _ (c : Handler) (state : ℕ) (security : Option Security) where
  -- What the server is to answer and to keep, by the first suite that it knows.
  abbrev pub agreed : Offer → Handshake → Option ℕ → Result ℕ × Handshake
  agreed m config none =
      (extension_error true state, record config { cipher = tls_null_with_null_null })
  agreed m config (some code) = (
    answer code state m.extensions,
    record config { cipher = code; compression = compression_null },
  )

  compression-agreed :
      (m : Offer) (config : Handshake)
      → IsOffer m
      → read_compression c state security
          (1 ∷ 0 ∷ extension_part m)
          (suc (suc (length (extension_part m))))
          config
        ≡ some (
          answer config.cipher state m.extensions,
          record config { compression = compression_null },
        )
  unfolding read_compression compression_loop read_uint8 uint8_to_int
  compression-agreed m config v =
      let part = extension_part m in
      let enc = encode m.extensions in
      let size : length part ≡ length enc + 2 = omega (
        arith,
        length-append (int_to_uint16 (length enc)) enc,
        length-int_to_uint16 (length enc),
      ) in
      let some_left : ltb (suc (suc (length part))) 1 ≡ false = ltb-false _ _ (omega arith) in
      let enough : ltb (suc (suc (length part))) 2 ≡ false = ltb-false _ _ (omega arith) in
      let left : suc (suc (length part)) - 2 ≡ length enc + 2 = omega arith in
      rw
        (
          some_left,
          enough,
          left,
          check_tls_extension-answer config.cipher state m.extensions v.extensions_fit
              v.extensions_size,
        )
        refl

  suites-agreed :
      (m : Offer) (config : Handshake)
      → IsOffer m
      → read_suites c state security (suite_part m) config
        ≡ some (agreed m config (first_known c m.suites))
  unfolding read_suites
  suites-agreed m config v =
      let n = length m.suites + length m.suites in
      let after = 1 ∷ 0 ∷ extension_part m in
      let tail = uint16s m.suites ++ after in
      let size_read : uint16_to_int (int_to_uint16 n ++ tail) ≡ n =
        uint16-int_to_uint n tail ∙ omega (arith, v.suites_size) in
      let size : length (suite_part m) ≡ n + 2 + suc (suc (length (extension_part m))) = omega (
        arith,
        length-append (int_to_uint16 n) tail,
        length-append (uint16s m.suites) after,
        length-int_to_uint16 n,
        length-uint16s m.suites,
      ) in
      let enough : ltb (length (suite_part m)) (n + 2) ≡ false = ltb-false _ _ (omega arith) in
      let left : length (suite_part m) - (2 + n) ≡ suc (suc (length (extension_part m))) =
        omega arith in
      let front = int_to_uint16 n ++ uint16s m.suites in
      let behind : drop (n + 2) (suite_part m) ≡ after =
        ap (drop (n + 2)) (sym (append_assoc (int_to_uint16 n) (uint16s m.suites) after))
        ∙ drop-append (n + 2) front after (
            omega (
              arith,
              length-append (int_to_uint16 n) (uint16s m.suites),
              length-int_to_uint16 n,
              length-uint16s m.suites,
            )) in
      rw
        (
          size_read,
          enough,
          drop-int_to_uint16 n tail,
          cipher_loop-uint16s c m.suites after v.suites_small,
        )
        (elim (Option-cases (first_known c m.suites)) [
          | inl e ↦ rw e refl
          | inr (code, e) ↦
              rw (e, left, behind) (compression-agreed m (record config { cipher = code }) v)
        ])

  -- What is read in front of the suites.
  pub update_parameters-suites :
      (start random session_id cookie tail : List ℕ) (hs : Handshake)
      → length start ≡ 14
      → length random ≡ 32
      → update_parameters c state security true
          (some hs)
          (start ++ (random ++ field session_id (field cookie tail)))
        ≡ some_config c state security
            (read_suites c state security tail (record hs { tmp = random ++ drop 32 hs.tmp }))
  unfolding update_parameters read_hello
  update_parameters-suites start random session_id cookie tail hs start_size random_size =
      let rest = field session_id (field cookie tail) in
      let fields = random ++ rest in
      let msg = start ++ fields in
      let front : length (start ++ random) ≡ 46 =
        omega (arith, start_size, random_size, length-append start random) in
      let long : 46 < length msg =
        omega
          (arith, start_size, random_size, length-append start fields, length-append random rest) in
      let randoms : client_random msg ≡ random =
        ap (take 32) (drop-append 14 start fields start_size)
        ∙ take-append 32 random rest random_size in
      let behind : drop 46 msg ≡ rest =
        ap (drop 46) (sym (append_assoc start random rest))
        ∙ drop-append 46 (start ++ random) rest front in
      rw
        (
          lt→ltb 46 (length msg) long,
          randoms,
          behind,
          skip_var_field-cons session_id (field cookie tail),
          skip_var_field-cons cookie tail,
        )
        refl

  -- A server agrees to the first suite of a ClientHello that it knows, to null compression if that
  -- is the one method offered, and to the hello itself if its extensions are acceptable; it stores
  -- the client's random bytes. Without a known suite it refuses and leaves the null suite.
  pub update_parameters-agreed :
      (m : Offer) (hs : Handshake)
      → IsOffer m
      → let config = record hs { tmp = m.random ++ drop 32 hs.tmp } in
        let (result, config') = agreed m config (first_known c m.suites) in
        update_parameters c state security true (some hs) (encoded m) ≡ some (result, some config')
  update_parameters-agreed m hs v =
      update_parameters-suites m.start m.random m.session_id m.cookie (suite_part m) hs v.start_size
        v.random_size
      ∙ ap (some_config c state security)
          (suites-agreed m (record hs { tmp = m.random ++ drop 32 hs.tmp }) v)
