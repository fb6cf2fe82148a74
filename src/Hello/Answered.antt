-- ===== src/Hello/Answered.antt =====
-- A client that reads the ServerHello of this library.
use mathlib.Core.List.{append_assoc}
use gc2021_pqdtls.Base.{
  ℕ, ◌+◌, ◌^◌, ◌<◌, ltb, ltb-false, ◌==◌, ==_iff, true, false, Bool-cases, inl, inr, some, List, [],
  ◌∷◌, ◌++◌, length, take, drop, take-append, drop-append, length-append, ◌≡◌, refl, ap, sym, ◌∙◌,
  arith,
}
use gc2021_pqdtls.Numeric.{int_to_uint8, int_to_uint16, uint8_to_int, uint16_to_int}
use gc2021_pqdtls.Numeric.RoundTrip.{uint16-int_to_uint}
use gc2021_pqdtls.Alert.{ok}
use gc2021_pqdtls.Security.{tls_null_with_null_null}
use gc2021_pqdtls.Cookie.Exchange.{skip_var_field-cons}
use gc2021_pqdtls.Record.{dtls_version}
use gc2021_pqdtls.Keys.{Handler, known_cipher}
use gc2021_pqdtls.Extensions.{read_uint8}
use gc2021_pqdtls.Extensions.Offers.{
  length-int_to_uint16, drop-int_to_uint16, read_uint16-int_to_uint16,
}
use gc2021_pqdtls.Hello.{
  Answer, server_extensions, server_hello, read_server_hello, check_server_hello,
}

-- What the client keeps: the random bytes of the server, the suite, and the 32 bytes behind the
-- compression method as the nonce.
abbrev pub answered : ℕ → List ℕ → List ℕ → Answer → Answer
answered cipher random behind a = record {
  handshake = record a.handshake {
    cipher = cipher;
    tmp = take 32 a.handshake.tmp ++ random ++ drop 64 a.handshake.tmp;
  };
  nonce = take 32 behind;
}

known-not_null :
    (c : Handler) (cipher : ℕ)
    → known_cipher c cipher true ≡ true
    → (cipher == tls_null_with_null_null) ≡ false
unfolding known_cipher
known-not_null c cipher h = elim (Bool-cases (cipher == tls_null_with_null_null)) [
  | inl e ↦ let zero_cipher : cipher ≡ 0 = (==_iff cipher 0).0 e in absurd (ground arith)
  | inr e ↦ e
]

-- A client accepts the ServerHello of a server of this library with a suite that it knows, and keeps
-- the suite and the random bytes; what it keeps as the nonce of the TESLA request are the 32 bytes
-- behind the compression method, which are the nonce of the server if the suite has no extensions,
-- but begin with the extensions if it is ECDHE.
pub check_server_hello-server_hello :
    (c : Handler) (header random nonce : List ℕ) (cipher : ℕ) (a : Answer)
    → length header ≡ 12
    → length random ≡ 32
    → length nonce ≡ 32
    → cipher < 2 ^ 16
    → known_cipher c cipher true ≡ true
    → check_server_hello c true (header ++ server_hello cipher random nonce) a
      ≡ some (ok 0, answered cipher random (server_extensions cipher ++ nonce) a)
unfolding check_server_hello read_server_hello server_hello read_uint8 uint8_to_int int_to_uint8
check_server_hello-server_hello c header random nonce cipher a h r n small known =
    let ext = server_extensions cipher in
    let version = int_to_uint16 dtls_version in
    let chosen = int_to_uint16 cipher ++ (0 ∷ (ext ++ nonce)) in
    let rest = version ++ (random ++ (0 ∷ chosen)) in
    let not_null = known-not_null c cipher known in
    let size_rest : length rest ≡ 35 + length chosen = omega (
      arith,
      length-append version (random ++ (0 ∷ chosen)),
      length-append random (0 ∷ chosen),
      length-int_to_uint16 dtls_version,
    ) in
    let size_chosen : length chosen ≡ 35 + length ext = omega (
      arith,
      length-append (int_to_uint16 cipher) (0 ∷ (ext ++ nonce)),
      length-append ext nonce,
      length-int_to_uint16 cipher,
    ) in
    let size : length (header ++ rest) ≡ 12 + length rest =
      omega (arith, length-append header rest) in
    let long : ltb (length (header ++ rest)) 24 ≡ false = ltb-false _ _ (omega arith) in
    let long_rest : ltb (length rest) 34 ≡ false = ltb-false _ _ (omega arith) in
    let long_nonce : ltb (length (ext ++ nonce)) 32 ≡ false =
      ltb-false _ _ (omega (arith, length-append ext nonce)) in
    let version_read : uint16_to_int rest ≡ dtls_version =
      uint16-int_to_uint dtls_version (random ++ (0 ∷ chosen)) in
    let front : length (version ++ random) ≡ 34 =
      omega (arith, length-append version random, length-int_to_uint16 dtls_version) in
    let behind : drop 34 rest ≡ 0 ∷ chosen =
      ap (drop 34) (sym (append_assoc version random (0 ∷ chosen)))
      ∙ drop-append 34 (version ++ random) (0 ∷ chosen) front in
    rw
      (
        not_null,
        append_assoc (int_to_uint16 cipher) (0 ∷ []) (ext ++ nonce),
        long,
        drop-append 12 header rest h,
        version_read,
        long_rest,
        behind,
        skip_var_field-cons [] chosen,
        read_uint16-int_to_uint16 cipher (0 ∷ (ext ++ nonce)) small,
        known,
        drop-int_to_uint16 dtls_version (random ++ (0 ∷ chosen)),
        take-append 32 random (0 ∷ chosen) r,
        drop-int_to_uint16 cipher (0 ∷ (ext ++ nonce)),
        long_nonce,
      )
      refl
