-- ===== src/Certificate/Read.antt =====
-- What a client reads of a certificate that a server of this library wrote.
use mathlib.Core.List.{append-nil}
use gc2021_pqdtls.Base.{
  ℕ, ltb, ltb-false, true, false, some, List, [], ◌++◌, length, take, drop, take-append,
  drop-append, length-append, ◌≡◌, refl, ap, sym, ◌∙◌, arith,
}
use gc2021_pqdtls.Numeric.{int_to_uint24, uint24_to_int}
use gc2021_pqdtls.Numeric.RoundTrip.{uint24-int_to_uint}
use gc2021_pqdtls.Buffer.{equals}
use gc2021_pqdtls.Buffer.Laws.{equals_iff}
use gc2021_pqdtls.Alert.{Result}
use gc2021_pqdtls.Certificate.{
  PublicKey, cert_asn1_header, certificate_ecdsa, verdict, take_key, check_server_certificate,
}

take-whole : (n : ℕ) (xs : List ℕ) → length xs ≡ n → take n xs ≡ xs
take-whole n xs h = ap (take n) (sym (append-nil xs)) ∙ take-append n xs [] h

module _ (verify_ecdsa_key : List ℕ → List ℕ → Result ℕ) where
  take_key-append :
      (x y : List ℕ)
      → length x ≡ 32
      → length y ≡ 32
      → take_key verify_ecdsa_key (x ++ y)
        ≡ some (
          verdict verify_ecdsa_key (verify_ecdsa_key x y),
          some (record { other_pub_x = x; other_pub_y = y }),
        )
  unfolding take_key
  take_key-append x y h k =
      let size : length (x ++ y) ≡ 64 = omega (arith, length-append x y) in
      let long : ltb (length (x ++ y)) 64 ≡ false = ltb-false _ _ (omega arith) in
      rw (long, take-append 32 x y h, drop-append 32 x y h, take-whole 32 y k) refl

  -- A certificate that a server of this library writes is read back to the key in it, which is
  -- accepted exactly if the application accepts it, with the application's own error otherwise. The
  -- two parts of the key have 32 bytes, and the header of the message is 12 bytes long.
  pub check_server_certificate-certificate_ecdsa :
      (header x y : List ℕ) (key : PublicKey)
      → length header ≡ 12
      → length x ≡ 32
      → length y ≡ 32
      → check_server_certificate verify_ecdsa_key (some key) (header ++ certificate_ecdsa x y)
        ≡ some (
          verdict verify_ecdsa_key (verify_ecdsa_key x y),
          some (record { other_pub_x = x; other_pub_y = y }),
        )
  unfolding check_server_certificate certificate_ecdsa
  check_server_certificate-certificate_ecdsa header x y key h hx hy =
      let size = int_to_uint24 91 in
      let rest = size ++ (cert_asn1_header ++ (x ++ y)) in
      let long : length rest ≡ 94 = unfold int_to_uint24 in omega (arith, length-append x y) in
      let three : ltb (length rest) 3 ≡ false = ltb-false _ _ (omega arith) in
      let thirty : ltb (length rest) 30 ≡ false = ltb-false _ _ (omega arith) in
      let size_read : uint24_to_int rest ≡ 91 =
        uint24-int_to_uint 91 (cert_asn1_header ++ (x ++ y)) in
      let key_bytes : drop 30 rest ≡ x ++ y = unfold int_to_uint24 in refl in
      let behind : drop 3 rest ≡ cert_asn1_header ++ (x ++ y) = unfold int_to_uint24 in refl in
      let same : equals (cert_asn1_header ++ (x ++ y)) cert_asn1_header 27 ≡ true =
        (equals_iff (cert_asn1_header ++ (x ++ y)) cert_asn1_header 27 (omega arith)
            (omega arith)).1
          refl in
      rw
        (
          take-whole 32 x hx,
          take-whole 32 y hy,
          drop-append 12 header rest h,
          three,
          size_read,
          thirty,
          behind,
          same,
          key_bytes,
        )
        (take_key-append x y hx hy)
