-- ===== src/EcKey.antt =====
-- The conversions of elliptic curve numbers in dtls-crypto.c: dtls_ec_key_to_uint32,
-- dtls_ec_key_from_uint32 and dtls_ec_key_from_uint32_asn1. A number is the list of its 32-bit words,
-- the least significant first; `i` counts the words that are left, from key_size / 4 down. The caller
-- gives `key_size` bytes.
pub mod Long
pub mod Numbers
use gc2021_pqdtls.Base.{
  ℕ, zero, suc, ◌*◌, ◌/◌, ◌%◌, ◌^◌, ◌==◌, if◌then◌else◌, Bool, true, false, ◌&&◌, List, [], ◌∷◌,
  ◌++◌, drop, get_or,
}
use gc2021_pqdtls.Numeric.{int_to_uint32, uint32_to_int}

unfoldable pub to_loop : ℕ → List ℕ → List ℕ
to_loop zero key = []
to_loop (suc i) key = uint32_to_int (drop (i * 4) key) ∷ to_loop i key

-- dtls_ec_key_to_uint32
unfoldable pub ec_key_to_uint32 : List ℕ → ℕ → List ℕ
ec_key_to_uint32 key key_size = to_loop (key_size / 4) key

unfoldable pub from_loop : ℕ → List ℕ → List ℕ
from_loop zero key = []
from_loop (suc i) key = int_to_uint32 (get_or key i 0) ++ from_loop i key

-- dtls_ec_key_from_uint32
unfoldable pub ec_key_from_uint32 : List ℕ → ℕ → List ℕ
ec_key_from_uint32 key key_size = from_loop (key_size / 4) key

-- The bytes of one word; the masks are 0x80000000, 0xFF800000, 0xFFFF8000 and 0xFFFFFF80.
unfoldable pub word_bytes : Bool → ℕ → List ℕ
word_bytes first w =
    if first && (w / 2 ^ 31 % 2 == 1)
    then 0 ∷ int_to_uint32 w
    else if first && (w / 2 ^ 23 % 2 ^ 9 == 0)
    then (w / 2 ^ 16 % 2 ^ 8) ∷ (w / 2 ^ 8 % 2 ^ 8) ∷ (w % 2 ^ 8) ∷ []
    else if first && (w / 2 ^ 15 % 2 ^ 17 == 0)
    then (w / 2 ^ 8 % 2 ^ 8) ∷ (w % 2 ^ 8) ∷ []
    else if first && (w / 2 ^ 7 % 2 ^ 25 == 0)
    then (w % 2 ^ 8) ∷ []
    else int_to_uint32 w

-- The loop of dtls_ec_key_from_uint32_asn1; a word that is 0 is skipped wherever it stands.
unfoldable pub asn1_loop : ℕ → Bool → List ℕ → List ℕ
asn1_loop zero first key = []
asn1_loop (suc i) first key =
    let w = get_or key i 0 in
    let skipped = asn1_loop i first key in
    let written = word_bytes first w ++ asn1_loop i false key in if w == 0 then skipped else written

-- dtls_ec_key_from_uint32_asn1: the bytes at `buf`; their number is the result.
unfoldable pub ec_key_from_uint32_asn1 : List ℕ → ℕ → List ℕ
ec_key_from_uint32_asn1 key key_size = asn1_loop (key_size / 4) true key
