-- ===== src/Keys.antt =====
-- Cipher suites and key material of dtls.c: is_psk_supported, is_ecdsa_supported, known_cipher and
-- calculate_key_block. What the application's get_psk_info and dtls_ecdh_pre_master_secret give are
-- arguments, like the outcome of each allocation.
pub mod Block
pub mod Ends
use gc2021_pqdtls.Base.{
  ℕ, ◌+◌, ◌%◌, ◌^◌, ◌==◌, if◌then◌else◌, Bool, true, false, not, ◌&&◌, ◌||◌, Option, none, some,
  List, [], ◌∷◌, ◌++◌, take, drop, length,
}
use gc2021_pqdtls.Alert.{Result, ok, err, alert_fatal_create, internal_error}
use gc2021_pqdtls.Hmac.{Hash}
use gc2021_pqdtls.Prf.{prf, psk_pre_master_secret}
use gc2021_pqdtls.Security.{
  Security, Slots, params_next, tls_psk_with_aes_128_ccm_8, tls_ecdhe_ecdsa_with_aes_128_ccm_8,
  max_keyblock_length,
}

abbrev pub random_length : ℕ
random_length = 32

abbrev pub master_secret_length : ℕ
master_secret_length = 48

-- "master secret"
abbrev pub label_master : List ℕ
label_master = 109 ∷ 97 ∷ 115 ∷ 116 ∷ 101 ∷ 114 ∷ 32 ∷ 115 ∷ 101 ∷ 99 ∷ 114 ∷ 101 ∷ 116 ∷ []

-- "key expansion"
abbrev pub label_key : List ℕ
label_key = 107 ∷ 101 ∷ 121 ∷ 32 ∷ 101 ∷ 120 ∷ 112 ∷ 97 ∷ 110 ∷ 115 ∷ 105 ∷ 111 ∷ 110 ∷ []

-- Which callbacks the application has set.
pub record Handler : Type 0 where
  pub get_psk_info : Bool
  pub get_ecdsa_key : Bool
  pub verify_ecdsa_key : Bool

-- is_ecdsa_supported
unfoldable pub is_ecdsa_supported : Handler → Bool → Bool
is_ecdsa_supported c is_client =
    (not is_client && c.get_ecdsa_key) || (is_client && c.verify_ecdsa_key)

-- known_cipher
unfoldable pub known_cipher : Handler → ℕ → Bool → Bool
unfolding is_ecdsa_supported
known_cipher c code is_client =
    (c.get_psk_info && (code == tls_psk_with_aes_128_ccm_8))
    || (is_ecdsa_supported c is_client && (code == tls_ecdhe_ecdsa_with_aes_128_ccm_8))

-- The part of dtls_handshake_parameters_t that the key block is made from. `tmp` is the memory of the
-- union that first holds the random values of client and server, then the master secret.
pub record Handshake : Type 0 where
  pub cipher : ℕ
  pub compression : ℕ
  pub tmp : List ℕ

abbrev pub client_random : Handshake → List ℕ
client_random hs = take random_length hs.tmp

abbrev pub server_random : Handshake → List ℕ
server_random hs = take random_length (drop random_length hs.tmp)

-- `memcpy(handshake->tmp.master_secret, ...)`
abbrev pub with_master : Handshake → List ℕ → Handshake
with_master hs master = record hs { tmp = master ++ drop master_secret_length hs.tmp }

-- Whether the two contexts of one call of dtls_prf can be allocated.
pub record Memory : Type 0 where
  pub got_a : Bool
  pub got_p : Bool

module _ (h : Hash) where
  -- The master secret from a premaster secret.
  unfoldable pub master_of : Memory → Handshake → List ℕ → List ℕ
  master_of m hs pre =
      (prf h m.got_a m.got_p pre (some label_master) (some (client_random hs))
        (some (server_random hs)) master_secret_length).1

  -- The key block from a master secret.
  unfoldable pub key_block_of : Memory → Handshake → List ℕ → List ℕ
  key_block_of m hs master =
      (prf h m.got_a m.got_p master (some label_key) (some (server_random hs))
        (some (client_random hs)) max_keyblock_length).1

abbrev psk_secret : Result (List ℕ) → Result (List ℕ)
psk_secret (err n) = err n
psk_secret (ok psk) = stored (psk_pre_master_secret psk max_keyblock_length)
  where
    stored : Option (List ℕ) → Result (List ℕ)
    stored none = err (alert_fatal_create internal_error)
    stored (some s) = ok s

abbrev ecdh_secret : Option (List ℕ) → Result (List ℕ)
ecdh_secret none = err (alert_fatal_create internal_error)
ecdh_secret (some s) = ok s

-- The switch of calculate_key_block.
unfoldable pub pre_master_secret : ℕ → Result (List ℕ) → Option (List ℕ) → Result (List ℕ)
unfolding psk_pre_master_secret
pre_master_secret cipher psk ecdh =
    if cipher == tls_psk_with_aes_128_ccm_8
    then psk_secret psk
    else if cipher == tls_ecdhe_ecdsa_with_aes_128_ccm_8
    then ecdh_secret ecdh
    else err (alert_fatal_create internal_error)

-- The result of a call, and what it leaves in the handshake and in the slots.
pub record Derived : Type 0 where
  pub result : Result ℕ
  pub handshake : Handshake
  pub slots : Slots

-- calculate_key_block for a peer and a handshake that are not NULL; `none` where the peer has no
-- current parameters. `first` and `second` are about the two calls of dtls_prf.
unfoldable pub calculate_key_block :
    Hash
    → Bool
    → Memory
    → Memory
    → Result (List ℕ)
    → Option (List ℕ)
    → Handshake
    → Slots
    → Option Derived
unfolding params_next
calculate_key_block h allocated first second psk ecdh hs p = with_slots (params_next allocated p)
  where
    filled : Slots → Security → Result (List ℕ) → Derived
    filled q s (err n) = record { result = err n; handshake = hs; slots = q }
    filled q s (ok pre) =
        let master = master_of h first hs pre in
        record {
          result = ok 0;
          handshake = with_master hs master;
          slots = record q {
            slot1 = some (record s {
              cipher = hs.cipher;
              compression = hs.compression;
              rseq = 0;
              key_block = key_block_of h second hs master;
            });
          };
        }

    with_params : Slots → Option Security → Derived
    with_params q none = record {
      result = err (alert_fatal_create internal_error);
      handshake = hs;
      slots = q;
    }
    with_params q (some s) = filled q s (pre_master_secret hs.cipher psk ecdh)

    with_slots : Option Slots → Option Derived
    with_slots none = none
    with_slots (some q) = some (with_params q q.slot1)
