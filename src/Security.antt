-- ===== src/Security.antt =====
-- The security parameters of a peer: dtls_security_parameters_t and dtls_security_new of
-- dtls-crypto, and the two slots of dtls-peer.h. A slot is the object that its pointer leads to, or
-- `none` for NULL.
pub mod Epochs
pub mod KeyBlock
use gc2021_pqdtls.Base.{
  ℕ, ◌+◌, ◌%◌, ◌^◌, ltb, ◌==◌, if◌then◌else◌, Option, none, some, Bool, List, replicate, take, drop,
}

-- dtls_cipher_t
abbrev pub tls_null_with_null_null : ℕ
tls_null_with_null_null = 0x0000

abbrev pub tls_psk_with_aes_128_ccm_8 : ℕ
tls_psk_with_aes_128_ccm_8 = 0xC0A8

abbrev pub tls_ecdhe_ecdsa_with_aes_128_ccm_8 : ℕ
tls_ecdhe_ecdsa_with_aes_128_ccm_8 = 0xC0AE

abbrev pub max_keyblock_length : ℕ
max_keyblock_length = 40

pub record Security : Type 0 where
  pub compression : ℕ
  pub cipher : ℕ
  pub epoch : ℕ
  pub rseq : ℕ
  pub key_block : List ℕ

pub data Role : Type 0 where
  client server : Role

pub record Slots : Type 0 where
  pub slot0 : Option Security
  pub slot1 : Option Security

-- dtls_security_new, NULL where the allocation fails.
unfoldable pub security_new : Bool → Option Security
security_new allocated =
    if allocated
    then some (record {
      compression = 0;
      cipher = tls_null_with_null_null;
      epoch = 0;
      rseq = 0;
      key_block = replicate max_keyblock_length 0;
    })
    else none

abbrev has_epoch : Option Security → ℕ → Option Security
has_epoch none e = none
has_epoch (some s) e = if s.epoch == e then some s else none

abbrev or_else : Option Security → Option Security → Option Security
or_else none t = t
or_else (some s) t = some s

-- dtls_security_params_epoch
unfoldable pub params_epoch : Slots → ℕ → Option Security
params_epoch p e = or_else (has_epoch p.slot0 e) (has_epoch p.slot1 e)

-- dtls_security_params
unfoldable pub params : Slots → Option Security
params p = p.slot0

abbrev next_from : Option Security → Option Security → Option Slots
next_from none none = some (record { slot0 = none; slot1 = none })
next_from none (some new) = none
next_from (some s) none = some (record { slot0 = some s; slot1 = none })
next_from (some s) (some new) =
    some (record { slot0 = some s; slot1 = some (record new { epoch = (s.epoch + 1) % 2 ^ 16 }) })

-- dtls_security_params_next: what was in the second slot is freed, and a new object takes its place.
-- `none` is the read through security_params[0] where that is NULL; the result of the C function is
-- the new second slot.
unfoldable pub params_next : Bool → Slots → Option Slots
unfolding security_new
params_next allocated p = next_from p.slot0 (security_new allocated)

abbrev free_other_of : Option Security → Option Security → Slots
free_other_of (some s) (some t) =
    if ltb s.epoch t.epoch
    then record { slot0 = some s; slot1 = some t }
    else record { slot0 = some s; slot1 = none }
free_other_of s t = record { slot0 = s; slot1 = t }

-- dtls_security_params_free_other
unfoldable pub params_free_other : Slots → Slots
params_free_other p = free_other_of p.slot0 p.slot1

-- dtls_security_params_switch
unfoldable pub params_switch : Slots → Slots
params_switch p = record { slot0 = p.slot1; slot1 = p.slot0 }

-- The dtls_kb_ macros: no MAC secrets, two write keys of 16 bytes, two IVs of 4.
abbrev pub key_length : ℕ
key_length = 16

abbrev pub iv_length : ℕ
iv_length = 4

abbrev pub client_write_key : Security → List ℕ
client_write_key s = take key_length s.key_block

abbrev pub server_write_key : Security → List ℕ
server_write_key s = take key_length (drop 16 s.key_block)

abbrev pub client_iv : Security → List ℕ
client_iv s = take iv_length (drop 32 s.key_block)

abbrev pub server_iv : Security → List ℕ
server_iv s = take iv_length (drop 36 s.key_block)

unfoldable pub local_write_key : Security → Role → List ℕ
local_write_key s client = client_write_key s
local_write_key s server = server_write_key s

unfoldable pub remote_write_key : Security → Role → List ℕ
remote_write_key s server = client_write_key s
remote_write_key s client = server_write_key s

unfoldable pub local_iv : Security → Role → List ℕ
local_iv s client = client_iv s
local_iv s server = server_iv s

unfoldable pub remote_iv : Security → Role → List ℕ
remote_iv s server = client_iv s
remote_iv s client = server_iv s
