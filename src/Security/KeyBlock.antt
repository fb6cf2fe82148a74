-- ===== src/Security/KeyBlock.antt =====
-- The key block as both ends of a connection read it.
use gc2021_pqdtls.Base.{◌≡◌, refl, length, drop, arith, length-take, length-drop}
use gc2021_pqdtls.Security.{
  Security, Role, client, server, local_write_key, remote_write_key, local_iv, remote_iv,
}

-- The other end of a connection.
abbrev pub opposite : Role → Role
opposite client = server
opposite server = client

-- What one end writes with, the other reads with.
pub remote-local :
    (s : Security) (r : Role)
    → (remote_write_key s (opposite r) ≡ local_write_key s r)
      × (remote_iv s (opposite r) ≡ local_iv s r)
unfolding remote_write_key local_write_key remote_iv local_iv
remote-local s client = (refl, refl)
remote-local s server = (refl, refl)

pub length-local_write_key :
    (s : Security) (r : Role) → length s.key_block ≡ 40 → length (local_write_key s r) ≡ 16
unfolding local_write_key
length-local_write_key s client h = omega (arith, length-take 16 s.key_block)
length-local_write_key s server h =
    omega (arith, length-take 16 (drop 16 s.key_block), length-drop 16 s.key_block)

pub length-local_iv :
    (s : Security) (r : Role) → length s.key_block ≡ 40 → length (local_iv s r) ≡ 4
unfolding local_iv
length-local_iv s client h =
    omega (arith, length-take 4 (drop 32 s.key_block), length-drop 32 s.key_block)
length-local_iv s server h =
    omega (arith, length-take 4 (drop 36 s.key_block), length-drop 36 s.key_block)
