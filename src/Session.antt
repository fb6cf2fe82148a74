-- ===== src/Session.antt =====
-- Transport addresses of the POSIX port: session_t and dtls_session_equals of
-- posix/dtls-support.c. `address` is the bytes of sin_addr or of sin6_addr.
pub mod Laws
use gc2021_pqdtls.Base.{
  ℕ, ◌==◌, if◌then◌else◌, Bool, true, false, not, ◌&&◌, ◌||◌, List, [], ◌∷◌, take,
}

abbrev pub af_inet : ℕ
af_inet = 2

abbrev pub af_inet6 : ℕ
af_inet6 = 10

pub record Session : Type 0 where
  pub size : ℕ
  pub family : ℕ
  pub port : ℕ
  pub address : List ℕ
  pub ifindex : ℕ

-- memcmp(a, b, n) == 0
unfoldable pub same_bytes : List ℕ → List ℕ → Bool
same_bytes [] [] = true
same_bytes [] (y ∷ ys) = false
same_bytes (x ∷ xs) [] = false
same_bytes (x ∷ xs) (y ∷ ys) = let rest = same_bytes xs ys in if x == y then rest else false

-- dtls_session_equals
unfoldable pub session_equals : Session → Session → Bool
unfolding same_bytes
session_equals a b =
    if not (a.ifindex == b.ifindex) || (not (a.size == b.size) || not (a.family == b.family))
    then false
    else if a.family == af_inet
    then (a.port == b.port) && same_bytes (take 4 a.address) (take 4 b.address)
    else if a.family == af_inet6
    then (a.port == b.port) && same_bytes (take 16 a.address) (take 16 b.address)
    else false
