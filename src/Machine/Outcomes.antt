-- ===== src/Machine/Outcomes.antt =====
-- What the state machine allows as the outcome of a message, and the lemmas on the functions that the
-- handlers share.
use gc2021_pqdtls.Base.{
  ℕ, ◌==◌, ==_iff, if◌then◌else◌, not, Bool-cases, Option, none, some, ◌≡◌, ◌⊎◌, inl, inr, sym,
  subst, ◌∙◌,
}
use gc2021_pqdtls.Alert.{Result, ok, err}
use gc2021_pqdtls.Security.{Role}
use gc2021_pqdtls.Reorder.{Params, Link}
use gc2021_pqdtls.Machine.{
  Conn, Outcome, Actions, raise, Next, tried, tried_choice, refuse, needs_peer, needs_params,
  unexpected_message,
}
use gc2021_pqdtls.Machine.Steps.{
  Phase, init, code, code-injective, Message, hello_request, client_hello, server_hello,
  hello_verify_request, certificate, server_key_exchange, certificate_request, server_hello_done,
  certificate_verify, client_key_exchange, finished_message, change_cipher_spec, Step,
}

-- The first byte of a message.
abbrev pub type_of : Message → ℕ
type_of hello_request = 0
type_of client_hello = 1
type_of server_hello = 2
type_of hello_verify_request = 3
type_of certificate = 11
type_of server_key_exchange = 12
type_of certificate_request = 13
type_of server_hello_done = 14
type_of certificate_verify = 15
type_of client_key_exchange = 16
type_of finished_message = 20
type_of change_cipher_spec = 256

-- The suite of a connection.
abbrev pub suite : {World : Type 0} → Conn World → ℕ
suite l = l.world.cipher

module _ (World : Type 0) (a : Actions World) (role : Role) where
  -- A message that is handled is a step; one that is refused leaves the phase, but a ClientHello may
  -- leave a new peer.
  abbrev pub Allowed : Phase → ℕ → ℕ → Outcome World → Type 0
  Allowed p s t none = Unit {0}
  Allowed p s t (some (err n, l)) =
      (l.world.state ≡ code p) ⊎ ((t ≡ 1) × (l.world.state ≡ code init))
  Allowed p s t (some (ok r, l)) =
      (m : Message) × ((type_of m ≡ t)
        × ((q : Phase) × ((l.world.state ≡ code q)
              × Step role a.is_ecdsa_client_auth_supported p s m q l.world.cipher)))

  pub guard-Allowed :
      (p q : Phase) (s t : ℕ) (l : Conn World) (next : Outcome World)
      → l.world.state ≡ code p
      → (l.world.state ≡ code q → Allowed q s t next)
      → Allowed p s t (if not (code p == code q) then refuse unexpected_message l else next)
  guard-Allowed p q s t l next h k = elim (Bool-cases (code p == code q)) [
    | inl e ↦
        let same : code p ≡ code q = (==_iff (code p) (code q)).0 e in
        rw e (subst (λ x. Allowed x s t next) (sym (code-injective p q same)) (k (h ∙ same)))
    | inr e ↦ rw e (inl h)
  ]

  -- What a refusal may leave.
  abbrev pub IsKept : Phase → ℕ → ℕ → Type 0
  IsKept p t state = (state ≡ code p) ⊎ ((t ≡ 1) × (state ≡ code init))

  pub tried-IsKept :
      (q : Phase) (s t state cipher : ℕ) (next : Next World) (o : Option (Result ℕ × Link World))
      → IsKept q t state
      → ((r : ℕ) (l : Link World) → Allowed q s t (next r (raise state cipher l)))
      → Allowed q s t (tried state cipher next o)
  tried-IsKept q s t state cipher next none h k = tt
  tried-IsKept q s t state cipher next (some (err n, l)) h k = h
  tried-IsKept q s t state cipher next (some (ok r, l)) h k = k r l

  pub tried-Allowed :
      (q : Phase) (s t state cipher : ℕ) (next : Next World) (o : Option (Result ℕ × Link World))
      → state ≡ code q
      → ((r : ℕ) (l : Link World) → Allowed q s t (next r (raise state cipher l)))
      → Allowed q s t (tried state cipher next o)
  tried-Allowed q s t state cipher next o h = tried-IsKept q s t state cipher next o (inl h)

  pub tried_choice-Allowed :
      (q : Phase) (s t state : ℕ) (next : Next World) (o : Option (Result ℕ × (ℕ × Link World)))
      → IsKept q t state
      → ((r cipher : ℕ) (l : Link World) → Allowed q s t (next r (raise state cipher l)))
      → Allowed q s t (tried_choice state next o)
  tried_choice-Allowed q s t state next none h k = tt
  tried_choice-Allowed q s t state next (some (err n, (cipher, l))) h k = h
  tried_choice-Allowed q s t state next (some (ok r, (cipher, l))) h k = k r cipher l

  pub needs_peer-Allowed :
      (q : Phase) (s t : ℕ) (peer : Option ℕ) (l : Conn World) (next : Outcome World)
      → l.world.state ≡ code q
      → Allowed q s t next
      → Allowed q s t (needs_peer peer l next)
  needs_peer-Allowed q s t none l next h k = inl h
  needs_peer-Allowed q s t (some at) l next h k = k

  pub needs_params-Allowed :
      (q : Phase) (s t : ℕ) (peer : Option ℕ) (params : Option Params) (l : Conn World)
      (next : Outcome World)
      → l.world.state ≡ code q
      → Allowed q s t next
      → Allowed q s t (needs_params peer params l next)
  needs_params-Allowed q s t none params l next h k = inl h
  needs_params-Allowed q s t (some at) none l next h k = inl h
  needs_params-Allowed q s t (some at) (some p) l next h k = k
