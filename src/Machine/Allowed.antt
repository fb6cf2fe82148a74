-- ===== src/Machine/Allowed.antt =====
-- Each message moves a connection by a step of the state machine.
use gc2021_pqdtls.Base.{
  ℕ, ◌==◌, ==_iff, ltb, if◌then◌else◌, not, ◌&&◌, Bool, true, false, Bool-cases, Option, none, some,
  List, ◌≡◌, inl, inr, refl, sym, subst, ◌∙◌, arith,
}
use gc2021_pqdtls.Numeric.{byte_at}
use gc2021_pqdtls.Security.{Role}
use gc2021_pqdtls.Reorder.{Params, Link, message_seq}
use gc2021_pqdtls.Machine.{Conn, Outcome, Actions, lower, raise, try, if_peer, is_ecdhe}
use gc2021_pqdtls.Machine.{has_peer}
use gc2021_pqdtls.Machine.Switch.{
  greeted, answer_hello, started, accept_hello, verified, on_client_hello, on_hello_request,
  ensure_peer, ensure_params, made_peer, made_params, without_peer, dispatch, handle_handshake_msg,
  by_peer, stopped,
}
use gc2021_pqdtls.Machine.Steps.{
  Phase, wait_clientcertificate, wait_clientkeyexchange, clienthello, connected, code, greets,
  is_connected, code-injective, hello_request, client_hello, challenge, accept_signed, accept,
  ignore, start_over,
}
use gc2021_pqdtls.Machine.Outcomes.{
  suite, Allowed, IsKept, tried-IsKept, tried-Allowed, tried_choice-Allowed, needs_peer-Allowed,
}
use gc2021_pqdtls.Machine.Answers.Allowed.{
  on_hello_verify_request-Allowed, on_server_hello-Allowed, on_server_hello_done-Allowed,
  on_certificate_request-Allowed, on_certificate_verify-Allowed, on_client_key_exchange-Allowed,
  certificate_at, on_server_key_exchange-Allowed, on_finished-Allowed,
}

module _ (World : Type 0) (a : Actions World) (role : Role) where
  greeted-Allowed :
      (p : Phase) (s r : ℕ) (l : Conn World)
      → greets p ≡ true
      → Allowed World a role p s 1 (greeted World a r l)
  unfolding code
  greeted-Allowed p s r l g = elim (Bool-cases (is_ecdhe l && a.is_ecdsa_client_auth_supported)) [
    | inl e ↦ rw e (client_hello, (refl, (wait_clientcertificate, (refl, accept_signed g e))))
    | inr e ↦ rw e (client_hello, (refl, (wait_clientkeyexchange, (refl, accept g e))))
  ]

  answer_hello-Allowed :
      (p : Phase) (msg : List ℕ) (s r : ℕ) (l : Conn World)
      → greets p ≡ true
      → IsKept World a role p 1 l.world.state
      → Allowed World a role p s 1 (answer_hello World a msg r l)
  answer_hello-Allowed p msg s r l g f =
      tried-IsKept World a role p s 1 l.world.state l.world.cipher (greeted World a) _ f
        (λ r2 l2. greeted-Allowed p s r2 (raise l.world.state l.world.cipher l2) g)

  accept_hello-Allowed :
      (p : Phase) (msg : List ℕ) (s : ℕ) (l : Conn World)
      → greets p ≡ true
      → IsKept World a role p 1 l.world.state
      → Allowed World a role p s 1 (accept_hello World a msg l)
  unfolding accept_hello
  accept_hello-Allowed p msg s l g f =
      tried_choice-Allowed World a role p s 1 l.world.state (answer_hello World a msg) _ f
        (λ r cipher l2. answer_hello-Allowed p msg s r (raise l.world.state cipher l2) g f)

  ensure_params-Allowed :
      (q : Phase) (s t : ℕ) (params : Option Params) (mseq_r mseq_s : ℕ) (l : Conn World)
      (next : Conn World → Outcome World)
      → IsKept World a role q t l.world.state
      → ((l' : Conn World) → l'.world.state ≡ l.world.state → Allowed World a role q s t (next l'))
      → Allowed World a role q s t (ensure_params World a params mseq_r mseq_s l next)
  ensure_params-Allowed q s t none mseq_r mseq_s l next f k =
      made (a.handshake_new mseq_s l.world.world)
    where
      made : (o : Bool × World) → Allowed World a role q s t (made_params World a mseq_r l next o)
      made (false, w) = f
      made (true, w) = k _ refl
  ensure_params-Allowed q s t (some p) mseq_r mseq_s l next f k = k l refl

  ensure_peer-Allowed :
      (p : Phase) (s : ℕ) (peer : Option ℕ) (l : Conn World) (next : Conn World → Outcome World)
      → IsKept World a role p 1 l.world.state
      → ((l' : Conn World)
          → IsKept World a role p 1 l'.world.state
          → Allowed World a role p s 1 (next l'))
      → Allowed World a role p s 1 (ensure_peer World a peer l next)
  unfolding code
  ensure_peer-Allowed p s none l next f k = made (a.new_peer l.world.world)
    where
      made : (o : Option ℕ × World) → Allowed World a role p s 1 (made_peer World a l next o)
      made (none, w) = f
      made (some at, w) = k _ (inr (refl, refl))
  ensure_peer-Allowed p s (some at) l next f k = k l f

  pub verified-Allowed :
      (p : Phase) (state : ℕ) (msg : List ℕ) (s r : ℕ) (l : Conn World)
      → greets p ≡ true
      → s ≡ l.world.cipher
      → l.world.state ≡ code p
      → Allowed World a role p s 1 (verified World a state msg r l)
  verified-Allowed p state msg s r l g e h = elim (Bool-cases (ltb 0 r)) [
    | inl b ↦ rw b (client_hello, (refl, (p, (h, rw e (challenge g)))))
    | inr b ↦ rw b (elim (Bool-cases (has_peer l && (state == 1))) [
      | inl c ↦ rw c (from (without_peer World a l) h)
      | inr c ↦ rw c (from l h)
    ])
  ]
    where
      from :
          (l2 : Conn World)
          → l2.world.state ≡ code p
          → Allowed World a role p s 1 (
              ensure_peer World a l2.peer l2 (λ l'.
                ensure_params World a l'.params (message_seq msg) 1 l' (accept_hello World a msg)))
      from l2 h2 = ensure_peer-Allowed p s l2.peer l2 _ (inl h2) (λ l' f.
          ensure_params-Allowed p s 1 l'.params (message_seq msg) 1 l' (accept_hello World a msg) f
            (λ l3 e3. accept_hello-Allowed p msg s l3 g (rw e3 f)))

  greets_of :
      (p : Phase) (b : Bool)
      → (not (code p == 1) && not (b && (code p == 12))) ≡ false
      → greets p ≡ true
  unfolding code
  greets_of p b h = ground arith

  on_client_hello-Allowed :
      (p : Phase) (msg : List ℕ) (l : Conn World)
      → l.world.state ≡ code p
      → Allowed World a role p (suite l) 1 (on_client_hello World a (code p) msg l)
  unfolding on_client_hello
  on_client_hello-Allowed p msg l h =
      elim (Bool-cases (not (code p == 1) && not (has_peer l && (code p == 12)))) [
        | inl b ↦ rw b (inl h)
        | inr b ↦ rw b (
            tried-Allowed World a role p (suite l) 1 l.world.state (suite l)
              (verified World a (code p) msg) (a.verify_peer (code p) msg (lower l)) h
              (λ r l'.
                verified-Allowed p (code p) msg (suite l) r (raise l.world.state (suite l) l')
                  (greets_of p _ b) refl h))
      ]

  not_connected : (p : Phase) → (code p == 12) ≡ false → is_connected p ≡ false
  unfolding code
  not_connected p h = ground arith

  abbrev restarted : Conn World → Outcome World
  restarted l =
      if_peer l
        (ensure_params World a l.params 0 0 l (λ l'. try a.send_client_hello l' (started World a)))

  start_over-Allowed :
      (l : Conn World)
      → l.world.state ≡ code connected
      → Allowed World a role connected (suite l) 0 (restarted l)
  unfolding code
  start_over-Allowed l k = needs_peer-Allowed World a role connected (suite l) 0 l.peer l _ k (
      ensure_params-Allowed connected (suite l) 0 l.params 0 0 l
        (λ l'. try a.send_client_hello l' (started World a)) (inl k)
        (λ l' e.
          tried-Allowed World a role connected (suite l) 0 l'.world.state l'.world.cipher
            (started World a) (a.send_client_hello (lower l')) (e ∙ k)
            (λ r l2. (hello_request, (refl, (clienthello, (refl, start_over)))))))

  on_hello_request-Allowed :
      (p : Phase) (l : Conn World)
      → l.world.state ≡ code p
      → Allowed World a role p (suite l) 0 (on_hello_request World a (code p) l)
  unfolding on_hello_request code
  on_hello_request-Allowed p l h = elim (Bool-cases (code p == 12)) [
    | inl b ↦
        let same : code p ≡ code connected = (==_iff (code p) 12).0 b in
        rw b (
          subst (λ x. Allowed World a role x (suite l) 0 (restarted l))
            (sym (code-injective p connected same)) (start_over-Allowed l (h ∙ same)))
    | inr b ↦ rw b (hello_request, (refl, (p, (h, ignore (not_connected p b)))))
  ]

  -- Of the types in the order of the switch, the first that equals `t`.
  by_type :
      (p : Phase) (s t n : ℕ) (here later : Outcome World)
      → (t ≡ n → Allowed World a role p s t here)
      → Allowed World a role p s t later
      → Allowed World a role p s t (if t == n then here else later)
  by_type p s t n here later h k = elim (Bool-cases (t == n)) [
    | inl e ↦ rw e (h ((==_iff t n).0 e))
    | inr e ↦ rw e k
  ]

  dispatch-Allowed :
      (p : Phase) (msg : List ℕ) (l : Conn World)
      → l.world.state ≡ code p
      → Allowed World a role p (suite l) (byte_at msg 0) (dispatch World a role (code p) msg l)
  unfolding dispatch
  dispatch-Allowed p msg l h =
      let t = byte_at msg 0 in
      by_type p (suite l) t 3 _ _
        (λ e. rw e (on_hello_verify_request-Allowed World a role p msg l h))
        (by_type p (suite l) t 2 _ _ (λ e. rw e (on_server_hello-Allowed World a role p msg l h))
          (by_type p (suite l) t 11 _ _
            (λ e. rw e (certificate_at World a role role p msg l refl h))
            (by_type p (suite l) t 12 _ _
              (λ e. rw e (on_server_key_exchange-Allowed World a role p msg l h))
              (by_type p (suite l) t 14 _ _
                (λ e. rw e (on_server_hello_done-Allowed World a role p msg l h))
                (by_type p (suite l) t 13 _ _
                  (λ e. rw e (on_certificate_request-Allowed World a role p msg l h))
                  (by_type p (suite l) t 20 _ _
                    (λ e. rw e (on_finished-Allowed World a role p msg l h))
                    (by_type p (suite l) t 16 _ _
                      (λ e. rw e (on_client_key_exchange-Allowed World a role p msg l h))
                      (by_type p (suite l) t 15 _ _
                        (λ e. rw e (on_certificate_verify-Allowed World a role p msg l h))
                        (by_type p (suite l) t 1 _ _ (λ e. rw e (on_client_hello-Allowed p msg l h))
                          (by_type p (suite l) t 0 _ _ (λ e. rw e (on_hello_request-Allowed p l h))
                            (inl h)))))))))))

  -- Whatever the message and the phase of the connection, a message that is handled moves it by a
  -- step of the state machine; one that is refused leaves it where it was, except that a ClientHello
  -- may leave a new peer.
  pub handle_handshake_msg-Allowed :
      (p : Phase) (msg : List ℕ) (l : Conn World)
      → l.world.state ≡ code p
      → Allowed World a role p l.world.cipher
          (byte_at msg 0)
          (handle_handshake_msg World a role (code p) msg l)
  unfolding handle_handshake_msg
  handle_handshake_msg-Allowed p msg l h = at l.peer
    where
      behind :
          (o : Option (Link World))
          → Allowed World a role p (suite l) (byte_at msg 0) (stopped World a role (code p) msg l o)
      behind none = tt
      behind (some l') = dispatch-Allowed p msg (raise l.world.state l.world.cipher l') h

      at :
          (peer : Option ℕ)
          → Allowed World a role p
              (suite l)
              (byte_at msg 0)
              (by_peer World a role (code p) msg l peer)
      at none = dispatch-Allowed p msg l h
      at (some addr) = behind (a.stop_retransmission (lower l))
