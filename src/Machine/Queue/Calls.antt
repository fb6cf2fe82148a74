-- ===== src/Machine/Queue/Calls.antt =====
-- handle_handshake_msg and the buffered messages: what its calls leave, and the functions that the
-- cases share.
use gc2021_pqdtls.Base.{
  ℕ, if◌then◌else◌, Bool, true, false, Option, none, some, List, ◌≡◌, refl, sym, subst, inl,
}
use gc2021_pqdtls.Alert.{Result, ok, err}
use gc2021_pqdtls.Reorder.{Params, Link}
use gc2021_pqdtls.Reorder.Drain.{QueueKept}
use gc2021_pqdtls.Machine.{
  try, try_choose, Conn, Outcome, Next, Actions, lower, raise, tried, tried_choice, count, counted,
  refuse, needs_peer, needs_params,
}

-- What a call leaves if it succeeds: the parameters as they were.
abbrev pub Still : {World : Type 0} → Option Params → Option (Result ℕ × Link World) → Type 0
Still p none = Unit {0}
Still p (some (err n, l)) = Unit {0}
Still p (some (ok r, l)) = l.params ≡ p

abbrev pub StillChosen :
    {World : Type 0} → Option Params → Option (Result ℕ × (ℕ × Link World)) → Type 0
StillChosen p none = Unit {0}
StillChosen p (some (err n, c)) = Unit {0}
StillChosen p (some (ok r, (cipher, l))) = l.params ≡ p

abbrev pub StillThere : {World : Type 0} → Option Params → Option (Link World) → Type 0
StillThere p none = Unit {0}
StillThere p (some l) = l.params ≡ p

-- What a message leaves if it is handled.
abbrev pub OkKept : {World : Type 0} → Option Params → Outcome World → Type 0
OkKept b none = Unit {0}
OkKept b (some (err n, l)) = Unit {0}
OkKept b (some (ok r, l)) = QueueKept b l.params

pub counted-kept :
    (b : Option Params) (at : Option ℕ) (after : Option Params)
    → QueueKept b after
    → QueueKept b (counted at after)
counted-kept b none none k = k
counted-kept b (some n) none k = k
counted-kept b none (some p) k = k
counted-kept none (some n) (some p) k = k
counted-kept (some q) (some n) (some p) k = k

pub same_kept : (b : Option Params) → QueueKept b b
same_kept none = tt
same_kept (some p) = inl refl

module _ (World : Type 0) (b : Option Params) where
  count_kept : (r : ℕ) (l : Conn World) → QueueKept b l.params → OkKept b (count r l)
  count_kept r l k = counted-kept b l.peer l.params k

  pub guard_kept :
      (c : Bool) (alert : ℕ) (l : Conn World) (next : Outcome World)
      → OkKept b next
      → OkKept b (if c then refuse alert l else next)
  guard_kept true alert l next k = tt
  guard_kept false alert l next k = k

  pub choice_kept :
      (c : Bool) (first later : Outcome World)
      → OkKept b first
      → OkKept b later
      → OkKept b (if c then first else later)
  choice_kept true first later h k = h
  choice_kept false first later h k = k

  pub needs_peer_kept :
      (at : Option ℕ) (l : Conn World) (next : Outcome World)
      → OkKept b next
      → OkKept b (needs_peer at l next)
  needs_peer_kept none l next k = tt
  needs_peer_kept (some n) l next k = k

  pub needs_params_kept :
      (at : Option ℕ) (p : Option Params) (l : Conn World) (next : Outcome World)
      → OkKept b next
      → OkKept b (needs_params at p l next)
  needs_params_kept none p l next k = tt
  needs_params_kept (some n) none l next k = tt
  needs_params_kept (some n) (some p) l next k = k

  tried_kept :
      (state cipher : ℕ) (next : Next World) (p : Option Params)
      (o : Option (Result ℕ × Link World))
      → Still p o
      → QueueKept b p
      → ((r : ℕ) (l : Link World) → QueueKept b l.params → OkKept b (next r (raise state cipher l)))
      → OkKept b (tried state cipher next o)
  tried_kept state cipher next p none s k f = tt
  tried_kept state cipher next p (some (err n, l)) s k f = tt
  tried_kept state cipher next p (some (ok r, l)) s k f = f r l (subst (QueueKept b) (sym s) k)

  -- The handler on a result calls this for the rest.
  abbrev pub Goes : Next World → Type 0
  Goes next = (r : ℕ) (l : Conn World) → QueueKept b l.params → OkKept b (next r l)

  pub try_kept :
      (act : Link World → Option (Result ℕ × Link World)) (l : Conn World) (next : Next World)
      → Still l.params (act (lower l))
      → QueueKept b l.params
      → Goes next
      → OkKept b (try act l next)
  try_kept act l next s k f =
      tried_kept l.world.state l.world.cipher next l.params (act (lower l)) s k
        (λ r l'. f r (raise l.world.state l.world.cipher l'))

  tried_choice_kept :
      (state : ℕ) (next : Next World) (p : Option Params) (o : Option (Result ℕ × (ℕ × Link World)))
      → StillChosen p o
      → QueueKept b p
      → ((r cipher : ℕ) (l : Link World)
          → QueueKept b l.params
          → OkKept b (next r (raise state cipher l)))
      → OkKept b (tried_choice state next o)
  tried_choice_kept state next p none s k f = tt
  tried_choice_kept state next p (some (err n, c)) s k f = tt
  tried_choice_kept state next p (some (ok r, (cipher, l))) s k f =
      f r cipher l (subst (QueueKept b) (sym s) k)

  pub try_choose_kept :
      (act : ℕ → Link World → Option (Result ℕ × (ℕ × Link World))) (l : Conn World)
      (next : Next World)
      → StillChosen l.params (act l.world.cipher (lower l))
      → QueueKept b l.params
      → Goes next
      → OkKept b (try_choose act l next)
  try_choose_kept act l next s k f =
      tried_choice_kept l.world.state next l.params (act l.world.cipher (lower l)) s k
        (λ r cipher l'. f r (raise l.world.state cipher l'))

module _ (World : Type 0) (a : Actions World) where
  -- The functions that the handlers call leave the handshake parameters that the model of the
  -- handlers keeps: the number of the next message, the queue, and the reassembly buffer.
  pub record KeepsParams : Type 0 where
    pub stop_retransmission : (l : Link World) → StillThere l.params (a.stop_retransmission l)
    pub hello_verify :
        (msg : List ℕ) (l : Link World) → Still l.params (a.check_server_hello_verify_request msg l)
    pub record_rtt : (l : Link World) → (a.record_rtt l).params ≡ l.params
    pub server_hello :
        (msg : List ℕ) (cipher : ℕ) (l : Link World)
        → StillChosen l.params (a.check_server_hello msg cipher l)
    pub certificate :
        (msg : List ℕ) (l : Link World) → Still l.params (a.check_server_certificate msg l)
    pub key_exchange_ecdsa :
        (msg : List ℕ) (l : Link World) → Still l.params (a.check_server_key_exchange_ecdsa msg l)
    pub key_exchange_psk :
        (msg : List ℕ) (l : Link World) → Still l.params (a.check_server_key_exchange_psk msg l)
    pub hello_done :
        (msg : List ℕ) (l : Link World) → Still l.params (a.check_server_hellodone msg l)
    pub request :
        (msg : List ℕ) (l : Link World) → Still l.params (a.check_certificate_request msg l)
    pub finished : (msg : List ℕ) (l : Link World) → Still l.params (a.check_finished msg l)
    pub hash : (msg : List ℕ) (l : Link World) → (a.update_hs_hash msg l).params ≡ l.params
    pub ccs : (l : Link World) → Still l.params (a.send_ccs l)
    pub switch : (l : Link World) → (a.params_switch l).params ≡ l.params
    pub server_finish : (l : Link World) → Still l.params (a.send_server_finished l)
    pub client_key :
        (msg : List ℕ) (l : Link World) → Still l.params (a.check_client_keyexchange msg l)
    pub tesla : (msg : List ℕ) (l : Link World) → StillThere l.params (a.read_tesla msg l)
    pub verify :
        (msg : List ℕ) (l : Link World) → Still l.params (a.check_client_certificate_verify msg l)
    pub cookie :
        (state : ℕ) (msg : List ℕ) (l : Link World) → Still l.params (a.verify_peer state msg l)
    pub clear : (l : Link World) → (a.clear_hs_hash l).params ≡ l.params
    pub update :
        (msg : List ℕ) (cipher : ℕ) (l : Link World)
        → StillChosen l.params (a.update_parameters msg cipher l)
    pub server_flight : (l : Link World) → Still l.params (a.send_server_hello_msgs l)
    pub client_flight : (l : Link World) → Still l.params (a.send_client_hello l)
