-- ===== src/Machine/Queue/Answers.antt =====
-- handle_handshake_msg and the buffered messages: the cases but the hello of a client.
use gc2021_pqdtls.Base.{ℕ, Option, none, some, List, sym, subst, ◌∙◌}
use gc2021_pqdtls.Alert.{Result, ok, err}
use gc2021_pqdtls.Security.{Role, client, server}
use gc2021_pqdtls.Reorder.{Params, Link}
use gc2021_pqdtls.Reorder.Drain.{QueueKept}
use gc2021_pqdtls.Machine.{
  on_rest, Conn, Actions, lower, count, is_ecdhe, is_psk, with_result, unexpected_message,
}
use gc2021_pqdtls.Machine.Answers.{
  again, chosen, exchanged, flight_sent, complete, ccs_sent, key_exchanged, certificate_checked,
  answer_finished, certified, is_other, with_tesla, on_hello_verify_request, on_server_hello,
  on_certificate, on_server_key_exchange, on_server_hello_done, on_certificate_request, on_finished,
  on_client_key_exchange, on_certificate_verify,
}
use gc2021_pqdtls.Machine.Queue.Calls.{
  Still, StillThere, OkKept, counted-kept, guard_kept, choice_kept, needs_peer_kept,
  needs_params_kept, try_kept, try_choose_kept, KeepsParams,
}

module _ (World : Type 0) (a : Actions World) where
  module _ (keeps : KeepsParams World a) (b : Option Params) where
    pub on_hello_verify_request_kept :
        (state : ℕ) (msg : List ℕ) (l : Conn World)
        → QueueKept b l.params
        → OkKept b (on_hello_verify_request World a state msg l)
    unfolding on_hello_verify_request
    on_hello_verify_request_kept state msg l k = guard_kept World b _ unexpected_message l _ (
        try_kept World b (a.check_server_hello_verify_request msg) l (again World a)
          (keeps.hello_verify msg (lower l)) k
          (λ r l1 k1.
            counted-kept b (a.record_rtt (lower l1)).peer (a.record_rtt (lower l1)).params
              (subst (QueueKept b) (sym (keeps.record_rtt (lower l1))) k1)))

    pub on_server_hello_kept :
        (state : ℕ) (msg : List ℕ) (l : Conn World)
        → QueueKept b l.params
        → OkKept b (on_server_hello World a state msg l)
    unfolding on_server_hello
    on_server_hello_kept state msg l k = guard_kept World b _ unexpected_message l _ (
        needs_params_kept World b l.peer l.params l _ (
          try_choose_kept World b (a.check_server_hello msg) l (chosen World a)
            (keeps.server_hello msg l.world.cipher (lower l)) k
            (λ r l1 k1. counted-kept b l1.peer l1.params k1)))

    pub on_certificate_kept :
        (role : Role) (state : ℕ) (msg : List ℕ) (l : Conn World)
        → QueueKept b l.params
        → OkKept b (on_certificate World a role state msg l)
    unfolding on_certificate
    on_certificate_kept role state msg l k =
        guard_kept World b (is_other World a role state) unexpected_message l _ (
          needs_peer_kept World b l.peer l _ (
            try_kept World b (a.check_server_certificate msg) l (certified World a role)
              (keeps.certificate msg (lower l)) k (λ r l1 k1. counted-kept b l1.peer l1.params k1)))

    pub on_server_key_exchange_kept :
        (state : ℕ) (msg : List ℕ) (l : Conn World)
        → QueueKept b l.params
        → OkKept b (on_server_key_exchange World a state msg l)
    unfolding on_server_key_exchange
    on_server_key_exchange_kept state msg l k = needs_params_kept World b l.peer l.params l _ (
        choice_kept World b (is_ecdhe l) _ _
          (guard_kept World b _ unexpected_message l _ (
            try_kept World b (a.check_server_key_exchange_ecdsa msg) l (exchanged World a)
              (keeps.key_exchange_ecdsa msg (lower l)) k
              (λ r l1 k1. counted-kept b l1.peer l1.params k1)))
          (choice_kept World b (is_psk l) _ _
            (guard_kept World b _ unexpected_message l _ (
              try_kept World b (a.check_server_key_exchange_psk msg) l (exchanged World a)
                (keeps.key_exchange_psk msg (lower l)) k
                (λ r l1 k1. counted-kept b l1.peer l1.params k1)))
            (counted-kept b l.peer l.params k)))

    pub on_server_hello_done_kept :
        (state : ℕ) (msg : List ℕ) (l : Conn World)
        → QueueKept b l.params
        → OkKept b (on_server_hello_done World a state msg l)
    unfolding on_server_hello_done
    on_server_hello_done_kept state msg l k = guard_kept World b _ unexpected_message l _ (
        needs_peer_kept World b l.peer l _ (
          try_kept World b (a.check_server_hellodone msg) l (flight_sent World a)
            (keeps.hello_done msg (lower l)) k (λ r l1 k1. counted-kept b l1.peer l1.params k1)))

    pub on_certificate_request_kept :
        (state : ℕ) (msg : List ℕ) (l : Conn World)
        → QueueKept b l.params
        → OkKept b (on_certificate_request World a state msg l)
    unfolding on_certificate_request
    on_certificate_request_kept state msg l k = guard_kept World b _ unexpected_message l _ (
        try_kept World b (a.check_certificate_request msg) l count (keeps.request msg (lower l)) k
          (λ r l1 k1. counted-kept b l1.peer l1.params k1))

    answer_finished_kept :
        (role : Role) (msg : List ℕ) (r : ℕ) (l : Conn World)
        → QueueKept b l.params
        → OkKept b (answer_finished World a role msg r l)
    answer_finished_kept client msg r l k = tt
    answer_finished_kept server msg r l k =
        try_kept World b a.send_ccs (on_rest (a.update_hs_hash msg) l) (ccs_sent World a)
          (keeps.ccs (a.update_hs_hash msg (lower l)))
          (subst (QueueKept b) (sym (keeps.hash msg (lower l))) k)
          (λ r2 l2 k2.
            try_kept World b a.send_server_finished (on_rest a.params_switch l2) (complete World a)
              (keeps.server_finish (a.params_switch (lower l2)))
              (subst (QueueKept b) (sym (keeps.switch (lower l2))) k2) (λ r3 l3 k3. tt))

    pub on_finished_kept :
        (role : Role) (state : ℕ) (msg : List ℕ) (l : Conn World)
        → QueueKept b l.params
        → OkKept b (on_finished World a role state msg l)
    unfolding on_finished
    on_finished_kept role state msg l k = guard_kept World b _ unexpected_message l _ (
        needs_params_kept World b l.peer l.params l _ (
          try_kept World b (a.check_finished msg) l (answer_finished World a role msg)
            (keeps.finished msg (lower l)) k (answer_finished_kept role msg)))

    with_tesla_still :
        (msg : List ℕ) (p : Option Params) (o : Option (Result ℕ × Link World))
        → Still p o
        → Still p (with_tesla World a msg o)
    with_tesla_still msg p none s = tt
    with_tesla_still msg p (some (r, l)) s = read r (a.read_tesla msg l) (keeps.tesla msg l) s
      where
        read :
            (r : Result ℕ) (o : Option (Link World))
            → StillThere l.params o
            → Still p (some (r, l))
            → Still p (with_result r o)
        read r none h s = tt
        read (err n) (some l') h s = tt
        read (ok n) (some l') h s = h ∙ s

    pub on_client_key_exchange_kept :
        (state : ℕ) (msg : List ℕ) (l : Conn World)
        → QueueKept b l.params
        → OkKept b (on_client_key_exchange World a state msg l)
    unfolding on_client_key_exchange
    on_client_key_exchange_kept state msg l k = guard_kept World b _ unexpected_message l _ (
        needs_params_kept World b l.peer l.params l _ (
          try_kept World b (λ here. with_tesla World a msg (a.check_client_keyexchange msg here)) l
            (key_exchanged World a msg)
            (with_tesla_still msg l.params _ (keeps.client_key msg (lower l))) k
            (λ r l1 k1.
              counted-kept b (a.update_hs_hash msg (lower l1)).peer
                (a.update_hs_hash msg (lower l1)).params
                (subst (QueueKept b) (sym (keeps.hash msg (lower l1))) k1))))

    pub on_certificate_verify_kept :
        (state : ℕ) (msg : List ℕ) (l : Conn World)
        → QueueKept b l.params
        → OkKept b (on_certificate_verify World a state msg l)
    unfolding on_certificate_verify
    on_certificate_verify_kept state msg l k = guard_kept World b _ unexpected_message l _ (
        needs_params_kept World b l.peer l.params l _ (
          try_kept World b (a.check_client_certificate_verify msg) l
            (certificate_checked World a msg) (keeps.verify msg (lower l)) k
            (λ r l1 k1.
              counted-kept b (a.update_hs_hash msg (lower l1)).peer
                (a.update_hs_hash msg (lower l1)).params
                (subst (QueueKept b) (sym (keeps.hash msg (lower l1))) k1))))
