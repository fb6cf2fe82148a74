-- ===== src/Machine/Queue.antt =====
-- handle_handshake_msg and the buffered messages: the queue is as it was, or the parameters are new.
pub mod Calls
pub mod Answers
use gc2021_pqdtls.Base.{
  ℕ, ltb, ◌==◌, if◌then◌else◌, Bool, true, false, not, ◌&&◌, Option, none, some, List, [], ◌≡◌,
  refl, sym, subst, inl, inr, ◌∙◌,
}
use gc2021_pqdtls.Numeric.{byte_at}
use gc2021_pqdtls.Alert.{Result, ok, err}
use gc2021_pqdtls.Security.{Role, client, server}
use gc2021_pqdtls.Reorder.{Params, Link, message_seq}
use gc2021_pqdtls.Reorder.Drain.{QueueKept, KeepsQueue}
use gc2021_pqdtls.Machine.{
  try, try_choose, on_rest, Rest, Conn, Outcome, Next, Actions, lower, raise, tried, tried_choice,
  count, counted, refuse, needs_peer, needs_params, is_ecdhe, is_psk, has_peer, with_result,
  unexpected_message,
}
use gc2021_pqdtls.Machine.Answers.{
  again, chosen, exchanged, flight_sent, complete, ccs_sent, key_exchanged, certificate_checked,
  answer_finished, certified, is_other, with_tesla, on_hello_verify_request, on_server_hello,
  on_certificate, on_server_key_exchange, on_server_hello_done, on_certificate_request, on_finished,
  on_client_key_exchange, on_certificate_verify,
}
use gc2021_pqdtls.Machine.Switch.{
  answer_hello, greeted, started, made_peer, ensure_peer, made_params, ensure_params, accept_hello,
  without_peer, verified, on_client_hello, on_hello_request, dispatch, stopped, by_peer,
  handle_handshake_msg,
}
use gc2021_pqdtls.Machine.Queue.Calls.{
  Still, StillChosen, StillThere, OkKept, counted-kept, same_kept, guard_kept, choice_kept,
  needs_peer_kept, needs_params_kept, Goes, try_kept, try_choose_kept, KeepsParams,
}
use gc2021_pqdtls.Machine.Queue.Answers.{
  on_hello_verify_request_kept, on_server_hello_kept, on_certificate_kept,
  on_server_key_exchange_kept, on_server_hello_done_kept, on_certificate_request_kept,
  on_finished_kept, on_client_key_exchange_kept, on_certificate_verify_kept,
}

module _ (World : Type 0) (a : Actions World) where
  module _ (keeps : KeepsParams World a) (b : Option Params) where
    new_kept : (p : Params) → p.reorder_queue ≡ [] → QueueKept b (some p)
    new_kept p e = by_queue b
      where
        by_queue : (c : Option Params) → QueueKept c (some p)
        by_queue none = e
        by_queue (some q) = inr e

    -- What follows on a peer and its parameters, made where they are missing.
    abbrev Follows : (Conn World → Outcome World) → Type 0
    Follows next = (l : Conn World) → QueueKept b l.params → OkKept b (next l)

    ensure_params_kept :
        (p : Option Params) (n m : ℕ) (l : Conn World) (next : Conn World → Outcome World)
        → QueueKept b l.params
        → Follows next
        → OkKept b (ensure_params World a p n m l next)
    ensure_params_kept (some p) n m l next k f = f l k
    ensure_params_kept none n m l next k f = made (a.handshake_new m l.world.world)
      where
        made : (o : Bool × World) → OkKept b (made_params World a n l next o)
        made (false, w) = tt
        made (true, w) = f _ (new_kept _ refl)

    ensure_peer_kept :
        (at : Option ℕ) (l : Conn World) (next : Conn World → Outcome World)
        → QueueKept b l.params
        → Follows next
        → OkKept b (ensure_peer World a at l next)
    ensure_peer_kept (some n) l next k f = f l k
    ensure_peer_kept none l next k f = made (a.new_peer l.world.world)
      where
        made : (o : Option ℕ × World) → OkKept b (made_peer World a l next o)
        made (none, w) = tt
        made (some n, w) = f _ tt

    accept_hello_kept : (msg : List ℕ) → Follows (accept_hello World a msg)
    unfolding accept_hello
    accept_hello_kept msg l k =
        try_choose_kept World b (a.update_parameters msg) (on_rest a.clear_hs_hash l)
          (answer_hello World a msg) (keeps.update msg l.world.cipher (a.clear_hs_hash (lower l)))
          (subst (QueueKept b) (sym (keeps.clear (lower l))) k)
          (λ r l1 k1.
            try_kept World b a.send_server_hello_msgs (on_rest (a.update_hs_hash msg) l1)
              (greeted World a) (keeps.server_flight (a.update_hs_hash msg (lower l1)))
              (subst (QueueKept b) (sym (keeps.hash msg (lower l1))) k1)
              (λ r2 l2 k2. counted-kept b l2.peer l2.params k2))

    fresh_kept :
        (c : Bool) (l : Conn World)
        → QueueKept b l.params
        → QueueKept b (if c then without_peer World a l else l).params
    fresh_kept true l k = tt
    fresh_kept false l k = k

    verified_kept :
        (state : ℕ) (msg : List ℕ) (r : ℕ) (l : Conn World)
        → QueueKept b l.params
        → OkKept b (verified World a state msg r l)
    verified_kept state msg r l k =
        choice_kept World b (ltb 0 r) _ _ (counted-kept b l.peer l.params k) (
          by_fresh (if has_peer l && (state == 1) then without_peer World a l else l)
            (fresh_kept (has_peer l && (state == 1)) l k))
      where
        by_fresh :
            (l1 : Conn World)
            → QueueKept b l1.params
            → OkKept b (
                ensure_peer World a l1.peer l1 (λ l2.
                  ensure_params World a l2.params
                    (message_seq msg)
                    1
                    l2
                    (accept_hello World a msg)))
        by_fresh l1 k1 =
            ensure_peer_kept l1.peer l1
              (λ l2.
                ensure_params World a l2.params (message_seq msg) 1 l2 (accept_hello World a msg))
              k1
              (λ l2 k2.
                ensure_params_kept l2.params (message_seq msg) 1 l2 (accept_hello World a msg) k2
                  (accept_hello_kept msg))

    on_client_hello_kept :
        (state : ℕ) (msg : List ℕ) (l : Conn World)
        → QueueKept b l.params
        → OkKept b (on_client_hello World a state msg l)
    unfolding on_client_hello
    on_client_hello_kept state msg l k = guard_kept World b _ unexpected_message l _ (
        try_kept World b (a.verify_peer state msg) l (verified World a state msg)
          (keeps.cookie state msg (lower l)) k (verified_kept state msg))

    on_hello_request_kept :
        (state : ℕ) (l : Conn World)
        → QueueKept b l.params
        → OkKept b (on_hello_request World a state l)
    unfolding on_hello_request
    on_hello_request_kept state l k = choice_kept World b (not (state == 12)) (some (ok 0, l)) _ k (
        needs_peer_kept World b l.peer l _ (
          ensure_params_kept l.params 0 0 l _ k (λ l1 k1.
            try_kept World b a.send_client_hello l1 (started World a)
              (keeps.client_flight (lower l1)) k1
              (λ r l2 k2. counted-kept b l2.peer l2.params k2))))

    dispatch_kept :
        (role : Role) (state : ℕ) (msg : List ℕ) (l : Conn World)
        → QueueKept b l.params
        → OkKept b (dispatch World a role state msg l)
    unfolding dispatch
    dispatch_kept role state msg l k =
        choice_kept World b (byte_at msg 0 == 3) _ _
          (on_hello_verify_request_kept World a keeps b state msg l k)
          (choice_kept World b (byte_at msg 0 == 2) _ _
            (on_server_hello_kept World a keeps b state msg l k)
            (choice_kept World b (byte_at msg 0 == 11) _ _
              (on_certificate_kept World a keeps b role state msg l k)
              (choice_kept World b (byte_at msg 0 == 12) _ _
                (on_server_key_exchange_kept World a keeps b state msg l k)
                (choice_kept World b (byte_at msg 0 == 14) _ _
                  (on_server_hello_done_kept World a keeps b state msg l k)
                  (choice_kept World b (byte_at msg 0 == 13) _ _
                    (on_certificate_request_kept World a keeps b state msg l k)
                    (choice_kept World b (byte_at msg 0 == 20) _ _
                      (on_finished_kept World a keeps b role state msg l k)
                      (choice_kept World b (byte_at msg 0 == 16) _ _
                        (on_client_key_exchange_kept World a keeps b state msg l k)
                        (choice_kept World b (byte_at msg 0 == 15) _ _
                          (on_certificate_verify_kept World a keeps b state msg l k)
                          (choice_kept World b (byte_at msg 0 == 1) _ _
                            (on_client_hello_kept state msg l k)
                            (choice_kept World b (byte_at msg 0 == 0) _ _
                              (on_hello_request_kept state l k) tt))))))))))

    by_peer_kept :
        (role : Role) (state : ℕ) (msg : List ℕ) (l : Conn World) (at : Option ℕ)
        → QueueKept b l.params
        → OkKept b (by_peer World a role state msg l at)
    by_peer_kept role state msg l none k = dispatch_kept role state msg l k
    by_peer_kept role state msg l (some n) k =
        behind (a.stop_retransmission (lower l)) (keeps.stop_retransmission (lower l))
      where
        behind :
            (o : Option (Link World))
            → StillThere l.params o
            → OkKept b (stopped World a role state msg l o)
        behind none h = tt
        behind (some l') h =
            dispatch_kept role state msg (raise l.world.state l.world.cipher l')
              (subst (QueueKept b) (sym h) k)

  -- A message that handle_handshake_msg handles leaves the queue of buffered messages as it was, or
  -- empty in new parameters, if the functions it calls leave the parameters.
  pub handle_handshake_msg-KeepsQueue :
      KeepsParams World a
      → (role : Role) (peer_state : Rest World → ℕ) (stale : List ℕ → List ℕ)
      → KeepsQueue (Rest World) (handle_handshake_msg World a role) peer_state stale
  unfolding handle_handshake_msg
  handle_handshake_msg-KeepsQueue keeps role peer_state stale state msg l l' res e =
      subst (OkKept l.params) e
        (by_peer_kept keeps l.params role state msg l l.peer (same_kept l.params))
