-- ===== src/Engine/Alerts.antt =====
-- dtls_stop_retransmission, dtls_destroy_peer, handle_alert and dtls_alert_send_from_err of dtls.c.
-- A peer is the address of its object, `none` for NULL.
pub mod Kept
pub mod Missing
pub mod Safety
use gc2021_pqdtls.Base.{
  ℕ, ltb, ◌==◌, if◌then◌else◌, Bool, true, not, ◌&&◌, ◌||◌, Option, none, some, List, ◌∷◌, length,
}
use gc2021_pqdtls.Numeric.{byte_at}
use gc2021_pqdtls.Alert.{
  Result, ok, err, level_fatal, close_notify, decode_error, alert_fatal_create, alert_from_err,
}
use gc2021_pqdtls.Session.{Session}
use gc2021_pqdtls.Peers.{Peer, deref, free_peer, delete_peer, get_peer, state_closing, state_closed}
use gc2021_pqdtls.Netq.{Node}
use gc2021_pqdtls.Record.{SetKey}
use gc2021_pqdtls.Engine.{Context, send_alert, close, set_state, stop_queue}

module _ (set_key : SetKey) (write : List ℕ → Result ℕ) (ticks : ℕ → ℕ) where
  abbrev with_queue : Context → Option (List Node) → Option Context
  with_queue c none = none
  with_queue c (some q) = some (record c { sendqueue = q })

  -- dtls_stop_retransmission, for the object `p`.
  unfoldable pub stop_retransmission : Peer → Context → Option Context
  stop_retransmission p c =
      with_queue c (stop_queue set_key write ticks c.heap p.session c.sendqueue)

  abbrev pub bind : Option Context → (Context → Option Context) → Option Context
  bind none next = none
  bind (some c) next = next c

  abbrev pub at : Option Peer → (Peer → Option Context) → Option Context
  at none next = none
  at (some p) next = next p

  abbrev closed : Option (Result ℕ × Context) → Option Context
  closed none = none
  closed (some (result, c)) = some c

  -- dtls_destroy_peer
  unfoldable pub destroy_peer : ℕ → Bool → Context → Option Context
  destroy_peer a unlink c = at (deref c.heap a) (λ p.
      bind
        (if not (p.state == state_closed) && not (p.state == state_closing)
          then closed (close set_key write ticks p.session c)
          else some c)
        (λ c'. some (record c' {
          peers = if unlink then delete_peer c'.peers a else c'.peers;
          heap = free_peer c'.heap a;
        })))

  -- The switch of handle_alert, for a close_notify.
  unfoldable pub answer_close : ℕ → Context → Option Context
  answer_close a c = at (deref c.heap a) (λ p.
      if p.state == state_closing
      then set_state set_key write ticks a state_closed c
      else bind (set_state set_key write ticks a state_closing c) (λ c'.
        at (deref c'.heap a)
          (λ p'. some (send_alert set_key write ticks p' level_fatal close_notify c'))))

  -- The end of handle_alert for a peer that is invalidated.
  unfoldable pub release : ℕ → Context → Option Context
  unfolding stop_retransmission destroy_peer
  release a c = at (deref c.heap a) (λ p. bind (stop_retransmission p c) (destroy_peer a true))

  abbrev is_final : ℕ → ℕ → Bool
  is_final level description = (level == level_fatal) || (description == close_notify)

  abbrev alert_for : ℕ → Peer → ℕ → ℕ → Context → Option Context
  alert_for a p level description c =
      let final = is_final level description in
      let c1 = record c {
        peers = if final then delete_peer c.peers a else c.peers;
        events = (p.session, (level, description)) ∷ c.events;
      } in
      bind (if description == close_notify then answer_close a c1 else some c1)
        (λ c2. if final then release a c2 else some c2)

  abbrev result_of : Bool → Option Context → Option (Result ℕ × Context)
  result_of final none = none
  result_of final (some c) = some (ok (if final then 1 else 0), c)

  -- handle_alert: 1 where the peer is gone.
  unfoldable pub handle_alert : Option ℕ → List ℕ → Context → Option (Result ℕ × Context)
  handle_alert peer payload c =
      if ltb (length payload) 2
      then some (err (alert_fatal_create decode_error), c)
      else for_peer peer
    where
      for_peer : Option ℕ → Option (Result ℕ × Context)
      for_peer none = some (ok 0, c)
      for_peer (some a) =
          let level = byte_at payload 0 in
          let description = byte_at payload 1 in
          result_of (is_final level description)
            (at (deref c.heap a) (λ p. alert_for a p level description c))

  abbrev or_lookup : Option ℕ → Context → Session → Option ℕ
  or_lookup none c session = address (get_peer c.heap c.peers session)
    where
      address : Option Peer → Option ℕ
      address none = none
      address (some p) = some p.addr
  or_lookup (some a) c session = some a

  -- dtls_alert_send_from_err for the result `-n`: 0, or -1 where nothing was sent.
  unfoldable pub alert_send_from_err :
      Option ℕ → Session → ℕ → Context → Option (Result ℕ × Context)
  unfolding alert_from_err
  alert_send_from_err peer session n c = sending (alert_from_err n) (or_lookup peer c session)
    where
      finished : Option Context → Option (Result ℕ × Context)
      finished none = none
      finished (some c') = some (ok 0, c')

      sending : Option (ℕ × ℕ) → Option ℕ → Option (Result ℕ × Context)
      sending none a = some (err 1, c)
      sending (some (level, description)) none = some (err 1, c)
      sending (some (level, description)) (some a) = finished (
          bind (set_state set_key write ticks a state_closing c) (λ c'.
            at (deref c'.heap a)
              (λ p. some (send_alert set_key write ticks p level description c'))))
