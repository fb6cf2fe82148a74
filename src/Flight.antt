-- ===== src/Flight.antt =====
-- A client of handle_handshake_msg whose check of the ServerHello is check_server_hello of dtls.c: the
-- state machine of Machine with the hellos of Hello.
pub mod Answered
pub mod Done
use gc2021_pqdtls.Base.{
  ℕ, ◌+◌, ltb, if◌then◌else◌, Bool, true, false, not, ◌||◌, Option, none, some, List, length,
}
use gc2021_pqdtls.Alert.{Result}
use gc2021_pqdtls.Keys.{Handler}
use gc2021_pqdtls.Cookie.{hs_length}
use gc2021_pqdtls.Reorder.{Params, Link}
use gc2021_pqdtls.Hello.{Answer, Found, check_server_hello}
use gc2021_pqdtls.Machine.{Actions, Choose}

-- What a client keeps of a ServerHello, and the rest of the world.
pub record Greeted (W : Type 0) : Type 0 where
  pub answer : Answer
  pub rest : W

abbrev pub has_params : Option ℕ → Option Params → Bool
has_params none p = false
has_params (some at) none = false
has_params (some at) (some p) = true

module _ (W : Type 0) (c : Handler) (a : Actions (Greeted W)) where
  -- The suite is in one place only: beside the answer for Machine, in it for Hello.
  abbrev pub with_suite : ℕ → Answer → Answer
  with_suite cipher ans = record ans { handshake = record ans.handshake { cipher = cipher } }

  -- The update of the hash stands behind two tests.
  abbrev pub hashed : List ℕ → Link (Greeted W) → Link (Greeted W)
  hashed msg l =
      if ltb (length msg) (hs_length + hs_length) || not (has_params l.peer l.params)
      then l
      else a.update_hs_hash msg l

  abbrev pub kept : Link (Greeted W) → Found → Option (Result ℕ × (ℕ × Link (Greeted W)))
  kept l none = none
  kept l (some (r, ans)) =
      some (r, (ans.handshake.cipher, record l { world = record l.world { answer = ans } }))

  unfoldable pub check_hello : Choose (Greeted W)
  check_hello msg cipher l =
      let l' = hashed msg l in
      kept l'
        (check_server_hello c (has_params l.peer l.params) msg (with_suite cipher l'.world.answer))

  -- The actions of a client.
  abbrev pub client_actions : Actions (Greeted W)
  client_actions = record a { check_server_hello = check_hello }
