-- ===== src/Record/Nonce.antt =====
-- The nonces of the records that one set of parameters encrypts.
use gc2021_pqdtls.Base.{ℕ, ◌+◌, ◌≤◌, Option, some, List, [], ◌∷◌, ◌++◌, length}
use gc2021_pqdtls.Ccm.{encrypt_message}
use gc2021_pqdtls.Security.{Security, Role}
use gc2021_pqdtls.Record.{SetKey, prepare_record, a_data}
use gc2021_pqdtls.Record.Layout.{header, packet, explicit}
use gc2021_pqdtls.Record.Seal.{concat}

-- A call of dtls_prepare_record: the type, the payloads and the room in the buffer.
pub record Call : Type 0 where
  pub type : ℕ
  pub payload : List (List ℕ)
  pub rlen : ℕ

-- There is room for the header; with a cipher, for the payloads too.
abbrev pub AllRoom : List Call → Type 0
AllRoom [] = Unit {0}
AllRoom (c ∷ cs) = (13 ≤ c.rlen) × AllRoom cs

abbrev pub Fits : Call → Type 0
Fits c = 8 + 13 + length (concat c.payload) ≤ c.rlen

-- The record of a call that is encrypted by this cipher under this nonce.
abbrev pub record_under : (List ℕ → List ℕ) → Call → Security → List ℕ → List ℕ
record_under e c s nonce = packet c.type (some s) (
    explicit s
    ++ encrypt_message e 8 3 nonce (concat c.payload)
        (a_data (header c.type (some s)) (length (concat c.payload))))

module _ (set_key : SetKey) (r : Role) where
  -- The parameters behind the calls.
  abbrev pub after : List Call → Option Security → Option Security
  after [] s = s
  after (c ∷ cs) s = after cs (prepare_record set_key (some r) s c.type c.payload c.rlen).1
