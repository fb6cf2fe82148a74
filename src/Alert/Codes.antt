-- ===== src/Alert/Codes.antt =====
-- The codes of alerts as results, and back.
use gc2021_pqdtls.Base.{
  ℕ, ◌*◌, ◌+◌, ◌≤◌, ◌<◌, ◌≡◌, bit_or_join, ◌&&◌, ◌==◌, if◌then◌else◌, none, some, arith,
}
use gc2021_pqdtls.Alert.{alert_create, alert_from_err}

alert_create_sum : (level desc : ℕ) → desc < 256 → alert_create level desc ≡ level * 256 + desc
unfolding alert_create
alert_create_sum level desc h = bit_or_join 8 level desc h

-- An alert of level 1 or 2 with a description of one byte that is returned as an error code is
-- sent with its level and description, but for a warning of description 0 (close_notify), which is
-- dropped.
pub alert_from_err-alert_create :
    (level desc : ℕ)
    → 1 ≤ level
    → level ≤ 2
    → desc < 256
    → alert_from_err (alert_create level desc)
      ≡ (if level == 1 && desc == 0 then none else some (level, desc))
unfolding alert_from_err
alert_from_err-alert_create level desc p q h = ground (arith, alert_create_sum level desc h)
