-- ===== src/Ledger/Schedule.antt =====
-- The policy schedule of witness/benchmark/ledger.py: `validate_upgrade` and
-- `Ledger.policy_for_window`. An upgrade is a well-typed record here, so the tests of its shape
-- (the keys of the dict, the types of the fields) are no part of the model.
pub mod History
use witness_subnet.Base.{
  ℕ, Bool, true, false, ◌&&◌, ◌||◌, not, Option, none, some, List, [], ◌∷◌, ltb, leb, if◌then◌else◌,
}
use witness_subnet.Base.Eq.{◌==◌, nat_eq}
use witness_subnet.Base.Text.{Text, text, text_eq}
use witness_subnet.Base.Outcome.{Outcome, ok, err, ◌>>◌, raise_if}
use witness_subnet.Errors.{
  Error, invalid_policy_upgrade_schedule, invalid_admission_reset_upgrade,
  invalid_policy_upgrade_order,
}
use witness_subnet.Protocol.Record.{bad_digest}
use witness_subnet.Protocol.Decide.{
  legacy_policy, five_video_policy, ten_video_policy, resume_policy,
}

abbrev pub media_recovery_window : ℕ
media_recovery_window = 9

abbrev pub ten_video_window : ℕ
ten_video_window = 12

abbrev pub resume_window : ℕ
resume_window = 13

abbrev pub zero_burn_window : ℕ
zero_burn_window = 16

abbrev pub hotkey_reset_window : ℕ
hotkey_reset_window = 32

abbrev pub pre_reset_policy : Text
pre_reset_policy = text "4dbf427e73cede9bc0b7cb357941fb52e9f5a03469caea0476a0737e6a0118a1"

-- The last upgrade first, with the upgrade before it (`prior_upgrade`), if there is one.
pub data Upgrade : Type 0 where
  single : ℕ → Text → Option ℕ → Upgrade
  extend : ℕ → Text → Option ℕ → Upgrade → Upgrade

abbrev pub first_window : Upgrade → ℕ
first_window (single w p r) = w
first_window (extend w p r u) = w

abbrev pub previous_policy : Upgrade → Text
previous_policy (single w p r) = p
previous_policy (extend w p r u) = p

abbrev pub bad_schedule : ℕ → Text → Text → Bool
bad_schedule window previous policy =
    ltb window zero_burn_window || bad_digest previous 64 || previous == policy

abbrev pub bad_reset : ℕ → Text → Option ℕ → Bool
bad_reset window previous none = false
bad_reset window previous (some reset) =
    not (reset == hotkey_reset_window)
    || not (window == 31 || window == hotkey_reset_window)
    || not (previous == pre_reset_policy)

unfoldable pub validate_upgrade : Upgrade → Text → Outcome Error (Unit {0})
validate_upgrade (single window previous reset) policy =
    raise_if (bad_schedule window previous policy) invalid_policy_upgrade_schedule
    >> raise_if (bad_reset window previous reset) invalid_admission_reset_upgrade
validate_upgrade (extend window previous reset prior) policy =
    raise_if (bad_schedule window previous policy) invalid_policy_upgrade_schedule
    >> raise_if (bad_reset window previous reset) invalid_admission_reset_upgrade
    >> validate_upgrade prior previous
    >> raise_if (leb window (first_window prior)) invalid_policy_upgrade_order

-- The `while` loop: back through the upgrades that have not begun at the window.
unfoldable pub walk : Upgrade → Text → ℕ → Text
walk (single first previous reset) policy window = if ltb window first then previous else policy
walk (extend first previous reset prior) policy window =
    let earlier = walk prior previous window in if ltb window first then earlier else policy

abbrev pub walk_from : Option Upgrade → Text → ℕ → Text
walk_from none policy window = policy
walk_from (some upgrade) policy window = walk upgrade policy window

unfoldable pub policy_for_window : Bool → Option Upgrade → Text → ℕ → Text
unfolding walk
policy_for_window versioned_media upgrade policy window =
    if not versioned_media
    then policy
    else if ltb window media_recovery_window
    then legacy_policy
    else if ltb window ten_video_window
    then five_video_policy
    else if ltb window resume_window
    then ten_video_policy
    else if ltb window zero_burn_window
    then resume_policy
    else walk_from upgrade policy window
