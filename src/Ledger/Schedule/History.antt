-- ===== src/Ledger/Schedule/History.antt =====
-- Upgrades of the policy in witness/benchmark/ledger.py, and the windows that they govern.
use witness_subnet.Base.{
  ℕ, ◌≤◌, ◌<◌, ◌≡◌, ◌≢◌, true, false, List, [], ◌∷◌, refl, Bool-cases, inl, inr, Option, some,
  arith, ltb, leb, if◌then◌else◌,
}
use witness_subnet.Base.Eq.{nat_eq, eq_iff}
use witness_subnet.Base.Text.{Text, text_eq}
use witness_subnet.Base.Outcome.{ok, ◌>>◌, raise_if, raise_if->>-ok, >>=-eq-ok}
use witness_subnet.Errors.{
  invalid_policy_upgrade_schedule, invalid_admission_reset_upgrade, invalid_policy_upgrade_order,
}
use witness_subnet.Protocol.Decide.{
  legacy_policy, five_video_policy, ten_video_policy, resume_policy,
}
use witness_subnet.Ledger.Schedule.{
  Upgrade, first_window, bad_schedule, bad_reset, validate_upgrade, walk, policy_for_window,
  media_recovery_window, ten_video_window, resume_window, zero_burn_window,
}

-- What a validated schedule is: the upgrades stand in order, none before window 16, and each one
-- changes the policy.
pub data InOrder : Upgrade → Text → Type 0 where
  single :
      {window : ℕ} {previous : Text} {reset : Option ℕ} {policy : Text}
      → 16 ≤ window
      → previous ≢ policy
      → InOrder (Upgrade.single window previous reset) policy
  extend :
      {window : ℕ} {previous : Text} {reset : Option ℕ} {policy : Text} {prior : Upgrade}
      → 16 ≤ window
      → previous ≢ policy
      → InOrder prior previous
      → first_window prior < window
      → InOrder (Upgrade.extend window previous reset prior) policy

schedule_good :
    (window : ℕ) (previous policy : Text)
    → bad_schedule window previous policy ≡ false
    → (16 ≤ window) × (previous ≢ policy)
schedule_good window previous policy h = (ground arith, λ e. ground (arith, eq_iff previous policy))

-- Validation accepts ordered schedules only: the first windows increase, none is before window
-- 16, and each upgrade changes the policy.
pub validate_upgrade-InOrder :
    (u : Upgrade) (policy : Text) → validate_upgrade u policy ≡ ok tt → InOrder u policy
unfolding validate_upgrade
validate_upgrade-InOrder (Upgrade.single window previous reset) policy h =
    let (good, rest) =
      raise_if->>-ok (bad_schedule window previous policy) invalid_policy_upgrade_schedule
        (raise_if (bad_reset window previous reset) invalid_admission_reset_upgrade) h in
    let (late, other) = schedule_good window previous policy good in InOrder.single late other
validate_upgrade-InOrder (Upgrade.extend window previous reset prior) policy h =
    let last = raise_if (leb window (first_window prior)) invalid_policy_upgrade_order in
    let (good, rest) =
      raise_if->>-ok (bad_schedule window previous policy) invalid_policy_upgrade_schedule
        (raise_if (bad_reset window previous reset) invalid_admission_reset_upgrade
          >> validate_upgrade prior previous
          >> last)
        h in
    let (fine, rest') =
      raise_if->>-ok (bad_reset window previous reset) invalid_admission_reset_upgrade
        (validate_upgrade prior previous >> last) rest in
    let (u, valid, end) = >>=-eq-ok (validate_upgrade prior previous) (λ _. last) rest' in
    let (late, other) = schedule_good window previous policy good in
    InOrder.extend late other (validate_upgrade-InOrder prior previous valid) (ground arith)

-- The schedule read forwards: the policy that holds first, and each policy with its first window.
abbrev pub oldest_policy : Upgrade → Text
oldest_policy (Upgrade.single first previous reset) = previous
oldest_policy (Upgrade.extend first previous reset prior) = oldest_policy prior

abbrev pub chronology : Upgrade → Text → List (ℕ × Text) → List (ℕ × Text)
chronology (Upgrade.single first previous reset) policy later = (first, policy) ∷ later
chronology (Upgrade.extend first previous reset prior) policy later =
    chronology prior previous ((first, policy) ∷ later)

-- The policy in force at a window: the first entry that has not begun ends the search.
unfoldable pub in_force : Text → List (ℕ × Text) → ℕ → Text
in_force policy [] window = policy
in_force policy ((first, next) ∷ later) window =
    let rest = in_force next later window in if ltb window first then policy else rest

walk_begun :
    (u : Upgrade) (policy : Text) (window : ℕ)
    → ltb window (first_window u) ≡ false
    → walk u policy window ≡ policy
unfolding walk
walk_begun (Upgrade.single first previous reset) policy window h = rw h refl
walk_begun (Upgrade.extend first previous reset prior) policy window h = rw h refl

-- Walking back through an ordered schedule finds what reading it forwards does.
in_force-chronology :
    (u : Upgrade) (policy : Text) (later : List (ℕ × Text)) (window : ℕ)
    → InOrder u policy
    → in_force (oldest_policy u) (chronology u policy later) window
      ≡ (if ltb window (first_window u) then walk u policy window else in_force policy later window)
unfolding in_force walk
in_force-chronology (Upgrade.single first previous reset) policy later window
      (InOrder.single late other) =
    ground arith
in_force-chronology (Upgrade.extend first previous reset prior) policy later window
      (InOrder.extend late other ordered lower) =
    let before = in_force-chronology prior previous ((first, policy) ∷ later) window ordered in
    elim (Bool-cases (ltb window (first_window prior))) [
      | inl earlier ↦ ground arith
      | inr begun ↦ let last = walk_begun prior previous window begun in ground arith
    ]

-- The windows whose policies the code fixes
abbrev pub fixed_policies : Text → List (ℕ × Text) → List (ℕ × Text)
fixed_policies oldest later =
    (media_recovery_window, five_video_policy)
    ∷ (ten_video_window, ten_video_policy)
    ∷ (resume_window, resume_policy)
    ∷ (zero_burn_window, oldest)
    ∷ later

-- For a valid upgrade, the policy of a window on a ledger with versioned media is the one in
-- force when the fixed windows and then the schedule are read forwards; without versioned media
-- it is the ledger's own.
pub policy_for_window-in_force :
    (u : Upgrade) (policy : Text) (window : ℕ)
    → validate_upgrade u policy ≡ ok tt
    → (policy_for_window true (some u) policy window
        ≡ in_force legacy_policy (fixed_policies (oldest_policy u) (chronology u policy [])) window)
      × (policy_for_window false (some u) policy window ≡ policy)
unfolding policy_for_window in_force
policy_for_window-in_force u policy window h =
    let forwards = in_force-chronology u policy [] window (validate_upgrade-InOrder u policy h) in
    elim (Bool-cases (ltb window (first_window u))) [
      | inl earlier ↦ (ground arith, refl)
      | inr begun ↦ let last = walk_begun u policy window begun in (ground arith, refl)
    ]
