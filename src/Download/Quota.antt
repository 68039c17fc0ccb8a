-- ===== src/Download/Quota.antt =====
-- The sessions of witness/benchmark/download_budget.py under one quota.
use witness_subnet.Base.{
  ℕ, ◌+◌, ◌-◌, ◌≤◌, ◌≡◌, refl, ap, false, ltb, leb, arith, Bool-cases, inl, inr,
}
use witness_subnet.Base.Eq.{◌==◌, nat_eq}
use witness_subnet.Base.Outcome.{ok}
use witness_subnet.Download.{
  Disk, smaller, charged_of, readmission_of, block_or_zero, session_of, download_budget,
  download_turn, enter, leave, remaining_s, renew,
}

-- Sessions one after the other, with the time that they took together, all of it. Who downloads
-- stops when `remaining_s` is used up, so a session takes no longer than its reservation. One that
-- ends gives back what it did not use; one that crashes leaves the disk as it was when it began.
pub data Sessions (start : Disk) : ℕ → Disk → Type 0 where
  begun : Sessions start 0 start
  ended :
      {total : ℕ} {disk : Disk} (now elapsed : ℕ)
      → Sessions start total disk
      → leb download_budget (charged_of disk) ≡ false
      → elapsed ≤ remaining_s now (session_of now disk)
      → Sessions start (total + elapsed) (leave (now + elapsed) (session_of now disk))
  crashed :
      {total : ℕ} {disk : Disk} (now elapsed : ℕ)
      → Sessions start total disk
      → leb download_budget (charged_of disk) ≡ false
      → elapsed ≤ remaining_s now (session_of now disk)
      → Sessions start (total + elapsed) (enter now disk).1

enter_charge :
    (now : ℕ) (disk : Disk)
    → leb download_budget (charged_of disk) ≡ false
    → charged_of (enter now disk).1
      ≡ charged_of disk + smaller download_turn (download_budget - charged_of disk)
unfolding enter
enter_charge now disk h = rw h refl

remaining_start :
    (now : ℕ) (disk : Disk) → remaining_s now (session_of now disk) ≡ (session_of now disk).reserved
unfolding remaining_s
remaining_start now disk = omega arith

pub sessions-bound :
    {start disk : Disk} {total : ℕ}
    → Sessions start total disk
    → charged_of start ≤ download_budget
    → (total + charged_of start ≤ charged_of disk) × (charged_of disk ≤ download_budget)
unfolding leave
sessions-bound Sessions.begun h = (omega arith, h)
sessions-bound (Sessions.ended {total} {disk} now elapsed before open_quota fits) h =
    let (low, high) = sessions-bound before h in
    let all = remaining_start now disk in (ground arith, ground arith)
sessions-bound (Sessions.crashed {total} {disk} now elapsed before open_quota fits) h =
    let (low, high) = sessions-bound before h in
    let all = remaining_start now disk in
    let charge = enter_charge now disk open_quota in (ground arith, ground arith)

-- Sessions that take no longer than `remaining_s` allows, and end or crash, without a renewal and
-- from a charge within the quota, take no longer together than what is charged for them, and the
-- charge stays within the quota.
pub quota_kept :
    (start disk : Disk) (total : ℕ)
    → Sessions start total disk
    → charged_of start ≤ download_budget
    → (total + charged_of start ≤ charged_of disk) × (charged_of disk ≤ download_budget)
quota_kept start disk total run h = sessions-bound run h

sessions-readmission :
    {start disk : Disk} {total : ℕ}
    → Sessions start total disk
    → readmission_of disk ≡ readmission_of start
unfolding leave enter
sessions-readmission Sessions.begun = refl
sessions-readmission (Sessions.ended now elapsed before open_quota fits) =
    sessions-readmission before
sessions-readmission (Sessions.crashed {total} {disk} now elapsed before open_quota fits) =
    rw (open_quota) (sessions-readmission before)

renew-readmission :
    (block : ℕ) (disk : Disk)
    → (block == 0) ≡ false
    → block ≤ block_or_zero (readmission_of (renew block disk).1)
unfolding renew
renew-readmission block disk h =
    rw h (elim (Bool-cases (ltb (block_or_zero (readmission_of disk)) block)) [
      | inl new ↦ rw (new) (omega arith)
      | inr old ↦ rw (old) (ground arith)
    ])

-- A readmission block other than 0 grants one quota: whatever sessions follow its renewal, to
-- renew at that block again returns and changes nothing.
pub renewed_once :
    (block total : ℕ) (start disk : Disk)
    → (block == 0) ≡ false
    → Sessions (renew block start).1 total disk
    → renew block disk ≡ (ok tt, disk)
renewed_once block total start disk h run =
    let low = renew-readmission block start h in
    let kept = ap block_or_zero (sessions-readmission run) in
    let late : ltb (block_or_zero (readmission_of disk)) block ≡ false = ground arith in
    unfold renew in rw (h, late) refl
