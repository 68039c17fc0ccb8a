-- ===== src/Download/Tests.antt =====
-- A download that crashes, is readmitted, and ends.
use witness_subnet.Base.{◌+◌, ◌≤◌, ◌≡◌, refl, none, arith}
use witness_subnet.Base.Eq.{nat_eq}
use witness_subnet.Base.Outcome.{ok, err}
use witness_subnet.Errors.{model_download_time_budget_exhausted}
use witness_subnet.Download.{
  Disk, charged_of, download_budget, session_of, enter, leave, remaining_s, renew,
}
use witness_subnet.Download.Quota.{Sessions, quota_kept, renewed_once}

-- A download of 100 seconds that ends.
abbrev ended : Disk
ended = leave 107000 (session_of 7000 none)

ended-charged : charged_of ended ≡ 100000
unfolding leave
ended-charged = refl

-- After a crash the quota is used up.
crashed_exhausts : (enter 9 (enter 7 none).1).0 ≡ err model_download_time_budget_exhausted
unfolding enter
crashed_exhausts = refl

first_fits : 100000 ≤ remaining_s 7000 (session_of 7000 none)
unfolding remaining_s
first_fits = omega arith

quota_kept_example : (100000 + 0 ≤ charged_of ended) × (charged_of ended ≤ download_budget)
quota_kept_example =
    quota_kept none ended 100000 (Sessions.ended 7000 100000 Sessions.begun refl first_fits)
      (omega arith)

abbrev readmitted : Disk
readmitted = (renew 500 (enter 7 none).1).1

second_fits : 3000 ≤ remaining_s 9 (session_of 9 readmitted)
unfolding remaining_s renew enter
second_fits = omega arith

renewed_once_example : renew 500 (enter 9 readmitted).1 ≡ (ok tt, (enter 9 readmitted).1)
unfolding renew enter
renewed_once_example =
    renewed_once 500 3000 (enter 7 none).1 (enter 9 readmitted).1 refl
      (Sessions.crashed 9 3000 Sessions.begun refl second_fits)
