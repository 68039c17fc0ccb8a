-- ===== src/Download.antt =====
-- The download budget of a model in witness/benchmark/download_budget.py, in whole milliseconds. The
-- disk holds the record of `charged_s`, or none; the monotonic clock is an argument. The file lock
-- makes each method a step of its own, and the tests of the path and of a damaged record are no part
-- of the model.
pub mod Quota
pub mod Tests
use witness_subnet.Base.{
  ℕ, ◌+◌, ◌-◌, Bool, true, false, Option, none, some, ltb, leb, if◌then◌else◌,
}
use witness_subnet.Base.Eq.{◌==◌, nat_eq}
use witness_subnet.Base.Outcome.{Outcome, ok, err}
use witness_subnet.Base.Method.{Action, ◌>>◌, guard, modify}
use witness_subnet.Errors.{Error, model_download_time_budget_exhausted, invalid_readmission_block}

-- `MODEL_DOWNLOAD_BUDGET_S` and `MODEL_DOWNLOAD_TURN_S`
abbrev pub download_budget : ℕ
download_budget = 900000

abbrev pub download_turn : ℕ
download_turn = 900000

pub record Saved : Type 0 where
  pub charged : ℕ
  pub active : Bool
  pub readmission_block : Option ℕ

abbrev pub Disk : Type 0
Disk = Option Saved

pub record Session : Type 0 where
  pub used : ℕ
  pub reserved : ℕ
  pub readmission_block : Option ℕ
  pub started : ℕ

abbrev pub smaller : ℕ → ℕ → ℕ
smaller a b = if leb a b then a else b

-- `record.get('charged_s', 0.)`
abbrev pub charged_of : Disk → ℕ
charged_of none = 0
charged_of (some saved) = saved.charged

abbrev pub readmission_of : Disk → Option ℕ
readmission_of none = none
readmission_of (some saved) = saved.readmission_block

abbrev pub block_or_zero : Option ℕ → ℕ
block_or_zero none = 0
block_or_zero (some block) = block

abbrev pub session_of : ℕ → Disk → Session
session_of now disk = record {
  used = charged_of disk;
  reserved = smaller download_turn (download_budget - charged_of disk);
  readmission_block = readmission_of disk;
  started = now;
}

-- `_record`
abbrev pub record_of : Session → ℕ → Bool → Disk
record_of session charged active =
    some
      (record { charged = charged; active = active; readmission_block = session.readmission_block })

-- `__enter__`: the whole reservation is charged before the download starts.
unfoldable pub enter : ℕ → Action Error Disk Session
enter now disk =
    let session = session_of now disk in
    if leb download_budget (charged_of disk)
    then (err model_download_time_budget_exhausted, disk)
    else (ok session, record_of session (session.used + session.reserved) true)

-- `remaining_s`: how long the session may go on
unfoldable pub remaining_s : ℕ → Session → ℕ
remaining_s now session = session.reserved - (now - session.started)

-- `__exit__`: the time that was not used is given back.
unfoldable pub leave : ℕ → Session → Disk
leave now session =
    record_of session (session.used + smaller session.reserved (now - session.started)) false

-- `renew`
unfoldable pub renew : ℕ → Action Error Disk (Unit {0})
renew block =
    guard (block == 0) invalid_readmission_block
    >> modify (λ disk.
      if ltb (block_or_zero (readmission_of disk)) block
      then some (record { charged = 0; active = false; readmission_block = some block })
      else disk)
