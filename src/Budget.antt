-- ===== src/Budget.antt =====
-- The daily budget of paid judge calls in witness/budget.py. Amounts are whole nano-dollars once
-- `nanos` has rounded them up; the metadata stand for their JSON text. The day of the clock and a fresh `uuid4().hex` are arguments. The
-- table `reservations` is a dictionary by its primary key; `connect` commits on return and takes
-- back the writes of a body that raises, so a method is an action on the database.
pub mod Limit
pub mod Report
pub mod Restart
pub mod Granted
pub mod Tests
use witness_subnet.Base.{
  ℕ, ◌+◌, ◌-◌, ◌*◌, ◌/◌, ◌^◌, Bool, true, false, ◌&&◌, ◌||◌, not, Option, none, some, List, [], ◌∷◌,
  ltb, leb, if◌then◌else◌, any,
}
use witness_subnet.Base.Eq.{Eq, ◌==◌, nat_eq}
use witness_subnet.Base.Text.{Text, text, text_eq}
use witness_subnet.Base.Dict.{Dict, lookup, contains, insert}
use witness_subnet.Base.Outcome.{Outcome, ok, err}
use witness_subnet.Base.Method.{
  Action, ◌>>=◌, ◌>>◌, modify, guard, lift, or_raise, pure, transaction,
}
use witness_subnet.Json.{Json, object, end}
use witness_subnet.Errors.{
  Error, invalid_cost, invalid_budget_identity, reservation_already_used, daily_budget_exhausted,
  unknown_reservation, budget_policy_changed, settlement_changed,
  provider_exceeded_reserved_ceiling,
}

abbrev pub nano : ℕ
nano = 1000000000

-- `Decimal(str(usd))`: digits with a number of decimal places, or a value that is refused. The
-- product with `nano` is exact, as it is for a decimal of at most 19 digits.
pub data Usd : Type 0 where
  decimal : ℕ → ℕ → Usd
  negative not_finite : Usd

-- Rounded up to the next whole nano-dollar.
unfoldable pub nanos : Usd → Outcome Error ℕ
nanos (decimal digits places) = ok ((digits * nano + 10 ^ places - 1) / 10 ^ places)
nanos negative = err invalid_cost
nanos not_finite = err invalid_cost

pub record Reservation : Type 0 where
  pub day : Text
  pub role : Text
  pub provider : Text
  pub input_hash : Text
  pub reserved : ℕ
  pub settled : Option ℕ
  pub metadata : Json

pub record DailyBudget : Type 0 where
  pub limits : Dict Text (Option ℕ)
  pub reservations : Dict Text Reservation

-- `COALESCE(settled,reserved)`
abbrev pub settled_or : Option ℕ → ℕ → ℕ
settled_or none reserved = reserved
settled_or (some cost) reserved = cost

abbrev pub charge : Reservation → ℕ
charge r = settled_or r.settled r.reserved

abbrev pub share : Text → Text → Reservation → ℕ
share role day r = if r.role == role && r.day == day then charge r else 0

-- `own`: the role's sum over the rows of the day
unfoldable pub spent : Text → Text → Dict Text Reservation → ℕ
spent role day [] = 0
spent role day ((id, r) ∷ rows) = share role day r + spent role day rows

-- `limits[role] is not None and own + amount > limits[role]`
abbrev pub exceeds : Option (Option ℕ) → ℕ → Bool
exceeds none total = false
exceeds (some none) total = false
exceeds (some (some limit)) total = ltb limit total

abbrev pub is_provider : Text → Bool
is_provider p = p == text "openai" || p == text "saygm"

unfoldable pub insert_reservation : Text → Text → Text → Text → Text → ℕ → DailyBudget → DailyBudget
insert_reservation id day role provider input_hash amount b = record b {
  reservations =
      insert id
        (record {
          day = day;
          role = role;
          provider = provider;
          input_hash = input_hash;
          reserved = amount;
          settled = none;
          metadata = object end;
        })
        b.reservations;
}

abbrev pub id_or : Option Text → Text → Text
id_or none fresh = fresh
id_or (some []) fresh = fresh
id_or (some id) fresh = id

-- `connect`: the block commits when it returns, and its writes are taken back when it raises.
unfoldable pub connect : {A : Type 0} → Action Error DailyBudget A → Action Error DailyBudget A
connect = transaction

-- The block of `reserve`, with the call's id and the amount.
unfoldable pub reserve_block : Text → Text → Text → Text → Text → ℕ → Action Error DailyBudget Text
reserve_block id day role provider input_hash amount b =
    (guard (contains id b.reservations) reservation_already_used
        >> guard (exceeds (lookup role b.limits) (spent role day b.reservations + amount))
            daily_budget_exhausted
        >> modify (insert_reservation id day role provider input_hash amount)
        >> pure id)
      b

unfoldable pub reserve_amount : Text → Text → Text → Text → Text → ℕ → Action Error DailyBudget Text
reserve_amount id day role provider input_hash amount =
    connect (reserve_block id day role provider input_hash amount)

unfoldable pub reserve :
    Text → Text → Text → Text → Text → Usd → Option Text → Action Error DailyBudget Text
reserve fresh day role provider input_hash upper call_id b =
    (guard (not (contains role b.limits) || not (is_provider provider)) invalid_budget_identity
        >> (lift (nanos upper) >>= λ amount.
            reserve_amount (id_or call_id fresh) day role provider input_hash amount))
      b

abbrev pub changed : Option ℕ → ℕ → Bool
changed none cost = false
changed (some old) cost = not (old == cost)

-- `UPDATE reservations SET settled=?,metadata=? WHERE id=?`
unfoldable pub settle_row : Text → ℕ → Json → Reservation → DailyBudget → DailyBudget
settle_row id cost metadata r b = record b {
  reservations = insert id (record r { settled = some cost; metadata = metadata }) b.reservations;
}

-- The block of `settle`; it returns what was reserved.
unfoldable pub settle_block : Text → ℕ → Json → Action Error DailyBudget ℕ
settle_block id cost metadata b = elim (lookup id b.reservations) [
  | none ↦ (err unknown_reservation, b)
  | some r ↦
      (guard (changed r.settled cost) settlement_changed
          >> modify (settle_row id cost metadata r)
          >> pure r.reserved)
        b
]

-- A cost above the reservation is recorded before it is refused.
unfoldable pub settle_amount : Text → ℕ → Json → Action Error DailyBudget (Unit {0})
settle_amount id cost metadata = connect (settle_block id cost metadata) >>= λ reserved.
    guard (ltb reserved cost) provider_exceeded_reserved_ceiling

unfoldable pub settle : Text → Usd → Json → Action Error DailyBudget (Unit {0})
settle id cost metadata b = (lift (nanos cost) >>= λ amount. settle_amount id amount metadata) b

-- The row of a role in `totals`, in nano-dollars.
pub record Totals : Type 0 where
  pub calls : ℕ
  pub settled : ℕ
  pub reserved : ℕ

abbrev pub no_totals : Totals
no_totals = record { calls = 0; settled = 0; reserved = 0 }

abbrev pub or_none : Option Totals → Totals
or_none none = no_totals
or_none (some t) = t

-- `COUNT(*)`, `SUM(settled)` and the sum of what is not settled, with one more row.
abbrev pub count_row : Reservation → Totals → Totals
count_row r t = record {
  calls = t.calls + 1;
  settled = t.settled + settled_or r.settled 0;
  reserved = t.reserved + (elim r.settled [ none ↦ r.reserved | some cost ↦ 0 ]);
}

-- `SELECT … WHERE day=? GROUP BY role`
unfoldable pub group_totals : Text → Dict Text Reservation → Dict Text Totals → Dict Text Totals
group_totals day [] groups = groups
group_totals day ((id, r) ∷ rows) groups =
    let rest = group_totals day rows groups in
    if r.day == day then insert r.role (count_row r (or_none (lookup r.role rest))) rest else rest

-- `totals`
unfoldable pub totals : Text → DailyBudget → Dict Text Totals
totals day b = group_totals day b.reservations []

-- The database file between the processes that open it: the table `policy`, whose one row holds the
-- limit of the role `validator`, and the table `reservations`.
pub record File : Type 0 where
  pub policy : Option (Option ℕ)
  pub rows : Dict Text Reservation

-- `self.limits`
abbrev pub limits_of : Option ℕ → Dict Text (Option ℕ)
limits_of limit = (text "validator", limit) ∷ []

abbrev pub same_limit : Option ℕ → Option ℕ → Bool
same_limit none none = true
same_limit none (some b) = false
same_limit (some a) none = false
same_limit (some a) (some b) = a == b

abbrev pub limit_of_usd : Option Usd → Outcome Error (Option ℕ)
limit_of_usd none = ok none
limit_of_usd (some usd) = elim (nanos usd) [ err e ↦ err e | ok n ↦ ok (some n) ]

-- The block of `__init__`: the first policy is stored, and a later one must be the same.
unfoldable pub check_policy : Option ℕ → Action Error File (Unit {0})
check_policy limit file = elim file.policy [
  | none ↦ (ok tt, record file { policy = some limit })
  | some stored ↦
      if same_limit stored limit then (ok tt, file) else (err budget_policy_changed, file)
]

-- `__init__`; what it returns is the limit that the object then holds.
unfoldable pub open_budget : Option Usd → Action Error File (Option ℕ)
open_budget usd = lift (limit_of_usd usd) >>= λ limit. check_policy limit >> pure limit

-- A method of an object with that limit, on the file.
unfoldable pub on_file : {A : Type 0} → Option ℕ → Action Error DailyBudget A → Action Error File A
on_file limit method file =
    let (r, b) = method (record { limits = limits_of limit; reservations = file.rows }) in
    (r, record file { rows = b.reservations })
