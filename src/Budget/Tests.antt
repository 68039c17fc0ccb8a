-- ===== src/Budget/Tests.antt =====
-- A day of paid calls.
use mathlib.Core.Logic.{◌≢◌}
use witness_subnet.Base.{ℕ, ◌≤◌, ◌≡◌, refl, Option, none, some, [], ◌∷◌}
use witness_subnet.Base.Eq.{nat_eq}
use witness_subnet.Base.Text.{Text, text, text_eq, text_beq}
use witness_subnet.Base.Dict.{Dict, lookup, contains, insert}
use witness_subnet.Base.Outcome.{ok, err}
use mathlib.Core.List.{Memᴰ}
use witness_subnet.Base.Method.{transaction}
use witness_subnet.Budget.Report.{total_of, totals_agree}
use witness_subnet.Budget.Restart.{Runs, budget_across_restarts}
use witness_subnet.Json.{object, end}
use witness_subnet.Errors.{budget_policy_changed}
use witness_subnet.Errors.{provider_exceeded_reserved_ceiling, daily_budget_exhausted}
use witness_subnet.Budget.{
  connect, reserve_block, settle_block, totals, File, open_budget, on_file, check_policy, or_none,
  Usd, DailyBudget, nanos, reserve, reserve_amount, insert_reservation, settle, settle_amount,
  settle_row, spent,
}
use witness_subnet.Budget.Limit.{Reach, never_over_limit}

abbrev limits : Dict Text (Option ℕ)
limits = (text "validator", some 9000000000) ∷ []

abbrev empty : DailyBudget
empty = record { limits = limits; reservations = [] }

abbrev day : Text
day = text "2026-01-01"

-- Five dollars are reserved; the call costs 1.25 dollars.
abbrev one : DailyBudget
one =
    (reserve (text "id1") day (text "validator") (text "openai") (text "hash") (Usd.decimal 5 0)
      none empty).1

abbrev two : DailyBudget
two = (settle (text "id1") (Usd.decimal 125 2) (object end) one).1

settled_fine : (settle (text "id1") (Usd.decimal 125 2) (object end) one).0 ≡ ok tt
unfolding settle settle_amount settle_row settle_block connect transaction nanos reserve
    reserve_amount reserve_block insert_reservation spent lookup contains insert text_beq
settled_fine = refl

settled_not_over :
    (settle (text "id1") (Usd.decimal 125 2) (object end) one).0
    ≢ err provider_exceeded_reserved_ceiling
settled_not_over h = cc (settled_fine)

two-limit : lookup (text "validator") two.limits ≡ some (some 9000000000)
unfolding settle settle_amount settle_row settle_block connect transaction nanos reserve
    reserve_amount reserve_block insert_reservation spent lookup contains insert text_beq
two-limit = refl

two-spent : spent (text "validator") day two.reservations ≡ 1250000000
unfolding settle settle_amount settle_row settle_block connect transaction nanos reserve
    reserve_amount reserve_block insert_reservation spent lookup contains insert text_beq
two-spent = refl

-- A second call of nine dollars is refused on that day.
refused :
    (reserve
      (text "id2")
      day
      (text "validator")
      (text "openai")
      (text "hash")
      (Usd.decimal 9 0)
      none
      two).0
    ≡ err daily_budget_exhausted
unfolding settle settle_amount settle_row settle_block connect transaction nanos reserve
    reserve_amount reserve_block insert_reservation spent lookup contains insert text_beq
refused = refl

never_over_limit_example : spent (text "validator") day two.reservations ≤ 9000000000
never_over_limit_example =
    never_over_limit limits two (text "validator") 9000000000 day
      (Reach.settled (text "id1") (Usd.decimal 125 2) (object end)
        (Reach.reserved (text "id1") day (text "validator") (text "openai") (text "hash")
          (Usd.decimal 5 0) none Reach.start)
        settled_not_over)
      two-limit

totals_agree_example :
    total_of (or_none (lookup (text "validator") (totals day two)))
    ≡ spent (text "validator") day two.reservations
totals_agree_example = totals_agree (text "validator") day two

abbrev new_file : File
new_file = record { policy = none; rows = [] }

abbrev nine : Option Usd
nine = some (Usd.decimal 9 0)

abbrev first_open : File
first_open = (open_budget nine new_file).1

open_first : (open_budget nine new_file).0 ≡ ok (some 9000000000)
unfolding open_budget check_policy nanos
open_first = refl

open_again : (open_budget nine first_open).0 ≡ ok (some 9000000000)
unfolding open_budget check_policy nanos
open_again = refl

-- Who asks for another limit is refused.
open_other : (open_budget none first_open).0 ≡ err budget_policy_changed
unfolding open_budget check_policy nanos
open_other = refl

abbrev charged : File
charged =
    (on_file (some 9000000000)
      (reserve (text "id1") day (text "validator") (text "openai") (text "hash") (Usd.decimal 5 0)
        none)
      (open_budget nine first_open).1).1

budget_across_restarts_example : spent (text "validator") day charged.rows ≤ 9000000000
budget_across_restarts_example =
    budget_across_restarts charged (some 9000000000 ∷ some 9000000000 ∷ []) 9000000000 day
      (Runs.reserved (some 9000000000) (text "id1") day (text "validator") (text "openai")
        (text "hash") (Usd.decimal 5 0) none
        (Runs.opened nine (some 9000000000)
          (Runs.opened nine (some 9000000000) Runs.fresh open_first) open_again)
        (Memᴰ.head refl))
      (Memᴰ.head refl)
