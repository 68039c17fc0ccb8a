-- ===== src/Budget/Report.antt =====
-- The report of a day in witness/budget.py against what `reserve` counts.
use witness_subnet.Base.{ℕ, ◌+◌, ◌≡◌, ◌∙◌, refl, [], ◌∷◌, arith, Bool-cases, Option-cases, inl, inr}
use witness_subnet.Base.Eq.{◌==◌, eq_iff}
use witness_subnet.Base.Text.{Text, text_eq}
use witness_subnet.Base.Dict.{Dict, lookup, lookup-insert}
use witness_subnet.Budget.{
  Reservation, DailyBudget, charge, spent, Totals, or_none, count_row, group_totals, totals,
}

abbrev pub total_of : Totals → ℕ
total_of t = t.settled + t.reserved

count_row-total : (r : Reservation) (t : Totals) → total_of (count_row r t) ≡ total_of t + charge r
count_row-total r t = elim (Option-cases r.settled) [
  | inl e ↦ rw e (omega arith)
  | inr (cost, e) ↦ rw e (omega arith)
]

group_totals-spent :
    (role day : Text) (rows : Dict Text Reservation)
    → total_of (or_none (lookup role (group_totals day rows []))) ≡ spent role day rows
unfolding group_totals spent lookup
group_totals-spent role day [] = refl
group_totals-spent role day ((id, r) ∷ rows) =
    let rest = group_totals day rows [] in
    let before = group_totals-spent role day rows in
    let here = lookup-insert r.role role (count_row r (or_none (lookup r.role rest))) rest in
    elim (Bool-cases (r.day == day)) [
      | inr other ↦
          rw (other, spent, group_totals)
            (elim (Bool-cases (r.role == role)) [
              | inl own ↦ rw own (omega (arith, before))
              | inr not_own ↦ rw not_own (omega (arith, before))
            ])
      | inl now ↦ elim (Bool-cases (r.role == role)) [
        | inr other ↦ rw (now, spent, group_totals, here, other) (omega (arith, before))
        | inl own ↦
            let same : r.role ≡ role = (eq_iff r.role role).0 own in
            rw (now, spent, group_totals, here, own, same)
              (count_row-total r (or_none (lookup role rest)) ∙ omega (arith, before))
      ]
    ]

-- The two sums that `totals` reports for a role and a day add up to what `reserve` counts against
-- the limit of the role on that day.
pub totals_agree :
    (role day : Text) (b : DailyBudget)
    → total_of (or_none (lookup role (totals day b))) ≡ spent role day b.reservations
unfolding totals
totals_agree role day b = group_totals-spent role day b.reservations
