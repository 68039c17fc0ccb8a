-- ===== src/Budget/Granted.antt =====
-- What a reservation that witness/budget.py grants leaves in the table.
use witness_subnet.Base.{
  ℕ, ◌≤◌, ltb, ◌+◌, ◌-◌, ◌*◌, ◌/◌, ◌^◌, ◌≡◌, refl, ap, ◌∙◌, false, not, ◌||◌, Option, none, some,
  [], ◌∷◌, arith, inl, inr, Bool-cases,
}
use witness_subnet.Base.Eq.{eq_refl}
use witness_subnet.Base.Text.{Text, text_eq}
use witness_subnet.Base.Dict.{lookup, insert, contains, lookup-insert}
use witness_subnet.Base.Outcome.{Outcome, ok, err}
use witness_subnet.Base.Method.{Action, guard, lift, ◌>>=◌, transaction, transaction-ok, >>=-ok}
use witness_subnet.Errors.{Error}
use witness_subnet.Json.{Json, object, end}
use witness_subnet.Budget.{
  Usd, nanos, Reservation, DailyBudget, spent, exceeds, is_provider, insert_reservation, id_or,
  reserve_amount, connect, reserve_block, reserve, File, settle, settle_amount, settle_block,
  settle_row, changed, limits_of, on_file,
}

-- Whole nano-dollars are not rounded.
pub nanos_whole : (n : ℕ) → nanos (Usd.decimal n 9) ≡ ok n
unfolding nanos
nanos_whole n = let h : (n * 1000000000 + 10 ^ 9 - 1) / 10 ^ 9 ≡ n = omega arith in ap (λ m. ok m) h

same_id : (id : Text) → id_or (some id) id ≡ id
same_id [] = refl
same_id (c ∷ id) = refl

abbrev pub granted : Text → Text → Text → Text → ℕ → Reservation
granted day role provider input_hash amount = record {
  day = day;
  role = role;
  provider = provider;
  input_hash = input_hash;
  reserved = amount;
  settled = none;
  metadata = object end;
}

abbrev IsGranted : Text → Reservation → Outcome Error Text × DailyBudget → Type 0
IsGranted id row (ok got, b) = lookup id b.reservations ≡ some row
IsGranted id row (err e, b) = Unit

reserve_block-IsGranted :
    (id day role provider input_hash : Text) (amount : ℕ) (b : DailyBudget)
    → IsGranted id
        (granted day role provider input_hash amount)
        (reserve_block id day role provider input_hash amount b)
unfolding reserve_block insert_reservation
reserve_block-IsGranted id day role provider input_hash amount b =
    elim (Bool-cases (contains id b.reservations)) [
      | inl used ↦ rw (used, IsGranted, reserve_block) tt
      | inr new ↦
          elim (Bool-cases
            (exceeds (lookup role b.limits) (spent role day b.reservations + amount))) [
              | inl over ↦ rw (new, over, IsGranted, reserve_block) tt
              | inr fits ↦
                  rw (new, fits, IsGranted, reserve_block)
                    (lookup-insert id id (granted day role provider input_hash amount)
                        b.reservations
                      ∙ rw (eq_refl id) refl)
            ]
    ]

transaction-IsGranted :
    (id : Text) (row : Reservation) (r : Outcome Error Text × DailyBudget) (b : DailyBudget)
    → IsGranted id row r
    → IsGranted id row (elim r.0 as (λ x. Outcome Error Text × DailyBudget) [
      | ok a ↦ (ok a, r.1)
      | err e ↦ (err e, b)
    ])
transaction-IsGranted id row (ok got, t) b h = h
transaction-IsGranted id row (err e, t) b h = tt

reserve_amount-IsGranted :
    (id day role provider input_hash : Text) (amount : ℕ) (b : DailyBudget)
    → IsGranted id
        (granted day role provider input_hash amount)
        (reserve_amount id day role provider input_hash amount b)
unfolding reserve_amount connect transaction
reserve_amount-IsGranted id day role provider input_hash amount b =
    transaction-IsGranted id (granted day role provider input_hash amount)
      (reserve_block id day role provider input_hash amount b) b
      (reserve_block-IsGranted id day role provider input_hash amount b)

reserve-IsGranted :
    (id day role provider input_hash : Text) (amount : ℕ) (b : DailyBudget)
    → IsGranted id
        (granted day role provider input_hash amount)
        (reserve id day role provider input_hash (Usd.decimal amount 9) (some id) b)
unfolding reserve
reserve-IsGranted id day role provider input_hash amount b =
    let bad = not (contains role b.limits) || not (is_provider provider) in
    let usd = Usd.decimal amount 9 in
    let enter = λ (n : ℕ). reserve_amount (id_or (some id) id) day role provider input_hash n in
    elim (Bool-cases bad) [
      | inl is_bad ↦ rw (is_bad, IsGranted, reserve) tt
      | inr good ↦
          let passed =
            >>=-ok (guard bad Error.invalid_budget_identity) (λ _. lift (nanos usd) >>= enter) b b
              tt (rw good refl) in
          let priced =
            >>=-ok (lift (nanos usd)) enter b b amount (ap (λ o. (o, b)) (nanos_whole amount)) in
          rw (passed ∙ priced, same_id id)
            (reserve_amount-IsGranted id day role provider input_hash amount b)
    ]

IsGranted-ok :
    (id : Text) (row : Reservation) (r : Outcome Error Text × DailyBudget) (got : Text)
    → IsGranted id row r
    → r.0 ≡ ok got
    → lookup id r.1.reservations ≡ some row
IsGranted-ok id row (ok a, b) got h e = h
IsGranted-ok id row (err x, b) got h e = cc

-- A reservation that is granted is in the table, unsettled, with the whole amount.
pub on_file-granted :
    (limit : Option ℕ) (id day role provider input_hash got : Text) (amount : ℕ) (file : File)
    → (on_file limit
        (reserve id day role provider input_hash (Usd.decimal amount 9) (some id))
        file).0
      ≡ ok got
    → lookup id
        (on_file limit
          (reserve id day role provider input_hash (Usd.decimal amount 9) (some id))
          file).1.rows
      ≡ some (granted day role provider input_hash amount)
unfolding on_file
on_file-granted limit id day role provider input_hash got amount file h =
    let b : DailyBudget = record { limits = limits_of limit; reservations = file.rows } in
    IsGranted-ok id (granted day role provider input_hash amount)
      (reserve id day role provider input_hash (Usd.decimal amount 9) (some id) b) got
      (reserve-IsGranted id day role provider input_hash amount b) h

-- The settlement of a reservation that is open, at no more than its amount.
abbrev pub settled_at : ℕ → Json → Reservation → Reservation
settled_at cost metadata row = record row { settled = some cost; metadata = metadata }

settle_block-open :
    (id : Text) (cost : ℕ) (metadata : Json) (row : Reservation) (b : DailyBudget)
    → lookup id b.reservations ≡ some row
    → row.settled ≡ none
    → settle_block id cost metadata b ≡ (ok row.reserved, settle_row id cost metadata row b)
unfolding settle_block
settle_block-open id cost metadata row b found is_open =
    let same : changed row.settled cost ≡ false = rw is_open refl in
    rw (found, settle_block, same) refl

settle-open :
    (id : Text) (cost : ℕ) (metadata : Json) (row : Reservation) (b : DailyBudget)
    → lookup id b.reservations ≡ some row
    → row.settled ≡ none
    → cost ≤ row.reserved
    → settle id (Usd.decimal cost 9) metadata b ≡ (ok tt, settle_row id cost metadata row b)
unfolding settle settle_amount connect
settle-open id cost metadata row b found is_open fits =
    let usd = Usd.decimal cost 9 in
    let after = settle_row id cost metadata row b in
    let close = λ (amount : ℕ). settle_amount id amount metadata in
    let check : ℕ → Action Error DailyBudget (Unit {0}) =
      λ reserved. guard (ltb reserved cost) Error.provider_exceeded_reserved_ceiling in
    let block = settle_block id cost metadata in
    let priced = >>=-ok (lift (nanos usd)) close b b cost (ap (λ o. (o, b)) (nanos_whole cost)) in
    let inside =
      transaction-ok block b after row.reserved
        (settle_block-open id cost metadata row b found is_open) in
    let under : ltb row.reserved cost ≡ false = ground arith in
    let passed : check row.reserved after ≡ (ok tt, after) = rw under refl in
    priced ∙ >>=-ok (transaction block) check b after row.reserved inside ∙ passed

pub on_file-settled :
    (limit : Option ℕ) (id : Text) (cost : ℕ) (metadata : Json) (row : Reservation) (file : File)
    → lookup id file.rows ≡ some row
    → row.settled ≡ none
    → cost ≤ row.reserved
    → on_file limit (settle id (Usd.decimal cost 9) metadata) file
      ≡ (ok tt, record file { rows = insert id (settled_at cost metadata row) file.rows })
unfolding on_file settle_row
on_file-settled limit id cost metadata row file found is_open fits =
    let b : DailyBudget = record { limits = limits_of limit; reservations = file.rows } in
    ap (λ r. (r.0, record file { rows = r.1.reservations }))
      (settle-open id cost metadata row b found is_open fits)
