-- ===== src/Budget/Limit.antt =====
-- The charges of a day in witness/budget.py, and the limit of their role.
use witness_subnet.Base.{
  true, ℕ, ◌+◌, ◌≤◌, ◌≡◌, ◌≢◌, refl, ap, sym, ◌∙◌, false, ◌||◌, not, Option, none, some, [], ◌∷◌,
  ltb, arith, Bool-cases, Option-cases, inl, inr,
}
use witness_subnet.Base.Eq.{◌==◌, nat_eq, eq_iff}
use witness_subnet.Base.Text.{Text, text_eq}
use witness_subnet.Base.Dict.{Dict, lookup, contains, insert}
use witness_subnet.Base.Outcome.{ok, err, Outcome-cases}
use witness_subnet.Base.Method.{
  guard, transaction, transaction_keeps, transaction-ok, transaction-err, >>=-ok, >>=-err,
}
use witness_subnet.Json.{Json, object, end}
use witness_subnet.Errors.{Error}
use witness_subnet.Budget.{
  Usd, nanos, Reservation, DailyBudget, settled_or, share, spent, exceeds, is_provider,
  insert_reservation, id_or, reserve_amount, connect, reserve_block, settle_block, reserve, changed,
  settle_row, settle_amount, settle,
}

-- A new row adds its share.
spent-insert_new :
    (role day id : Text) (r : Reservation) (rows : Dict Text Reservation)
    → lookup id rows ≡ none
    → spent role day (insert id r rows) ≡ spent role day rows + share role day r
unfolding spent lookup insert
spent-insert_new role day id r [] h = ground arith
spent-insert_new role day id r ((j, q) ∷ rows) h = elim (Bool-cases (j == id)) [
  | inl e ↦ absurd (ground arith)
  | inr e ↦
      let rest : lookup id rows ≡ none = ground arith in
      rw (e, spent) (ground (arith, spent-insert_new role day id r rows rest))
]

-- A row that is replaced gives up its share for the new one's.
spent-insert_old :
    (role day id : Text) (q r : Reservation) (rows : Dict Text Reservation)
    → lookup id rows ≡ some q
    → spent role day (insert id r rows) + share role day q ≡ spent role day rows + share role day r
unfolding spent lookup insert
spent-insert_old role day id q r [] h = cc
spent-insert_old role day id q r ((j, p) ∷ rows) h = elim (Bool-cases (j == id)) [
  | inl e ↦ let same : p ≡ q = ground arith in rw (e, spent, same) (ground arith)
  | inr e ↦
      let rest : lookup id rows ≡ some q = ground arith in
      rw (e, spent) (ground (arith, spent-insert_old role day id q r rows rest))
]

-- Every day's charges of every limited role are within its limit.
abbrev pub IsWithin : DailyBudget → Type 0
IsWithin b =
    (role : Text) (limit : ℕ)
    → lookup role b.limits ≡ some (some limit)
    → (day : Text) → spent role day b.reservations ≤ limit

insert_reservation-IsWithin :
    (id day role provider input_hash : Text) (amount : ℕ) (b : DailyBudget)
    → lookup id b.reservations ≡ none
    → exceeds (lookup role b.limits) (spent role day b.reservations + amount) ≡ false
    → IsWithin b
    → IsWithin (insert_reservation id day role provider input_hash amount b)
unfolding insert_reservation
insert_reservation-IsWithin id day role provider input_hash amount b new fits h role' limit is_limit
      day' =
    let r : Reservation = record {
      day = day;
      role = role;
      provider = provider;
      input_hash = input_hash;
      reserved = amount;
      settled = none;
      metadata = object end;
    } in
    let total = spent-insert_new role' day' id r b.reservations new in
    let old = h role' limit is_limit day' in
    elim (Bool-cases (role == role')) [
      | inr other ↦ ground arith
      | inl same_role ↦ elim (Bool-cases (day == day')) [
        | inr other ↦ ground arith
        | inl same_day ↦
            let at_role : role ≡ role' = (eq_iff role role').0 same_role in
            let at_day : day ≡ day' = (eq_iff day day').0 same_day in
            let limited : lookup role b.limits ≡ some (some limit) = rw (at_role) is_limit in
            let fits' : exceeds (some (some limit)) (spent role day b.reservations + amount)
                ≡ false =
              ap (λ o. exceeds o (spent role day b.reservations + amount)) (sym limited) ∙ fits in
            let fits'' : exceeds (some (some limit)) (spent role' day' b.reservations + amount)
                ≡ false =
              rw (← at_role, ← at_day) fits' in
            ground arith
      ]
    ]

absent :
    (id : Text) (rows : Dict Text Reservation) → contains id rows ≡ false → lookup id rows ≡ none
unfolding contains
absent id rows h = elim (Option-cases (lookup id rows)) [
  | inl e ↦ e
  | inr (r, e) ↦ absurd (ground arith)
]

reserve_block-IsWithin :
    (id day role provider input_hash : Text) (amount : ℕ) (b : DailyBudget)
    → IsWithin b
    → IsWithin (reserve_block id day role provider input_hash amount b).1
unfolding reserve_block
reserve_block-IsWithin id day role provider input_hash amount b h =
    elim (Bool-cases (contains id b.reservations)) [
      | inl e ↦ rw (e, reserve_block) h
      | inr e ↦
          elim (Bool-cases
            (exceeds (lookup role b.limits) (spent role day b.reservations + amount))) [
              | inl over ↦ rw (e, over, reserve_block) h
              | inr fits ↦
                  rw (e, fits, reserve_block)
                    (insert_reservation-IsWithin id day role provider input_hash amount b
                      (absent id b.reservations e) fits h)
            ]
    ]

reserve_amount-IsWithin :
    (id day role provider input_hash : Text) (amount : ℕ) (b : DailyBudget)
    → IsWithin b
    → IsWithin (reserve_amount id day role provider input_hash amount b).1
unfolding reserve_amount connect
reserve_amount-IsWithin id day role provider input_hash amount b h =
    let block = reserve_block id day role provider input_hash amount in
    transaction_keeps IsWithin block b h
      (reserve_block-IsWithin id day role provider input_hash amount b h)

-- A reservation, granted or refused, leaves every day within the limit.
pub reserve-IsWithin :
    (fresh day role provider input_hash : Text) (upper : Usd) (call_id : Option Text)
    (b : DailyBudget)
    → IsWithin b
    → IsWithin (reserve fresh day role provider input_hash upper call_id b).1
unfolding reserve
reserve-IsWithin fresh day role provider input_hash upper call_id b h =
    elim (Bool-cases (not (contains role b.limits) || not (is_provider provider))) [
      | inl bad ↦ rw (bad, reserve) h
      | inr good ↦ elim (Outcome-cases (nanos upper)) [
        | inl (e, bad) ↦ rw (good, bad, reserve) h
        | inr (amount, is_amount) ↦
            rw (good, is_amount, reserve)
              (reserve_amount-IsWithin (id_or call_id fresh) day role provider input_hash amount b
                h)
      ]
    ]

settled_charge :
    (old : Option ℕ) (reserved cost : ℕ)
    → changed old cost ≡ false
    → cost ≤ reserved
    → cost ≤ settled_or old reserved
settled_charge none reserved cost h le = le
settled_charge (some c) reserved cost h le = ground (arith, eq_iff c cost)

settle_row-IsWithin :
    (id : Text) (cost : ℕ) (metadata : Json) (r : Reservation) (b : DailyBudget)
    → lookup id b.reservations ≡ some r
    → changed r.settled cost ≡ false
    → cost ≤ r.reserved
    → IsWithin b
    → IsWithin (settle_row id cost metadata r b)
unfolding settle_row
settle_row-IsWithin id cost metadata r b found same le h role limit is_limit day =
    let total =
      spent-insert_old role day id r (record r { settled = some cost; metadata = metadata })
        b.reservations found in
    let old = h role limit is_limit day in
    let less = settled_charge r.settled r.reserved cost same le in ground arith

-- The three ends of the block of a settlement.
settle_block-unknown :
    (id : Text) (cost : ℕ) (metadata : Json) (b : DailyBudget)
    → lookup id b.reservations ≡ none
    → settle_block id cost metadata b ≡ (err Error.unknown_reservation, b)
unfolding settle_block
settle_block-unknown id cost metadata b e = rw (e, settle_block)

settle_block-changed :
    (id : Text) (cost : ℕ) (metadata : Json) (b : DailyBudget) (r : Reservation)
    → lookup id b.reservations ≡ some r
    → changed r.settled cost ≡ true
    → settle_block id cost metadata b ≡ (err Error.settlement_changed, b)
unfolding settle_block
settle_block-changed id cost metadata b r e other = rw (e, other, settle_block)

pub settle_block-found :
    (id : Text) (cost : ℕ) (metadata : Json) (b : DailyBudget) (r : Reservation)
    → lookup id b.reservations ≡ some r
    → changed r.settled cost ≡ false
    → settle_block id cost metadata b ≡ (ok r.reserved, settle_row id cost metadata r b)
unfolding settle_block
settle_block-found id cost metadata b r e same = rw (e, same, settle_block)

-- How a settlement ends, from how its block does.
settle_amount-err :
    (id : Text) (cost : ℕ) (metadata : Json) (b : DailyBudget) (e : Error)
    → settle_block id cost metadata b ≡ (err e, b)
    → settle_amount id cost metadata b ≡ (err e, b)
unfolding settle_amount connect
settle_amount-err id cost metadata b e h =
    let block = settle_block id cost metadata in
    >>=-err (transaction block)
      (λ reserved. guard (ltb reserved cost) Error.provider_exceeded_reserved_ceiling) b b e
      (transaction-err block b b e h)

pub settle_amount-found :
    (id : Text) (cost : ℕ) (metadata : Json) (b : DailyBudget) (r : Reservation)
    → lookup id b.reservations ≡ some r
    → changed r.settled cost ≡ false
    → settle_amount id cost metadata b
      ≡ guard
          (ltb r.reserved cost)
          Error.provider_exceeded_reserved_ceiling
          (settle_row id cost metadata r b)
unfolding settle_amount connect
settle_amount-found id cost metadata b r e same =
    let block = settle_block id cost metadata in
    let after = settle_row id cost metadata r b in
    >>=-ok (transaction block)
      (λ reserved. guard (ltb reserved cost) Error.provider_exceeded_reserved_ceiling) b after
      r.reserved
      (transaction-ok block b after r.reserved (settle_block-found id cost metadata b r e same))

settle_amount-IsWithin :
    (id : Text) (cost : ℕ) (metadata : Json) (b : DailyBudget)
    → (settle_amount id cost metadata b).0 ≢ err Error.provider_exceeded_reserved_ceiling
    → IsWithin b
    → IsWithin (settle_amount id cost metadata b).1
settle_amount-IsWithin id cost metadata b fine h = elim (Option-cases (lookup id b.reservations)) [
  | inl e ↦
      rw (settle_amount-err id cost metadata b _ (settle_block-unknown id cost metadata b e)) h
  | inr (r, e) ↦ elim (Bool-cases (changed r.settled cost)) [
    | inl other ↦
        rw
          (settle_amount-err id cost metadata b _
            (settle_block-changed id cost metadata b r e other))
          h
    | inr same ↦
        let found = settle_amount-found id cost metadata b r e same in
        elim (Bool-cases (ltb r.reserved cost)) [
          | inl over ↦ absurd (fine (rw (found, over) refl))
          | inr under ↦
              rw (found, under) (settle_row-IsWithin id cost metadata r b e same (ground arith) h)
        ]
  ]
]

-- A settlement leaves every day within the limit, unless it reports a cost above the reservation.
pub settle-IsWithin :
    (id : Text) (cost : Usd) (metadata : Json) (b : DailyBudget)
    → (settle id cost metadata b).0 ≢ err Error.provider_exceeded_reserved_ceiling
    → IsWithin b
    → IsWithin (settle id cost metadata b).1
unfolding settle
settle-IsWithin id cost metadata b fine h = elim (Outcome-cases (nanos cost)) [
  | inl (e, bad) ↦ rw (bad, settle) h
  | inr (amount, is_amount) ↦
      rw (is_amount, settle)
        (settle_amount-IsWithin id amount metadata b (λ bad. fine (rw (is_amount, settle) bad)) h)
]

-- The calls of a run, each on the database that the one before it left.
pub data Reach : DailyBudget → DailyBudget → Type 0 where
  start : {b : DailyBudget} → Reach b b
  reserved :
      {b c : DailyBudget} (fresh day role provider input_hash : Text) (upper : Usd)
      (call_id : Option Text)
      → Reach b c
      → Reach b (reserve fresh day role provider input_hash upper call_id c).1
  settled :
      {b c : DailyBudget} (id : Text) (cost : Usd) (metadata : Json)
      → Reach b c
      → (settle id cost metadata c).0 ≢ err Error.provider_exceeded_reserved_ceiling
      → Reach b (settle id cost metadata c).1

run-IsWithin : {b c : DailyBudget} → IsWithin b → Reach b c → IsWithin c
run-IsWithin h Reach.start = h
run-IsWithin h (Reach.reserved fresh day role provider input_hash upper call_id r) =
    reserve-IsWithin fresh day role provider input_hash upper call_id _ (run-IsWithin h r)
run-IsWithin h (Reach.settled id cost metadata r fine) =
    settle-IsWithin id cost metadata _ fine (run-IsWithin h r)

empty-IsWithin :
    (limits : Dict Text (Option ℕ)) → IsWithin (record { limits = limits; reservations = [] })
unfolding spent
empty-IsWithin limits role limit is_limit day = ground arith

-- From an empty table, no run of calls charges more on a day than the limit of a role that has
-- one, as long as no settlement exceeds its reservation.
pub never_over_limit :
    (limits : Dict Text (Option ℕ)) (b : DailyBudget) (role : Text) (limit : ℕ) (day : Text)
    → Reach (record { limits = limits; reservations = [] }) b
    → lookup role b.limits ≡ some (some limit)
    → spent role day b.reservations ≤ limit
never_over_limit limits b role limit day reached is_limit =
    run-IsWithin (empty-IsWithin limits) reached role limit is_limit day
