-- ===== src/Budget/Restart.antt =====
-- The budget file of witness/budget.py between the processes that open it.
use mathlib.Core.List.{Memᴰ}
use witness_subnet.Base.{
  ℕ, ◌+◌, ◌≤◌, ◌≡◌, ◌≢◌, ◌⊎◌, refl, ap, ◌∙◌, Bool, true, false, ◌||◌, not, Option, none, some, List,
  [], ◌∷◌, arith, Bool-cases, Option-cases, inl, inr, ltb,
}
use witness_subnet.Base.Eq.{nat_eq, eq_iff}
use witness_subnet.Base.Text.{Text, text, text_eq, text_beq}
use witness_subnet.Base.Dict.{Dict, lookup, contains}
use witness_subnet.Base.Outcome.{Outcome, ok, err, Outcome-cases}
use witness_subnet.Base.Method.{
  Action, ◌>>=◌, ◌>>◌, guard, lift, pure, transaction, transaction_keeps, >>=_keeps,
}
use witness_subnet.Json.{Json}
use witness_subnet.Errors.{Error}
use witness_subnet.Budget.{
  Usd, nanos, Reservation, DailyBudget, File, limits_of, same_limit, limit_of_usd, check_policy,
  open_budget, on_file, exceeds, is_provider, reserve, reserve_amount, reserve_block,
  insert_reservation, id_or, settle, settle_amount, settle_block, settle_row, changed, connect,
  spent,
}
use witness_subnet.Budget.Limit.{IsWithin, reserve-IsWithin, settle-IsWithin}

-- No method touches the limits.
abbrev SameLimits : DailyBudget → DailyBudget → Type 0
SameLimits b c = c.limits ≡ b.limits

SameLimits-trans : (b c d : DailyBudget) → SameLimits b c → SameLimits c d → SameLimits b d
SameLimits-trans b c d p q = q ∙ p

abbrev KeepsLimits : {A : Type 0} → Action Error DailyBudget A → Type 0
KeepsLimits m = (b : DailyBudget) → SameLimits b (m b).1

bind_keeps :
    {A B : Type 0} (m : Action Error DailyBudget A) (k : A → Action Error DailyBudget B)
    → KeepsLimits m
    → ((a : A) → KeepsLimits (k a))
    → KeepsLimits (m >>= k)
bind_keeps m k first next = >>=_keeps SameLimits m k SameLimits-trans first next

guard_keeps : (t : Bool) (e : Error) → KeepsLimits (guard t e)
guard_keeps true e b = refl
guard_keeps false e b = refl

reserve_block_keeps :
    (id day role provider input_hash : Text) (amount : ℕ)
    → KeepsLimits (reserve_block id day role provider input_hash amount)
unfolding reserve_block insert_reservation
reserve_block_keeps id day role provider input_hash amount b =
    elim (Bool-cases (contains id b.reservations)) [
      | inl e ↦ rw (e, reserve_block) refl
      | inr e ↦
          elim (Bool-cases
            (exceeds (lookup role b.limits) (spent role day b.reservations + amount))) [
              | inl over ↦ rw (e, over, reserve_block) refl
              | inr fits ↦ rw (e, fits, reserve_block) refl
            ]
    ]

pub reserve_keeps :
    (fresh day role provider input_hash : Text) (upper : Usd) (call_id : Option Text)
    → KeepsLimits (reserve fresh day role provider input_hash upper call_id)
unfolding reserve reserve_amount connect
reserve_keeps fresh day role provider input_hash upper call_id b =
    let block =
      λ (amount : ℕ). reserve_block (id_or call_id fresh) day role provider input_hash amount in
    let bad = not (contains role b.limits) || not (is_provider provider) in
    bind_keeps (guard bad Error.invalid_budget_identity)
      (λ _. lift (nanos upper) >>= λ amount. transaction (block amount))
      (guard_keeps bad Error.invalid_budget_identity)
      (λ _.
        bind_keeps (lift (nanos upper)) (λ amount. transaction (block amount)) (λ c. refl)
          (λ amount c.
            transaction_keeps (SameLimits c) (block amount) c refl
              (reserve_block_keeps (id_or call_id fresh) day role provider input_hash amount c)))
      b

settle_block_keeps :
    (id : Text) (cost : ℕ) (metadata : Json) → KeepsLimits (settle_block id cost metadata)
unfolding settle_block settle_row
settle_block_keeps id cost metadata b = elim (Option-cases (lookup id b.reservations)) [
  | inl e ↦ rw (e, settle_block) refl
  | inr (r, e) ↦ elim (Bool-cases (changed r.settled cost)) [
    | inl other ↦ rw (e, other, settle_block) refl
    | inr same ↦ rw (e, same, settle_block) refl
  ]
]

pub settle_keeps :
    (id : Text) (cost : Usd) (metadata : Json) → KeepsLimits (settle id cost metadata)
unfolding settle settle_amount connect
settle_keeps id cost metadata b =
    let block = λ (amount : ℕ). settle_block id amount metadata in
    bind_keeps (lift (nanos cost)) (λ amount. settle_amount id amount metadata) (λ c. refl)
      (λ amount.
        bind_keeps (transaction (block amount))
          (λ reserved. guard (ltb reserved amount) Error.provider_exceeded_reserved_ceiling)
          (λ c.
            transaction_keeps (SameLimits c) (block amount) c refl
              (settle_block_keeps id amount metadata c))
          (λ reserved. guard_keeps (ltb reserved amount) Error.provider_exceeded_reserved_ceiling))
      b

-- The objects that processes hold open on the file, each with its limit, and what they do in any
-- order: an object is opened, or one of them reserves or settles.
pub data Runs : File → List (Option ℕ) → Type 0 where
  fresh : Runs (record { policy = none; rows = [] }) []
  opened :
      {file : File} {open_limits : List (Option ℕ)} (usd : Option Usd) (limit : Option ℕ)
      → Runs file open_limits
      → (open_budget usd file).0 ≡ ok limit
      → Runs (open_budget usd file).1 (limit ∷ open_limits)
  refused :
      {file : File} {open_limits : List (Option ℕ)} (usd : Option Usd) (e : Error)
      → Runs file open_limits
      → (open_budget usd file).0 ≡ err e
      → Runs (open_budget usd file).1 open_limits
  reserved :
      {file : File} {open_limits : List (Option ℕ)} (limit : Option ℕ)
      (uuid day role provider input_hash : Text) (upper : Usd) (call_id : Option Text)
      → Runs file open_limits
      → Memᴰ limit open_limits
      → Runs
          (on_file limit (reserve uuid day role provider input_hash upper call_id) file).1
          open_limits
  settled :
      {file : File} {open_limits : List (Option ℕ)} (limit : Option ℕ) (id : Text) (cost : Usd)
      (metadata : Json)
      → Runs file open_limits
      → Memᴰ limit open_limits
      → (on_file limit (settle id cost metadata) file).0
        ≢ err Error.provider_exceeded_reserved_ceiling
      → Runs (on_file limit (settle id cost metadata) file).1 open_limits

abbrev RowsWithin : Option ℕ → Dict Text Reservation → Type 0
RowsWithin limit rows = IsWithin (record { limits = limits_of limit; reservations = rows })

-- What holds of the file while objects with those limits are open on it.
record Holds (file : File) (open_limits : List (Option ℕ)) : Type 0 where
  agreed : (limit : Option ℕ) → Memᴰ limit open_limits → file.policy ≡ some limit
  unused : file.policy ≡ none → file.rows ≡ []
  within : (limit : Option ℕ) → file.policy ≡ some limit → RowsWithin limit file.rows

same_limit-eq : (a b : Option ℕ) → same_limit a b ≡ true → a ≡ b
same_limit-eq none none h = refl
same_limit-eq none (some b) h = cc
same_limit-eq (some a) none h = cc
same_limit-eq (some a) (some b) h = ground (arith, eq_iff a b)

-- A method on a file that keeps the limits and stays within them.
on_file-Holds :
    {A : Type 0} (limit : Option ℕ) (m : Action Error DailyBudget A) (file : File)
    (open_limits : List (Option ℕ))
    → Holds file open_limits
    → file.policy ≡ some limit
    → KeepsLimits m
    → (IsWithin (record { limits = limits_of limit; reservations = file.rows })
        → IsWithin (m (record { limits = limits_of limit; reservations = file.rows })).1)
    → Holds (on_file limit m file).1 open_limits
unfolding on_file
on_file-Holds limit m file open_limits h same keeps good = record {
  agreed = h.agreed;
  unused = λ e. absurd (ground arith);
  within = λ other is_other.
      let b : DailyBudget = record { limits = limits_of limit; reservations = file.rows } in
      let at : limit ≡ other = ground arith in
      let done : IsWithin (m b).1 = good (h.within limit same) in
      let limits : (m b).1.limits ≡ limits_of limit = keeps b in
      rw (← at) (λ role bound is_bound day. done role bound (rw limits is_bound) day);
}

-- The ends of an opening.
abbrev Opens : File → Outcome Error (Option ℕ) × File → Type 0
Opens file (ok limit, f) =
    (f.rows ≡ file.rows)
    × (f.policy ≡ some limit)
    × ((file.policy ≡ none) ⊎ (file.policy ≡ some limit))
Opens file (err e, f) = f ≡ file

check_policy-Opens :
    (policy : Option (Option ℕ)) (l : Option ℕ) (rows : Dict Text Reservation)
    → Opens
        (record { policy = policy; rows = rows })
        ((check_policy l >> pure l) (record { policy = policy; rows = rows }))
unfolding check_policy
check_policy-Opens none l rows = (refl, refl, inl refl)
check_policy-Opens (some stored) l rows = elim (Bool-cases (same_limit stored l)) [
  | inl same ↦
      let at : stored ≡ l = same_limit-eq stored l same in
      rw (same, Opens, check_policy, ◌>>=◌, same) (refl, ap some at, inr (ap some at))
  | inr other ↦ rw (other, Opens, check_policy, ◌>>=◌, other) refl
]

open_budget-Opens : (usd : Option Usd) (file : File) → Opens file (open_budget usd file)
unfolding open_budget
open_budget-Opens usd file = elim (Outcome-cases (limit_of_usd usd)) [
  | inl (e, bad) ↦ rw (bad, Opens) refl
  | inr (limit, good) ↦ rw good (check_policy-Opens file.policy limit file.rows)
]

empty-IsWithin : (limit : Option ℕ) → RowsWithin limit []
unfolding spent
empty-IsWithin limit role bound is_bound day = omega arith

Opens-ok :
    {file : File} (r : Outcome Error (Option ℕ) × File) (limit : Option ℕ)
    → r.0 ≡ ok limit
    → Opens file r
    → Opens file (ok limit, r.1)
Opens-ok (ok l, f) limit e h = let same : l ≡ limit = cc in rw (← same) h
Opens-ok (err x, f) limit e h = cc

Opens-err :
    {file : File} (r : Outcome Error (Option ℕ) × File) (x : Error)
    → r.0 ≡ err x
    → Opens file r
    → r.1 ≡ file
Opens-err (ok l, f) x e h = cc
Opens-err (err y, f) x e h = h

not_mem : {l : Option ℕ} → Memᴰ l [] → ⊥
not_mem m = elim m [ ]

mem-cons_cases :
    (l limit : Option ℕ) (ls : List (Option ℕ)) → Memᴰ l (limit ∷ ls) → (l ≡ limit) ⊎ Memᴰ l ls
mem-cons_cases l limit ls (Memᴰ.head e) = inl e
mem-cons_cases l limit ls (Memᴰ.tail m) = inr m

opened-Holds :
    (file f : File) (limit : Option ℕ) (open_limits : List (Option ℕ))
    → Holds file open_limits
    → Opens file (ok limit, f)
    → Holds f (limit ∷ open_limits)
opened-Holds file f limit open_limits h (rows, policy, before) = record {
  agreed = λ l m. elim (mem-cons_cases l limit open_limits m) [
    | inl e ↦ rw e policy
    | inr old ↦ let was = h.agreed l old in ground arith
  ];
  unused = λ e. absurd (ground arith);
  within = λ l e.
      let at : limit ≡ l = ground arith in
      rw (rows, ← at)
        (elim before [
          | inl none_yet ↦ rw (h.unused none_yet) (empty-IsWithin limit)
          | inr was ↦ h.within limit was
        ]);
}

on_file-outcome :
    {A : Type 0} (limit : Option ℕ) (m : Action Error DailyBudget A) (file : File)
    → (on_file limit m file).0
      ≡ (m (record { limits = limits_of limit; reservations = file.rows })).0
unfolding on_file
on_file-outcome limit m file = refl

run-Holds :
    {file : File} {open_limits : List (Option ℕ)} → Runs file open_limits → Holds file open_limits
run-Holds Runs.fresh = record {
  agreed = λ l m. absurd (not_mem m);
  unused = λ e. refl;
  within = λ l e. cc;
}
run-Holds (Runs.opened {file} usd limit before e) =
    let ends : Opens file (open_budget usd file) = open_budget-Opens usd file in
    opened-Holds file (open_budget usd file).1 limit _ (run-Holds before)
      (Opens-ok (open_budget usd file) limit e ends)
run-Holds (Runs.refused {file} usd x before e) =
    rw (Opens-err (open_budget usd file) x e (open_budget-Opens usd file)) (run-Holds before)
run-Holds (Runs.reserved {file} limit uuid day role provider input_hash upper call_id before m) =
    let h = run-Holds before in
    on_file-Holds limit (reserve uuid day role provider input_hash upper call_id) file _ h
      (h.agreed limit m) (reserve_keeps uuid day role provider input_hash upper call_id)
      (reserve-IsWithin uuid day role provider input_hash upper call_id _)
run-Holds (Runs.settled {file} limit id cost metadata before m fine) =
    let h = run-Holds before in
    on_file-Holds limit (settle id cost metadata) file _ h (h.agreed limit m)
      (settle_keeps id cost metadata)
      (settle-IsWithin id cost metadata _
        (λ bad. fine (on_file-outcome limit (settle id cost metadata) file ∙ bad)))

-- If an object with a limit is open on the budget file, however often the file was opened and by
-- whom, the charges of every day are within that limit, as long as no settlement exceeds its
-- reservation.
pub budget_across_restarts :
    (file : File) (open_limits : List (Option ℕ)) (limit : ℕ) (day : Text)
    → Runs file open_limits
    → Memᴰ (some limit) open_limits
    → spent (text "validator") day file.rows ≤ limit
unfolding lookup text_beq
budget_across_restarts file open_limits limit day runs m =
    let h = run-Holds runs in
    h.within (some limit) (h.agreed (some limit) m) (text "validator") limit refl day
