-- ===== src/Triggers/Rows.antt =====
-- The table of triggers in witness/benchmark/triggers.py under an `UPDATE`, and its distinct ids.
use mathlib.Core.List.{Memᴰ}
use witness_subnet.Base.{
  ℕ, suc, ◌+◌, ◌≤◌, ◌≡◌, ◌≢◌, ap, ◌∙◌, sym, Bool, true, false, some, List, [], ◌∷◌, ◌++◌, arith,
  ltb, if◌then◌else◌, All, All-append, All-imp, Bool-cases, inl, inr, find,
}
use witness_subnet.Base.Eq.{nat_eq}
use witness_subnet.Triggers.{Trigger, update, max_id}

-- A row that the update's test passes over stays in the table.
pub mem-update :
    (p : Trigger → Bool) (f : Trigger → Trigger) (t : Trigger) (rows : List Trigger)
    → p t ≡ false
    → Memᴰ t rows
    → Memᴰ t (update p f rows)
unfolding update
mem-update p f t [] h m = elim m [ ]
mem-update p f t (u ∷ rows) h (Memᴰ.head e) = Memᴰ.head (e ∙ sym (rw (← e, h)))
mem-update p f t (u ∷ rows) h (Memᴰ.tail m) = Memᴰ.tail (mem-update p f t rows h m)

pub mem-append_left :
    (t : Trigger) (rows others : List Trigger) → Memᴰ t rows → Memᴰ t (rows ++ others)
mem-append_left t [] others m = elim m [ ]
mem-append_left t (u ∷ rows) others (Memᴰ.head e) = Memᴰ.head e
mem-append_left t (u ∷ rows) others (Memᴰ.tail m) = Memᴰ.tail (mem-append_left t rows others m)

abbrev pub HaveDistinctIds : List Trigger → Type 0
HaveDistinctIds [] = Unit
HaveDistinctIds (t ∷ rows) = All (λ u. u.id ≢ t.id) rows × HaveDistinctIds rows

module _ (p : Trigger → Bool) (f : Trigger → Trigger)
    (keeps : (t : Trigger) → (f t).id ≡ t.id) where
  update-All_ids :
      (k : ℕ) (rows : List Trigger)
      → All (λ u. u.id ≢ k) rows
      → All (λ u. u.id ≢ k) (update p f rows)
  unfolding update
  update-All_ids k [] h = tt
  update-All_ids k (t ∷ rows) h = elim (Bool-cases (p t)) [
    | inl e ↦ rw (e, All) (λ q. h.0 (sym (keeps t) ∙ q), update-All_ids k rows h.1)
    | inr e ↦ rw (e, All) (h.0, update-All_ids k rows h.1)
  ]

  pub update-HaveDistinctIds :
      (rows : List Trigger) → HaveDistinctIds rows → HaveDistinctIds (update p f rows)
  unfolding update
  update-HaveDistinctIds [] h = tt
  update-HaveDistinctIds (t ∷ rows) h =
      let rest = update-HaveDistinctIds rows h.1 in
      elim (Bool-cases (p t)) [
        | inl e ↦ rw (e, HaveDistinctIds) (rw (keeps t) (update-All_ids t.id rows h.0), rest)
        | inr e ↦ rw (e, HaveDistinctIds) (update-All_ids t.id rows h.0, rest)
      ]

max_id-bound : (rows : List Trigger) → All (λ u. u.id ≤ max_id rows) rows
unfolding max_id
max_id-bound [] = tt
max_id-bound (t ∷ rows) = (
  ground arith,
  All-imp (λ u. u.id ≤ max_id rows)
      (λ u. u.id ≤ (if ltb (max_id rows) t.id then t.id else max_id rows)) rows
      (λ u h. ground arith) (max_id-bound rows),
)

append-HaveDistinctIds :
    (k : ℕ) (t : Trigger) (rows : List Trigger)
    → t.id ≡ suc k
    → All (λ u. u.id ≤ k) rows
    → HaveDistinctIds rows
    → HaveDistinctIds (rows ++ t ∷ [])
append-HaveDistinctIds k t [] e b h = (tt, tt)
append-HaveDistinctIds k t (u ∷ rows) e b h = (
  All-append (λ v. v.id ≢ u.id) rows (t ∷ []) h.0 (omega (arith, b.0), tt),
  append-HaveDistinctIds k t rows e b.1 h.1,
)

-- A new row has an id of its own.
pub fresh-HaveDistinctIds :
    (t : Trigger) (rows : List Trigger)
    → t.id ≡ max_id rows + 1
    → HaveDistinctIds rows
    → HaveDistinctIds (rows ++ t ∷ [])
fresh-HaveDistinctIds t rows e h =
    append-HaveDistinctIds (max_id rows) t rows (omega arith) (max_id-bound rows) h

-- The row that a search finds passes its test and is in the table.
pub find-eq-some :
    (p : Trigger → Bool) (rows : List Trigger) (t : Trigger)
    → find p rows ≡ some t
    → (p t ≡ true) × Memᴰ t rows
find-eq-some p [] t h = cc
find-eq-some p (u ∷ rows) t h = elim (Bool-cases (p u)) [
  | inl e ↦ let same : u ≡ t = ground arith in (rw (← same) e, Memᴰ.head (sym same))
  | inr e ↦ let (good, m) = find-eq-some p rows t (ground arith) in (good, Memᴰ.tail m)
]

mem-All {κ} :
    (P : Trigger → Type κ) (t : Trigger) (rows : List Trigger) → All P rows → Memᴰ t rows → P t
mem-All P t [] h m = elim m [ ]
mem-All P t (u ∷ rows) h (Memᴰ.head e) = rw e h.0
mem-All P t (u ∷ rows) h (Memᴰ.tail m) = mem-All P t rows h.1 m

-- Two rows with one id are one row.
pub same_id :
    (t u : Trigger) (rows : List Trigger)
    → HaveDistinctIds rows
    → Memᴰ t rows
    → Memᴰ u rows
    → t.id ≡ u.id
    → t ≡ u
same_id t u [] h m n q = elim m [ ]
same_id t u (v ∷ rows) h (Memᴰ.head e) (Memᴰ.head f) q = e ∙ sym f
same_id t u (v ∷ rows) h (Memᴰ.head e) (Memᴰ.tail m) q =
    absurd (mem-All (λ w. w.id ≢ v.id) u rows h.0 m (sym q ∙ ap (λ w. w.id) e))
same_id t u (v ∷ rows) h (Memᴰ.tail m) (Memᴰ.head f) q =
    absurd (mem-All (λ w. w.id ≢ v.id) t rows h.0 m (q ∙ ap (λ w. w.id) f))
same_id t u (v ∷ rows) h (Memᴰ.tail m) (Memᴰ.tail n) q = same_id t u rows h.1 m n q
