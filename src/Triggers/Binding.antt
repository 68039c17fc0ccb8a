-- ===== src/Triggers/Binding.antt =====
-- Rows that bind a hotkey: what `Triggers.observe` of witness/benchmark/triggers.py admits.
use witness_subnet.Base.{
  ℕ, ◌+◌, ◌≤◌, ◌≡◌, refl, false, ◌&&◌, ◌||◌, not, List, [], ◌∷◌, ◌++◌, arith, ltb, if◌then◌else◌,
  Bool-cases, Option-cases, inl, inr, any,
}
use witness_subnet.Base.Eq.{◌==◌, nat_eq, eq_iff}
use witness_subnet.Base.Text.{Text, text_eq}
use witness_subnet.Base.Outcome.{Outcome, ok, err}
use witness_subnet.Base.Dict.{Dict, lookup}
use witness_subnet.Base.Sort.{sort}
use witness_subnet.Errors.{Error}
use witness_subnet.Protocol.Snapshot.{Row}
use witness_subnet.Submission.{Submission, parse_submission}
use witness_subnet.Triggers.{
  Trigger, Db, is_bound, observe, observe_rows, observe_row, observe_submission, enqueue,
  new_trigger, bound_row, same_row, arrival_le, minimum_block, max_id,
}

-- How many rows bind a hotkey.
abbrev pub bindings : Text → List Trigger → ℕ
bindings h [] = 0
bindings h (t ∷ rows) = (if t.hotkey == h && is_bound t.status then 1 else 0) + bindings h rows

abbrev pub BindsOnce : Db → Type 0
BindsOnce db = (h : Text) → bindings h db.triggers ≤ 1

bindings-append :
    (h : Text) (xs ys : List Trigger) → bindings h (xs ++ ys) ≡ bindings h xs + bindings h ys
bindings-append h [] ys = omega arith
bindings-append h (x ∷ xs) ys = omega (arith, bindings-append h xs ys)

bound_row-bindings :
    (h : Text) (rows : List Trigger) → bound_row h rows ≡ false → bindings h rows ≡ 0
unfolding bound_row
bound_row-bindings h [] e = refl
bound_row-bindings h (t ∷ rows) e = ground (arith, bound_row-bindings h rows)

module _ (challenge_id : Text → Text → Text) (now : ℕ) (registered : List Text)
    (coldkeys : Dict Text Text) (uids : Dict Text ℕ) where
  enqueue-BindsOnce :
      (r : Row) (coldkey : Text) (uid : ℕ) (s : Submission) (db : Db)
      → bound_row r.hotkey db.triggers ≡ false
      → BindsOnce db
      → BindsOnce (enqueue challenge_id now registered coldkeys uids r coldkey uid s db)
  unfolding enqueue
  enqueue-BindsOnce r coldkey uid s db free h k =
      let id = max_id db.triggers + 1 in
      let row = new_trigger challenge_id now registered coldkeys uids r coldkey uid s id in
      elim (Bool-cases (any (same_row r) db.triggers)) [
        | inl old ↦ rw old (h k)
        | inr new ↦
            rw (new, bindings-append k db.triggers (row ∷ []))
              (unfold new_trigger in
                elim (Bool-cases (r.hotkey == k)) [
                  | inl own ↦
                      let same : r.hotkey ≡ k = (eq_iff r.hotkey k).0 own in
                      let none_yet : bindings k db.triggers ≡ 0 =
                        rw same at (bound_row-bindings r.hotkey db.triggers free) in
                      ground arith
                  | inr other ↦ rw other (omega (arith, h k))
                ])
      ]

  observe_submission-BindsOnce :
      (r : Row) (s : Submission) (db : Db)
      → BindsOnce db
      → BindsOnce (observe_submission challenge_id now registered coldkeys uids r s db).1
  unfolding observe_submission
  observe_submission-BindsOnce r s db h = elim (Bool-cases (bound_row r.hotkey db.triggers)) [
    | inl old ↦ rw old h
    | inr new ↦ elim (Option-cases (lookup r.hotkey coldkeys)) [
      | inl no_owner ↦ rw (new, no_owner) h
      | inr (coldkey, owner) ↦ elim (Option-cases (lookup r.hotkey uids)) [
        | inl no_uid ↦ rw (new, owner, no_uid) h
        | inr (uid, known) ↦ rw (new, owner, known) (enqueue-BindsOnce r coldkey uid s db new h)
      ]
    ]
  ]

  observe_row-BindsOnce :
      (r : Row) (db : Db)
      → BindsOnce db
      → BindsOnce (observe_row challenge_id now registered coldkeys uids r db).1
  unfolding observe_row
  observe_row-BindsOnce r db h =
      elim (Bool-cases
        (not (any (λ k. k == r.hotkey) registered) || ltb r.block (minimum_block db))) [
          | inl skip ↦ rw skip h
          | inr take ↦ go take (parse_submission r.value) refl
        ]
    where
      go :
          (not (any (λ k. k == r.hotkey) registered) || ltb r.block (minimum_block db)) ≡ false
          → (o : Outcome Error Submission) → parse_submission r.value ≡ o
          → BindsOnce (observe_row challenge_id now registered coldkeys uids r db).1
      go take (err e) p = rw (take, observe_row, p) h
      go take (ok s) p = rw (take, observe_row, p) (observe_submission-BindsOnce r s db h)

  observe_rows-BindsOnce :
      (rows : List Row) (db : Db)
      → BindsOnce db
      → BindsOnce (observe_rows challenge_id now registered coldkeys uids rows db).1
  unfolding observe_rows
  observe_rows-BindsOnce [] db h = h
  observe_rows-BindsOnce (r ∷ rows) db h =
      observe_rows-BindsOnce rows (observe_row challenge_id now registered coldkeys uids r db).1
        (observe_row-BindsOnce r db h)

  -- If each hotkey is bound by one row at most, it still is after commitments are observed,
  -- whichever they are.
  pub observe-BindsOnce :
      (rows : List Row) (max_per_hotkey : ℕ) (db : Db)
      → BindsOnce db
      → BindsOnce (observe challenge_id now registered coldkeys uids rows max_per_hotkey db).1
  unfolding observe
  observe-BindsOnce rows max_per_hotkey db h = elim (Bool-cases (max_per_hotkey == 1)) [
    | inl one ↦ rw one (observe_rows-BindsOnce (sort arrival_le rows) db h)
    | inr more ↦ rw more h
  ]
