-- ===== src/Triggers/Final.antt =====
-- What the methods of witness/benchmark/triggers.py do to a finished trigger.
use mathlib.Core.List.{Memᴰ}
use witness_subnet.Base.{
  ℕ, ◌+◌, ◌≡◌, refl, ap, ◌∙◌, sym, Bool, true, false, ◌&&◌, ◌||◌, not, Option, none, some, List, [],
  ◌∷◌, arith, ltb, if◌then◌else◌, Bool-cases, Option-cases, inl, inr, find, any, keep,
}
use mathlib.Core.Bool.{false≢true}
use witness_subnet.Base.Eq.{◌==◌, nat_eq}
use witness_subnet.Base.Text.{Text, text, text_eq}
use witness_subnet.Base.Outcome.{Outcome, Outcome-cases, ok, err}
use witness_subnet.Base.Method.{transaction, transaction_keeps}
use witness_subnet.Base.Dict.{Dict, lookup}
use witness_subnet.Base.Sort.{sort}
use witness_subnet.Errors.{Error}
use witness_subnet.Protocol.Snapshot.{Row}
use witness_subnet.Submission.{Submission, parse_submission}
use witness_subnet.Triggers.{
  Trigger, Db, Status, is_terminal, is_waiting, is_running, is_reset, update, with_id, max_id,
  observe, observe_rows, observe_row, observe_submission, enqueue, new_trigger, bound_row, same_row,
  start, start_body, begin, defer, finish, reconcile, arrival_le, Reset, before, archive,
  mark_reset, apply_reset, reset_eq, minimum_block,
}
use witness_subnet.Triggers.Rows.{
  mem-update, mem-append_left, HaveDistinctIds, update-HaveDistinctIds, fresh-HaveDistinctIds,
  find-eq-some, same_id,
}

-- What every method keeps: ids stay distinct, and the row `t` stays as it is.
pub record KeepsRow (t : Trigger) (before after : Db) : Type 0 where
  pub distinct : HaveDistinctIds after.triggers
  pub kept : Memᴰ t after.triggers

-- An admission reset that does not reach back to the row.
abbrev pub IsSpared : Trigger → Option Reset → Type 0
IsSpared t none = Unit
IsSpared t (some r) = before r.block t ≡ false

terminal-not_waiting : (s : Status) → is_terminal s ≡ true → is_waiting s ≡ false
unfolding is_terminal is_waiting
terminal-not_waiting Status.done h = refl
terminal-not_waiting Status.rejected h = refl
terminal-not_waiting Status.queued h = cc
terminal-not_waiting Status.running h = cc
terminal-not_waiting Status.failed h = cc
terminal-not_waiting Status.legacy h = cc
terminal-not_waiting Status.withdrawn h = cc
terminal-not_waiting Status.excluded h = cc
terminal-not_waiting Status.reset h = cc

waiting-not_terminal : (s : Status) → is_waiting s ≡ true → is_terminal s ≡ false
unfolding is_terminal is_waiting
waiting-not_terminal Status.queued h = refl
waiting-not_terminal Status.running h = refl
waiting-not_terminal Status.failed h = refl
waiting-not_terminal Status.done h = cc
waiting-not_terminal Status.rejected h = cc
waiting-not_terminal Status.legacy h = cc
waiting-not_terminal Status.withdrawn h = cc
waiting-not_terminal Status.excluded h = cc
waiting-not_terminal Status.reset h = cc

terminal-not_running : (s : Status) → is_terminal s ≡ true → is_running s ≡ false
unfolding is_terminal is_running
terminal-not_running Status.done h = refl
terminal-not_running Status.rejected h = refl
terminal-not_running Status.queued h = cc
terminal-not_running Status.running h = cc
terminal-not_running Status.failed h = cc
terminal-not_running Status.legacy h = cc
terminal-not_running Status.withdrawn h = cc
terminal-not_running Status.excluded h = cc
terminal-not_running Status.reset h = cc

module _ (t : Trigger) (over : is_terminal t.status ≡ true) where
  module _ (db : Db) (d : HaveDistinctIds db.triggers) (m : Memᴰ t db.triggers) where
    -- An update that passes over the row.
    update-KeepsRow :
        (p : Trigger → Bool) (f : Trigger → Trigger) (after : Db)
        → ((u : Trigger) → (f u).id ≡ u.id)
        → p t ≡ false
        → after.triggers ≡ update p f db.triggers
        → KeepsRow t db after
    update-KeepsRow p f after same h e = record {
      distinct = rw e (update-HaveDistinctIds p f same db.triggers d);
      kept = rw e (mem-update p f t db.triggers h m);
    }

    -- A row that is found and is not terminal has another id.
    other_id :
        (row : Trigger)
        → Memᴰ row db.triggers
        → is_terminal row.status ≡ false
        → with_id row.id t ≡ false
    unfolding with_id
    other_id row found alive = elim (Bool-cases (with_id row.id t)) [
      | inr ne ↦ ne
      | inl eq ↦
          let one : t ≡ row = same_id t row db.triggers d m found (ground arith) in
          absurd (false≢true (sym alive ∙ sym (ap (λ u. is_terminal u.status) one) ∙ over))
    ]

    mark_reset-KeepsRow : (r : Reset) → before r.block t ≡ false → KeepsRow t db (mark_reset r db).1
    unfolding mark_reset
    mark_reset-KeepsRow r spared =
        elim (Outcome-cases (archive (keep (before r.block) db.triggers) db.admission_archive)) [
          | inl (e, bad) ↦ rw (bad, mark_reset) (record { distinct = d; kept = m })
          | inr (archived, good) ↦
              rw (good, mark_reset)
                (record {
                  distinct =
                      update-HaveDistinctIds (before r.block)
                        (λ u. record u { status = Status.reset }) (λ u. refl) db.triggers d;
                  kept =
                      mem-update (before r.block) (λ u. record u { status = Status.reset }) t
                        db.triggers spared m;
                })
        ]

    pub apply_reset-KeepsRow :
        (reset : Option Reset) → IsSpared t reset → KeepsRow t db (apply_reset reset db).1
    unfolding apply_reset
    apply_reset-KeepsRow none spared = record { distinct = d; kept = m }
    apply_reset-KeepsRow (some r) spared = elim (Option-cases db.admission_reset) [
      | inl e ↦
          let done : KeepsRow t db (transaction (mark_reset r) db).1 =
            transaction_keeps (KeepsRow t db) (mark_reset r) db (record { distinct = d; kept = m })
              (mark_reset-KeepsRow r spared) in
          rw (e, apply_reset) (record { distinct = done.distinct; kept = done.kept })
      | inr (saved, e) ↦ elim (Bool-cases (reset_eq saved r)) [
        | inl same ↦ rw (e, same, apply_reset) (record { distinct = d; kept = m })
        | inr other ↦ rw (e, other, apply_reset) (record { distinct = d; kept = m })
      ]
    ]

    pub defer-KeepsRow :
        (id : ℕ) (reason : Text) (retry : ℕ) → KeepsRow t db (defer id reason retry db).1
    unfolding defer
    defer-KeepsRow id reason retry =
        update-KeepsRow (λ u. with_id id u && is_running u.status)
          (λ u. record u { status = Status.queued; reason = some reason; retry_block = retry })
          (defer id reason retry db).1 (λ u. refl)
          (let r = terminal-not_running t.status over in ground arith) refl

    pub finish-KeepsRow :
        (now id : ℕ) (status : Status) (reason result : Option Text)
        → KeepsRow t db (finish now id status reason result db).1
    unfolding finish
    finish-KeepsRow now id status reason result = elim (Bool-cases (not (is_terminal status))) [
      | inl bad ↦ rw bad (record { distinct = d; kept = m })
      | inr good ↦ rw good (
          update-KeepsRow (λ u. with_id id u && not (is_terminal u.status || is_reset u.status))
            (λ u. record u {
              status = status;
              reason = reason;
              finished_unix = some now;
              result = result;
            })
            _ (λ u. refl) (ground arith) refl)
    ]

    start_body-KeepsRow : (id : ℕ) (window : Option ℕ) → KeepsRow t db (start_body id window db).1
    unfolding start_body
    start_body-KeepsRow id window = elim (Option-cases (find (with_id id) db.triggers)) [
      | inl no_row ↦ rw (no_row, start_body) (record { distinct = d; kept = m })
      | inr (row, found) ↦ elim (Bool-cases (is_terminal row.status || is_reset row.status)) [
        | inl bad ↦ rw (found, start_body, bad) (record { distinct = d; kept = m })
        | inr good ↦
            let (hit, there) = find-eq-some (with_id id) db.triggers row found in
            let alive : is_terminal row.status ≡ false = ground arith in
            let which : row.id ≡ id = unfold with_id in ground arith in
            rw (found, start_body, good)
              (update-KeepsRow (with_id id)
                (λ u. record u {
                  status = Status.running;
                  window_id = window;
                  attempts = u.attempts + 1;
                })
                (begin id window row db) (λ u. refl) (rw which at (other_id row there alive))
                (unfold begin in refl))
      ]
    ]

    pub start-KeepsRow : (id : ℕ) (window : Option ℕ) → KeepsRow t db (start id window db).1
    unfolding start
    start-KeepsRow id window =
        transaction_keeps (KeepsRow t db) (start_body id window) db
          (record { distinct = d; kept = m }) (start_body-KeepsRow id window)

  pub reconcile-KeepsRow :
      (db : Db)
      → HaveDistinctIds db.triggers
      → Memᴰ t db.triggers
      → (now : ℕ) (hotkey : Text) (result : Option Text) (window : ℕ) (is_rejected : Bool)
      → KeepsRow t db (reconcile now hotkey result window is_rejected db).1
  unfolding reconcile
  reconcile-KeepsRow db d m now hotkey result window is_rejected =
      let test : Trigger → Bool = λ u. u.hotkey == hotkey && is_waiting u.status in
      elim (Option-cases (find test db.triggers)) [
        | inl no_row ↦ rw (no_row, reconcile) (record { distinct = d; kept = m })
        | inr (row, found) ↦
            let (hit, there) = find-eq-some test db.triggers row found in
            let waiting : is_waiting row.status ≡ true = ground arith in
            let alive : is_terminal row.status ≡ false = waiting-not_terminal row.status waiting in
            let moved : Db = record db {
              triggers =
                  update (with_id row.id) (λ u. record u { window_id = some window }) db.triggers;
            } in
            let first =
              update-KeepsRow db d m (with_id row.id) (λ u. record u { window_id = some window })
                moved (λ u. refl) (other_id db d m row there alive) refl in
            let second =
              finish-KeepsRow moved first.distinct first.kept now row.id
                (if is_rejected then Status.rejected else Status.done)
                (some (text "finalized_on_chain")) result in
            rw (found, reconcile) (record { distinct = second.distinct; kept = second.kept })
      ]

  module _ (challenge_id : Text → Text → Text) (now : ℕ) (registered : List Text)
      (coldkeys : Dict Text Text) (uids : Dict Text ℕ) where
    enqueue-KeepsRow :
        (r : Row) (coldkey : Text) (uid : ℕ) (s : Submission) (db : Db)
        → HaveDistinctIds db.triggers
        → Memᴰ t db.triggers
        → KeepsRow t db (enqueue challenge_id now registered coldkeys uids r coldkey uid s db)
    unfolding enqueue new_trigger
    enqueue-KeepsRow r coldkey uid s db d m = elim (Bool-cases (any (same_row r) db.triggers)) [
      | inl old ↦ rw old (record { distinct = d; kept = m })
      | inr new ↦
          let id = max_id db.triggers + 1 in
          let row = new_trigger challenge_id now registered coldkeys uids r coldkey uid s id in
          rw new (record {
            distinct = fresh-HaveDistinctIds row db.triggers refl d;
            kept = mem-append_left t db.triggers (row ∷ []) m;
          })
    ]

    observe_submission-KeepsRow :
        (r : Row) (s : Submission) (db : Db)
        → HaveDistinctIds db.triggers
        → Memᴰ t db.triggers
        → KeepsRow t db (observe_submission challenge_id now registered coldkeys uids r s db).1
    unfolding observe_submission
    observe_submission-KeepsRow r s db d m = elim (Bool-cases (bound_row r.hotkey db.triggers)) [
      | inl old ↦ rw old (record { distinct = d; kept = m })
      | inr new ↦ elim (Option-cases (lookup r.hotkey coldkeys)) [
        | inl no_owner ↦ rw (new, no_owner) (record { distinct = d; kept = m })
        | inr (coldkey, owner) ↦ elim (Option-cases (lookup r.hotkey uids)) [
          | inl no_uid ↦ rw (new, owner, no_uid) (record { distinct = d; kept = m })
          | inr (uid, known) ↦ rw (new, owner, known) (enqueue-KeepsRow r coldkey uid s db d m)
        ]
      ]
    ]

    observe_row-KeepsRow :
        (r : Row) (db : Db)
        → HaveDistinctIds db.triggers
        → Memᴰ t db.triggers
        → KeepsRow t db (observe_row challenge_id now registered coldkeys uids r db).1
    unfolding observe_row
    observe_row-KeepsRow r db d m =
        elim (Bool-cases
          (not (any (λ h. h == r.hotkey) registered) || ltb r.block (minimum_block db))) [
            | inl skip ↦ rw skip (record { distinct = d; kept = m })
            | inr take ↦ go take (parse_submission r.value) refl
          ]
      where
        go :
            (not (any (λ h. h == r.hotkey) registered) || ltb r.block (minimum_block db)) ≡ false
            → (o : Outcome Error Submission) → parse_submission r.value ≡ o
            → KeepsRow t db (observe_row challenge_id now registered coldkeys uids r db).1
        go take (err e) h = rw (take, observe_row, h) (record { distinct = d; kept = m })
        go take (ok s) h = rw (take, observe_row, h) (observe_submission-KeepsRow r s db d m)

    observe_rows-KeepsRow :
        (rows : List Row) (db : Db)
        → HaveDistinctIds db.triggers
        → Memᴰ t db.triggers
        → KeepsRow t db (observe_rows challenge_id now registered coldkeys uids rows db).1
    unfolding observe_rows
    observe_rows-KeepsRow [] db d m = record { distinct = d; kept = m }
    observe_rows-KeepsRow (r ∷ rows) db d m =
        let first = observe_row-KeepsRow r db d m in
        let rest =
          observe_rows-KeepsRow rows (observe_row challenge_id now registered coldkeys uids r db).1
            first.distinct first.kept in
        record { distinct = rest.distinct; kept = rest.kept }

    pub observe-KeepsRow :
        (rows : List Row) (max_per_hotkey : ℕ) (db : Db)
        → HaveDistinctIds db.triggers
        → Memᴰ t db.triggers
        → KeepsRow t db (observe challenge_id now registered coldkeys uids rows max_per_hotkey db).1
    unfolding observe
    observe-KeepsRow rows max_per_hotkey db d m = elim (Bool-cases (max_per_hotkey == 1)) [
      | inl one ↦ rw one (observe_rows-KeepsRow (sort arrival_le rows) db d m)
      | inr more ↦ rw more (record { distinct = d; kept = m })
    ]
