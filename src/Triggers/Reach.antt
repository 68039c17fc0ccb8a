-- ===== src/Triggers/Reach.antt =====
-- The life of the queue of witness/benchmark/triggers.py as steps, one for each method call, and
-- what start() does to the turns.
use mathlib.Core.List.{Memᴰ}
use witness_subnet.Base.{
  ℕ, ◌≤◌, ◌<◌, ◌≡◌, refl, ◌∙◌, Bool, true, false, ◌||◌, Option, none, some, List, [], ◌∷◌, arith,
  if◌then◌else◌, find,
}
use witness_subnet.Base.Eq.{◌==◌, nat_eq, eq_iff, eq_refl}
use witness_subnet.Base.Text.{Text, text_eq}
use witness_subnet.Base.Outcome.{ok, err}
use witness_subnet.Base.Method.{transaction-ok}
use witness_subnet.Base.Dict.{Dict, lookup}
use witness_subnet.Errors.{hotkey_already_consumed}
use witness_subnet.Protocol.Snapshot.{Row}
use witness_subnet.Triggers.{
  Trigger, Db, Status, is_terminal, is_reset, with_id, observe, start, start_body, begin, defer,
  finish, reconcile, set_king, Reset, apply_reset, set_turn, max_turn, next_turn,
}
use witness_subnet.Triggers.Rows.{HaveDistinctIds}
use witness_subnet.Triggers.Final.{
  KeepsRow, IsSpared, apply_reset-KeepsRow, observe-KeepsRow, start-KeepsRow, defer-KeepsRow,
  finish-KeepsRow, reconcile-KeepsRow,
}

-- A call of any method, with whatever arguments, returning or raising; an admission reset is one
-- that does not reach back to the row `t`.
pub data Step (t : Trigger) (db after : Db) : Type 0 where
  observes :
      (challenge_id : Text → Text → Text) (now : ℕ) (registered : List Text)
      (coldkeys : Dict Text Text) (uids : Dict Text ℕ) (rows : List Row) (max_per_hotkey : ℕ)
      → after ≡ (observe challenge_id now registered coldkeys uids rows max_per_hotkey db).1
      → Step t db after
  starts : (id : ℕ) (window : Option ℕ) → after ≡ (start id window db).1 → Step t db after
  defers :
      (id : ℕ) (reason : Text) (retry : ℕ) → after ≡ (defer id reason retry db).1 → Step t db after
  finishes :
      (now id : ℕ) (status : Status) (reason result : Option Text)
      → after ≡ (finish now id status reason result db).1
      → Step t db after
  reconciles :
      (now : ℕ) (hotkey : Text) (result : Option Text) (window : ℕ) (is_rejected : Bool)
      → after ≡ (reconcile now hotkey result window is_rejected db).1
      → Step t db after
  resets :
      (reset : Option Reset) → IsSpared t reset → after ≡ (apply_reset reset db).1 → Step t db after
  sets_king : (king : Option Text) → after ≡ (set_king king db).1 → Step t db after

pub data Reach (t : Trigger) (db : Db) : Db → Type 0 where
  here : Reach t db db
  next : {mid after : Db} → Reach t db mid → Step t mid after → Reach t db after

module _ (t : Trigger) (over : is_terminal t.status ≡ true) where
  Step-KeepsRow :
      {db after : Db}
      → Step t db after
      → HaveDistinctIds db.triggers
      → Memᴰ t db.triggers
      → KeepsRow t db after
  Step-KeepsRow {db} (observes c now r k u rows n e) d m =
      rw e (observe-KeepsRow t over c now r k u rows n db d m)
  Step-KeepsRow {db} (starts id window e) d m = rw e (start-KeepsRow t over db d m id window)
  Step-KeepsRow {db} (defers id reason retry e) d m =
      rw e (defer-KeepsRow t over db d m id reason retry)
  Step-KeepsRow {db} (finishes now id status reason result e) d m =
      rw e (finish-KeepsRow t over db d m now id status reason result)
  Step-KeepsRow {db} (reconciles now hotkey result window is_rejected e) d m =
      rw e (reconcile-KeepsRow t over db d m now hotkey result window is_rejected)
  Step-KeepsRow {db} (resets reset spared e) d m =
      rw e (apply_reset-KeepsRow t over db d m reset spared)
  Step-KeepsRow {db} (sets_king king e) d m =
      rw e (unfold set_king in record { distinct = d; kept = m })

  Reach-KeepsRow :
      {db after : Db}
      → HaveDistinctIds db.triggers
      → Memᴰ t db.triggers
      → Reach t db after
      → HaveDistinctIds after.triggers × Memᴰ t after.triggers
  Reach-KeepsRow d m here = (d, m)
  Reach-KeepsRow d m (next r s) =
      let (d', m') = Reach-KeepsRow d m r in
      let kept = Step-KeepsRow s d' m' in (kept.distinct, kept.kept)

-- A row that is done or rejected, in a table with distinct ids, stays as it is whatever calls of
-- the queue follow, admission resets at a block after the row's own aside.
pub terminal_final :
    (t : Trigger) {db after : Db}
    → is_terminal t.status ≡ true
    → HaveDistinctIds db.triggers
    → Memᴰ t db.triggers
    → Reach t db after
    → Memᴰ t after.triggers
terminal_final t over d m r = (Reach-KeepsRow t over d m r).1

start_body-found :
    (id : ℕ) (window : Option ℕ) (db : Db) (o : Option Trigger)
    → find (with_id id) db.triggers ≡ o
    → start_body id window db ≡ elim o [
      | none ↦ (err hotkey_already_consumed, db)
      | some row ↦
          if is_terminal row.status || is_reset row.status
          then (err hotkey_already_consumed, db)
          else (ok tt, begin id window row db)
    ]
unfolding start_body
start_body-found id window db o e = rw (e, start_body)

max_turn-bound :
    (c : Text) (turns : Dict Text ℕ) (k : ℕ) → lookup c turns ≡ some k → k ≤ max_turn turns
unfolding lookup max_turn
max_turn-bound c [] k h = cc
max_turn-bound c ((j, turn) ∷ turns) k h = ground (arith, max_turn-bound c turns k)

lookup-set_turn :
    (c j : Text) (turn : ℕ) (turns : Dict Text ℕ) (old : ℕ)
    → lookup j turns ≡ some old
    → lookup j (set_turn c turn turns) ≡ some (if j == c then turn else old)
unfolding lookup set_turn
lookup-set_turn c j turn [] old h = cc
lookup-set_turn c j turn ((i, t) ∷ turns) old h =
    ground (arith, eq_iff i j, eq_iff i c, eq_iff j c, lookup-set_turn c j turn turns old)

-- A start of a row that is neither finished nor reset, whose owner has a turn, succeeds: the
-- owner gets the next turn, every other owner keeps his, and each turn of before is below the
-- next one.
pub start_rotates :
    (id : ℕ) (window : Option ℕ) (db : Db) (row : Trigger) (turn : ℕ) (other : Text) (k : ℕ)
    → find (with_id id) db.triggers ≡ some row
    → is_terminal row.status || is_reset row.status ≡ false
    → lookup row.coldkey db.coldkey_turns ≡ some turn
    → lookup other db.coldkey_turns ≡ some k
    → let (r, after) = start id window db in
      let next = next_turn db.coldkey_turns in
      (r ≡ ok tt)
      × (lookup row.coldkey after.coldkey_turns ≡ some next)
      × (lookup other after.coldkey_turns ≡ some (if other == row.coldkey then next else k))
      × (k < next)
unfolding start
start_rotates id window db row turn other k found alive owner e =
    let done : start_body id window db ≡ (ok tt, begin id window row db) =
      start_body-found id window db (some row) found ∙ rw alive in
    let next = next_turn db.coldkey_turns in
    rw (transaction-ok (start_body id window) db (begin id window row db) tt done) (
      unfold begin in
      (
        refl,
        lookup-set_turn row.coldkey row.coldkey next db.coldkey_turns turn owner
            ∙ rw (eq_refl row.coldkey),
        lookup-set_turn row.coldkey other next db.coldkey_turns k e,
        omega (arith, max_turn-bound other db.coldkey_turns k e),
      ))
