-- ===== src/Triggers.antt =====
-- The durable queue of witness/benchmark/triggers.py: one-shot hotkeys and round-robin coldkeys.
-- Each table is a list of its rows in the order of insertion, and a method returns what it raises
-- or returns beside the database that it leaves. The clock and the challenge hash are parameters,
-- and a result is the JSON text that it is stored as.
pub mod Fair
pub mod Rows
pub mod Binding
pub mod Tests
pub mod Reach
pub mod Final
use witness_subnet.Base.{
  ℕ, ◌+◌, Bool, true, false, ◌&&◌, ◌||◌, not, Option, none, some, List, [], ◌∷◌, ◌++◌, map, leb,
  ltb, if◌then◌else◌, any, find, keep, length,
}
use witness_subnet.Base.Eq.{◌==◌, nat_eq}
use witness_subnet.Base.Text.{Text, text, text_eq, text_leb}
use witness_subnet.Base.Outcome.{Outcome, ok, err}
use witness_subnet.Base.Dict.{Dict, lookup, insert, setdefault}
use witness_subnet.Base.Sort.{sort, nat_order, text_order, pair_order}
use witness_subnet.Base.Method.{
  Action, ◌>>=◌, ◌>>◌, modify, guard, pure, raise, gets, transaction, or_raise,
}
use witness_subnet.Errors.{
  Error, hotkey_reset_changed, mainnet_requires_one_challenge_per_hotkey, hotkey_already_consumed,
  use_defer_for_infrastructure_failures, integrity_error,
}
use witness_subnet.Protocol.Snapshot.{Row}
use witness_subnet.Submission.{Submission, parse_submission}
use witness_subnet.Triggers.Fair.{dispatch}

-- The statuses of a row; the last two are set by a subclass, `ScheduledTriggers`, in the same table.
pub data Status : Type 0 where
  queued running failed done rejected legacy reset withdrawn excluded : Status

-- `TERMINAL`
unfoldable pub is_terminal : Status → Bool
is_terminal Status.done = true
is_terminal Status.rejected = true
is_terminal _ = false

-- `status IN ('queued','running','failed')`
unfoldable pub is_waiting : Status → Bool
is_waiting Status.queued = true
is_waiting Status.running = true
is_waiting Status.failed = true
is_waiting _ = false

-- `status IN ('queued','running','done','rejected','failed')`
unfoldable pub is_bound : Status → Bool
unfolding is_terminal is_waiting
is_bound s = is_waiting s || is_terminal s

unfoldable pub is_reset : Status → Bool
is_reset Status.reset = true
is_reset _ = false

unfoldable pub is_running : Status → Bool
is_running Status.running = true
is_running _ = false

pub record Trigger : Type 0 where
  pub id : ℕ
  pub hotkey : Text
  pub value : Text
  pub block : ℕ
  pub status : Status
  pub reason : Option Text
  pub observed_unix : ℕ
  pub finished_unix : Option ℕ
  pub result : Option Text
  pub coldkey : Text
  pub uid : ℕ
  pub model_id : Text
  pub window_id : Option ℕ
  pub retry_block : ℕ
  pub attempts : ℕ

pub record Reset : Type 0 where
  pub window : ℕ
  pub block : ℕ

pub record Db : Type 0 where
  pub triggers : List Trigger
  pub coldkey_turns : Dict Text ℕ
  pub king : Option Text
  pub admission_reset : Option Reset
  pub admission_archive : Dict ℕ Trigger

abbrev pub Method : Type 0 → Type 0
Method A = Action Error Db A

-- `UPDATE triggers SET … WHERE …`
unfoldable pub update : (Trigger → Bool) → (Trigger → Trigger) → List Trigger → List Trigger
update p f [] = []
update p f (t ∷ rows) = (if p t then f t else t) ∷ update p f rows

-- `SELECT COALESCE(MAX(turn),0)+1 FROM coldkey_turns`
unfoldable pub max_turn : Dict Text ℕ → ℕ
max_turn [] = 0
max_turn ((c, turn) ∷ turns) = let rest = max_turn turns in if ltb rest turn then turn else rest

abbrev pub next_turn : Dict Text ℕ → ℕ
next_turn turns = max_turn turns + 1

-- The id of a new row: one more than the largest.
unfoldable pub max_id : List Trigger → ℕ
max_id [] = 0
max_id (t ∷ rows) = let rest = max_id rows in if ltb rest t.id then t.id else rest

-- `UPDATE coldkey_turns SET turn=? WHERE coldkey=?`
unfoldable pub set_turn : Text → ℕ → Dict Text ℕ → Dict Text ℕ
set_turn coldkey turn [] = []
set_turn coldkey turn ((c, old) ∷ turns) =
    (c, if c == coldkey then turn else old) ∷ set_turn coldkey turn turns

-- `INSERT INTO admission_archive VALUES (?,?)`, whose key is the trigger's id
unfoldable pub archive : List Trigger → Dict ℕ Trigger → Outcome Error (Dict ℕ Trigger)
archive [] a = ok a
archive (t ∷ rows) a =
    let rest = archive rows ((t.id, t) ∷ a) in
    elim (lookup t.id a) [ none ↦ rest | some old ↦ err integrity_error ]

abbrev pub reset_eq : Reset → Reset → Bool
reset_eq a b = a.window == b.window && a.block == b.block

abbrev pub before : ℕ → Trigger → Bool
before block t = ltb t.block block

unfoldable pub mark_reset : Reset → Method (Unit {0})
unfolding update
mark_reset r db = elim (archive (keep (before r.block) db.triggers) db.admission_archive) [
  | err e ↦ (err e, db)
  | ok archived ↦ (
    ok tt,
    record db {
      triggers = update (before r.block) (λ t. record t { status = Status.reset }) db.triggers;
      admission_archive = archived;
      admission_reset = some r;
    },
  )
]

unfoldable pub apply_reset : Option Reset → Method (Unit {0})
apply_reset none db = (ok tt, db)
apply_reset (some r) db = elim db.admission_reset [
  | none ↦ transaction (mark_reset r) db
  | some saved ↦ if reset_eq saved r then (ok tt, db) else (err hotkey_reset_changed, db)
]

abbrev pub minimum_block : Db → ℕ
minimum_block db = elim db.admission_reset [ none ↦ 0 | some r ↦ r.block ]

-- `SELECT 1 FROM triggers WHERE hotkey=? AND status IN (…)`
unfoldable pub bound_row : Text → List Trigger → Bool
bound_row hotkey rows = any (λ t. t.hotkey == hotkey && is_bound t.status) rows

-- `UNIQUE(hotkey, value, block)`
unfoldable pub same_row : Row → Trigger → Bool
same_row r t = t.hotkey == r.hotkey && (t.value == r.value && t.block == r.block)

pub record Added : Type 0 where
  pub hotkey : Text
  pub coldkey : Text
  pub model_id : Text
  pub block : ℕ
  pub value : Text

-- `sorted(rows, key=lambda r: (r['block'], r['hotkey']))`
abbrev pub arrival_le : Row → Row → Bool
arrival_le a b = (pair_order nat_order text_order).le (a.block, a.hotkey) (b.block, b.hotkey)

module _ (challenge_id : Text → Text → Text) (now : ℕ) (registered : List Text)
    (coldkeys : Dict Text Text) (uids : Dict Text ℕ) where
  unfoldable pub new_trigger : Row → Text → ℕ → Submission → ℕ → Trigger
  new_trigger r coldkey uid s id = record {
    id = id;
    hotkey = r.hotkey;
    value = r.value;
    block = r.block;
    status = Status.queued;
    reason = none;
    observed_unix = now;
    finished_unix = none;
    result = none;
    coldkey = coldkey;
    uid = uid;
    model_id = challenge_id r.hotkey s.model_id;
    window_id = none;
    retry_block = 0;
    attempts = 0;
  }

  -- The two `INSERT OR IGNORE`.
  unfoldable pub enqueue : Row → Text → ℕ → Submission → Db → Db
  enqueue r coldkey uid s db = record db {
    coldkey_turns = setdefault coldkey (next_turn db.coldkey_turns) db.coldkey_turns;
    triggers =
        if any (same_row r) db.triggers
        then db.triggers
        else db.triggers ++ new_trigger r coldkey uid s (max_id db.triggers + 1) ∷ [];
  }

  abbrev pub added_of : Row → Text → Submission → Added
  added_of r coldkey s = record {
    hotkey = r.hotkey;
    coldkey = coldkey;
    model_id = challenge_id r.hotkey s.model_id;
    block = r.block;
    value = r.value;
  }

  -- The rest of the loop's body for a row that parses.
  unfoldable pub observe_submission : Row → Submission → Db → List Added × Db
  observe_submission r s db =
      if bound_row r.hotkey db.triggers then ([], db) else elim (lookup r.hotkey coldkeys) [
        | none ↦ ([], db)
        | some coldkey ↦ elim (lookup r.hotkey uids) [
          | none ↦ ([], db)
          | some uid ↦ (added_of r coldkey s ∷ [], enqueue r coldkey uid s db)
        ]
      ]

  unfoldable pub observe_row : Row → Db → List Added × Db
  observe_row r db =
      if not (any (λ h. h == r.hotkey) registered) || ltb r.block (minimum_block db)
      then ([], db)
      else elim (parse_submission r.value) [ err e ↦ ([], db) | ok s ↦ observe_submission r s db ]

  unfoldable pub observe_rows : List Row → Db → List Added × Db
  observe_rows [] db = ([], db)
  observe_rows (r ∷ rows) db =
      let (added, db') = observe_row r db in
      let (others, db'') = observe_rows rows db' in (added ++ others, db'')

  unfoldable pub observe : List Row → ℕ → Method (List Added)
  observe rows max_per_hotkey db =
      let (added, db') = observe_rows (sort arrival_le rows) db in
      if max_per_hotkey == 1
      then (ok added, db')
      else (err mainnet_requires_one_challenge_per_hotkey, db)

-- The join with the turns, in the order of `ORDER BY c.turn,t.block,t.hotkey`.
unfoldable pub waiting : ℕ → Dict Text ℕ → List Trigger → List (ℕ × Trigger)
waiting before_block turns [] = []
waiting before_block turns (t ∷ rows) =
    let rest = waiting before_block turns rows in
    if is_waiting t.status && ltb t.block before_block
    then (elim (lookup t.coldkey turns) [ none ↦ rest | some turn ↦ (turn, t) ∷ rest ])
    else rest

abbrev pub turn_le : ℕ × Trigger → ℕ × Trigger → Bool
turn_le (a, t) (b, u) =
    (pair_order nat_order (pair_order nat_order text_order)).le (a, (t.block, t.hotkey))
      (b, (u.block, u.hotkey))

abbrev pub queue : ℕ → Db → List Trigger
queue before_block db =
    map (λ p. p.1) (sort turn_le (waiting before_block db.coldkey_turns db.triggers))

-- An infrastructure retry at the head cannot be overtaken by its owner's tail.
abbrev pub is_held : ℕ → Trigger → Bool
is_held current_block t = ltb current_block t.retry_block

unfoldable pub pending : ℕ → ℕ → ℕ → Db → List Trigger
pending count before_block current_block db =
    dispatch (λ t. t.coldkey) (is_held current_block) count (queue before_block db)

unfoldable pub with_id : ℕ → Trigger → Bool
with_id id t = t.id == id

unfoldable pub begin : ℕ → Option ℕ → Trigger → Db → Db
begin trigger_id window row db = record db {
  coldkey_turns = set_turn row.coldkey (next_turn db.coldkey_turns) db.coldkey_turns;
  triggers =
      update (with_id trigger_id)
        (λ t. record t { status = Status.running; window_id = window; attempts = t.attempts + 1 })
        db.triggers;
}

unfoldable pub start_body : ℕ → Option ℕ → Method (Unit {0})
start_body trigger_id window db = elim (find (with_id trigger_id) db.triggers) [
  | none ↦ (err hotkey_already_consumed, db)
  | some row ↦
      if is_terminal row.status || is_reset row.status
      then (err hotkey_already_consumed, db)
      else (ok tt, begin trigger_id window row db)
]

unfoldable pub start : ℕ → Option ℕ → Method (Unit {0})
unfolding start_body
start trigger_id window = transaction (start_body trigger_id window)

unfoldable pub defer : ℕ → Text → ℕ → Method (Unit {0})
defer trigger_id reason retry_block db = (
  ok tt,
  record db {
    triggers =
        update (λ t. with_id trigger_id t && is_running t.status)
          (λ t. record t {
            status = Status.queued;
            reason = some reason;
            retry_block = retry_block;
          })
          db.triggers;
  },
)

unfoldable pub finish : ℕ → ℕ → Status → Option Text → Option Text → Method (Unit {0})
finish now trigger_id status reason result db =
    if not (is_terminal status) then (err use_defer_for_infrastructure_failures, db) else (
      ok tt,
      record db {
        triggers =
            update (λ t. with_id trigger_id t && not (is_terminal t.status || is_reset t.status))
              (λ t. record t {
                status = status;
                reason = reason;
                finished_unix = some now;
                result = result;
              })
              db.triggers;
      },
    )

unfoldable pub reconcile : ℕ → Text → Option Text → ℕ → Bool → Method (Unit {0})
reconcile now hotkey result window is_rejected db =
    elim (find (λ t. t.hotkey == hotkey && is_waiting t.status) db.triggers) [
      | none ↦ (ok tt, db)
      | some row ↦
          finish now row.id (if is_rejected then Status.rejected else Status.done)
            (some (text "finalized_on_chain")) result
            (record db {
              triggers =
                  update (with_id row.id) (λ t. record t { window_id = some window }) db.triggers;
            })
    ]

abbrev pub listing_le : Trigger → Trigger → Bool
listing_le t u = (pair_order nat_order text_order).le (t.block, t.hotkey) (u.block, u.hotkey)

-- `usage` of `_decode`
pub data Usage : Type 0 where
  consumed reserved : Usage

abbrev pub usage_of : Trigger → Usage
usage_of t = if is_terminal t.status then consumed else reserved

unfoldable pub rows : Db → List (Trigger × Usage)
rows db = map (λ t. (t, usage_of t)) (sort listing_le db.triggers)

-- The `king` property's setter: `None` deletes the row.
unfoldable pub set_king : Option Text → Method (Unit {0})
set_king value db = (ok tt, record db { king = value })
