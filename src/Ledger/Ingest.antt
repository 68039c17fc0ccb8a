-- ===== src/Ledger/Ingest.antt =====
-- `Ledger.ingest` of witness/benchmark/ledger.py: one finalized block in one transaction.
-- `challenge_id`, a SHA-256 hash, is a parameter. `Action` carries the writes made so far, which
-- the transaction takes back when the body raises.
use witness_subnet.Base.{
  ℕ, ◌+◌, ◌-◌, ◌/◌, Bool, ◌&&◌, ◌||◌, not, none, some, List, [], ◌∷◌, ◌++◌, map, ltb, if◌then◌else◌,
  any, length, take,
}
use witness_subnet.Base.Eq.{◌==◌, nat_eq, pair_eq}
use witness_subnet.Base.Text.{Text, text_eq}
use witness_subnet.Base.Dict.{Dict, lookup, contains, setdefault, insert}
use witness_subnet.Base.Sort.{sort}
use witness_subnet.Base.Outcome.{ok, err}
use witness_subnet.Base.Method.{Action, ◌>>=◌, ◌>>◌, modify, guard, or_raise, transaction}
use witness_subnet.Errors.{
  Error, key_error, type_error, integrity_error, noncontiguous_finalized_history,
  activation_epoch_not_reached, commitment_not_from_this_block,
}
use witness_subnet.Protocol.Record.{Result, parse, baseline, early_stop}
use witness_subnet.Protocol.Snapshot.{Snapshot, Row, Entry, row_key, row_order}
use witness_subnet.Protocol.Weights.{is_some}
use witness_subnet.Protocol.Decide.Tallying.{get_or}
use witness_subnet.Protocol.Decide.Aggregation.{set_eq, keys}
use witness_subnet.Submission.{parse_submission}
use witness_subnet.Ledger.State.{Ledger, Opening, Use, cursor}
use witness_subnet.Ledger.Open.{window_epochs}
use witness_subnet.Ledger.Turn.{Step, keep_use, turn_window}

abbrev pub row_eq : Row → Row → Bool
row_eq a b = row_key a == row_key b

-- `INSERT OR IGNORE INTO commitments`
unfoldable pub commit : Row → Ledger → Ledger
commit row l =
    if any (row_eq row) l.commitments
    then l
    else record l { commitments = l.commitments ++ row ∷ [] }

unfoldable pub add_submission : Entry → Ledger → Ledger
add_submission own l = record l { submissions = setdefault own.hotkey own l.submissions }

-- `INSERT OR IGNORE INTO bootstrap_pending`
unfoldable pub add_pending : Text → Text → Use → Ledger → Ledger
add_pending evaluator model use_row l = record l {
  bootstrap_pending = setdefault (evaluator, (use_row.window, model)) use_row l.bootstrap_pending;
}

-- The result is the terminal one of a validator for a candidate of this window, under its policy.
unfoldable pub is_terminal : Snapshot → ℕ → Opening → Row → Result → Entry → Bool
is_terminal snapshot window active row result candidate =
    result.window == window
    && (result.policy == take 24 active.policy_hash
        && (not (baseline result.flags || early_stop result.flags)
            && (result.uid == candidate.uid && contains row.hotkey snapshot.validators)))

-- From `result = Result.parse(row['value'])` to the end of the loop's body. The use is known to be
-- absent where a king reigns, so `INSERT` and `INSERT OR IGNORE` are one.
unfoldable pub admit_result : Snapshot → ℕ → Opening → Row → Ledger → Ledger
admit_result snapshot window active row l = elim (parse row.value) [
  | err e ↦ l
  | ok result ↦ elim (lookup result.model_id active.candidates) [
    | none ↦ l
    | some candidate ↦
        if not (is_terminal snapshot window active row result candidate)
          || contains (row.hotkey, candidate.hotkey) l.uses
        then l
        else let use_row : Use = record {
          window = window;
          result = result;
          commitment = row.value;
        } in
          if is_some active.king
          then keep_use row.hotkey candidate.hotkey use_row l
          else add_pending row.hotkey result.model_id use_row l
  ]
]

module _ (challenge_id : Text → Text → Text) where
  -- `if submission and row['hotkey'] in snapshot['uids']: …`
  unfoldable pub admit_submission : Snapshot → Row → Step
  admit_submission snapshot row l = elim (parse_submission row.value) [
    | err e ↦ (ok tt, l)
    | ok submission ↦ elim (lookup row.hotkey snapshot.uids) [
      | none ↦ (ok tt, l)
      | some uid ↦ elim (lookup row.hotkey snapshot.coldkeys) [
        | none ↦ (err key_error, l)
        | some coldkey ↦ (
          ok tt,
          add_submission
              (record {
                block = row.block;
                hotkey = row.hotkey;
                value = row.value;
                coldkey = coldkey;
                uid = uid;
                model_id = challenge_id row.hotkey submission.model_id;
              })
              l,
        )
      ]
    ]
  ]

  -- The body of the loop over the rows.
  unfoldable pub ingest_row : Snapshot → ℕ → Opening → Row → Step
  ingest_row snapshot window active row =
      guard (not (row.block == snapshot.block)) commitment_not_from_this_block
      >> modify (commit row)
      >> admit_submission snapshot row
      >> modify (admit_result snapshot window active row)

  unfoldable pub ingest_rows : Snapshot → ℕ → Opening → List Row → Step
  ingest_rows snapshot window active [] = modify (λ l. l)
  ingest_rows snapshot window active (row ∷ rows) =
      ingest_row snapshot window active row >> ingest_rows snapshot window active rows

-- `panels`: what is pending in the window, by evaluator and model.
unfoldable pub panels :
    ℕ → Dict (Text × (ℕ × Text)) Use → Dict Text (Dict Text Use) → Dict Text (Dict Text Use)
panels window [] found = found
panels window (((evaluator, (w, model)), use_row) ∷ pending) found =
    if w == window
    then panels window pending
        (insert evaluator (insert model use_row (get_or (lookup evaluator found) [])) found)
    else panels window pending found

unfoldable pub store_panel : Opening → Text → Dict Text Use → Step
store_panel active evaluator [] l = (ok tt, l)
store_panel active evaluator ((model, use_row) ∷ panel) l = elim (lookup model active.candidates) [
  | none ↦ (err key_error, l)
  | some candidate ↦
      store_panel active evaluator panel (keep_use evaluator candidate.hotkey use_row l)
]

-- A panel counts once its evaluator has measured every candidate.
unfoldable pub store_panels : Opening → Dict Text (Dict Text Use) → Step
store_panels active [] = modify (λ l. l)
store_panels active ((evaluator, panel) ∷ rest) =
    if set_eq (map (λ p. p.0) panel) (keys active.candidates)
    then store_panel active evaluator panel >> store_panels active rest
    else store_panels active rest

unfoldable pub bootstrap_panels : ℕ → Opening → Step
bootstrap_panels window active l =
    if not (is_some active.king) && length active.candidates == 2
    then store_panels active (panels window l.bootstrap_pending []) l
    else (ok tt, l)

-- `INSERT INTO blocks`, and the cursor.
unfoldable pub add_block : Snapshot → Step
add_block snapshot l = if contains snapshot.block l.blocks then (err integrity_error, l) else (
  ok tt,
  record l {
    blocks = l.blocks ++ (snapshot.block, (snapshot.block_hash, snapshot.epoch_index)) ∷ [];
    last_block = some snapshot.block;
  },
)

-- `self.active`, whose items are read next.
unfoldable pub read_active : Action Error Ledger Opening
read_active l = or_raise l.active type_error l

abbrev pub window_of : Snapshot → Ledger → ℕ
window_of snapshot l = (snapshot.epoch_index - l.activation_epoch) / window_epochs

module _ (challenge_id : Text → Text → Text) where
  -- What the transaction does before it writes the block.
  unfoldable pub ingest_window : Snapshot → ℕ → List Row → Step
  ingest_window snapshot window rows =
      turn_window snapshot window
      >> (read_active >>= λ active.
          ingest_rows challenge_id snapshot window active (sort row_order.le rows)
          >> bootstrap_panels window active)

  unfoldable pub ingest : Snapshot → List Row → Step
  ingest snapshot rows l =
      (guard (not (snapshot.block == cursor l + 1)) noncontiguous_finalized_history
          >> guard (ltb snapshot.epoch_index l.activation_epoch) activation_epoch_not_reached
          >> transaction (ingest_window snapshot (window_of snapshot l) rows >> add_block snapshot))
        l
