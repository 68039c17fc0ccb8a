-- ===== src/Ledger/Turn.antt =====
-- The first half of the transaction of `Ledger.ingest` in witness/benchmark/ledger.py: at the first
-- block of a window the window before it is closed and the new one opened.
use witness_subnet.Base.{
  ℕ, Bool, ◌&&◌, not, Option, none, some, List, [], ◌∷◌, ◌++◌, map, if◌then◌else◌, any, all, length,
}
use witness_subnet.Base.Eq.{◌==◌, nat_eq, pair_eq}
use witness_subnet.Base.Text.{Text, text_eq, text_leb}
use witness_subnet.Base.Dict.{Dict, lookup, contains, setdefault}
use witness_subnet.Base.Sort.{sort}
use witness_subnet.Base.Outcome.{ok, err}
use witness_subnet.Base.Method.{Action, ◌>>◌, modify}
use witness_subnet.Errors.{Error, key_error}
use witness_subnet.Protocol.Record.{parse}
use witness_subnet.Protocol.Snapshot.{Snapshot, Entry}
use witness_subnet.Protocol.Weights.{is_some}
use witness_subnet.Protocol.Decide.{Decision, decide}
use witness_subnet.Protocol.Decide.Tallying.{mem}
use witness_subnet.Protocol.Decide.Aggregation.{EarlyLoss}
use witness_subnet.Ledger.State.{Ledger, Opening, Closing, Window, Use, voting_history}
use witness_subnet.Ledger.Open.{reset_admissions, open_window, all_values}

abbrev pub Step : Type 0
Step = Action Error Ledger (Unit {0})

abbrev pub skip : Step
skip l = (ok tt, l)

-- `INSERT OR IGNORE INTO uses`
unfoldable pub keep_use : Text → Text → Use → Ledger → Ledger
keep_use evaluator hotkey use_row l = record l {
  uses = setdefault (evaluator, hotkey) use_row l.uses;
}

-- `UPDATE windows SET decision=? WHERE id=?`
unfoldable pub record_closing : ℕ → Closing → Dict ℕ Window → Dict ℕ Window
record_closing id closing [] = []
record_closing id closing ((w, window) ∷ windows) =
    (w, if w == id then record window { closing = some closing } else window)
    ∷ record_closing id closing windows

-- The loop over `decision["early_losses"]`.
unfoldable pub consume_losses : Opening → List EarlyLoss → Step
unfolding keep_use
consume_losses active [] l = (ok tt, l)
consume_losses active (item ∷ items) l = elim (parse item.value) [
  | err e ↦ (err e, l)
  | ok partial ↦ elim (lookup partial.model_id active.candidates) [
    | none ↦ (err key_error, l)
    | some candidate ↦ consume_losses active items (
        keep_use item.hotkey candidate.hotkey
          (record { window = active.id; result = partial; commitment = item.value }) l)
  ]
]

abbrev pub hotkeys_of : Opening → List Text
hotkeys_of active = map (λ r. r.hotkey) (all_values active.candidates)

-- `any(pair and pair <= set(self.usage(v)) for v in snapshot["validators"])`
unfoldable pub evaluated : Snapshot → Opening → Ledger → Bool
evaluated snapshot active l =
    let pair = hotkeys_of active in
    not (length pair == 0)
    && any (λ v. all (λ h. contains (v.0, h) l.uses) pair) snapshot.validators

unfoldable pub add_missing : List Text → List Text → List Text
add_missing [] texts = texts
add_missing (t ∷ more) texts = add_missing more (if mem t texts then texts else t ∷ texts)

-- `sorted(set(retired) | pair)`
unfoldable pub union : List Text → List Text → List Text
unfolding add_missing
union retired pair = sort text_leb (add_missing (retired ++ pair) [])

-- A pair that some validator evaluated in full without a coronation does not come again.
unfoldable pub retire : Snapshot → Opening → Option Entry → Ledger → Ledger
retire snapshot active king l =
    if not (is_some active.king) && not (is_some king) && evaluated snapshot active l
    then record l { bootstrap_retired = union l.bootstrap_retired (hotkeys_of active) }
    else l

unfoldable pub decision_at : Snapshot → Opening → Ledger → Decision
decision_at snapshot active l =
    decide (voting_history active snapshot.block l) active.id active.policy_hash active.king
      active.candidates snapshot

unfoldable pub closing_at : Snapshot → Opening → Ledger → Closing
closing_at snapshot active l = record {
  decision = decision_at snapshot active l;
  block = snapshot.block;
  block_hash = snapshot.block_hash;
  end_epoch = snapshot.epoch_index;
}

-- The decision of the window that ends, stored.
unfoldable pub store_decision : Snapshot → Opening → Ledger → Ledger
unfolding record_closing
store_decision snapshot active l =
    let closing = closing_at snapshot active l in
    record l {
      windows = record_closing active.id closing l.windows;
      king = closing.decision.vector.king;
      decision = some closing;
    }

unfoldable pub close_window : Snapshot → Opening → Step
close_window snapshot active l =
    let decision = decision_at snapshot active l in
    (modify (store_decision snapshot active)
        >> consume_losses active decision.early_losses
        >> modify (retire snapshot active decision.vector.king))
      l

-- The window of the block: the old one is closed and the next one opened at its first block.
unfoldable pub turn_from : Snapshot → ℕ → Option Opening → Step
turn_from snapshot window none =
    modify (reset_admissions snapshot window) >> open_window snapshot window
turn_from snapshot window (some active) =
    if window == active.id
    then modify (λ l. l)
    else close_window snapshot active
      >> modify (reset_admissions snapshot window)
      >> open_window snapshot window

unfoldable pub turn_window : Snapshot → ℕ → Step
unfolding turn_from
turn_window snapshot window l = turn_from snapshot window l.active l
