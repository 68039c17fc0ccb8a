-- ===== src/Ledger/Grows.antt =====
-- The steps of `Ledger.ingest` of witness/benchmark/ledger.py against the relation of Ledger/Log.
use witness_subnet.Base.{
  ℕ, refl, Bool, true, false, ◌&&◌, ◌||◌, not, Option, none, some, List, [], ◌∷◌, map, Bool-cases,
  Option-cases, inl, inr, any, ltb, length,
}
use witness_subnet.Base.Eq.{◌==◌, nat_eq, pair_eq}
use witness_subnet.Base.Text.{Text, text_eq}
use witness_subnet.Base.Dict.{Dict, lookup, contains}
use witness_subnet.Base.Outcome.{Outcome-cases}
use witness_subnet.Base.Sort.{sort}
use witness_subnet.Base.Method.{◌>>=◌, ◌>>◌, modify, guard, or_raise}
use witness_subnet.Errors.{Error, commitment_not_from_this_block, type_error}
use witness_subnet.Protocol.Record.{parse}
use witness_subnet.Protocol.Snapshot.{Snapshot, Row, Entry, row_order}
use witness_subnet.Protocol.Weights.{is_some}
use witness_subnet.Protocol.Decide.Aggregation.{EarlyLoss, set_eq, keys}
use witness_subnet.Submission.{parse_submission}
use witness_subnet.Ledger.Schedule.{hotkey_reset_window}
use witness_subnet.Ledger.State.{Ledger, Opening, Use}
use witness_subnet.Ledger.Open.{reset_admissions, open_window}
use witness_subnet.Ledger.Turn.{
  keep_use, consume_losses, retire, store_decision, close_window, turn_from, turn_window, evaluated,
  decision_at,
}
use witness_subnet.Ledger.Log.{
  Appends-refl, Appends-setdefault, Appends-values, Grows, Grows-refl, Grows-trans, StepGrows,
  bind_grows, then_grows,
}
use witness_subnet.Ledger.Ingest.{
  commit, row_eq, add_submission, add_pending, admit_result, is_terminal, admit_submission,
  ingest_row, ingest_rows, panels, store_panel, store_panels, bootstrap_panels, read_active,
  ingest_window,
}

keep_use-Grows : (e h : Text) (u : Use) (l : Ledger) → Grows l (keep_use e h u l)
unfolding keep_use
keep_use-Grows e h u l = record {
  uses = Appends-setdefault (e, h) u l.archived_uses l.uses;
  pending = Appends-refl _;
  submissions = Appends-refl _;
  commitments = Appends-refl _;
  blocks = refl;
}

add_pending-Grows : (e m : Text) (u : Use) (l : Ledger) → Grows l (add_pending e m u l)
unfolding add_pending
add_pending-Grows e m u l = record {
  uses = Appends-refl _;
  pending = Appends-setdefault (e, (u.window, m)) u l.archived_pending l.bootstrap_pending;
  submissions = Appends-refl _;
  commitments = Appends-refl _;
  blocks = refl;
}

add_submission-Grows : (own : Entry) (l : Ledger) → Grows l (add_submission own l)
unfolding add_submission
add_submission-Grows own l = record {
  uses = Appends-refl _;
  pending = Appends-refl _;
  submissions = Appends-values own.hotkey own l.archived_submissions l.submissions;
  commitments = Appends-refl _;
  blocks = refl;
}

commit-Grows : (row : Row) (l : Ledger) → Grows l (commit row l)
unfolding commit
commit-Grows row l = elim (Bool-cases (any (row_eq row) l.commitments)) [
  | inl h ↦ rw h (Grows-refl l)
  | inr h ↦ rw h (record {
    uses = Appends-refl _;
    pending = Appends-refl _;
    submissions = Appends-refl _;
    commitments = (row ∷ [], refl);
    blocks = refl;
  })
]

-- A reset moves the rows of three tables to the archive.
reset_admissions-Grows :
    (s : Snapshot) (window : ℕ) (l : Ledger) → Grows l (reset_admissions s window l)
unfolding reset_admissions
reset_admissions-Grows s window l =
    elim (Bool-cases
      (not l.versioned_media || ltb window hotkey_reset_window || is_some l.hotkey_reset)) [
        | inl h ↦ rw h (Grows-refl l)
        | inr h ↦ rw h (record {
          uses = ([], refl);
          pending = ([], refl);
          submissions = ([], refl);
          commitments = Appends-refl _;
          blocks = refl;
        })
      ]

open_window-Grows : (s : Snapshot) (window : ℕ) → StepGrows (open_window s window)
unfolding open_window
open_window-Grows s window l =
    let same : Grows l l = Grows-refl l in
    elim (Bool-cases (contains window l.windows)) [
      | inl h ↦ rw h (record {
        uses = same.uses;
        pending = same.pending;
        submissions = same.submissions;
        commitments = same.commitments;
        blocks = refl;
      })
      | inr h ↦ rw h (record {
        uses = same.uses;
        pending = same.pending;
        submissions = same.submissions;
        commitments = same.commitments;
        blocks = refl;
      })
    ]

store_decision-Grows :
    (s : Snapshot) (active : Opening) (l : Ledger) → Grows l (store_decision s active l)
unfolding store_decision
store_decision-Grows s active l =
    let same : Grows l l = Grows-refl l in
    record {
      uses = same.uses;
      pending = same.pending;
      submissions = same.submissions;
      commitments = same.commitments;
      blocks = refl;
    }

retire-Grows :
    (s : Snapshot) (active : Opening) (king : Option Entry) (l : Ledger)
    → Grows l (retire s active king l)
unfolding retire
retire-Grows s active king l =
    let same : Grows l l = Grows-refl l in
    elim (Bool-cases (not (is_some active.king) && not (is_some king) && evaluated s active l)) [
      | inl h ↦ rw h (record {
        uses = same.uses;
        pending = same.pending;
        submissions = same.submissions;
        commitments = same.commitments;
        blocks = refl;
      })
      | inr h ↦ rw h same
    ]

consume_losses-Grows :
    (active : Opening) (items : List EarlyLoss) → StepGrows (consume_losses active items)
unfolding consume_losses
consume_losses-Grows active [] l = Grows-refl l
consume_losses-Grows active (item ∷ items) l = elim (Outcome-cases (parse item.value)) [
  | inl (e, h) ↦ rw (h, consume_losses) (Grows-refl l)
  | inr (partial, h) ↦ elim (Option-cases (lookup partial.model_id active.candidates)) [
    | inl h' ↦ rw (h, h', consume_losses) (Grows-refl l)
    | inr (candidate, h') ↦
        rw (h, h', consume_losses)
          (Grows-trans _ _ _ (keep_use-Grows _ _ _ l) (consume_losses-Grows active items _))
  ]
]

close_window-Grows : (s : Snapshot) (active : Opening) → StepGrows (close_window s active)
unfolding close_window
close_window-Grows s active l =
    let decision = decision_at s active l in
    then_grows (modify (store_decision s active) >> consume_losses active decision.early_losses)
      (modify (retire s active decision.vector.king))
      (then_grows (modify (store_decision s active)) (consume_losses active decision.early_losses)
        (store_decision-Grows s active) (consume_losses-Grows active decision.early_losses))
      (retire-Grows s active decision.vector.king) l

fresh_window-Grows :
    (s : Snapshot) (window : ℕ)
    → StepGrows (modify (reset_admissions s window) >> open_window s window)
fresh_window-Grows s window =
    then_grows (modify (reset_admissions s window)) (open_window s window)
      (reset_admissions-Grows s window) (open_window-Grows s window)

turn_from-Grows :
    (s : Snapshot) (window : ℕ) (active : Option Opening) → StepGrows (turn_from s window active)
unfolding turn_from
turn_from-Grows s window none = fresh_window-Grows s window
turn_from-Grows s window (some active) = elim (Bool-cases (window == active.id)) [
  | inl h ↦ rw (h, turn_from) Grows-refl
  | inr h ↦
      rw (h, turn_from)
        (then_grows (close_window s active >> modify (reset_admissions s window))
          (open_window s window)
          (then_grows (close_window s active) (modify (reset_admissions s window))
            (close_window-Grows s active) (reset_admissions-Grows s window))
          (open_window-Grows s window))
]

turn_window-Grows : (s : Snapshot) (window : ℕ) → StepGrows (turn_window s window)
unfolding turn_window
turn_window-Grows s window l = turn_from-Grows s window l.active l

admit_result-Grows :
    (s : Snapshot) (window : ℕ) (active : Opening) (row : Row) (l : Ledger)
    → Grows l (admit_result s window active row l)
unfolding admit_result
admit_result-Grows s window active row l = elim (Outcome-cases (parse row.value)) [
  | inl (e, h) ↦ rw (h, admit_result) (Grows-refl l)
  | inr (result, h) ↦ elim (Option-cases (lookup result.model_id active.candidates)) [
    | inl h' ↦ rw (h, h', admit_result) (Grows-refl l)
    | inr (candidate, h') ↦
        elim (Bool-cases (
          not (is_terminal s window active row result candidate)
          || contains (row.hotkey, candidate.hotkey) l.uses)) [
            | inl skip ↦ rw (h, h', skip, admit_result) (Grows-refl l)
            | inr new ↦ elim (Bool-cases (is_some active.king)) [
              | inl reigns ↦ rw (h, h', new, reigns, admit_result) (keep_use-Grows _ _ _ l)
              | inr vacant ↦ rw (h, h', new, vacant, admit_result) (add_pending-Grows _ _ _ l)
            ]
          ]
  ]
]

module _ (challenge_id : Text → Text → Text) (s : Snapshot) where
  admit_submission-Grows : (row : Row) → StepGrows (admit_submission challenge_id s row)
  unfolding admit_submission
  admit_submission-Grows row l = elim (Outcome-cases (parse_submission row.value)) [
    | inl (e, h) ↦ rw (h, admit_submission) (Grows-refl l)
    | inr (submission, h) ↦ elim (Option-cases (lookup row.hotkey s.uids)) [
      | inl h' ↦ rw (h, h', admit_submission) (Grows-refl l)
      | inr (uid, h') ↦ elim (Option-cases (lookup row.hotkey s.coldkeys)) [
        | inl h'' ↦ rw (h, h', h'', admit_submission) (Grows-refl l)
        | inr (coldkey, h'') ↦ rw (h, h', h'', admit_submission) (add_submission-Grows _ l)
      ]
    ]
  ]

  guard-Grows : (b : Bool) (e : Error) → StepGrows (guard b e)
  guard-Grows true e l = Grows-refl l
  guard-Grows false e l = Grows-refl l

  ingest_row-Grows :
      (window : ℕ) (active : Opening) (row : Row)
      → StepGrows (ingest_row challenge_id s window active row)
  unfolding ingest_row
  ingest_row-Grows window active row =
      let check = guard (not (row.block == s.block)) commitment_not_from_this_block in
      then_grows (check >> modify (commit row) >> admit_submission challenge_id s row)
        (modify (admit_result s window active row))
        (then_grows (check >> modify (commit row)) (admit_submission challenge_id s row)
          (then_grows check (modify (commit row)) (guard-Grows _ _) (commit-Grows row))
          (admit_submission-Grows row))
        (admit_result-Grows s window active row)

  ingest_rows-Grows :
      (window : ℕ) (active : Opening) (rows : List Row)
      → StepGrows (ingest_rows challenge_id s window active rows)
  unfolding ingest_rows
  ingest_rows-Grows window active [] = Grows-refl
  ingest_rows-Grows window active (row ∷ rows) =
      then_grows (ingest_row challenge_id s window active row)
        (ingest_rows challenge_id s window active rows) (ingest_row-Grows window active row)
        (ingest_rows-Grows window active rows)

store_panel-Grows :
    (active : Opening) (evaluator : Text) (panel : Dict Text Use)
    → StepGrows (store_panel active evaluator panel)
unfolding store_panel
store_panel-Grows active evaluator [] l = Grows-refl l
store_panel-Grows active evaluator ((model, u) ∷ panel) l =
    elim (Option-cases (lookup model active.candidates)) [
      | inl h ↦ rw (h, store_panel) (Grows-refl l)
      | inr (candidate, h) ↦
          rw (h, store_panel)
            (Grows-trans _ _ _ (keep_use-Grows _ _ _ l)
              (store_panel-Grows active evaluator panel _))
    ]

store_panels-Grows :
    (active : Opening) (all : Dict Text (Dict Text Use)) → StepGrows (store_panels active all)
unfolding store_panels
store_panels-Grows active [] = Grows-refl
store_panels-Grows active ((evaluator, panel) ∷ rest) =
    elim (Bool-cases (set_eq (map (λ p. p.0) panel) (keys active.candidates))) [
      | inl h ↦
          rw (h, store_panels)
            (then_grows (store_panel active evaluator panel) (store_panels active rest)
              (store_panel-Grows active evaluator panel) (store_panels-Grows active rest))
      | inr h ↦ rw (h, store_panels) (store_panels-Grows active rest)
    ]

bootstrap_panels-Grows :
    (window : ℕ) (active : Opening) → StepGrows (bootstrap_panels window active)
unfolding bootstrap_panels
bootstrap_panels-Grows window active l =
    elim (Bool-cases (not (is_some active.king) && length active.candidates == 2)) [
      | inl h ↦ rw h (store_panels-Grows active (panels window l.bootstrap_pending []) l)
      | inr h ↦ rw h (Grows-refl l)
    ]

or_raise-Grows : {A : Type 0} (o : Option A) (e : Error) → StepGrows (or_raise o e)
or_raise-Grows none e = Grows-refl
or_raise-Grows (some a) e = Grows-refl

read_active-Grows : StepGrows read_active
unfolding read_active
read_active-Grows l = or_raise-Grows l.active type_error l

-- What a block's transaction does before it writes the block.
pub ingest_window-Grows :
    (challenge_id : Text → Text → Text) (s : Snapshot) (window : ℕ) (rows : List Row)
    → StepGrows (ingest_window challenge_id s window rows)
unfolding ingest_window
ingest_window-Grows challenge_id s window rows =
    let sorted = sort row_order.le rows in
    then_grows (turn_window s window)
      (read_active >>= λ active.
        ingest_rows challenge_id s window active sorted >> bootstrap_panels window active)
      (turn_window-Grows s window)
      (bind_grows read_active
        (λ active.
          ingest_rows challenge_id s window active sorted >> bootstrap_panels window active)
        read_active-Grows
        (λ active.
          then_grows (ingest_rows challenge_id s window active sorted)
            (bootstrap_panels window active) (ingest_rows-Grows challenge_id s window active sorted)
            (bootstrap_panels-Grows window active)))
