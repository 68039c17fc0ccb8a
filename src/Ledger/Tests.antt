-- ===== src/Ledger/Tests.antt =====
-- Examples for the ledger: an upgrade, and the first block of a window.
use mathlib.Core.List.{Permᴰ}
use witness_subnet.Base.{
  ℕ, ◌≡◌, ◌≢◌, refl, Bool, true, false, Option, none, some, List, [], ◌∷◌, ◌++◌, arith, ltb,
  if◌then◌else◌,
}
use witness_subnet.Base.Text.{Text, text, text_beq}
use witness_subnet.Base.Outcome.{ok}
use witness_subnet.Protocol.Snapshot.{Row}
use witness_subnet.Protocol.Record.{commitment}
use witness_subnet.Protocol.Tests.{
  snapshot, entry_a, entry_b, result_a, result_b, model_a, model_b, policy_hash,
}
use witness_subnet.Submission.{Submission}
use witness_subnet.Protocol.Decide.{legacy_policy}
use witness_subnet.Ledger.Schedule.{Upgrade, validate_upgrade, policy_for_window}
use witness_subnet.Ledger.Schedule.History.{
  InOrder, validate_upgrade-InOrder, in_force, fixed_policies, oldest_policy, chronology,
  policy_for_window-in_force,
}
use witness_subnet.Ledger.State.{Ledger, Opening, Window, Use, cursor}
use witness_subnet.Ledger.Ingest.{ingest}
use witness_subnet.Ledger.Atomic.{Ends, ingest_atomic, ingest_perm}

-- Two upgrades: the second policy from window 20, the third from window 30.
abbrev first_upgrade : Upgrade
first_upgrade = Upgrade.single 20 model_a none

abbrev second_upgrade : Upgrade
second_upgrade = Upgrade.extend 30 model_b none first_upgrade

second_upgrade-valid : validate_upgrade second_upgrade policy_hash ≡ ok tt
unfolding validate_upgrade text_beq
second_upgrade-valid = refl

validate_upgrade-InOrder_example : InOrder second_upgrade policy_hash
validate_upgrade-InOrder_example =
    validate_upgrade-InOrder second_upgrade policy_hash second_upgrade-valid

policy_for_window-in_force_example :
    (policy_for_window true (some second_upgrade) policy_hash 25
      ≡ in_force legacy_policy
          (fixed_policies (oldest_policy second_upgrade) (chronology second_upgrade policy_hash []))
          25)
    × (policy_for_window false (some second_upgrade) policy_hash 25 ≡ policy_hash)
policy_for_window-in_force_example =
    policy_for_window-in_force second_upgrade policy_hash 25 second_upgrade-valid

abbrev challenge_id : Text → Text → Text
challenge_id hotkey model = hotkey ++ model

abbrev ledger : Ledger
ledger = record {
  activation_block = 90;
  activation_epoch = 2;
  policy = policy_hash;
  policy_upgrade = none;
  versioned_media = false;
  blocks = [];
  commitments = [];
  submissions = (text "a", entry_a) ∷ (text "b", entry_b) ∷ [];
  windows = [];
  uses = [];
  bootstrap_pending = [];
  archived_submissions = [];
  archived_uses = [];
  archived_pending = [];
  last_block = some 99;
  active = none;
  king = none;
  decision = none;
  bootstrap_retired = [];
  bootstrap_after = none;
  hotkey_reset = none;
}

-- The two results of one evaluator, in the block that opens window 20.
abbrev row_a : Row
row_a = record { block = 100; hotkey = text "v"; value = commitment result_a }

abbrev row_b : Row
row_b = record { block = 100; hotkey = text "v"; value = commitment result_b }

ingest_atomic_example :
    Ends snapshot ledger (ingest challenge_id snapshot (row_b ∷ row_a ∷ []) ledger)
ingest_atomic_example = ingest_atomic challenge_id snapshot (row_b ∷ row_a ∷ []) ledger

ingest_perm_example :
    ingest challenge_id snapshot (row_a ∷ row_b ∷ []) ledger
    ≡ ingest challenge_id snapshot (row_b ∷ row_a ∷ []) ledger
ingest_perm_example =
    ingest_perm challenge_id snapshot (row_a ∷ row_b ∷ []) (row_b ∷ row_a ∷ []) ledger
      ∣ Permᴰ.swap refl refl ∣₁

-- Both results are taken in as uses of the window, once the panel is complete.
taken_in :
    (ingest challenge_id snapshot (row_b ∷ row_a ∷ []) ledger).1.uses
    ≡ (
      (text "v", text "a"),
      record { window = 20; result = result_a; commitment = commitment result_a },
    )
      ∷ (
        (text "v", text "b"),
        record { window = 20; result = result_b; commitment = commitment result_b },
      )
      ∷ []
unfolding witness_subnet.Ledger.Open.reset_admissions witness_subnet.Ledger.Open.admit
    witness_subnet.Ledger.Open.current_king witness_subnet.Ledger.Open.index_after
    witness_subnet.Ledger.Open.rotate witness_subnet.Ledger.Open.bootstrap_order
    witness_subnet.Ledger.Open.pair_of witness_subnet.Ledger.Open.by_model
    witness_subnet.Ledger.Open.last_hotkey witness_subnet.Ledger.Open.line_up
    witness_subnet.Ledger.Open.opening_of witness_subnet.Ledger.Open.next_after
    witness_subnet.Ledger.Open.open_window witness_subnet.Ledger.Turn.keep_use
    witness_subnet.Ledger.Turn.record_closing witness_subnet.Ledger.Turn.consume_losses
    witness_subnet.Ledger.Turn.evaluated witness_subnet.Ledger.Turn.add_missing
    witness_subnet.Ledger.Turn.union witness_subnet.Ledger.Turn.retire
    witness_subnet.Ledger.Turn.decision_at witness_subnet.Ledger.Turn.closing_at
    witness_subnet.Ledger.Turn.store_decision witness_subnet.Ledger.Turn.close_window
    witness_subnet.Ledger.Turn.turn_from witness_subnet.Ledger.Turn.turn_window
    witness_subnet.Ledger.Ingest.commit witness_subnet.Ledger.Ingest.add_submission
    witness_subnet.Ledger.Ingest.add_pending witness_subnet.Ledger.Ingest.is_terminal
    witness_subnet.Ledger.Ingest.admit_result witness_subnet.Ledger.Ingest.admit_submission
    witness_subnet.Ledger.Ingest.ingest_row witness_subnet.Ledger.Ingest.ingest_rows
    witness_subnet.Ledger.Ingest.panels witness_subnet.Ledger.Ingest.store_panel
    witness_subnet.Ledger.Ingest.store_panels witness_subnet.Ledger.Ingest.bootstrap_panels
    witness_subnet.Ledger.Ingest.add_block witness_subnet.Ledger.Ingest.read_active
    witness_subnet.Ledger.Ingest.ingest_window witness_subnet.Ledger.Ingest.ingest
    witness_subnet.Ledger.State.submissions witness_subnet.Ledger.State.history
    witness_subnet.Ledger.State.votes witness_subnet.Ledger.State.voting_history
    witness_subnet.Ledger.State.is_closed witness_subnet.Ledger.Schedule.validate_upgrade
    witness_subnet.Ledger.Schedule.walk witness_subnet.Ledger.Schedule.policy_for_window
    witness_subnet.Triggers.Fair.append_to witness_subnet.Triggers.Fair.group
    witness_subnet.Triggers.Fair.head_held witness_subnet.Triggers.Fair.release
    witness_subnet.Triggers.Fair.round witness_subnet.Triggers.Fair.rounds
    witness_subnet.Triggers.Fair.dispatch witness_subnet.Protocol.Decide.burn_of
    witness_subnet.Protocol.Decide.metric witness_subnet.Protocol.Decide.is_eligible
    witness_subnet.Protocol.Decide.eligible witness_subnet.Protocol.Decide.is_inconclusive
    witness_subnet.Protocol.Decide.ahead witness_subnet.Protocol.Decide.best_of
    witness_subnet.Protocol.Decide.choose witness_subnet.Protocol.Decide.settle
    witness_subnet.Protocol.Decide.winner_of witness_subnet.Protocol.Decide.has_panel
    witness_subnet.Protocol.Decide.chosen_of witness_subnet.Protocol.Decide.still_registered
    witness_subnet.Protocol.Decide.decide witness_subnet.Protocol.Decide.Tallying.vote
    witness_subnet.Protocol.Decide.Tallying.tally_candidate
    witness_subnet.Protocol.Decide.Tallying.tally_result
    witness_subnet.Protocol.Decide.Tallying.tally_row
    witness_subnet.Protocol.Decide.Tallying.tally_rows witness_subnet.Protocol.Decide.Tallying.tally
    witness_subnet.Protocol.Decide.Aggregation.weighted
    witness_subnet.Protocol.Decide.Aggregation.panel_complete
    witness_subnet.Protocol.Decide.Aggregation.paired
    witness_subnet.Protocol.Decide.Aggregation.counts
    witness_subnet.Protocol.Decide.Aggregation.valid_votes
    witness_subnet.Protocol.Decide.Aggregation.measure
    witness_subnet.Protocol.Decide.Aggregation.aggregate_of
    witness_subnet.Protocol.Decide.Aggregation.aggregates
    witness_subnet.Protocol.Decide.Aggregation.losses_of
    witness_subnet.Protocol.Decide.Aggregation.early_losses witness_subnet.Protocol.Record.post_init
    witness_subnet.Protocol.Record.big_endian witness_subnet.Protocol.Record.from_big_endian
    witness_subnet.Protocol.Record.pack witness_subnet.Protocol.Record.unpack
    witness_subnet.Protocol.Record.commitment witness_subnet.Protocol.Record.encoded_size
    witness_subnet.Protocol.Record.starts_with witness_subnet.Protocol.Record.parse
    witness_subnet.Submission.post_init witness_subnet.Submission.commitment
    witness_subnet.Submission.parse_submission witness_subnet.Protocol.Codec.encode_char
    witness_subnet.Protocol.Codec.decode_char witness_subnet.Protocol.Codec.encode_bytes
    witness_subnet.Protocol.Codec.pad witness_subnet.Protocol.Codec.b64decode
    witness_subnet.Protocol.Codec.decode_bytes witness_subnet.Protocol.Codec.Hex.hex_digit
    witness_subnet.Protocol.Codec.Hex.hex_value witness_subnet.Protocol.Codec.Hex.to_hex
    witness_subnet.Protocol.Codec.Hex.from_hex witness_subnet.Protocol.Weights.king_allocations
    witness_subnet.Protocol.Weights.allocate witness_subnet.Protocol.Weights.uid_of
    witness_subnet.Protocol.Weights.vector_of witness_subnet.Protocol.Weights.weight_vector
    witness_subnet.Base.Dict.lookup witness_subnet.Base.Dict.insert witness_subnet.Base.Dict.erase
    witness_subnet.Base.Dict.contains witness_subnet.Base.Dict.setdefault
    witness_subnet.Base.Sort.insert_sorted witness_subnet.Base.Sort.sort
    witness_subnet.Base.Text.text_beq witness_subnet.Base.Text.text_leb
    witness_subnet.Base.Method.transaction
taken_in = refl
