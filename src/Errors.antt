-- ===== src/Errors.antt =====
-- The exceptions of the program, one constructor for each message (or, for those of Python and
-- SQLite, for each exception class) that the modelled code raises.
use Prim.Native.Nat.{ℕ}
use witness_subnet.Base.Text.{Text}

pub data Error : Type 0 where
  -- protocol.py
  invalid_commitment_encoding noncanonical_commitment invalid_score invalid_window_or_uid : Error
  invalid_digest invalid_result reward_exceeds_quality rejected_result_must_score_zero : Error
  invalid_early_stop_flags not_a_v2_result : Error
  -- submission.py
  invalid_submission_digest not_a_v2_p2p_submission : Error
  -- triggers.py
  hotkey_reset_changed mainnet_requires_one_challenge_per_hotkey hotkey_already_consumed : Error
  use_defer_for_infrastructure_failures : Error
  -- ledger.py
  invalid_policy_upgrade_schedule invalid_admission_reset_upgrade invalid_policy_upgrade_order :
      Error
  noncontiguous_finalized_history activation_epoch_not_reached : Error
  commitment_not_from_this_block : Error
  -- budget.py
  invalid_cost invalid_budget_identity reservation_already_used daily_budget_exhausted
        budget_policy_changed :
      Error
  unknown_reservation settlement_changed provider_exceeded_reserved_ceiling : Error
  -- download_budget.py
  model_download_time_budget_exhausted invalid_readmission_block : Error
  -- storage.py
  immutable_record_changed : Error
  -- providers.py
  model_has_no_verified_rate unsupported_api_provider api_queue_deadline_expired : Error
  api_cache_miss api_key_unavailable request_exceeds_priced_context_bound : Error
  persistent_budget_path_required api_evaluation_deadline_expired api_outcome_unknown : Error
  invalid_provider_usage invalid_provider_settlement provider_changed_model : Error
  api_output_incomplete : Error
  provider_transport : Text → Text → Error
  provider_status : Text → ℕ → Error
  -- Python's KeyError, TypeError, AttributeError, JSONDecodeError, OSError and FileExistsError, SQLite's IntegrityError
  key_error type_error attribute_error json_decode_error os_error file_exists_error
        integrity_error :
      Error
