-- ===== src/Submission.antt =====
-- The submission record of witness/benchmark/submission.py: its checks, its commitment on the
-- chain and its parser. The challenge identity is a SHA-256 hash, which is a parameter.
pub mod RoundTrip
pub mod Tests
use witness_subnet.Base.{
  ℕ, ◌+◌, Bool, true, false, ◌||◌, not, List, [], ◌∷◌, ◌++◌, ltb, if◌then◌else◌, length, take, drop,
  all,
}
use witness_subnet.Base.Eq.{◌==◌, nat_eq}
use witness_subnet.Base.Text.{Text, text}
use witness_subnet.Base.Outcome.{Outcome, ok, err, ◌>>=◌, ◌>>◌, raise_if}
use witness_subnet.Errors.{Error, invalid_submission_digest, not_a_v2_p2p_submission}
use witness_subnet.Protocol.Codec.{encode_bytes, decode_bytes}
use witness_subnet.Protocol.Codec.Hex.{from_hex, to_hex}
use witness_subnet.Protocol.Record.{bad_digest, encoded_size, starts_with, max_commitment_bytes}

-- `SUBMISSION_PREFIX + '|'`
abbrev pub submission_prefix : Text
submission_prefix = text "wm2|"

pub record Submission : Type 0 where
  pub model_id : Text
  pub certificate : Text

-- `__post_init__`
unfoldable pub post_init : Submission → Outcome Error Submission
post_init s =
    raise_if (bad_digest s.model_id 64 || bad_digest s.certificate 64) invalid_submission_digest
    >> ok s

-- `Submission.commitment`
unfoldable pub commitment : Submission → Text
commitment s = submission_prefix ++ encode_bytes (from_hex s.model_id ++ from_hex s.certificate)

unfoldable pub parse_submission : Text → Outcome Error Submission
parse_submission value =
    raise_if
      (ltb max_commitment_bytes (encoded_size value) || not (starts_with submission_prefix value))
      not_a_v2_p2p_submission
    >> (decode_bytes (drop 4 value) 64 >>= λ raw.
        post_init (record { model_id = to_hex (take 32 raw); certificate = to_hex (drop 32 raw) }))
