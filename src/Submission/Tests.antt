-- ===== src/Submission/Tests.antt =====
-- An example for the submission record.
use witness_subnet.Base.{◌≡◌, refl}
use witness_subnet.Base.Outcome.{ok}
use witness_subnet.Protocol.Tests.{model_a, model_b}
use witness_subnet.Submission.{Submission, commitment, parse_submission}
use witness_subnet.Submission.RoundTrip.{IsValid, parse_submission-commitment}

abbrev pub submission : Submission
submission = record { model_id = model_a; certificate = model_b }

submission-IsValid : IsValid submission
submission-IsValid = record {
  model_digest = record { size_eq = refl; digits = refl };
  certificate_digest = record { size_eq = refl; digits = refl };
}

parse_submission-commitment_example : parse_submission (commitment submission) ≡ ok submission
parse_submission-commitment_example = parse_submission-commitment submission submission-IsValid
