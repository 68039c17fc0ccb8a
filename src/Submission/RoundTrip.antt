-- ===== src/Submission/RoundTrip.antt =====
-- The commitment of a submission in witness/benchmark/submission.py, and its parser.
use witness_subnet.Base.{
  ◌<◌, ◌≡◌, refl, true, false, ◌||◌, ◌++◌, arith, ltb, length, drop, All, All-append, length-append,
}
use witness_subnet.Base.Outcome.{ok, raise_if->>-ok, ok-injective}
use witness_subnet.Errors.{invalid_submission_digest}
use witness_subnet.Protocol.Codec.{encode_bytes, decode_bytes}
use witness_subnet.Protocol.Codec.Base64.{
  decode_bytes-encode_bytes, encode_bytes-ascii, length-encode_bytes,
}
use witness_subnet.Protocol.Codec.Hex.{from_hex, from_hex-bytes}
use witness_subnet.Protocol.Record.{bad_digest, encoded_size, starts_with, max_commitment_bytes}
use witness_subnet.Protocol.Record.Valid.{IsDigest, bad_digest-IsDigest}
use witness_subnet.Protocol.Record.RoundTrip.{
  length-digest, digest_back, starts_with-append, encoded_size-ascii,
}
use witness_subnet.Protocol.Record.Pack.{take_front, drop_front}
use witness_subnet.Submission.{
  Submission, submission_prefix, post_init, commitment, parse_submission,
}

pub record IsValid (s : Submission) : Type 0 where
  pub model_digest : IsDigest 64 s.model_id
  pub certificate_digest : IsDigest 64 s.certificate

pub post_init-IsValid : (s t : Submission) → post_init s ≡ ok t → (s ≡ t) × IsValid s
unfolding post_init
post_init-IsValid s t h =
    let bad = bad_digest s.model_id 64 || bad_digest s.certificate 64 in
    let (good, same) = raise_if->>-ok bad invalid_submission_digest (ok s) h in
    (
      ok-injective same,
      record {
        model_digest = bad_digest-IsDigest 64 s.model_id (ground arith);
        certificate_digest = bad_digest-IsDigest 64 s.certificate (ground arith);
      },
    )

IsValid-post_init : (s : Submission) → IsValid s → post_init s ≡ ok s
unfolding post_init
IsValid-post_init s v = ground arith

-- Parsing the commitment of a valid submission gives the submission back.
pub parse_submission-commitment :
    (s : Submission) → IsValid s → parse_submission (commitment s) ≡ ok s
unfolding parse_submission
parse_submission-commitment s v =
    let model = from_hex s.model_id in
    let certificate = from_hex s.certificate in
    let raw = model ++ certificate in
    let bytes : All (λ b. b < 256) raw =
      All-append _ model certificate (from_hex-bytes _ v.model_digest.digits)
        (from_hex-bytes _ v.certificate_digest.digits) in
    let lm = length-digest 32 s.model_id v.model_digest in
    let lc = length-digest 32 s.certificate v.certificate_digest in
    let size : length raw ≡ 64 = omega (arith, length-append model certificate, lm, lc) in
    let decoded : decode_bytes (encode_bytes raw) 64 ≡ ok raw =
      rw (← size) (decode_bytes-encode_bytes raw bytes) in
    let start : starts_with submission_prefix (commitment s) ≡ true =
      unfold commitment in starts_with-append submission_prefix (encode_bytes raw) in
    let rest : drop 4 (commitment s) ≡ encode_bytes raw = unfold commitment in refl in
    let short : ltb max_commitment_bytes (encoded_size (commitment s)) ≡ false =
      unfold commitment encoded_size in
      ground (
        arith,
        encoded_size-ascii (encode_bytes raw) (encode_bytes-ascii raw bytes),
        length-encode_bytes raw,
      ) in
    rw
      (
        short,
        start,
        rest,
        decoded,
        take_front 32 model certificate lm,
        drop_front 32 model certificate lm,
        digest_back 32 s.model_id v.model_digest,
        digest_back 32 s.certificate v.certificate_digest,
      )
      (IsValid-post_init s v)
