-- ===== src/Protocol/Record.antt =====
-- The result record of witness/benchmark/protocol.py: `class Result`, its checks on construction,
-- and its commitment on the chain.
pub mod Pack
pub mod RoundTrip
pub mod Valid
use witness_subnet.Base.{
  ℕ, zero, suc, ◌+◌, ◌*◌, ◌/◌, ◌%◌, ◌^◌, Bool, true, false, ◌&&◌, ◌||◌, not, List, [], ◌∷◌, ◌++◌,
  ltb, leb, if◌then◌else◌, length, take, drop, all,
}
use witness_subnet.Base.Eq.{◌==◌, nat_eq}
use witness_subnet.Base.Text.{Text, text, text_eq, text_beq}
use witness_subnet.Base.Outcome.{Outcome, ok, err, ◌>>=◌, ◌>>◌, raise_if}
use witness_subnet.Errors.{
  Error, invalid_window_or_uid, invalid_digest, invalid_result, reward_exceeds_quality,
  rejected_result_must_score_zero, invalid_early_stop_flags, not_a_v2_result,
}
use witness_subnet.Protocol.Codec.{encode_bytes, decode_bytes}
use witness_subnet.Protocol.Codec.Hex.{is_hex, from_hex, to_hex}

abbrev pub result_prefix : Text
result_prefix = text "wr2|"

abbrev pub max_commitment_bytes : ℕ
max_commitment_bytes = 128

abbrev pub scale : ℕ
scale = 65535

-- The bits of `flags`.
abbrev pub controls_ok : ℕ → Bool
controls_ok flags = flags % 2 == 1

abbrev pub rejected : ℕ → Bool
rejected flags = flags / 2 % 2 == 1

abbrev pub baseline : ℕ → Bool
baseline flags = flags / 4 % 2 == 1

abbrev pub early_stop : ℕ → Bool
early_stop flags = flags / 8 % 2 == 1

pub record Result : Type 0 where
  pub window : ℕ
  pub uid : ℕ
  pub model_id : Text
  pub policy : Text
  pub evidence : Text
  pub quality : ℕ
  pub reward : ℕ
  pub king_quality : ℕ
  pub king_reward : ℕ
  pub flags : ℕ

abbrev pub bad_digest : Text → ℕ → Bool
bad_digest value size = not (length value == size) || not (all is_hex value)

-- The tests of `__post_init__`; the fields are not negative here.
abbrev pub bad_range : Result → Bool
bad_range r = not (ltb r.window (2 ^ 32)) || not (ltb r.uid (2 ^ 16))

abbrev pub bad_digests : Result → Bool
bad_digests r = bad_digest r.model_id 64 || bad_digest r.policy 24 || bad_digest r.evidence 64

abbrev pub bad_fields : Result → Bool
bad_fields r =
    not (ltb r.flags 16)
    || not (leb r.quality scale)
    || not (leb r.reward scale)
    || not (leb r.king_quality scale)
    || not (leb r.king_reward scale)

abbrev pub bad_rewards : Result → Bool
bad_rewards r = ltb r.quality r.reward || ltb r.king_quality r.king_reward

abbrev pub bad_rejection : Result → Bool
bad_rejection r = rejected r.flags && (not (r.quality == 0) || not (r.reward == 0))

abbrev pub bad_early_stop : Result → Bool
bad_early_stop r =
    early_stop r.flags && (baseline r.flags || rejected r.flags || not (controls_ok r.flags))

-- `__post_init__`
unfoldable pub post_init : Result → Outcome Error Result
post_init r =
    raise_if (bad_range r) invalid_window_or_uid
    >> raise_if (bad_digests r) invalid_digest
    >> raise_if (bad_fields r) invalid_result
    >> raise_if (bad_rewards r) reward_exceeds_quality
    >> raise_if (bad_rejection r) rejected_result_must_score_zero
    >> raise_if (bad_early_stop r) invalid_early_stop_flags
    >> ok r

-- Big-endian, `size` bytes.
unfoldable pub big_endian : ℕ → ℕ → List ℕ
big_endian zero n = []
big_endian (suc size) n = (n / 256 ^ size % 256) ∷ big_endian size n

unfoldable pub from_big_endian : ℕ → List ℕ → ℕ
from_big_endian acc [] = acc
from_big_endian acc (b ∷ bytes) = from_big_endian (acc * 256 + b) bytes

-- `_RESULT.pack`, of struct ">IH32s12s32s4HB"
unfoldable pub pack : Result → List ℕ
pack r =
    big_endian 4 r.window
    ++ (big_endian 2 r.uid
        ++ (from_hex r.model_id
            ++ (from_hex r.policy
                ++ (from_hex r.evidence
                    ++ (big_endian 2 r.quality
                        ++ (big_endian 2 r.reward
                            ++ (big_endian 2 r.king_quality
                                ++ (big_endian 2 r.king_reward ++ big_endian 1 r.flags))))))))

-- `_RESULT.unpack`, with the digests as the hexadecimal text that `parse` makes of them
unfoldable pub unpack : List ℕ → Result
unpack raw =
    let from_uid = drop 4 raw in
    let from_model = drop 2 from_uid in
    let from_policy = drop 32 from_model in
    let from_evidence = drop 12 from_policy in
    let from_quality = drop 32 from_evidence in
    let from_reward = drop 2 from_quality in
    let from_king_quality = drop 2 from_reward in
    let from_king_reward = drop 2 from_king_quality in
    let from_flags = drop 2 from_king_reward in
    record {
      window = from_big_endian 0 (take 4 raw);
      uid = from_big_endian 0 (take 2 from_uid);
      model_id = to_hex (take 32 from_model);
      policy = to_hex (take 12 from_policy);
      evidence = to_hex (take 32 from_evidence);
      quality = from_big_endian 0 (take 2 from_quality);
      reward = from_big_endian 0 (take 2 from_reward);
      king_quality = from_big_endian 0 (take 2 from_king_quality);
      king_reward = from_big_endian 0 (take 2 from_king_reward);
      flags = from_big_endian 0 from_flags;
    }

-- `Result.commitment`
unfoldable pub commitment : Result → Text
commitment r = result_prefix ++ encode_bytes (pack r)

-- The size of the UTF-8 encoding of one code point.
abbrev pub utf8_size : ℕ → ℕ
utf8_size c = if ltb c 128 then 1 else if ltb c 2048 then 2 else if ltb c 65536 then 3 else 4

-- `len(value.encode())`
unfoldable pub encoded_size : Text → ℕ
encoded_size [] = 0
encoded_size (c ∷ s) = utf8_size c + encoded_size s

unfoldable pub starts_with : Text → Text → Bool
starts_with [] s = true
starts_with (p ∷ prefix) [] = false
starts_with (p ∷ prefix) (c ∷ s) = c == p && starts_with prefix s

abbrev pub result_bytes : ℕ
result_bytes = 91

-- `Result.parse`
unfoldable pub parse : Text → Outcome Error Result
parse value =
    raise_if
      (not (starts_with result_prefix value) || ltb max_commitment_bytes (encoded_size value))
      not_a_v2_result
    >> (decode_bytes (drop 4 value) result_bytes >>= λ raw. post_init (unpack raw))
