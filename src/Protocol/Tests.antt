-- ===== src/Protocol/Tests.antt =====
-- Examples for the modules of Protocol, on results of a bootstrap window and a challenge.
use mathlib.Core.List.{Permᴰ}
use witness_subnet.Base.{
  ℕ, ◌≤◌, ◌<◌, ◌≡◌, refl, ◌⊎◌, inl, inr, Bool, true, false, Option, none, some, List, [], ◌∷◌, ◌++◌,
  arith, length, All, all,
}
use witness_subnet.Base.Eq.{nat_eq}
use witness_subnet.Base.Text.{Text, text, text_eq, text_beq, text_leb}
use witness_subnet.Base.Outcome.{ok}
use witness_subnet.Base.Dict.{Dict, lookup, contains, insert, setdefault}
use witness_subnet.Base.Sort.{sort, insert_sorted}
use witness_subnet.Protocol.Codec.{
  encode_bytes, decode_bytes, encode_char, decode_char, b64decode, pad,
}
use witness_subnet.Protocol.Codec.Hex.{from_hex, to_hex, is_hex}
use witness_subnet.Protocol.Codec.Base64.{IsByte, decode_bytes-encode_bytes}
use witness_subnet.Protocol.Record.{
  Result, commitment, parse, encoded_size, pack, unpack, post_init, starts_with, big_endian,
  from_big_endian, early_stop,
}
use witness_subnet.Protocol.Record.Valid.{IsDigest, IsValid}
use witness_subnet.Protocol.Record.RoundTrip.{
  encoded_size-commitment, parse-commitment, parse_canonical,
}
use witness_subnet.Protocol.Snapshot.{Snapshot, Row, Entry}
use witness_subnet.Protocol.Weights.{
  weight_vector, vector_of, allocate, whole, uid_of, Source, WeightVector,
}
use witness_subnet.Protocol.Weights.Sums.{weights_whole, sum}
use witness_subnet.Protocol.Decide.{decide}
use witness_subnet.Protocol.Decide.Crown.{decide_perm, decide-Crowned, Crowned}
use witness_subnet.Protocol.Decide.Tallying.{Tally, tally, empty_tally, tally_row, tally_rows}
use witness_subnet.Protocol.Decide.Votes.{Counts, first_result_wins, vote_of}

abbrev pub model_a : Text
model_a = text "aaaaaaaaaaaaaaaaaaaaaaaaaaaaaaaaaaaaaaaaaaaaaaaaaaaaaaaaaaaaaaaa"

abbrev pub model_b : Text
model_b = text "bbbbbbbbbbbbbbbbbbbbbbbbbbbbbbbbbbbbbbbbbbbbbbbbbbbbbbbbbbbbbbbb"

abbrev pub policy_hash : Text
policy_hash = text "cccccccccccccccccccccccccccccccccccccccccccccccccccccccccccccccc"

abbrev pub policy_tag : Text
policy_tag = text "cccccccccccccccccccccccc"

-- The panel of one evaluator: 0.3 for the first model, 0.4 for the second.
abbrev pub result_a : Result
result_a = record {
  window = 20;
  uid = 1;
  model_id = model_a;
  policy = policy_tag;
  evidence = policy_hash;
  quality = 20000;
  reward = 19660;
  king_quality = 0;
  king_reward = 0;
  flags = 1;
}

abbrev pub result_b : Result
result_b = record {
  window = 20;
  uid = 2;
  model_id = model_b;
  policy = policy_tag;
  evidence = policy_hash;
  quality = 30000;
  reward = 26214;
  king_quality = 0;
  king_reward = 0;
  flags = 1;
}

abbrev pub entry_a : Entry
entry_a = record {
  block = 10;
  hotkey = text "a";
  value = text "wm2|a";
  coldkey = text "A";
  uid = 1;
  model_id = model_a;
}

abbrev pub entry_b : Entry
entry_b = record {
  block = 11;
  hotkey = text "b";
  value = text "wm2|b";
  coldkey = text "B";
  uid = 2;
  model_id = model_b;
}

abbrev pub snapshot : Snapshot
snapshot = record {
  block = 100;
  block_hash = text "0x64";
  epoch_index = 42;
  burn_uid = some 0;
  uids = (text "a", 1) ∷ (text "b", 2) ∷ (text "v", 3) ∷ [];
  coldkeys = (text "a", text "A") ∷ (text "b", text "B") ∷ (text "v", text "V") ∷ [];
  validators = (text "v", 1000) ∷ [];
}

abbrev pub candidates : Dict Text Entry
candidates = (model_a, entry_a) ∷ (model_b, entry_b) ∷ []

model_a-IsDigest : IsDigest 64 model_a
model_a-IsDigest = record { size_eq = refl; digits = unfold is_hex in refl }

model_b-IsDigest : IsDigest 64 model_b
model_b-IsDigest = record { size_eq = refl; digits = unfold is_hex in refl }

policy-IsDigest : IsDigest 64 policy_hash
policy-IsDigest = record { size_eq = refl; digits = unfold is_hex in refl }

tag-IsDigest : IsDigest 24 policy_tag
tag-IsDigest = record { size_eq = refl; digits = unfold is_hex in refl }

result_a-IsValid : IsValid result_a
result_a-IsValid = record {
  window_range = omega arith;
  uid_range = omega arith;
  model_digest = model_a-IsDigest;
  policy_digest = tag-IsDigest;
  evidence_digest = policy-IsDigest;
  flags_range = omega arith;
  quality_range = omega arith;
  king_quality_range = omega arith;
  reward_bound = omega arith;
  king_reward_bound = omega arith;
  rejected_zero = λ h. ground arith;
  early_stop_flags = λ h. ground arith;
}

result_b-IsValid : IsValid result_b
result_b-IsValid = record {
  window_range = omega arith;
  uid_range = omega arith;
  model_digest = model_b-IsDigest;
  policy_digest = tag-IsDigest;
  evidence_digest = policy-IsDigest;
  flags_range = omega arith;
  quality_range = omega arith;
  king_quality_range = omega arith;
  reward_bound = omega arith;
  king_reward_bound = omega arith;
  rejected_zero = λ h. ground arith;
  early_stop_flags = λ h. ground arith;
}

parse-commitment_example : parse (commitment result_a) ≡ ok result_a
parse-commitment_example = parse-commitment result_a result_a-IsValid

encoded_size-commitment_example : encoded_size (commitment result_a) ≡ 126
encoded_size-commitment_example = encoded_size-commitment result_a result_a-IsValid

parse_canonical_example : (commitment result_a ≡ commitment result_a) × IsValid result_a
parse_canonical_example =
    parse_canonical (commitment result_a) result_a (parse-commitment result_a result_a-IsValid)

abbrev bytes : List ℕ
bytes = 0 ∷ 255 ∷ 16 ∷ 32 ∷ []

bytes-IsByte : All IsByte bytes
bytes-IsByte = (omega arith, (omega arith, (omega arith, (omega arith, tt))))

decode_bytes-encode_bytes_example : decode_bytes (encode_bytes bytes) 4 ≡ ok bytes
decode_bytes-encode_bytes_example = decode_bytes-encode_bytes bytes bytes-IsByte

weights_whole_example :
    let v = weight_vector (some entry_a) snapshot 7 in (v.weights ≡ []) ⊎ (sum v.weights ≡ whole)
weights_whole_example = weights_whole (some entry_a) snapshot 7 (omega arith)

-- A king who has left the chain.
abbrev gone : Entry
gone = record entry_a { hotkey = text "z" }

abbrev pub row_a : Row
row_a = record { block = 60; hotkey = text "v"; value = commitment result_a }

abbrev pub row_b : Row
row_b = record { block = 61; hotkey = text "v"; value = commitment result_b }

decide_perm_example :
    decide (row_a ∷ row_b ∷ []) 20 policy_hash none candidates snapshot
    ≡ decide (row_b ∷ row_a ∷ []) 20 policy_hash none candidates snapshot
decide_perm_example =
    decide_perm (row_a ∷ row_b ∷ []) (row_b ∷ row_a ∷ []) 20 policy_hash none candidates snapshot
      ∣ Permᴰ.swap refl refl ∣₁

-- The better of the two is crowned.
crowned :
    (decide (row_b ∷ row_a ∷ []) 20 policy_hash none candidates snapshot).vector.king ≡ some entry_b
unfolding witness_subnet.Protocol.Decide.burn_of witness_subnet.Protocol.Decide.metric
    witness_subnet.Protocol.Decide.is_eligible witness_subnet.Protocol.Decide.eligible
    witness_subnet.Protocol.Decide.is_inconclusive witness_subnet.Protocol.Decide.ahead
    witness_subnet.Protocol.Decide.best_of witness_subnet.Protocol.Decide.choose
    witness_subnet.Protocol.Decide.settle witness_subnet.Protocol.Decide.winner_of
    witness_subnet.Protocol.Decide.has_panel witness_subnet.Protocol.Decide.chosen_of
    witness_subnet.Protocol.Decide.still_registered witness_subnet.Protocol.Decide.decide
    witness_subnet.Protocol.Decide.Tallying.vote
    witness_subnet.Protocol.Decide.Tallying.tally_candidate
    witness_subnet.Protocol.Decide.Tallying.tally_result
    witness_subnet.Protocol.Decide.Tallying.tally_row
    witness_subnet.Protocol.Decide.Tallying.tally_rows witness_subnet.Protocol.Decide.Tallying.tally
    witness_subnet.Protocol.Decide.Aggregation.weighted
    witness_subnet.Protocol.Decide.Aggregation.panel_complete
    witness_subnet.Protocol.Decide.Aggregation.paired
    witness_subnet.Protocol.Decide.Aggregation.counts
    witness_subnet.Protocol.Decide.Aggregation.valid_votes
    witness_subnet.Protocol.Decide.Aggregation.measure
    witness_subnet.Protocol.Decide.Aggregation.aggregate_of
    witness_subnet.Protocol.Decide.Aggregation.aggregates
    witness_subnet.Protocol.Decide.Aggregation.losses_of
    witness_subnet.Protocol.Decide.Aggregation.early_losses witness_subnet.Protocol.Record.post_init
    witness_subnet.Protocol.Record.big_endian witness_subnet.Protocol.Record.from_big_endian
    witness_subnet.Protocol.Record.pack witness_subnet.Protocol.Record.unpack
    witness_subnet.Protocol.Record.commitment witness_subnet.Protocol.Record.encoded_size
    witness_subnet.Protocol.Record.starts_with witness_subnet.Protocol.Record.parse
    witness_subnet.Protocol.Codec.encode_char witness_subnet.Protocol.Codec.decode_char
    witness_subnet.Protocol.Codec.encode_bytes witness_subnet.Protocol.Codec.pad
    witness_subnet.Protocol.Codec.b64decode witness_subnet.Protocol.Codec.decode_bytes
    witness_subnet.Protocol.Codec.Hex.hex_digit witness_subnet.Protocol.Codec.Hex.hex_value
    witness_subnet.Protocol.Codec.Hex.to_hex witness_subnet.Protocol.Codec.Hex.from_hex
    witness_subnet.Protocol.Weights.king_allocations witness_subnet.Protocol.Weights.allocate
    witness_subnet.Protocol.Weights.uid_of witness_subnet.Protocol.Weights.vector_of
    witness_subnet.Protocol.Weights.weight_vector witness_subnet.Base.Dict.lookup
    witness_subnet.Base.Dict.insert witness_subnet.Base.Dict.erase witness_subnet.Base.Dict.contains
    witness_subnet.Base.Dict.setdefault witness_subnet.Base.Sort.insert_sorted
    witness_subnet.Base.Sort.sort witness_subnet.Base.Text.text_beq
    witness_subnet.Base.Text.text_leb
crowned = refl

decide-Crowned_example :
    (◌≡◌ {A = Option Entry} none (some entry_b))
    ⊎ Crowned none candidates snapshot
        (tally 20 policy_hash none candidates snapshot (row_b ∷ row_a ∷ []))
        entry_b
decide-Crowned_example =
    decide-Crowned (row_b ∷ row_a ∷ []) 20 policy_hash none candidates snapshot entry_b crowned

-- The evaluator votes for the second model; then he changes his mind.
abbrev second_thought : Row
second_thought = record row_b { value = commitment (record result_b { reward = 1 }) }

model_b-known : lookup model_b candidates ≡ some entry_b
unfolding lookup text_beq
model_b-known = refl

result_b-Counts : Counts 20 policy_hash none candidates snapshot model_b entry_b row_b result_b
unfolding text_beq lookup
result_b-Counts = record {
  parsed = parse-commitment result_b result_b-IsValid;
  in_window = refl;
  candidate = refl;
  model = refl;
  own = refl;
  full = refl;
}

first_result_wins_example :
    vote_of
      (tally_rows 20 policy_hash none candidates snapshot empty_tally (row_b ∷ second_thought ∷ []))
      model_b
      (text "v")
    ≡ vote_of
        (tally_row 20 policy_hash none candidates snapshot empty_tally row_b)
        model_b
        (text "v")
first_result_wins_example =
    first_result_wins 20 policy_hash none candidates snapshot model_b (text "v") entry_b
      model_b-known empty_tally row_b result_b (second_thought ∷ []) refl result_b-Counts
