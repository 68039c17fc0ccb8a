-- ===== src/Protocol/Record/RoundTrip.antt =====
-- The commitment of a result in witness/benchmark/protocol.py, and its parser.
use witness_subnet.Base.{
  ℕ, ◌+◌, ◌≤◌, ◌<◌, ◌≡◌, refl, ap, ◌∙◌, true, not, ◌||◌, List, [], ◌∷◌, ◌++◌, arith, ltb, length,
  take, drop, All, All-append, All-append_left, All-append_right, length-append, take-append-drop,
  length-take,
}
use witness_subnet.Base.Eq.{nat_eq, eq_refl}
use witness_subnet.Base.Text.{Text}
use witness_subnet.Base.Outcome.{ok, raise_if->>-ok, >>=-eq-ok, ◌>>=◌}
use witness_subnet.Errors.{not_a_v2_result}
use witness_subnet.Protocol.Codec.{encode_bytes, decode_bytes}
use witness_subnet.Protocol.Codec.Base64.{
  decode_bytes-encode_bytes, decode_bytes_canonical, encode_bytes-ascii, length-encode_bytes,
  decode_bytes-bytes,
}
use witness_subnet.Protocol.Codec.Hex.{
  to_hex, from_hex, from_hex-to_hex, to_hex-from_hex, length-from_hex, from_hex-bytes,
}
use witness_subnet.Protocol.Record.{
  Result, result_prefix, result_bytes, pack, unpack, commitment, parse, post_init,
  max_commitment_bytes, starts_with, encoded_size, big_endian, from_big_endian,
}
use witness_subnet.Protocol.Record.Pack.{
  length-big_endian, big_endian-bytes, from_big_endian-one, from_big_endian-two,
  from_big_endian-four, unpack_fields,
}
use witness_subnet.Protocol.Record.Valid.{IsValid, IsDigest, post_init-IsValid, IsValid-post_init}

pub length-digest : (n : ℕ) (s : Text) → IsDigest (n + n) s → length (from_hex s) ≡ n
length-digest n s d = length-from_hex n s d.size_eq

pub digest_back : (n : ℕ) (s : Text) → IsDigest (n + n) s → to_hex (from_hex s) ≡ s
digest_back n s d = to_hex-from_hex n s d.size_eq d.digits

module _ (r : Result) (v : IsValid r) where
  pub unpack-pack : unpack (pack r) ≡ r
  unfolding pack
  unpack-pack =
      unpack_fields (big_endian 4 r.window) (big_endian 2 r.uid) (from_hex r.model_id)
        (from_hex r.policy) (from_hex r.evidence) (big_endian 2 r.quality) (big_endian 2 r.reward)
        (big_endian 2 r.king_quality) (big_endian 2 r.king_reward) (big_endian 1 r.flags)
        (length-big_endian 4 _) (length-big_endian 2 _) (length-digest 32 _ v.model_digest)
        (length-digest 12 _ v.policy_digest) (length-digest 32 _ v.evidence_digest)
        (length-big_endian 2 _) (length-big_endian 2 _) (length-big_endian 2 _)
        (length-big_endian 2 _)
      ∙ rw (
        from_big_endian-four r.window v.window_range,
        from_big_endian-two r.uid v.uid_range,
        digest_back 32 r.model_id v.model_digest,
        digest_back 12 r.policy v.policy_digest,
        digest_back 32 r.evidence v.evidence_digest,
        from_big_endian-two r.quality (omega (arith, v.quality_range)),
        from_big_endian-two r.reward (omega (arith, v.quality_range, v.reward_bound)),
        from_big_endian-two r.king_quality (omega (arith, v.king_quality_range)),
        from_big_endian-two r.king_reward
            (omega (arith, v.king_quality_range, v.king_reward_bound)),
        from_big_endian-one r.flags (omega (arith, v.flags_range)),
      )

  pub length-pack : length (pack r) ≡ 91
  unfolding pack
  length-pack = simp (
    length-append,
    length-big_endian,
    length-digest 32 _ v.model_digest,
    length-digest 12 _ v.policy_digest,
    length-digest 32 _ v.evidence_digest,
  )

  pub pack-bytes : All (λ b. b < 256) (pack r)
  unfolding pack
  pack-bytes = All-append _ (big_endian 4 r.window) _ (big_endian-bytes 4 _) (
      All-append _ (big_endian 2 r.uid) _ (big_endian-bytes 2 _) (
        All-append _ (from_hex r.model_id) _ (from_hex-bytes _ v.model_digest.digits) (
          All-append _ (from_hex r.policy) _ (from_hex-bytes _ v.policy_digest.digits) (
            All-append _ (from_hex r.evidence) _ (from_hex-bytes _ v.evidence_digest.digits) (
              All-append _ (big_endian 2 r.quality) _ (big_endian-bytes 2 _) (
                All-append _ (big_endian 2 r.reward) _ (big_endian-bytes 2 _) (
                  All-append _ (big_endian 2 r.king_quality) _ (big_endian-bytes 2 _) (
                    All-append _ (big_endian 2 r.king_reward) _ (big_endian-bytes 2 _)
                      (big_endian-bytes 1 _)))))))))

pub starts_with-append : (p s : Text) → starts_with p (p ++ s) ≡ true
unfolding starts_with
starts_with-append [] s = refl
starts_with-append (c ∷ p) s = rw (eq_refl c) (starts_with-append p s)

pub encoded_size-ascii : (s : Text) → All (λ c. c < 128) s → encoded_size s ≡ length s
unfolding encoded_size
encoded_size-ascii [] h = refl
encoded_size-ascii (c ∷ s) h = ground (arith, encoded_size-ascii s h.1)

-- The commitment of a valid result is 126 bytes in UTF-8, within the 128 that the chain stores.
pub encoded_size-commitment : (r : Result) → IsValid r → encoded_size (commitment r) ≡ 126
unfolding commitment encoded_size
encoded_size-commitment r v =
    let ascii = encode_bytes-ascii (pack r) (pack-bytes r v) in
    let size = encoded_size-ascii (encode_bytes (pack r)) ascii in
    omega (arith, size, length-encode_bytes (pack r), length-pack r v)

-- Parsing the commitment of a valid result gives the result back.
pub parse-commitment : (r : Result) → IsValid r → parse (commitment r) ≡ ok r
unfolding parse
parse-commitment r v =
    let decoded : decode_bytes (encode_bytes (pack r)) result_bytes ≡ ok (pack r) =
      rw (← length-pack r v) (decode_bytes-encode_bytes (pack r) (pack-bytes r v)) in
    let start : starts_with result_prefix (commitment r) ≡ true =
      unfold commitment in starts_with-append result_prefix (encode_bytes (pack r)) in
    let rest : drop 4 (commitment r) ≡ encode_bytes (pack r) = unfold commitment in refl in
    rw (start, encoded_size-commitment r v, rest, decoded, unpack-pack r v) (IsValid-post_init r v)

-- Bytes of the right number are what a number is packed into.
big_endian-from_one :
    (s : List ℕ) → length s ≡ 1 → All (λ b. b < 256) s → big_endian 1 (from_big_endian 0 s) ≡ s
unfolding big_endian from_big_endian
big_endian-from_one [] l h = absurd (omega arith)
big_endian-from_one (a ∷ []) l h = ground arith
big_endian-from_one (a ∷ b ∷ s) l h = absurd (omega arith)

big_endian-from_two :
    (s : List ℕ) → length s ≡ 2 → All (λ b. b < 256) s → big_endian 2 (from_big_endian 0 s) ≡ s
unfolding big_endian from_big_endian
big_endian-from_two [] l h = absurd (omega arith)
big_endian-from_two (a ∷ []) l h = absurd (omega arith)
big_endian-from_two (a ∷ b ∷ []) l h = ground arith
big_endian-from_two (a ∷ b ∷ c ∷ s) l h = absurd (omega arith)

big_endian-from_four :
    (s : List ℕ) → length s ≡ 4 → All (λ b. b < 256) s → big_endian 4 (from_big_endian 0 s) ≡ s
unfolding big_endian from_big_endian
big_endian-from_four [] l h = absurd (omega arith)
big_endian-from_four (a ∷ []) l h = absurd (omega arith)
big_endian-from_four (a ∷ b ∷ []) l h = absurd (omega arith)
big_endian-from_four (a ∷ b ∷ c ∷ []) l h = absurd (omega arith)
big_endian-from_four (a ∷ b ∷ c ∷ d ∷ []) l h = ground arith
big_endian-from_four (a ∷ b ∷ c ∷ d ∷ e ∷ s) l h = absurd (omega arith)

-- The front of a long enough list, and what follows it.
pub cut :
    (k : ℕ) (s : List ℕ)
    → k ≤ length s
    → All (λ b. b < 256) s
    → (length (take k s) ≡ k)
      × (length (drop k s) + k ≡ length s)
      × All (λ b. b < 256) (take k s)
      × All (λ b. b < 256) (drop k s)
cut k s l h =
    let whole = take-append-drop k s in
    let bytes : All (λ b. b < 256) (take k s ++ drop k s) = rw whole h in
    let size = length-take k s in
    (
      omega (arith, size),
      omega (arith, size, ap length whole, length-append (take k s) (drop k s)),
      All-append_left _ (take k s) (drop k s) bytes,
      All-append_right _ (take k s) (drop k s) bytes,
    )

pub pack-unpack :
    (raw : List ℕ) → length raw ≡ 91 → All (λ b. b < 256) raw → pack (unpack raw) ≡ raw
unfolding pack unpack
pack-unpack raw l h =
    let t1 = drop 4 raw in
    let t2 = drop 2 t1 in
    let t3 = drop 32 t2 in
    let t4 = drop 12 t3 in
    let t5 = drop 32 t4 in
    let t6 = drop 2 t5 in
    let t7 = drop 2 t6 in
    let t8 = drop 2 t7 in
    let t9 = drop 2 t8 in
    let (n0, m0, b0, r0) = cut 4 raw (omega arith) h in
    let (n1, m1, b1, r1) = cut 2 t1 (omega arith) r0 in
    let (n2, m2, b2, r2) = cut 32 t2 (omega arith) r1 in
    let (n3, m3, b3, r3) = cut 12 t3 (omega arith) r2 in
    let (n4, m4, b4, r4) = cut 32 t4 (omega arith) r3 in
    let (n5, m5, b5, r5) = cut 2 t5 (omega arith) r4 in
    let (n6, m6, b6, r6) = cut 2 t6 (omega arith) r5 in
    let (n7, m7, b7, r7) = cut 2 t7 (omega arith) r6 in
    let (n8, m8, b8, r8) = cut 2 t8 (omega arith) r7 in
    rw (
      big_endian-from_four (take 4 raw) n0 b0,
      big_endian-from_two (take 2 t1) n1 b1,
      from_hex-to_hex (take 32 t2) b2,
      from_hex-to_hex (take 12 t3) b3,
      from_hex-to_hex (take 32 t4) b4,
      big_endian-from_two (take 2 t5) n5 b5,
      big_endian-from_two (take 2 t6) n6 b6,
      big_endian-from_two (take 2 t7) n7 b7,
      big_endian-from_two (take 2 t8) n8 b8,
      big_endian-from_one t9 (omega arith) r8,
      take-append-drop 2 t8,
      take-append-drop 2 t7,
      take-append-drop 2 t6,
      take-append-drop 2 t5,
      take-append-drop 32 t4,
      take-append-drop 12 t3,
      take-append-drop 32 t2,
      take-append-drop 2 t1,
      take-append-drop 4 raw,
    )

starts_with_split : (s : Text) → starts_with result_prefix s ≡ true → result_prefix ++ drop 4 s ≡ s
unfolding starts_with
starts_with_split [] h = cc
starts_with_split (a ∷ []) h = ground arith
starts_with_split (a ∷ b ∷ []) h = ground arith
starts_with_split (a ∷ b ∷ c ∷ []) h = ground arith
starts_with_split (a ∷ b ∷ c ∷ d ∷ s) h = ground arith

-- A text that parses to a result is the commitment of that result, and the result is valid: every
-- other spelling of it is refused.
pub parse_canonical :
    (value : Text) (r : Result) → parse value ≡ ok r → (commitment r ≡ value) × IsValid r
unfolding parse commitment
parse_canonical value r h =
    let bad =
      not (starts_with result_prefix value) || ltb max_commitment_bytes (encoded_size value) in
    let (good, h1) =
      raise_if->>-ok bad not_a_v2_result
        (decode_bytes (drop 4 value) result_bytes >>= λ raw. post_init (unpack raw)) h in
    let (raw, decoded, built) =
      >>=-eq-ok (decode_bytes (drop 4 value) result_bytes) (λ raw. post_init (unpack raw)) h1 in
    let (same, valid) = post_init-IsValid (unpack raw) r built in
    let bytes = decode_bytes-bytes (drop 4 value) result_bytes raw decoded in
    let (size, text) = decode_bytes_canonical (drop 4 value) result_bytes raw decoded in
    let start : starts_with result_prefix value ≡ true = ground arith in
    (
      rw (← same, pack-unpack raw size bytes, text) (starts_with_split value start),
      rw same at valid,
    )
