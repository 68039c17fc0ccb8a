-- ===== src/Protocol/Record/Valid.antt =====
-- The invariant that `class Result` of witness/benchmark/protocol.py checks on construction.
use witness_subnet.Base.{ℕ, ◌≤◌, ◌<◌, ◌≡◌, refl, Bool, true, false, ◌||◌, arith, length, all}
use witness_subnet.Base.Eq.{nat_eq}
use witness_subnet.Base.Text.{Text}
use witness_subnet.Base.Outcome.{ok, ok-injective, raise_if, ◌>>◌}
use witness_subnet.Errors.{
  invalid_window_or_uid, invalid_digest, invalid_result, reward_exceeds_quality,
  rejected_result_must_score_zero, invalid_early_stop_flags,
}
use witness_subnet.Protocol.Codec.Hex.{is_hex}
use witness_subnet.Protocol.Record.{
  Result, post_init, bad_digest, controls_ok, rejected, baseline, early_stop, bad_range,
  bad_digests, bad_fields, bad_rewards, bad_rejection, bad_early_stop,
}

pub record IsDigest (size : ℕ) (s : Text) : Type 0 where
  pub size_eq : length s ≡ size
  pub digits : all is_hex s ≡ true

pub record IsValid (r : Result) : Type 0 where
  pub window_range : r.window < 4294967296
  pub uid_range : r.uid < 65536
  pub model_digest : IsDigest 64 r.model_id
  pub policy_digest : IsDigest 24 r.policy
  pub evidence_digest : IsDigest 64 r.evidence
  pub flags_range : r.flags < 16
  pub quality_range : r.quality ≤ 65535
  pub king_quality_range : r.king_quality ≤ 65535
  pub reward_bound : r.reward ≤ r.quality
  pub king_reward_bound : r.king_reward ≤ r.king_quality
  pub rejected_zero : rejected r.flags ≡ true → (r.quality ≡ 0) × (r.reward ≡ 0)
  pub early_stop_flags :
      early_stop r.flags ≡ true
      → (baseline r.flags ≡ false) × (rejected r.flags ≡ false) × (controls_ok r.flags ≡ true)

pub bad_digest-IsDigest : (size : ℕ) (s : Text) → bad_digest s size ≡ false → IsDigest size s
bad_digest-IsDigest size s h = record { size_eq = ground arith; digits = ground arith }

digests_ok : (a b c : Bool) → a || b || c ≡ false → (a ≡ false) × (b ≡ false) × (c ≡ false)
digests_ok a b c h = ground arith

passed :
    (a b c d e f : Bool) (x y : Result)
    → (raise_if a invalid_window_or_uid
        >> raise_if b invalid_digest
        >> raise_if c invalid_result
        >> raise_if d reward_exceeds_quality
        >> raise_if e rejected_result_must_score_zero
        >> raise_if f invalid_early_stop_flags
        >> ok x)
      ≡ ok y
    → (x ≡ y) × (a ≡ false) × (b ≡ false) × (c ≡ false) × (d ≡ false) × (e ≡ false) × (f ≡ false)
passed true b c d e f x y h = cc
passed false true c d e f x y h = cc
passed false false true d e f x y h = cc
passed false false false true e f x y h = cc
passed false false false false true f x y h = cc
passed false false false false false true x y h = cc
passed false false false false false false x y h =
    (ok-injective h, refl, refl, refl, refl, refl, refl)

module _ (r : Result) where
  digests_valid :
      bad_digests r ≡ false → IsDigest 64 r.model_id × IsDigest 24 r.policy × IsDigest 64 r.evidence
  digests_valid h =
      let (m, p, e) =
        digests_ok (bad_digest r.model_id 64) (bad_digest r.policy 24) (bad_digest r.evidence 64)
          h in
      (
        bad_digest-IsDigest 64 r.model_id m,
        bad_digest-IsDigest 24 r.policy p,
        bad_digest-IsDigest 64 r.evidence e,
      )

  rejection_valid :
      bad_rejection r ≡ false → rejected r.flags ≡ true → (r.quality ≡ 0) × (r.reward ≡ 0)
  rejection_valid h k = ground arith

  early_stop_valid :
      bad_early_stop r ≡ false
      → early_stop r.flags ≡ true
      → (baseline r.flags ≡ false) × (rejected r.flags ≡ false) × (controls_ok r.flags ≡ true)
  early_stop_valid h k = ground arith

  fields_valid :
      bad_range r ≡ false
      → bad_fields r ≡ false
      → bad_rewards r ≡ false
      → (r.window < 4294967296)
        × (r.uid < 65536)
        × (r.flags < 16)
        × (r.quality ≤ 65535)
        × (r.king_quality ≤ 65535)
        × (r.reward ≤ r.quality)
        × (r.king_reward ≤ r.king_quality)
  fields_valid a c d = ground arith

-- Construction succeeds only on valid values, and gives back what it was given.
pub post_init-IsValid : (r s : Result) → post_init r ≡ ok s → (r ≡ s) × IsValid r
unfolding post_init
post_init-IsValid r s h =
    let (same, a, b, c, d, e, f) =
      passed (bad_range r) (bad_digests r) (bad_fields r) (bad_rewards r) (bad_rejection r)
        (bad_early_stop r) r s h in
    let (m, p, v) = digests_valid r b in
    let (w, u, g, q, kq, rq, kr) = fields_valid r a c d in
    (
      same,
      record {
        window_range = w;
        uid_range = u;
        model_digest = m;
        policy_digest = p;
        evidence_digest = v;
        flags_range = g;
        quality_range = q;
        king_quality_range = kq;
        reward_bound = rq;
        king_reward_bound = kr;
        rejected_zero = rejection_valid r e;
        early_stop_flags = early_stop_valid r f;
      },
    )

pub IsValid-post_init : (r : Result) → IsValid r → post_init r ≡ ok r
unfolding post_init
IsValid-post_init r v = ground (arith, v.rejected_zero, v.early_stop_flags)
