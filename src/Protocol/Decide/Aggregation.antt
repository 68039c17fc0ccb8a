-- ===== src/Protocol/Decide/Aggregation.antt =====
-- The second loop of `decide` in witness/benchmark/protocol.py: the votes of a model, weighted by
-- stake, as exact fractions.
use witness_subnet.Base.{
  ℕ, ◌+◌, ◌*◌, Bool, false, ◌&&◌, ◌||◌, not, Option, none, some, List, [], ◌∷◌, ◌++◌, map, ltb, leb,
  if◌then◌else◌, any, all, length, keep,
}
use witness_subnet.Base.Eq.{◌==◌, nat_eq, pair_eq}
use witness_subnet.Base.Text.{Text, text_eq, text_leb}
use witness_subnet.Base.Dict.{Dict, lookup}
use witness_subnet.Base.Sort.{sort}
use witness_subnet.Protocol.Snapshot.{Snapshot, Entry}
use witness_subnet.Protocol.Record.{Result, commitment, controls_ok, rejected, early_stop, scale}
use witness_subnet.Protocol.Decide.Tallying.{Tally, Votes, mem, stake_of}

-- The fraction (plus - minus) / den.
pub record Fraction : Type 0 where
  pub plus : ℕ
  pub minus : ℕ
  pub den : ℕ

abbrev pub frac_lt : Fraction → Fraction → Bool
frac_lt a b = ltb (a.plus * b.den + b.minus * a.den) (b.plus * a.den + a.minus * b.den)

abbrev pub frac_le : Fraction → Fraction → Bool
frac_le a b = leb (a.plus * b.den + b.minus * a.den) (b.plus * a.den + a.minus * b.den)

-- `Fraction(5, 100)` and `Fraction(2, 100)`
abbrev pub quality_floor : Fraction
quality_floor = record { plus = 5; minus = 0; den = 100 }

abbrev pub margin : Fraction
margin = record { plus = 2; minus = 0; den = 100 }

pub record Aggregate : Type 0 where
  pub quality : Fraction
  pub reward : Fraction
  pub delta : Fraction
  pub bounded : Bool
  pub evaluators : List Text
  pub stake : ℕ

pub record EarlyLoss : Type 0 where
  pub hotkey : Text
  pub value : Text

-- `sum(stakes[v] * f(r) for v, r in valid.items())`
unfoldable pub weighted : Snapshot → (Result → ℕ) → Votes → ℕ
weighted snapshot f [] = 0
weighted snapshot f ((v, r) ∷ valid) = stake_of snapshot v * f r + weighted snapshot f valid

abbrev pub set_eq : List Text → List Text → Bool
set_eq s t = all (λ x. mem x t) s && all (λ x. mem x s) t

abbrev pub keys : Dict Text Entry → List Text
keys d = map (λ p. p.0) d

module _ (king : Option Entry) (candidates : Dict Text Entry) (snapshot : Snapshot)
    (t : Tally) where
  -- A bootstrap vote counts if its evaluator measured both candidates.
  unfoldable pub panel_complete : Text → Bool
  panel_complete voter = length candidates == 2 && (elim (lookup voter t.terminal_panels) [
    | none ↦ false
    | some panel ↦ set_eq panel (keys candidates)
  ])

  -- A vote against a king counts if it is paired with the same evaluator's measurement of him.
  unfoldable pub paired : Entry → Text → Result → Bool
  paired king voter result = elim (lookup (voter, king.model_id) t.baselines) [
    | none ↦ false
    | some baseline ↦
        not (rejected baseline.flags)
        && (controls_ok baseline.flags
            && (baseline.quality == result.king_quality && baseline.reward == result.king_reward))
  ]

  unfoldable pub counts : Text → Result → Bool
  counts voter result = elim king [
    | none ↦ panel_complete voter
    | some king ↦ paired king voter result
  ]

  unfoldable pub valid_votes : Votes → Votes
  valid_votes votes = keep (λ vote. counts vote.0 vote.1) votes

  unfoldable pub measure : Votes → Aggregate
  measure valid =
      let total = weighted snapshot (λ r. 1) valid in
      let den = total * scale in
      record {
        quality = record { plus = weighted snapshot (λ r. r.quality) valid; minus = 0; den = den };
        reward = record { plus = weighted snapshot (λ r. r.reward) valid; minus = 0; den = den };
        delta = record {
          plus = weighted snapshot (λ r. r.reward) valid;
          minus = weighted snapshot (λ r. r.king_reward) valid;
          den = den;
        };
        bounded = any (λ vote. early_stop vote.1.flags) valid;
        evaluators = sort text_leb (map (λ vote. vote.0) valid);
        stake = total;
      }

  -- The aggregate of a model, unless no vote counts or its quality is at most the floor.
  unfoldable pub aggregate_of : Votes → Option Aggregate
  aggregate_of [] = none
  aggregate_of (vote ∷ valid) =
      let a = measure (vote ∷ valid) in if frac_le a.quality quality_floor then none else some a

  unfoldable pub aggregates : Dict Text Votes → Dict Text Aggregate
  aggregates [] = []
  aggregates ((model_id, votes) ∷ records) =
      let rest = aggregates records in
      elim (aggregate_of (valid_votes votes)) [ none ↦ rest | some a ↦ (model_id, a) ∷ rest ]

  -- The upper bounds of a model that do not clear the bars consume their attempts.
  unfoldable pub losses_of : Votes → List EarlyLoss
  losses_of [] = []
  losses_of (vote ∷ valid) =
      let a = measure (vote ∷ valid) in
      let bounds = keep (λ v. early_stop v.1.flags) (vote ∷ valid) in
      if frac_le a.quality quality_floor || frac_le a.delta margin
      then map (λ v. record { hotkey = v.0; value = commitment v.1 }) bounds
      else []

  unfoldable pub early_losses : Dict Text Votes → List EarlyLoss
  early_losses [] = []
  early_losses ((model_id, votes) ∷ records) = losses_of (valid_votes votes) ++ early_losses records
