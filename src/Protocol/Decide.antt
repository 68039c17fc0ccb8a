-- ===== src/Protocol/Decide.antt =====
-- `decide` of witness/benchmark/protocol.py: the votes of a window are tallied, aggregated by
-- stake, and the king of the next window is chosen.
pub mod Tallying
pub mod Aggregation
pub mod Crown
pub mod Votes
use witness_subnet.Base.{
  ℕ, ◌+◌, ◌*◌, Bool, true, false, ◌&&◌, ◌||◌, not, Option, none, some, List, [], ◌∷◌, ◌++◌, map,
  leb, ltb, if◌then◌else◌, any, keep, length,
}
use witness_subnet.Base.Eq.{◌==◌, nat_eq}
use witness_subnet.Base.Text.{Text, text, text_eq, text_leb}
use witness_subnet.Base.Dict.{Dict, lookup, contains}
use witness_subnet.Base.Sort.{sort}
use witness_subnet.Protocol.Snapshot.{Snapshot, Row, Entry}
use witness_subnet.Protocol.Weights.{WeightVector, weight_vector, default_burn, is_some}
use witness_subnet.Protocol.Decide.Tallying.{Tally, tally, mem}
use witness_subnet.Protocol.Decide.Aggregation.{
  Fraction, Aggregate, EarlyLoss, frac_lt, frac_le, margin, aggregates, early_losses,
}

-- The policies that burnt 7/10.
abbrev pub legacy_policy : Text
legacy_policy = text "d063b9d0f4bd2d659f175823c3d720be32b2d7f7d7311dd07514fa5ad3ddd918"

abbrev pub five_video_policy : Text
five_video_policy = text "4623a70ac9c406d8af341390cb25e7d22b29cada7b1b78929d6303cbc27bd239"

abbrev pub ten_video_policy : Text
ten_video_policy = text "3caf2020574fcc790fbe1d14dca4c9749f6916edc87a3f66217cb9c258a64341"

abbrev pub resume_policy : Text
resume_policy = text "89333ecc57fe24426b6c5f863609a1dfdb1d19107552e7665d48a2a111a5dbb3"

unfoldable pub burn_of : Text → ℕ
burn_of policy =
    if mem policy (legacy_policy ∷ five_video_policy ∷ ten_video_policy ∷ resume_policy ∷ [])
    then 7
    else default_burn

pub record Decision : Type 0 where
  pub window : ℕ
  pub vector : WeightVector
  pub inconclusive : List Text
  pub early_losses : List EarlyLoss
  pub aggregates : Dict Text Aggregate

-- A model that may be crowned: its submission and its aggregate.
pub record Contender : Type 0 where
  pub model_id : Text
  pub entry : Entry
  pub result : Aggregate

module _ (king : Option Entry) (candidates : Dict Text Entry) (snapshot : Snapshot) where
  -- `metric`, `aggregates[m][metric]`
  unfoldable pub metric : Aggregate → Fraction
  metric a = if is_some king then a.delta else a.reward

  unfoldable pub is_eligible : Entry → Aggregate → Bool
  is_eligible entry a =
      contains entry.hotkey snapshot.uids
      && (not a.bounded && (not (is_some king) || frac_lt margin a.delta))

  -- `[m for m, a in aggregates.items() if …]`
  unfoldable pub eligible : Dict Text Aggregate → List Contender
  eligible [] = []
  eligible ((m, a) ∷ rest) =
      let others = eligible rest in
      elim (lookup m candidates) [
        | none ↦ others
        | some entry ↦
            if is_eligible entry a
            then (record { model_id = m; entry = entry; result = a }) ∷ others
            else others
      ]

  unfoldable pub is_inconclusive : Aggregate → Bool
  is_inconclusive a = a.bounded && frac_lt margin a.delta

  -- The order of `key=lambda m: (-metric, block, hotkey)`.
  unfoldable pub ahead : Contender → Contender → Bool
  ahead a b =
      if frac_lt (metric b.result) (metric a.result)
      then true
      else if frac_lt (metric a.result) (metric b.result)
      then false
      else if ltb a.entry.block b.entry.block
      then true
      else if ltb b.entry.block a.entry.block
      then false
      else text_leb a.entry.hotkey b.entry.hotkey

  -- `min(…)`: the first of the least
  unfoldable pub best_of : Contender → List Contender → Contender
  best_of best [] = best
  best_of best (c ∷ rest) = best_of (if ahead best c then best else c) rest

  unfoldable pub choose : List Contender → Option Contender
  choose [] = none
  choose (c ∷ rest) = some (best_of c rest)

  -- An upper bound that is not below the chosen metric leaves the choice open.
  unfoldable pub settle : Dict Text Aggregate → Option Contender → Option Contender
  settle unsettled none = none
  settle unsettled (some c) =
      if any (λ p. frac_le (metric c.result) (metric p.1)) unsettled then none else some c

  unfoldable pub winner_of : Option Contender → Option Entry
  winner_of none = king
  winner_of (some c) = some c.entry

  -- `any(len(panel) == 2 for panel in terminal_panels.values())`
  unfoldable pub has_panel : Tally → Bool
  has_panel t = any (λ p. length p.1 == 2) t.terminal_panels

  unfoldable pub chosen_of : Tally → Dict Text Aggregate → Option Contender
  chosen_of t aggregates =
      let contenders =
        if not (is_some king) && not (has_panel t) then [] else eligible aggregates in
      settle (keep (λ p. is_inconclusive p.1) aggregates) (choose contenders)

  -- `if winner and winner["hotkey"] not in snapshot["uids"]: winner = None`
  unfoldable pub still_registered : Option Entry → Option Entry
  still_registered none = none
  still_registered (some w) = if contains w.hotkey snapshot.uids then some w else none

unfoldable pub decide : List Row → ℕ → Text → Option Entry → Dict Text Entry → Snapshot → Decision
decide results window policy king candidates snapshot =
    let t = tally window policy king candidates snapshot results in
    let totals = aggregates king candidates snapshot t t.records in
    let chosen = chosen_of king candidates snapshot t totals in
    let winner =
      still_registered king candidates snapshot (winner_of king candidates snapshot chosen) in
    record {
      window = window;
      vector = weight_vector winner snapshot (burn_of policy);
      inconclusive =
          sort text_leb
            (map (λ p. p.0) (keep (λ p. is_inconclusive king candidates snapshot p.1) totals));
      early_losses = early_losses king candidates snapshot t t.records;
      aggregates = totals;
    }
