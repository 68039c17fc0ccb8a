-- ===== src/Protocol/Decide/Tallying.antt =====
-- The first loop of `decide` in witness/benchmark/protocol.py: which results count as votes.
use witness_subnet.Base.{
  ℕ, Bool, ◌||◌, not, Option, none, some, List, [], ◌∷◌, ltb, if◌then◌else◌, take, any,
}
use witness_subnet.Base.Eq.{◌==◌, nat_eq, pair_eq}
use witness_subnet.Base.Text.{Text, text_eq}
use witness_subnet.Base.Outcome.{ok, err}
use witness_subnet.Base.Dict.{Dict, lookup, insert, setdefault, contains}
use witness_subnet.Base.Sort.{sort}
use witness_subnet.Protocol.Snapshot.{Snapshot, Row, Entry, row_order}
use witness_subnet.Protocol.Record.{Result, parse, controls_ok, baseline, early_stop}

-- A Python set, as the list of its elements.
abbrev pub mem : Text → List Text → Bool
mem x s = any (λ y. y == x) s

abbrev pub add : Text → List Text → List Text
add x s = if mem x s then s else x ∷ s

abbrev pub Votes : Type 0
Votes = Dict Text Result

pub record Tally : Type 0 where
  pub records : Dict Text Votes
  pub baselines : Dict (Text × Text) Result
  pub used : List (Text × Text)
  pub terminal_panels : Dict Text (List Text)

abbrev pub empty_tally : Tally
empty_tally = record { records = []; baselines = []; used = []; terminal_panels = [] }

abbrev pub get_or {ℓ} : {A : Type ℓ} → Option A → A → A
get_or none d = d
get_or (some a) d = a

-- `voter in snapshot["validators"]` with `snapshot["validators"][voter] > 0`
abbrev pub stake_of : Snapshot → Text → ℕ
stake_of snapshot voter = get_or (lookup voter snapshot.validators) 0

module _ (window : ℕ) (policy : Text) (king : Option Entry) (candidates : Dict Text Entry)
    (snapshot : Snapshot) where
  -- A result that passed the tests counts for its model: an upper bound never replaces a vote.
  unfoldable pub vote : Tally → Text → Result → Tally
  vote t voter result =
      let votes = get_or (lookup result.model_id t.records) [] in
      let votes' =
        if not (contains voter votes) || not (early_stop result.flags)
        then insert voter result votes
        else votes in
      record t { records = insert result.model_id votes' t.records }

  -- The results of a model other than the king's baseline.
  unfoldable pub tally_candidate : Tally → Text → Result → Entry → Tally
  tally_candidate t voter result candidate =
      let key : Text × Text = (voter, candidate.hotkey) in
      let partial = early_stop result.flags in
      let t1 : Tally = if partial then t else record t { used = key ∷ t.used } in
      let panel = get_or (lookup voter t.terminal_panels) [] in
      let t2 : Tally = record t1 {
        terminal_panels = insert voter (add result.model_id panel) t.terminal_panels;
      } in
      if any (λ k. k == key) t.used
      then t
      else if not (controls_ok result.flags)
      then t1
      else if partial
      then elim king [ none ↦ t1 | some k ↦ vote t1 voter result ]
      else vote t2 voter result

  unfoldable pub tally_result : Tally → Text → Result → Tally
  tally_result t voter result =
      if not (result.window == window)
        || not (result.policy == take 24 policy)
        || not (ltb 0 (stake_of snapshot voter))
      then t
      else if baseline result.flags
      then record t { baselines = setdefault (voter, result.model_id) result t.baselines }
      else elim (lookup result.model_id candidates) [
        | none ↦ t
        | some candidate ↦
            if not (candidate.uid == result.uid)
            then t
            else tally_candidate t voter result candidate
      ]

  unfoldable pub tally_row : Tally → Row → Tally
  tally_row t row = elim (parse row.value) [
    | err e ↦ t
    | ok result ↦ tally_result t row.hotkey result
  ]

  unfoldable pub tally_rows : Tally → List Row → Tally
  tally_rows t [] = t
  tally_rows t (row ∷ rows) = tally_rows (tally_row t row) rows

  unfoldable pub tally : List Row → Tally
  tally results = tally_rows empty_tally (sort row_order.le results)
