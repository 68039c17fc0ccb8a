-- ===== src/Protocol/Decide/Votes.antt =====
-- Which votes the tally of witness/benchmark/protocol.py keeps.
use mathlib.Core.Bool.{false≢true}
use witness_subnet.Base.{
  ℕ, ◌≡◌, refl, sym, ap, ◌∙◌, inl, inr, Bool, true, false, ◌&&◌, ◌||◌, not, Option, some, List, [],
  ◌∷◌, arith, if◌then◌else◌, Bool-cases, Option-cases, any, take, ltb,
}
use witness_subnet.Base.Eq.{◌==◌, nat_eq, pair_eq, eq_iff, eq_refl}
use witness_subnet.Base.Text.{Text, text_eq}
use witness_subnet.Base.Outcome.{Outcome, ok, err}
use witness_subnet.Errors.{Error}
use witness_subnet.Base.Dict.{Dict, lookup, contains, insert, lookup-insert}
use witness_subnet.Protocol.Snapshot.{Snapshot, Row, Entry}
use witness_subnet.Protocol.Record.{Result, parse, controls_ok, baseline, early_stop}
use witness_subnet.Protocol.Decide.Tallying.{
  Tally, add, get_or, stake_of, vote, tally_candidate, tally_result, tally_row, tally_rows,
}

-- The vote that an evaluator has for a model.
abbrev pub vote_of : Tally → Text → Text → Option Result
vote_of t model voter = lookup voter (get_or (lookup model t.records) [])

abbrev pub is_used : Tally → Text × Text → Bool
is_used t key = any (λ k. k == key) t.used

get_or-if {ℓ} :
    {A : Type ℓ} (b : Bool) (x : A) (o : Option A) (d : A)
    → get_or (if b then some x else o) d ≡ (if b then x else get_or o d)
get_or-if true x o d = refl
get_or-if false x o d = refl

module _ (window : ℕ) (policy : Text) (king : Option Entry) (candidates : Dict Text Entry)
    (s : Snapshot) where
  -- A vote touches only its own model and evaluator.
  vote_other :
      (t : Tally) (voter : Text) (r : Result) (m v : Text)
      → (r.model_id == m) && (voter == v) ≡ false
      → vote_of (vote window policy king candidates s t voter r) m v ≡ vote_of t m v
  unfolding vote
  vote_other t voter r m v h =
      let votes = get_or (lookup r.model_id t.records) [] in
      let votes' =
        if not (contains voter votes) || not (early_stop r.flags)
        then insert voter r votes
        else votes in
      rw
        (
          lookup-insert r.model_id m votes' t.records,
          get_or-if (r.model_id == m) votes' (lookup m t.records) [],
        )
        (ground (arith, lookup-insert voter v r votes, eq_iff r.model_id m))

  is_used-vote :
      (t : Tally) (voter : Text) (r : Result) (key : Text × Text)
      → is_used (vote window policy king candidates s t voter r) key ≡ is_used t key
  unfolding vote
  is_used-vote t voter r key = refl

  -- What a step leaves alone, once the evaluator's attempt at the candidate is used.
  record Keeps (m v : Text) (key : Text × Text) (t t' : Tally) : Type 0 where
    used : is_used t' key ≡ true
    same : vote_of t' m v ≡ vote_of t m v

  -- A row with a definitive result of an evaluator with stake, for the model of the candidate in
  -- this window.
  pub record Counts (m : Text) (c : Entry) (row : Row) (r : Result) : Type 0 where
    pub parsed : parse row.value ≡ ok r
    pub in_window :
        not (r.window == window)
          || not (r.policy == take 24 policy)
          || not (ltb 0 (stake_of s row.hotkey))
        ≡ false
    pub candidate : baseline r.flags ≡ false
    pub model : r.model_id ≡ m
    pub own : not (c.uid == r.uid) ≡ false
    pub full : early_stop r.flags ≡ false

  module _ (m v : Text) (c : Entry) (known : lookup m candidates ≡ some c) where
    abbrev key : Text × Text
    key = (v, c.hotkey)

    or_true : (a b : Bool) → b ≡ true → a || b ≡ true
    or_true a b h = ground arith

    -- An unused key is not the key in question, so the result is another evaluator's or model's.
    fresh :
        (t : Tally) (voter : Text) (r : Result) (d : Entry)
        → lookup r.model_id candidates ≡ some d
        → is_used t key ≡ true
        → is_used t (voter, d.hotkey) ≡ false
        → (r.model_id == m) && (voter == v) ≡ false
    fresh t voter r d e u n = elim (Bool-cases ((r.model_id == m) && (voter == v))) [
      | inr ne ↦ ne
      | inl both ↦
          let model : r.model_id ≡ m = ground (arith, eq_iff r.model_id m) in
          let who : voter ≡ v = ground (arith, eq_iff voter v) in
          let same : d ≡ c = ground (arith, ap (λ k. lookup k candidates) model) in
          let key_eq : (voter, d.hotkey) ≡ key = λ i. (who i, (same i).hotkey) in
          absurd (false≢true (sym n ∙ ap (is_used t) key_eq ∙ u))
    ]

    tally_candidate-Keeps :
        (t : Tally) (voter : Text) (r : Result) (d : Entry)
        → lookup r.model_id candidates ≡ some d
        → is_used t key ≡ true
        → Keeps m v key t (tally_candidate window policy king candidates s t voter r d)
    unfolding tally_candidate
    tally_candidate-Keeps t voter r d e u = elim (Bool-cases (is_used t (voter, d.hotkey))) [
      | inl old ↦ rw old (record { used = u; same = refl })
      | inr new ↦
          let other = fresh t voter r d e u new in
          let grown = or_true ((voter, d.hotkey) == key) (is_used t key) u in
          let t1 : Tally = record t { used = (voter, d.hotkey) ∷ t.used } in
          let panel = get_or (lookup voter t.terminal_panels) [] in
          let t2 : Tally = record t1 {
            terminal_panels = insert voter (add r.model_id panel) t.terminal_panels;
          } in
          elim (Bool-cases (controls_ok r.flags)) [
            | inr bad ↦ elim (Bool-cases (early_stop r.flags)) [
              | inl part ↦ rw (new, bad, part) (record { used = u; same = refl })
              | inr full ↦ rw (new, bad, full) (record { used = grown; same = refl })
            ]
            | inl good ↦ elim (Bool-cases (early_stop r.flags)) [
              | inl part ↦ elim (Option-cases king) [
                | inl none_yet ↦
                    rw (new, good, part, none_yet, part) (record { used = u; same = refl })
                | inr (k, is_king) ↦
                    rw (new, good, part, is_king, part)
                      (record {
                        used = is_used-vote t voter r key ∙ u;
                        same = vote_other t voter r m v other;
                      })
              ]
              | inr full ↦
                  rw (new, good, full)
                    (record {
                      used = is_used-vote t2 voter r key ∙ grown;
                      same = vote_other t2 voter r m v other;
                    })
            ]
          ]
    ]

    tally_result-Keeps :
        (t : Tally) (voter : Text) (r : Result)
        → is_used t key ≡ true
        → Keeps m v key t (tally_result window policy king candidates s t voter r)
    unfolding tally_result
    tally_result-Keeps t voter r u =
        let skipped =
          not (r.window == window)
          || not (r.policy == take 24 policy)
          || not (ltb 0 (stake_of s voter)) in
        elim (Bool-cases skipped) [
          | inl e ↦ rw e (record { used = u; same = refl })
          | inr e ↦ elim (Bool-cases (baseline r.flags)) [
            | inl b ↦ rw (e, b) (record { used = u; same = refl })
            | inr b ↦ elim (Option-cases (lookup r.model_id candidates)) [
              | inl no_one ↦ rw (e, b, no_one) (record { used = u; same = refl })
              | inr (d, found) ↦ elim (Bool-cases (not (d.uid == r.uid))) [
                | inl other ↦ rw (e, b, found, other) (record { used = u; same = refl })
                | inr own ↦ rw (e, b, found, own) (tally_candidate-Keeps t voter r d found u)
              ]
            ]
          ]
        ]

    tally_row-Keeps :
        (t : Tally) (row : Row)
        → is_used t key ≡ true
        → Keeps m v key t (tally_row window policy king candidates s t row)
    unfolding tally_row
    tally_row-Keeps t row u = step (parse row.value) refl
      where
        step :
            (o : Outcome Error Result)
            → parse row.value ≡ o
            → Keeps m v key t (tally_row window policy king candidates s t row)
        step (err e) h = rw (h, tally_row) (record { used = u; same = refl })
        step (ok r) h = rw (h, tally_row) (tally_result-Keeps t row.hotkey r u)

    -- After the attempt is used, no row changes the vote.
    used_keeps :
        (t : Tally) (rows : List Row)
        → is_used t key ≡ true
        → vote_of (tally_rows window policy king candidates s t rows) m v ≡ vote_of t m v
    unfolding tally_rows
    used_keeps t [] u = refl
    used_keeps t (row ∷ rows) u =
        let step = tally_row-Keeps t row u in
        used_keeps (tally_row window policy king candidates s t row) rows step.used ∙ step.same

    -- The row of a terminal result uses the attempt.
    row-is_used :
        (t : Tally) (row : Row) (r : Result)
        → row.hotkey ≡ v
        → Counts m c row r
        → is_used (tally_row window policy king candidates s t row) key ≡ true
    unfolding tally_row tally_result tally_candidate
    row-is_used t row r voter counts =
        let known' : lookup r.model_id candidates ≡ some c = rw counts.model known in
        elim (Bool-cases (is_used t (row.hotkey, c.hotkey))) [
          | inl old ↦
              rw
                (
                  counts.parsed, tally_row, counts.in_window, counts.candidate, known', counts.own,
                  old,
                )
                (rw voter at old)
          | inr new ↦
              let own : ((row.hotkey, c.hotkey) == key) ≡ true = rw voter (eq_refl key) in
              let grown : ((row.hotkey, c.hotkey) == key) || is_used t key ≡ true = ground arith in
              let t1 : Tally = record t { used = (row.hotkey, c.hotkey) ∷ t.used } in
              let panel = get_or (lookup row.hotkey t.terminal_panels) [] in
              let t2 : Tally = record t1 {
                terminal_panels = insert row.hotkey (add r.model_id panel) t.terminal_panels;
              } in
              elim (Bool-cases (controls_ok r.flags)) [
                | inl good ↦
                    rw
                      (
                        counts.parsed, tally_row, counts.in_window, counts.candidate, known',
                        counts.own, new, good, counts.full,
                      )
                      (is_used-vote t2 row.hotkey r key ∙ grown)
                | inr bad ↦
                    rw
                      (
                        counts.parsed, tally_row, counts.in_window, counts.candidate, known',
                        counts.own, new, bad, counts.full,
                      )
                      grown
              ]
        ]

    -- After a row with a definitive result of an evaluator with stake, for the model of a
    -- candidate in this window, is tallied, no row that is tallied later changes the vote that he
    -- has for that model.
    pub first_result_wins :
        (t : Tally) (row : Row) (r : Result) (rows : List Row)
        → row.hotkey ≡ v
        → Counts m c row r
        → vote_of (tally_rows window policy king candidates s t (row ∷ rows)) m v
          ≡ vote_of (tally_row window policy king candidates s t row) m v
    unfolding tally_rows
    first_result_wins t row r rows voter counts =
        used_keeps (tally_row window policy king candidates s t row) rows
          (row-is_used t row r voter counts)
