-- ===== src/Protocol/Decide/Crown.antt =====
-- Whom `decide` of witness/benchmark/protocol.py can name king.
use mathlib.Core.List.{Memᴰ, Perm}
use witness_subnet.Base.{
  ℕ, ◌≡◌, refl, ◌⊎◌, inl, inr, true, false, ◌&&◌, ◌||◌, not, Option, none, some, List, [], ◌∷◌,
  arith, Bool-cases, Option-cases, any, All,
}
use witness_subnet.Base.Eq.{nat_eq}
use witness_subnet.Base.Text.{Text, text_eq}
use witness_subnet.Base.Dict.{Dict, lookup, contains}
use witness_subnet.Base.Sort.{sort-perm_eq}
use witness_subnet.Protocol.Snapshot.{Snapshot, Row, Entry, row_order}
use witness_subnet.Protocol.Weights.{weight_vector, registered, uid_of, is_some}
use witness_subnet.Protocol.Decide.{
  Contender, metric, is_eligible, eligible, ahead, best_of, choose, settle, winner_of, has_panel,
  chosen_of, still_registered, burn_of, decide,
}
use witness_subnet.Protocol.Decide.Tallying.{Tally, Votes, tally}
use witness_subnet.Protocol.Decide.Aggregation.{
  Aggregate, frac_lt, frac_le, margin, quality_floor, aggregate_of, aggregates, valid_votes,
  measure,
}

Row-list_set : IsSet (List Row)
Row-list_set = hlevel

-- Two lists of results that are permutations of each other lead to the same decision.
pub decide_perm :
    (xs ys : List Row) (window : ℕ) (policy : Text) (king : Option Entry)
    (candidates : Dict Text Entry) (s : Snapshot)
    → Perm xs ys
    → decide xs window policy king candidates s ≡ decide ys window policy king candidates s
unfolding decide tally
decide_perm xs ys window policy king candidates s p =
    rw (sort-perm_eq row_order Row-list_set xs ys p)

-- A challenger may be crowned on these grounds: the votes of his own model count, they clear the
-- quality floor and, against a king, the margin; none of them is an upper bound only.
pub record Crowned (king : Option Entry) (candidates : Dict Text Entry) (s : Snapshot) (t : Tally)
    (w : Entry) : Type 0 where
  pub model_id : Text
  pub votes : Votes
  pub result : Aggregate
  pub submitted : lookup model_id candidates ≡ some w
  pub voted : Memᴰ (model_id, votes) t.records
  pub measured :
      aggregate_of king candidates s t (valid_votes king candidates s t votes) ≡ some result
  pub in_snapshot : contains w.hotkey s.uids ≡ true
  pub complete : result.bounded ≡ false
  pub quality : frac_lt quality_floor result.quality ≡ true
  pub better : not (is_some king) || frac_lt margin result.delta ≡ true

module _ (king : Option Entry) (candidates : Dict Text Entry) (s : Snapshot) (t : Tally) where
  aggregate_of-floor :
      (votes : Votes) (a : Aggregate)
      → aggregate_of king candidates s t votes ≡ some a
      → frac_lt quality_floor a.quality ≡ true
  unfolding aggregate_of
  aggregate_of-floor [] a h = cc
  aggregate_of-floor (v ∷ votes) a h =
      let m = measure king candidates s t (v ∷ votes) in
      elim (Bool-cases (frac_le m.quality quality_floor)) [
        | inl low ↦ absurd (ground arith)
        | inr high ↦ let same : m ≡ a = ground arith in rw (← same) (ground arith)
      ]

  -- The grounds of one aggregate.
  abbrev Grounds : Text × Aggregate → Type 0
  Grounds (m, a) =
      (votes : Votes) × Memᴰ (m, votes) t.records
      × (aggregate_of king candidates s t (valid_votes king candidates s t votes) ≡ some a)

  aggregates-Grounds :
      (records : Dict Text Votes)
      → ((p : Text × Votes) → Memᴰ p records → Memᴰ p t.records)
      → All Grounds (aggregates king candidates s t records)
  unfolding aggregates
  aggregates-Grounds [] sub = tt
  aggregates-Grounds ((m, votes) ∷ records) sub =
      let rest = aggregates-Grounds records (λ p h. sub p (Memᴰ.tail h)) in
      elim (Option-cases
        (aggregate_of king candidates s t (valid_votes king candidates s t votes))) [
          | inl e ↦ rw (e, All) rest
          | inr (a, e) ↦ rw (e, All) ((votes, sub (m, votes) (Memᴰ.head refl), e), rest)
        ]

  abbrev IsContender : Contender → Type 0
  IsContender c =
      (lookup c.model_id candidates ≡ some c.entry)
      × (is_eligible king candidates s c.entry c.result ≡ true)
      × Grounds (c.model_id, c.result)

  eligible-IsContender :
      (totals : Dict Text Aggregate)
      → All Grounds totals
      → All IsContender (eligible king candidates s totals)
  unfolding eligible
  eligible-IsContender [] h = tt
  eligible-IsContender ((m, a) ∷ totals) h =
      let rest = eligible-IsContender totals h.1 in
      elim (Option-cases (lookup m candidates)) [
        | inl e ↦ rw (e, All) rest
        | inr (entry, e) ↦ elim (Bool-cases (is_eligible king candidates s entry a)) [
          | inl good ↦ rw (e, good, All) ((e, good, h.0), rest)
          | inr bad ↦ rw (e, bad, All) rest
        ]
      ]

  best_of-IsContender :
      (best : Contender) (rest : List Contender)
      → IsContender best
      → All IsContender rest
      → IsContender (best_of king candidates s best rest)
  unfolding best_of
  best_of-IsContender best [] b h = b
  best_of-IsContender best (c ∷ rest) b h = elim (Bool-cases (ahead king candidates s best c)) [
    | inl e ↦ rw (e, best_of) (best_of-IsContender best rest b h.1)
    | inr e ↦ rw (e, best_of) (best_of-IsContender c rest h.0 h.1)
  ]

  abbrev Settled : Option Contender → Type 0
  Settled none = Unit
  Settled (some c) = IsContender c

  settle-Settled :
      (unsettled : Dict Text Aggregate) (l : List Contender)
      → All IsContender l
      → Settled (settle king candidates s unsettled (choose king candidates s l))
  unfolding settle choose
  settle-Settled unsettled [] h = tt
  settle-Settled unsettled (c ∷ rest) h =
      let best = best_of king candidates s c rest in
      let good = best_of-IsContender c rest h.0 h.1 in
      elim (Bool-cases (
        any (λ p. frac_le (metric king candidates s best.result) (metric king candidates s p.1))
          unsettled)) [ inl e ↦ rw e tt | inr e ↦ rw e good ]

  chosen_of-Settled :
      (totals : Dict Text Aggregate)
      → All Grounds totals
      → Settled (chosen_of king candidates s t totals)
  unfolding chosen_of
  chosen_of-Settled totals h =
      elim (Bool-cases (not (is_some king) && not (has_panel king candidates s t))) [
        | inl e ↦ rw e (settle-Settled _ [] tt)
        | inr e ↦
            rw e
              (settle-Settled _ (eligible king candidates s totals) (eligible-IsContender totals h))
      ]

  Crowned-of : (c : Contender) → IsContender c → Crowned king candidates s t c.entry
  unfolding is_eligible
  Crowned-of c (entry, good, (votes, voted, measured)) = record {
    model_id = c.model_id;
    votes = votes;
    result = c.result;
    submitted = entry;
    voted = voted;
    measured = measured;
    in_snapshot = ground arith;
    complete = ground arith;
    quality = aggregate_of-floor (valid_votes king candidates s t votes) c.result measured;
    better = ground arith;
  }

  winner_of-Settled :
      (o : Option Contender)
      → Settled o
      → (w : Entry) → still_registered king candidates s (winner_of king candidates s o) ≡ some w
      → (king ≡ some w) ⊎ Crowned king candidates s t w
  unfolding winner_of still_registered
  winner_of-Settled none h w e =
      inl (elim (Option-cases king) [ inl n ↦ ground arith | inr (k, n) ↦ ground arith ])
  winner_of-Settled (some c) h w e =
      let same : c.entry ≡ w = ground arith in inr (rw same at (Crowned-of c h))

registered-eq-some :
    (winner : Option Entry) (uid : Option ℕ) (w : Entry)
    → registered winner uid ≡ some w
    → winner ≡ some w
registered-eq-some winner none w h = cc
registered-eq-some winner (some u) w h = h

king-weight_vector :
    (winner : Option Entry) (s : Snapshot) (f : ℕ) (w : Entry)
    → (weight_vector winner s f).king ≡ some w
    → winner ≡ some w
unfolding weight_vector
king-weight_vector winner s f w h = registered-eq-some winner (uid_of winner s) w h

-- Whoever a decision names king was king before, or is a candidate whose own votes crowned him:
-- they are tallied for his model, their stake-weighted quality is above 5/100, none of them is an
-- upper bound, and against a king the paired gain in reward is above 2/100. The hotkey of such a
-- candidate is in the snapshot.
pub decide-Crowned :
    (results : List Row) (window : ℕ) (policy : Text) (king : Option Entry)
    (candidates : Dict Text Entry) (s : Snapshot) (w : Entry)
    → (decide results window policy king candidates s).vector.king ≡ some w
    → (king ≡ some w) ⊎ Crowned king candidates s (tally window policy king candidates s results) w
unfolding decide
decide-Crowned results window policy king candidates s w h =
    let t = tally window policy king candidates s results in
    let totals = aggregates king candidates s t t.records in
    let chosen = chosen_of king candidates s t totals in
    winner_of-Settled king candidates s t chosen
      (chosen_of-Settled king candidates s t totals
        (aggregates-Grounds king candidates s t t.records (λ p h. h)))
      w
      (king-weight_vector (still_registered king candidates s (winner_of king candidates s chosen))
        s (burn_of policy) w h)
