-- ===== src/Api/Once.antt =====
-- A call of witness/providers.py without a recorded outcome: its request is not sent again.
use witness_subnet.Base.{
  ℕ, ◌≡◌, ◌≢◌, refl, ap, ◌∙◌, true, Option, some, List, [], ◌∷◌, arith, inl, inr, Bool-cases,
  Option-cases, any,
}
use witness_subnet.Base.Eq.{◌==◌, eq_refl}
use witness_subnet.Base.Text.{Text, text_eq}
use witness_subnet.Base.Dict.{Dict, lookup, contains, lookup-insert}
use witness_subnet.Base.Outcome.{ok, Outcome-cases}
use witness_subnet.Base.Method.{Action, ◌>>=◌, >>=-ok, >>=-err}
use witness_subnet.Errors.{Error}
use witness_subnet.Json.{Json}
use witness_subnet.Storage.{Disk, read}
use witness_subnet.Budget.{File}
use witness_subnet.Api.{ApiText}
use witness_subnet.Api.Request.{Request, digest, cache_name}
use witness_subnet.Api.World.{Row, World, Record, Answer, Circumstances, in_budget, record_call}
use witness_subnet.Api.Send.{awaits, prepare, insert_call}
use witness_subnet.Api.Finish.{add_note, finish}
use witness_subnet.Api.Checks.{Checked}
use witness_subnet.Api.Call.{Dispatch, cached_answer, pay, dispatch, _call}
use witness_subnet.Api.Dispatch.{
  Still, Paid, dispatch-cases, prepare-cases, dispatch_of, dispatched,
}
use witness_subnet.Api.After.{Kept, apart_new, own_row, after-other, after-own, after-Kept}
use witness_subnet.Api.Own.{Own, finish_keeps, record_call_keeps}

Still-Kept : (s t : World) → Still s t → Kept s t
Still-Kept s t h id row found = rw h.0 found

cached_answer-Still : (d : Text) (s : World) → Still s (cached_answer d s).1
unfolding cached_answer add_note
cached_answer-Still d s = elim (Option-cases (read (cache_name d) s.cache)) [
  | inl e ↦ rw (e, cached_answer) (refl, refl)
  | inr (answer, e) ↦ rw (e, cached_answer) (refl, refl)
]

module _ (sha256 : List ℕ → Text) (api : ApiText) (r : Request) (c : Circumstances) where
  dispatch-Kept : (s : World) → Kept s (dispatch sha256 api r c s).1
  dispatch-Kept s = elim (dispatch-cases sha256 api r c s) [
    | inl (e, t, raised, still) ↦ rw raised (Still-Kept s t still)
    | inr (found, is_checked, same, p) ↦ rw (same, p.left) (after-Kept sha256 api r c found s p)
  ]

module _ (sha256 : List ℕ → Text) (loads : Text → Option Json) (api : ApiText) (r : Request)
    (c : Circumstances) where
  abbrev done : Dispatch → Action Error World Json
  done d =
      finish loads api d.limit d.rates c.fresh d.price c.fault c.temporary (digest sha256 api r)
        d.ended

  -- What a paid call comes to
  paid-Own :
      (found : Checked) (s : World) (p : Paid sha256 api r c found s)
      → dispatch sha256 api r c s ≡ pay sha256 api r c found s
      → Own c.fresh p.after ((dispatch sha256 api r c >>= done) s).1
  paid-Own found s p same = elim (Outcome-cases p.end_of) [
    | inl (e, raised) ↦
        let all =
          same ∙ p.left ∙ ap (λ o. (dispatched sha256 api r c found p.limit o, p.after)) raised in
        rw (>>=-err (dispatch sha256 api r c) done s p.after e all) (refl, λ other apart. refl)
    | inr (e, ended) ↦
        let d : Dispatch = dispatch_of sha256 api r c found p.limit e in
        let all =
          same ∙ p.left ∙ ap (λ o. (dispatched sha256 api r c found p.limit o, p.after)) ended in
        rw (>>=-ok (dispatch sha256 api r c) done s p.after d all) (
          finish_keeps c.fresh loads api d.limit d.rates d.price c.fault c.temporary
            (digest sha256 api r) d.ended p.after)
  ]

  -- A call leaves the rows of all others as they were.
  call-Kept : (s : World) → Kept s (_call sha256 loads api r c s).1
  unfolding _call
  call-Kept s = elim (Bool-cases (contains (cache_name (digest sha256 api r)) s.cache.current)) [
    | inl cached ↦
        rw (cached, _call)
          (Still-Kept s (cached_answer (digest sha256 api r) s).1
            (cached_answer-Still (digest sha256 api r) s))
    | inr absent ↦
        rw (absent, _call)
          (elim (dispatch-cases sha256 api r c s) [
            | inl (e, t, raised, still) ↦
                rw (>>=-err (dispatch sha256 api r c) done s t e raised) (Still-Kept s t still)
            | inr (found, is_checked, same, p) ↦ λ id row there.
                let apart = apart_new c.fresh id s.rows row p.entered.1 there in
                (paid-Own found s p same).1 id apart
                ∙ after-other sha256 api r c found s p id apart
                ∙ there
          ])
  ]

  -- A request with a call that awaits its outcome is not sent.
  call_refused :
      (s : World)
      → any (awaits (digest sha256 api r)) s.rows ≡ true
      → (_call sha256 loads api r c s).1.sent ≡ s.sent
  unfolding _call
  call_refused s unknown =
      elim (Bool-cases (contains (cache_name (digest sha256 api r)) s.cache.current)) [
        | inl cached ↦ rw (cached, _call) (cached_answer-Still (digest sha256 api r) s).1
        | inr absent ↦
            rw (absent, _call)
              (elim (dispatch-cases sha256 api r c s) [
                | inl (e, t, raised, still) ↦
                    rw (>>=-err (dispatch sha256 api r c) done s t e raised) still.1
                | inr (found, is_checked, same, p) ↦
                    let clear = p.entered.0 in absurd (ground arith)
              ])
      ]

any-awaits :
    (d id : Text) (row : Row) (rows : Dict Text Row)
    → lookup id rows ≡ some row
    → awaits d (id, row) ≡ true
    → any (awaits d) rows ≡ true
unfolding lookup
any-awaits d id row [] found waits = cc
any-awaits d id row ((j, q) ∷ rows) found waits = elim (Bool-cases (j == id)) [
  | inl e ↦ ground arith
  | inr e ↦
      let rest : lookup id rows ≡ some row = ground arith in
      ground (arith, any-awaits d id row rows rest waits)
]

-- What processes do with the same cache folder and budget, in any order. A process may be killed at
-- any point: before its call is entered, once it is, in the middle of a post (`Met.broken`) or after
-- the posts, and once the outcome is recorded. What it has then left to do concerns the budget and
-- the cache, which may change in any way.
pub data Runs (sha256 : List ℕ → Text) (loads : Text → Option Json) (s : World)
    : World → Type 0 where
  start : Runs sha256 loads s s
  called :
      {w : World} (api : ApiText) (r : Request) (c : Circumstances)
      → Runs sha256 loads s w
      → Runs sha256 loads s (_call sha256 loads api r c w).1
  entered :
      {w : World} (api : ApiText) (limit : Option ℕ) (id day hash : Text) (price : ℕ)
      → Runs sha256 loads s w
      → Runs sha256 loads s (prepare api limit id day hash price w).1
  sent :
      {w : World} (api : ApiText) (r : Request) (c : Circumstances)
      → Runs sha256 loads s w
      → Runs sha256 loads s (dispatch sha256 api r c w).1
  recorded :
      {w : World} (api : ApiText) (r : Request) (c : Circumstances) (d : Dispatch)
      (outcome : Record) (cost : Option ℕ)
      → Runs sha256 loads s w
      → (dispatch sha256 api r c w).0 ≡ ok d
      → Runs sha256 loads s (record_call c.fresh outcome cost (dispatch sha256 api r c w).1)
  budgeted :
      {w : World} (file : File)
      → Runs sha256 loads s w
      → Runs sha256 loads s (record w { budget = file })
  cached :
      {w : World} (cache : Disk Answer)
      → Runs sha256 loads s w
      → Runs sha256 loads s (record w { cache = cache })

prepare-Kept :
    (api : ApiText) (limit : Option ℕ) (id day hash : Text) (price : ℕ) (w : World)
    → Kept w (prepare api limit id day hash price w).1
unfolding insert_call in_budget
prepare-Kept api limit id day hash price w = elim (prepare-cases api limit id day hash price w) [
  | inl (e, t, raised, still) ↦ rw raised (Still-Kept w t still)
  | inr (clear, new, got, good, done) ↦ rw done (λ other row there.
      lookup-insert id other _ w.rows ∙ rw (apart_new id other w.rows row new there) there)
]

recorded-Kept :
    (sha256 : List ℕ → Text) (api : ApiText) (r : Request) (c : Circumstances) (d : Dispatch)
    (outcome : Record) (cost : Option ℕ) (w : World)
    → (dispatch sha256 api r c w).0 ≡ ok d
    → Kept w (record_call c.fresh outcome cost (dispatch sha256 api r c w).1)
recorded-Kept sha256 api r c d outcome cost w ok_d id row there =
    elim (dispatch-cases sha256 api r c w) [
      | inl (e, t, raised, still) ↦ absurd (ground arith)
      | inr (found, is_checked, same, p) ↦
          let apart = apart_new c.fresh id w.rows row p.entered.1 there in
          (record_call_keeps c.fresh outcome cost (dispatch sha256 api r c w).1).1 id apart
          ∙ dispatch-Kept sha256 api r c w id row there
    ]

Runs-Kept :
    {sha256 : List ℕ → Text} {loads : Text → Option Json} {s w : World}
    → Runs sha256 loads s w
    → Kept s w
Runs-Kept Runs.start id row there = there
Runs-Kept {sha256} {loads} (Runs.called {w} api r c before) id row there =
    call-Kept sha256 loads api r c w id row (Runs-Kept before id row there)
Runs-Kept {sha256} {loads} (Runs.entered {w} api limit fresh day hash price before) id row there =
    prepare-Kept api limit fresh day hash price w id row (Runs-Kept before id row there)
Runs-Kept {sha256} {loads} (Runs.sent {w} api r c before) id row there =
    dispatch-Kept sha256 api r c w id row (Runs-Kept before id row there)
Runs-Kept {sha256} {loads} (Runs.recorded {w} api r c d outcome cost before ok_d) id row there =
    recorded-Kept sha256 api r c d outcome cost w ok_d id row (Runs-Kept before id row there)
Runs-Kept (Runs.budgeted file before) id row there = Runs-Kept before id row there
Runs-Kept (Runs.cached cache before) id row there = Runs-Kept before id row there

-- A call has posted its request, and what it left is what its posts left, whether its process
-- died in the middle of one or after them. Whatever calls and deaths of processes come between,
-- by whichever adapters, a call of a request with that digest posts nothing.
pub never_sent_twice :
    (sha256 : List ℕ → Text) (loads : Text → Option Json) (api again : ApiText) (r r' : Request)
    (c c' : Circumstances) (s w : World)
    → (dispatch sha256 api r c s).1.sent ≢ s.sent
    → Runs sha256 loads (dispatch sha256 api r c s).1 w
    → digest sha256 again r' ≡ digest sha256 api r
    → (_call sha256 loads again r' c' w).1.sent ≡ w.sent
never_sent_twice sha256 loads api again r r' c c' s w posted runs alike =
    elim (dispatch-cases sha256 api r c s) [
      | inl (e, t, raised, still) ↦ absurd (posted (ap (λ x. x.1.sent) raised ∙ still.1))
      | inr (found, is_checked, same, p) ↦
          let here : lookup c.fresh (dispatch sha256 api r c s).1.rows
              ≡ some (own_row sha256 api r c found s p) =
            rw (same, p.left) (after-own sha256 api r c found s p) in
          let kept = Runs-Kept runs c.fresh _ here in
          call_refused sha256 loads again r' c' w (
            any-awaits (digest sha256 again r') c.fresh _ w.rows kept
              (rw (alike, eq_refl (digest sha256 api r)) refl))
    ]
