-- ===== src/Api/Settled.antt =====
-- How `_call` of witness/providers.py settles a call that was lost or rejected.
use witness_subnet.Base.{
  ℕ, ◌≤◌, ◌≡◌, refl, sym, ap, ◌∙◌, false, Option, none, some, List, [], ◌∷◌, arith, inl, inr,
  Bool-cases, any,
}
use witness_subnet.Base.Eq.{◌==◌, nat_eq, eq_refl}
use witness_subnet.Base.Text.{Text, text, text_eq}
use witness_subnet.Base.Dict.{Dict, lookup, insert, contains, lookup-insert}
use witness_subnet.Base.Outcome.{Outcome-cases, ok, err, ok-injective}
use witness_subnet.Base.Method.{Action, ◌>>◌, raise, >>=-ok}
use witness_subnet.Errors.{Error, provider_transport, provider_status}
use witness_subnet.Json.{Json}
use witness_subnet.Budget.{Usd, Reservation, on_file, settle}
use witness_subnet.Budget.Granted.{granted, settled_at, on_file-settled}
use witness_subnet.Api.{ApiText}
use witness_subnet.Api.Request.{Request, digest, cache_name}
use witness_subnet.Api.World.{
  Record, is_unknown, transport_error, provider_error, Row, World, in_budget, update_row,
  record_call, Circumstances, Response,
}
use witness_subnet.Api.Send.{awaits, lost, responded}
use witness_subnet.Api.Finish.{
  lost_metadata, rejected_metadata, close_call, finish_lost, finish_rejected, finish,
}
use witness_subnet.Api.Checks.{Checked}
use witness_subnet.Api.Call.{Dispatch, dispatch, pay, _call}
use witness_subnet.Api.Dispatch.{dispatch_of, dispatched, Paid, price_of, hash, dispatch-cases}
use witness_subnet.Api.After.{own_row, after-rows, after-own, after-reserved}

-- The world after a call is closed: its row and its reservation have the cost.
abbrev closed : Text → Record → ℕ → Json → Row → Reservation → World → World
closed id recorded cost metadata row res w = record w {
  rows = insert id (record row { cost = some cost; recorded = recorded }) w.rows;
  budget = record w.budget { rows = insert id (settled_at cost metadata res) w.budget.rows };
}

update_row-found :
    (id : Text) (recorded : Record) (cost : Option ℕ) (row : Row) (rows : Dict Text Row)
    → lookup id rows ≡ some row
    → update_row id recorded cost rows
      ≡ insert id (record row { cost = cost; recorded = recorded }) rows
unfolding update_row
update_row-found id recorded cost row rows found = rw (found, update_row) refl

close_call-closed :
    (limit : Option ℕ) (id : Text) (recorded : Record) (cost : ℕ) (metadata : Json) (row : Row)
    (res : Reservation) (w : World)
    → lookup id w.rows ≡ some row
    → lookup id w.budget.rows ≡ some res
    → res.settled ≡ none
    → cost ≤ res.reserved
    → close_call limit id recorded cost metadata w
      ≡ (ok tt, closed id recorded cost metadata row res w)
unfolding close_call record_call in_budget
close_call-closed limit id recorded cost metadata row res w is_row is_res is_open fits =
    let settled = on_file-settled limit id cost metadata res w.budget is_res is_open fits in
    let closed_row = insert id (record row { cost = some cost; recorded = recorded }) w.rows in
    let updated : update_row id recorded (some cost) w.rows ≡ closed_row =
      update_row-found id recorded (some cost) row w.rows is_row in
    let file = on_file limit (settle id (Usd.decimal cost 9) metadata) w.budget in
    ap (λ rows. (file.0, record w { rows = rows; budget = file.1 })) updated
    ∙ ap (λ x. (x.0, record w { rows = closed_row; budget = x.1 })) settled

module _ (sha256 : List ℕ → Text) (loads : Text → Option Json) (api : ApiText) (r : Request)
    (c : Circumstances) (found : Checked) (s : World) (p : Paid sha256 api r c found s) where
  -- The rows of a paid call, at its end with that outcome
  abbrev closed_row : Record → ℕ → Row
  closed_row recorded cost = record {
    input_hash = digest sha256 api r;
    reserve = price_of sha256 api r c found;
    cost = some cost;
    recorded = recorded;
  }

  abbrev closed_reservation : ℕ → Json → Reservation
  closed_reservation cost metadata = settled_at cost metadata (
      granted c.day (text "validator") api.provider (hash sha256 api r c)
        (price_of sha256 api r c found))

  -- The end of a paid call that charges that cost and raises
  abbrev end : Record → ℕ → Json → Error → Action Error World Json
  end recorded cost metadata e = close_call p.limit c.fresh recorded cost metadata >> raise e

  end-closed :
      (recorded : Record) (cost : ℕ) (metadata : Json) (e : Error)
      → cost ≤ price_of sha256 api r c found
      → end recorded cost metadata e p.after ≡ (
        err e,
        closed c.fresh recorded cost metadata
            (own_row sha256 api r c found s p)
            (granted c.day
              (text "validator")
              api.provider
              (hash sha256 api r c)
              (price_of sha256 api r c found))
            p.after,
      )
  end-closed recorded cost metadata e fits =
      >>=-ok (close_call p.limit c.fresh recorded cost metadata) (λ _. raise e) p.after _ tt
        (close_call-closed p.limit c.fresh recorded cost metadata (own_row sha256 api r c found s p)
          _ p.after (after-own sha256 api r c found s p) (after-reserved sha256 api r c found s p)
          refl fits)

insert-insert :
    {V : Type 0} (k : Text) (u v : V) (d : Dict Text V) → insert k v (insert k u d) ≡ insert k v d
unfolding insert
insert-insert k u v [] = rw (eq_refl k, insert) refl
insert-insert k u v ((j, w) ∷ d) = elim (Bool-cases (j == k)) [
  | inl same ↦ rw (same, insert, eq_refl k) refl
  | inr other ↦ rw (other, insert, other) (ap (λ e. (j, w) ∷ e) (insert-insert k u v d))
]

any-insert :
    (d id : Text) (row : Row) (rows : Dict Text Row)
    → any (awaits d) rows ≡ false
    → awaits d (id, row) ≡ false
    → any (awaits d) (insert id row rows) ≡ false
unfolding insert
any-insert d id row [] clear quiet = ground arith
any-insert d id row ((j, w) ∷ rows) clear quiet = elim (Bool-cases (j == id)) [
  | inl same ↦ rw (same, insert) (ground arith)
  | inr other ↦ rw (other, insert) (ground (arith, any-insert d id row rows (ground arith) quiet))
]

-- A call has ended with that record, cost and metadata; its request may be sent again.
pub record Closed (api : ApiText) (c : Circumstances) (d : Text) (price : ℕ) (recorded : Record)
    (cost : ℕ) (metadata : Json) (w : World) : Type 0 where
  row :
      lookup c.fresh w.rows
      ≡ some (record { input_hash = d; reserve = price; cost = some cost; recorded = recorded })
  charged :
      lookup c.fresh w.budget.rows
      ≡ some (settled_at cost metadata (granted c.day (text "validator") api.provider d price))
  free : any (awaits d) w.rows ≡ false

module _ (sha256 : List ℕ → Text) (loads : Text → Option Json) (api : ApiText) (r : Request)
    (c : Circumstances) (s : World) where
  closed-Closed :
      (found : Checked) (p : Paid sha256 api r c found s) (recorded : Record) (cost : ℕ)
      (metadata : Json)
      → is_unknown recorded ≡ false
      → Closed api c (digest sha256 api r) (price_of sha256 api r c found) recorded cost metadata (
          closed c.fresh recorded cost metadata
            (own_row sha256 api r c found s p)
            (granted c.day
              (text "validator")
              api.provider
              (hash sha256 api r c)
              (price_of sha256 api r c found))
            p.after)
  closed-Closed found p recorded cost metadata known =
      let row : Row = closed_row sha256 loads api r c found s p recorded cost in
      let rows : insert c.fresh row p.after.rows ≡ insert c.fresh row s.rows =
        ap (λ t. insert c.fresh row t) (after-rows sha256 api r c found s p)
        ∙ insert-insert c.fresh (own_row sha256 api r c found s p) row s.rows in
      let quiet : awaits (digest sha256 api r) (c.fresh, row) ≡ false = rw known (ground arith) in
      record {
        row = lookup-insert c.fresh c.fresh row p.after.rows ∙ rw (eq_refl c.fresh) refl;
        charged = lookup-insert c.fresh c.fresh _ p.after.budget.rows ∙ rw (eq_refl c.fresh) refl;
        free = rw rows (any-insert (digest sha256 api r) c.fresh row s.rows p.entered.0 quiet);
      }

  -- A paid call whose end raises `e` after it has charged `cost`
  raising :
      (found : Checked) (p : Paid sha256 api r c found s) (d : Dispatch) (recorded : Record)
      (cost : ℕ) (metadata : Json) (e : Error)
      → contains (cache_name (digest sha256 api r)) s.cache.current ≡ false
      → dispatch sha256 api r c s ≡ (ok d, p.after)
      → cost ≤ price_of sha256 api r c found
      → is_unknown recorded ≡ false
      → finish loads api d.limit d.rates c.fresh d.price c.fault c.temporary
          (digest sha256 api r)
          d.ended
        ≡ end sha256 loads api r c found s p recorded cost metadata e
      → ((_call sha256 loads api r c s).0 ≡ err e)
        × Closed api c
            (digest sha256 api r)
            (price_of sha256 api r c found)
            recorded
            cost
            metadata
            (_call sha256 loads api r c s).1
  unfolding _call
  raising found p d recorded cost metadata e absent sent fits known ends =
      let done = λ (d : Dispatch).
        finish loads api d.limit d.rates c.fresh d.price c.fault c.temporary (digest sha256 api r)
          d.ended in
      let all =
        >>=-ok (dispatch sha256 api r c) done s p.after d sent
        ∙ ap (λ m. m p.after) ends
        ∙ end-closed sha256 loads api r c found s p recorded cost metadata e fits in
      rw (absent, _call, all) (refl, closed-Closed found p recorded cost metadata known)

  -- A dispatch that has returned, as its parts
  record Returned (found : Checked) (p : Paid sha256 api r c found s) (d : Dispatch) : Type 0 where
    end_is : p.end_of ≡ ok d.ended
    is : dispatch_of sha256 api r c found p.limit d.ended ≡ d
    all :
        dispatch sha256 api r c s ≡ (ok (dispatch_of sha256 api r c found p.limit d.ended), p.after)

  dispatch-Returned :
      (found : Checked) (p : Paid sha256 api r c found s) (d : Dispatch)
      → dispatch sha256 api r c s ≡ pay sha256 api r c found s
      → (dispatch sha256 api r c s).0 ≡ ok d
      → Returned found p d
  dispatch-Returned found p d same is_sent = elim (Outcome-cases p.end_of) [
    | inl (e, raised) ↦
        let all =
          same ∙ p.left ∙ ap (λ o. (dispatched sha256 api r c found p.limit o, p.after)) raised in
        absurd (ground arith)
    | inr (e, ended) ↦
        let all =
          same ∙ p.left ∙ ap (λ o. (dispatched sha256 api r c found p.limit o, p.after)) ended in
        let is : dispatch_of sha256 api r c found p.limit e ≡ d =
          ok-injective (sym (ap (λ x. x.0) all) ∙ is_sent) in
        let at : e ≡ d.ended = ap (λ x. x.ended) is in
        record {
          end_is = ended ∙ ap ok at;
          is = ap (λ x. dispatch_of sha256 api r c found p.limit x) (sym at) ∙ is;
          all = all ∙ ap (λ x. (ok (dispatch_of sha256 api r c found p.limit x), p.after)) at;
        }
  ]

  -- A call that is not in the cache and whose attempts end in a transport error raises it by
  -- name; its row and its reservation are settled at the whole price, and no row of the request
  -- awaits an outcome.
  pub lost_call_settled :
      (d : Dispatch) (name : Text)
      → contains (cache_name (digest sha256 api r)) s.cache.current ≡ false
      → (dispatch sha256 api r c s).0 ≡ ok d
      → d.ended ≡ lost name
      → ((_call sha256 loads api r c s).0 ≡ err (provider_transport api.provider name))
        × Closed api c
            (digest sha256 api r)
            d.price
            (transport_error name)
            d.price
            (lost_metadata api.provider name)
            (_call sha256 loads api r c s).1
  unfolding finish finish_lost
  lost_call_settled d name absent is_sent is_lost = elim (dispatch-cases sha256 api r c s) [
    | inl (e, t, raised, still) ↦ absurd (ground arith)
    | inr (found, is_checked, same, p) ↦
        let back : Returned found p d = dispatch-Returned found p d same is_sent in
        let price : price_of sha256 api r c found ≡ d.price = ap (λ x. x.price) back.is in
        let result =
          raising found p (dispatch_of sha256 api r c found p.limit d.ended) (transport_error name)
            (price_of sha256 api r c found) (lost_metadata api.provider name)
            (provider_transport api.provider name) absent back.all (omega arith) refl
            (rw is_lost refl) in
        rw (← price) result
  ]

  -- A call that is not in the cache and is answered with a status other than 200 raises the
  -- status; its row and its reservation are settled at zero, and no row of the request awaits an
  -- outcome.
  pub rejected_call_settled :
      (d : Dispatch) (answer : Response)
      → contains (cache_name (digest sha256 api r)) s.cache.current ≡ false
      → (dispatch sha256 api r c s).0 ≡ ok d
      → d.ended ≡ responded answer
      → (answer.status_code == 200) ≡ false
      → ((_call sha256 loads api r c s).0 ≡ err (provider_status api.provider answer.status_code))
        × Closed api c
            (digest sha256 api r)
            d.price
            (provider_error answer.status_code)
            0
            (rejected_metadata api.provider answer.status_code)
            (_call sha256 loads api r c s).1
  unfolding finish finish_rejected
  rejected_call_settled d answer absent is_sent is_answer bad =
      elim (dispatch-cases sha256 api r c s) [
        | inl (e, t, raised, still) ↦ absurd (ground arith)
        | inr (found, is_checked, same, p) ↦
            let back : Returned found p d = dispatch-Returned found p d same is_sent in
            let price : price_of sha256 api r c found ≡ d.price = ap (λ x. x.price) back.is in
            let result =
              raising found p (dispatch_of sha256 api r c found p.limit d.ended)
                (provider_error answer.status_code) 0
                (rejected_metadata api.provider answer.status_code)
                (provider_status api.provider answer.status_code) absent back.all (omega arith) refl
                (rw (is_answer, finish, bad) refl) in
            rw (← price) result
      ]
