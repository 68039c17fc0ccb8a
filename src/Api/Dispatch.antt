-- ===== src/Api/Dispatch.antt =====
-- How a paid call of witness/providers.py starts: its tests, its reservation, its row and its posts.
use witness_subnet.Base.{
  ℕ, ◌+◌, ◌≤◌, ◌≡◌, ◌⊎◌, refl, sym, ap, ◌∙◌, true, false, ◌&&◌, Option, List, [], ◌∷◌, ◌++◌, arith,
  if◌then◌else◌, inl, inr, Bool-cases, any, length, length-append,
}
use witness_subnet.Base.Text.{Text, text_eq}
use witness_subnet.Base.Dict.{contains}
use witness_subnet.Base.Outcome.{Outcome, ok, err, Outcome-cases}
use witness_subnet.Base.Method.{Action, ◌>>◌, guard, modify, lift, >>=-ok, >>=-err}
use witness_subnet.Errors.{Error, api_outcome_unknown, integrity_error}
use witness_subnet.Json.{Json}
use witness_subnet.Budget.{File, open_budget}
use witness_subnet.Api.{ApiText}
use witness_subnet.Api.Request.{Request, body, digest, upper_input, reserve_price}
use witness_subnet.Api.World.{Post, World, in_budget, Attempt, Circumstances}
use witness_subnet.Api.Send.{
  awaits, reserve_call, insert_call, prepare, attempts, post, Ended, is_connect_failure, is_late,
  has_more,
}
use witness_subnet.Api.Checks.{Checked, checks}
use witness_subnet.Api.Call.{Dispatch, send, pay, dispatch}

-- The network was given nothing, and the table has not changed.
abbrev pub Still : World → World → Type 0
Still s t = (t.rows ≡ s.rows) × (t.sent ≡ s.sent)

-- A call that raises before it is entered
abbrev pub Refused : {A : Type 0} → World → Outcome Error A × World → Type 0
Refused {A} s r = (e : Error) × (t : World) × (r ≡ (err e, t)) × Still s t

in_budget-Still : {A : Type 0} (m : Action Error File A) (s : World) → Still s (in_budget m s).1
unfolding in_budget
in_budget-Still m s = (refl, refl)

-- A row is entered only if no call of the request is without an outcome, the id is new, and the
-- budget has granted the reservation.
abbrev pub Entered : ApiText → Option ℕ → Text → Text → Text → ℕ → World → Type 0
Entered api limit id day digest price s =
    (any (awaits digest) s.rows ≡ false)
    × (contains id s.rows ≡ false)
    × (got : Text) × ((reserve_call api limit id day digest price s).0 ≡ ok got)
    × (prepare api limit id day digest price s ≡ (
      ok tt,
      insert_call id digest price api.model (reserve_call api limit id day digest price s).1,
    ))

outcome_first :
    {A B : Type 0} (r : Outcome Error A × B) (o : Outcome Error A) → r.0 ≡ o → r ≡ (o, r.1)
outcome_first r o h = ap (λ x. (x, r.1)) h

pub prepare-cases :
    (api : ApiText) (limit : Option ℕ) (id day digest : Text) (price : ℕ) (s : World)
    → Refused s (prepare api limit id day digest price s) ⊎ Entered api limit id day digest price s
unfolding prepare
prepare-cases api limit id day digest price s = elim (Bool-cases (any (awaits digest) s.rows)) [
  | inl unknown ↦ inl (api_outcome_unknown, s, rw (unknown, prepare) refl, (refl, refl))
  | inr clear ↦
      let reserve = reserve_call api limit id day digest price in
      let still : Still s (reserve s).1 = in_budget-Still _ s in
      let known = guard (any (awaits digest) s.rows) api_outcome_unknown in
      let new_id = guard (contains id s.rows) integrity_error in
      let enter = modify (insert_call id digest price api.model) in
      let reserved : (known >> reserve) s ≡ reserve s =
        >>=-ok known (λ _. reserve) s s tt (rw clear refl) in
      elim (Outcome-cases (reserve s).0) [
        | inl (e, bad) ↦
            let raised = reserved ∙ outcome_first (reserve s) (err e) bad in
            let refused = >>=-err (known >> reserve) (λ _. new_id) s (reserve s).1 e raised in
            inl (
              e,
              (reserve s).1,
              >>=-err (known >> reserve >> new_id) (λ _. enter) s (reserve s).1 e refused,
              still,
            )
        | inr (got, good) ↦
            let granted =
              >>=-ok (known >> reserve) (λ _. new_id) s (reserve s).1 got
                (reserved ∙ outcome_first (reserve s) (ok got) good) in
            elim (Bool-cases (contains id s.rows)) [
              | inl used ↦
                  let raised : new_id (reserve s).1 ≡ (err integrity_error, (reserve s).1) =
                    rw used refl in
                  inl (
                    integrity_error,
                    (reserve s).1,
                    >>=-err (known >> reserve >> new_id) (λ _. enter) s (reserve s).1
                        integrity_error (granted ∙ raised),
                    still,
                  )
              | inr new ↦
                  let passed : new_id (reserve s).1 ≡ (ok tt, (reserve s).1) = rw new refl in
                  inr (
                    clear,
                    new,
                    got,
                    good,
                    >>=-ok (known >> reserve >> new_id) (λ _. enter) s (reserve s).1 tt
                        (granted ∙ passed),
                  )
            ]
      ]
]

-- How many of the posts reached the provider, or may have
unfoldable pub delivered : List Post → ℕ
delivered [] = 0
delivered (p ∷ ps) = (if is_connect_failure p.met then 0 else 1) + delivered ps

delivered-append : (ps qs : List Post) → delivered (ps ++ qs) ≡ delivered ps + delivered qs
unfolding delivered
delivered-append [] qs = omega arith
delivered-append (p ∷ ps) qs = let rest = delivered-append ps qs in omega (arith, rest)

append_assoc : {A : Type 0} (xs ys zs : List A) → (xs ++ ys) ++ zs ≡ xs ++ (ys ++ zs)
append_assoc [] ys zs = refl
append_assoc (x ∷ xs) ys zs = ap (λ l. x ∷ l) (append_assoc xs ys zs)

module _ (id endpoint key : Text) (json : Json) (timeout : ℕ) where
  -- The posts of a call: at most one for each attempt, and at most one that reaches the provider.
  pub record Posts (n : ℕ) (w w' : World) : Type 0 where
    pub posts : List Post
    pub left : w' ≡ record w { sent = posts ++ w.sent }
    pub bounded : length posts ≤ n
    pub once : delivered posts ≤ 1

  attempts-Posts :
      (tries : List Attempt) (w : World)
      → Posts (length tries) w (attempts id endpoint key json timeout tries w).1
  unfolding attempts delivered post
  attempts-Posts [] w = record {
    posts = [];
    left = refl;
    bounded = omega arith;
    once = omega arith;
  }
  attempts-Posts (a ∷ rest) w =
      let p : Post = record {
        call_id = id;
        endpoint = endpoint;
        key = key;
        body = json;
        met = a.met;
      } in
      elim (Bool-cases (is_late timeout a)) [
        | inl late ↦
            rw (late, attempts)
              (record { posts = []; left = refl; bounded = omega arith; once = omega arith })
        | inr early ↦ elim (Bool-cases (is_connect_failure a.met && has_more rest)) [
          | inr over ↦
              rw (early, over, attempts, post)
                (record { posts = p ∷ []; left = refl; bounded = omega arith; once = ground arith })
          | inl retried ↦
              let more = attempts-Posts rest (post id endpoint key json a.met w) in
              let unreached : is_connect_failure a.met ≡ true = ground arith in
              let alone : delivered (p ∷ []) ≡ 0 = rw (unreached, delivered) refl in
              rw (early, retried, attempts)
                (record {
                  posts = more.posts ++ p ∷ [];
                  left =
                      more.left
                      ∙ ap (λ ps. record w { sent = ps })
                          (sym (append_assoc more.posts (p ∷ []) w.sent));
                  bounded =
                      let n = length-append more.posts (p ∷ []) in
                      let m = more.bounded in omega (arith, n, m);
                  once =
                      let n = delivered-append more.posts (p ∷ []) in
                      let m = more.once in omega (arith, n, m, alone);
                })
        ]
      ]

module _ (sha256 : List ℕ → Text) (api : ApiText) (r : Request) (c : Circumstances) where
  abbrev pub hash : Text
  hash = digest sha256 api r

  abbrev pub price_of : Checked → ℕ
  price_of found = reserve_price api found.prices (upper_input r)

  -- The world in which the call is reserved, and the one in which it is sent
  abbrev pub with_file : World → File → World
  with_file s file = record s { budget = file }

  abbrev pub with_row : Checked → Option ℕ → World → World
  with_row found limit t =
      insert_call c.fresh hash (price_of found) api.model
        (reserve_call api limit c.fresh c.day hash (price_of found) t).1

  -- What the end of the attempts makes of the call
  abbrev pub dispatch_of : Checked → Option ℕ → Ended → Dispatch
  dispatch_of found limit e = record {
    limit = limit;
    rates = found.prices;
    price = price_of found;
    ended = e;
  }

  abbrev pub dispatched : Checked → Option ℕ → Outcome Error Ended → Outcome Error Dispatch
  dispatched found limit (ok e) = ok (dispatch_of found limit e)
  dispatched found limit (err x) = err x

  -- How a call is paid for: the budget is open with that limit, the call is entered, and the posts follow.
  pub record Paid (found : Checked) (s : World) : Type 0 where
    pub limit : Option ℕ
    pub file : File
    pub opened : open_budget api.daily_limit_usd s.budget ≡ (ok limit, file)
    pub entered : Entered api limit c.fresh c.day hash (price_of found) (with_file s file)
    pub end_of : Outcome Error Ended
    pub after : World
    pub posted :
        Posts c.fresh found.endpoint found.key
          (body api r)
          c.timeout
          2
          (with_row found limit (with_file s file))
          after
    pub left : pay sha256 api r c found s ≡ (dispatched found limit end_of, after)

  send-dispatched :
      (found : Checked) (limit : Option ℕ) (r : Outcome Error Ended × World)
      → (elim r.0 as (λ x. Outcome Error Dispatch × World) [
        | ok e ↦ (ok (dispatch_of found limit e), r.1)
        | err x ↦ (err x, r.1)
      ])
        ≡ (dispatched found limit r.0, r.1)
  send-dispatched found limit (ok e, w) = refl
  send-dispatched found limit (err x, w) = refl

  abbrev next : Checked → Option ℕ → Action Error World Dispatch
  next found limit =
      prepare api limit c.fresh c.day hash (price_of found)
      >> send c.fresh (body api r) c found limit (price_of found)

  pay-cases : (found : Checked) (s : World) → Refused s (pay sha256 api r c found s) ⊎ Paid found s
  unfolding pay in_budget send
  pay-cases found s = elim (Outcome-cases (open_budget api.daily_limit_usd s.budget).0) [
    | inl (e, bad) ↦ inl (
      e,
      with_file s (open_budget api.daily_limit_usd s.budget).1,
      >>=-err (in_budget (open_budget api.daily_limit_usd)) (next found) s
          (with_file s (open_budget api.daily_limit_usd s.budget).1) e
          (ap (λ o. (o, with_file s (open_budget api.daily_limit_usd s.budget).1)) bad),
      (refl, refl),
    )
    | inr (limit, good) ↦
        let file = (open_budget api.daily_limit_usd s.budget).1 in
        let t = with_file s file in
        let enter = prepare api limit c.fresh c.day hash (price_of found) in
        let post = send c.fresh (body api r) c found limit (price_of found) in
        let opened : in_budget (open_budget api.daily_limit_usd) s ≡ (ok limit, t) =
          ap (λ o. (o, t)) good in
        let started : pay sha256 api r c found s ≡ (enter >> post) t =
          >>=-ok (in_budget (open_budget api.daily_limit_usd)) (next found) s t limit opened in
        elim (prepare-cases api limit c.fresh c.day hash (price_of found) t) [
          | inl (e, u, raised, still) ↦
              inl (e, u, started ∙ >>=-err enter (λ _. post) t u e raised, still)
          | inr entered ↦
              let w = with_row found limit t in
              let sent =
                attempts c.fresh found.endpoint found.key (body api r) c.timeout
                  (c.first ∷ c.second ∷ []) w in
              inr (record {
                limit = limit;
                file = file;
                opened = outcome_first (open_budget api.daily_limit_usd s.budget) (ok limit) good;
                entered = entered;
                end_of = sent.0;
                after = sent.1;
                posted =
                    attempts-Posts c.fresh found.endpoint found.key (body api r) c.timeout
                      (c.first ∷ c.second ∷ []) w;
                left =
                    started
                    ∙ >>=-ok enter (λ _. post) t w tt entered.4
                    ∙ send-dispatched found limit sent;
              })
        ]
  ]

  -- A call is refused before anything is sent, or paid for.
  pub dispatch-cases :
      (s : World)
      → Refused s (dispatch sha256 api r c s)
        ⊎ ((found : Checked) × (checks api r c ≡ ok found)
            × (dispatch sha256 api r c s ≡ pay sha256 api r c found s)
            × Paid found s)
  unfolding dispatch
  dispatch-cases s = elim (Outcome-cases (checks api r c)) [
    | inl (e, bad) ↦ inl (e, s, rw (bad, dispatch) refl, (refl, refl))
    | inr (found, good) ↦
        let started : dispatch sha256 api r c s ≡ pay sha256 api r c found s =
          >>=-ok (lift (checks api r c)) (pay sha256 api r c) s s found (rw good refl) in
        elim (pay-cases found s) [
          | inl (e, t, raised, still) ↦ inl (e, t, started ∙ raised, still)
          | inr paid ↦ inr (found, good, started, paid)
        ]
  ]
