-- ===== src/Api/Money.antt =====
-- What the calls of witness/providers.py cost, and what the budget holds of them.
use native.Mathlib.Nat.{add-mul}
use witness_subnet.Base.{
  ℕ, ◌+◌, ◌-◌, ◌*◌, ◌/◌, ◌≤◌, ◌≡◌, ◌⊎◌, sym, ap, ◌∙◌, Option, none, some, List, [], ◌∷◌, ◌++◌,
  arith, inl, inr, All, Bool-cases, length, ltb,
}
use witness_subnet.Base.Eq.{◌==◌}
use witness_subnet.Base.Text.{Text, text, text_eq}
use witness_subnet.Base.Dict.{Dict, lookup}
use witness_subnet.Base.Outcome.{Outcome, ok, err, >>=-eq-ok, ok-injective}
use witness_subnet.Errors.{Error}
use witness_subnet.Json.{Json}
use witness_subnet.Api.{ApiText, Rates, rates}
use witness_subnet.Api.Request.{Request, digest, upper_input, reserve_price}
use witness_subnet.Api.Answer.{
  Usage, read_usage, check_usage, natural, cached_tokens, get, token_cost,
}
use witness_subnet.Api.World.{usage_not_received, Post, World, Circumstances}
use witness_subnet.Api.Checks.{Checked, checks}
use witness_subnet.Api.Call.{dispatch}
use witness_subnet.Api.Dispatch.{delivered, dispatch-cases}
use witness_subnet.Api.After.{after-sent, after-own, after-reserved}
use witness_subnet.Budget.Granted.{granted}

-- The rates of every model: cached input is not dearer than input, and 1.25 times the input rate is whole.
abbrev IsFair : Rates → Type 0
IsFair p = (p.cached ≤ p.input) × (p.input ≤ p.input * 5 / 4)

lookup-All :
    {V : Type 0} (P : V → Type 0) (k : Text) (v : V) (d : Dict Text V)
    → All (λ (entry : Text × V). P entry.1) d
    → lookup k d ≡ some v
    → P v
unfolding lookup
lookup-All P k v [] h found = cc
lookup-All P k v ((j, w) ∷ d) h found = elim (Bool-cases (j == k)) [
  | inl same ↦ let at : w ≡ v = ground arith in rw (← at) h.0
  | inr other ↦ let rest : lookup k d ≡ some v = ground arith in lookup-All P k v d h.1 rest
]

rates-IsFair : (model : Text) (p : Rates) → lookup model rates ≡ some p → IsFair p
rates-IsFair model p h =
    lookup-All IsFair model p rates
      (
        (omega arith, omega arith),
        (
          (omega arith, omega arith),
          ((omega arith, omega arith), ((omega arith, omega arith), tt)),
        ),
      )
      h

check_usage-cached :
    (input output cached : Option ℕ) (u : Usage)
    → check_usage input output cached ≡ ok u
    → u.cached ≤ u.input
check_usage-cached (some i) (some o) (some c) u h = elim (Bool-cases (ltb i c)) [
  | inl more ↦ absurd (ground arith)
  | inr fine ↦
      let is : ◌≡◌ {A = Outcome Error Usage} (ok (record { input = i; cached = c; output = o }))
          (ok u) =
        ground arith in
      rw (← ok-injective is) (ground arith)
]
check_usage-cached (some i) (some o) none u h = cc
check_usage-cached (some i) none c u h = cc
check_usage-cached none o c u h = cc

read_usage-cached : (usage : Json) (u : Usage) → read_usage usage ≡ ok u → u.cached ≤ u.input
unfolding read_usage
read_usage-cached usage u h =
    let (cached, is_cached, h1) = >>=-eq-ok (cached_tokens usage) _ h in
    let (input, is_input, h2) = >>=-eq-ok (get (text "input_tokens") usage) _ h1 in
    let (output, is_output, h3) = >>=-eq-ok (get (text "output_tokens") usage) _ h2 in
    check_usage-cached (natural input) (natural output) (natural (some cached)) u h3

-- Tokens within a bound cost at most what is reserved for it.
cost_bound :
    (p : Rates) (u : Usage) (upper out : ℕ)
    → IsFair p
    → u.cached ≤ u.input
    → u.input ≤ upper
    → u.output ≤ out
    → (u.input - u.cached) * p.input + u.cached * p.cached + u.output * p.output
      ≤ upper * (p.input * 5 / 4) + out * p.output
cost_bound p u upper out fair le within short =
    let inner : (u.input - u.cached) * p.input + u.cached * p.input ≡ u.input * p.input =
      let whole : u.input - u.cached + u.cached ≡ u.input = omega arith in
      sym (add-mul (u.input - u.cached) u.cached p.input) ∙ ap (λ n. n * p.input) whole in
    let cheap : u.cached * p.cached ≤ u.cached * p.input = grind arith in
    let dear : u.input * p.input ≤ upper * (p.input * 5 / 4) = grind arith in
    let last : u.output * p.output ≤ out * p.output = grind arith in
    omega (arith, inner, cheap, dear, last)

-- At the rates of the model, tokens that a usage reports within the bounds of the request cost no
-- more than is reserved for it.
pub cost_within_reserve :
    (api : ApiText) (r : Request) (usage : Json) (u : Usage) (p : Rates)
    → lookup api.model rates ≡ some p
    → read_usage usage ≡ ok u
    → u.input ≤ upper_input r
    → u.output ≤ api.max_tokens
    → token_cost p u ≤ reserve_price api p (upper_input r)
unfolding token_cost reserve_price
cost_within_reserve api r usage u p is_rates is_usage within short =
    cost_bound p u (upper_input r) api.max_tokens (rates-IsFair api.model p is_rates)
      (read_usage-cached usage u is_usage) within short

-- The state when the posts of a call have ended, in whichever way: by their last answer, by a transport
-- error, or by an exception (or the death of the process) in the middle of one.
pub record Sent (sha256 : List ℕ → Text) (api : ApiText) (r : Request) (c : Circumstances)
    (s : World) : Type 0 where
  found : Checked
  posts : List Post
  is_found : checks api r c ≡ ok found
  is_sent : (dispatch sha256 api r c s).1.sent ≡ posts ++ s.sent
  bounded : length posts ≤ 2
  once : delivered posts ≤ 1
  row :
      lookup c.fresh (dispatch sha256 api r c s).1.rows
      ≡ some (record {
        input_hash = digest sha256 api r;
        reserve = reserve_price api found.prices (upper_input r);
        cost = none;
        recorded = usage_not_received api.model;
      })
  reserved :
      lookup c.fresh (dispatch sha256 api r c s).1.budget.rows
      ≡ some (
          granted c.day
            (text "validator")
            api.provider
            (digest sha256 api r)
            (reserve_price api found.prices (upper_input r)))

-- A call that is not answered from the cache either raises with nothing posted, or its tests have
-- passed; then in whatever way its posts end, an exception or the death of the process in the
-- middle of one included, its row awaits the outcome and its whole price is reserved in the
-- budget under its id, and its posts are at most two, at most one of them past a failure to
-- connect.
pub paid_first :
    (sha256 : List ℕ → Text) (api : ApiText) (r : Request) (c : Circumstances) (s : World)
    → ((e : Error) × ((dispatch sha256 api r c s).0 ≡ err e)
        × ((dispatch sha256 api r c s).1.sent ≡ s.sent))
      ⊎ Sent sha256 api r c s
paid_first sha256 api r c s = elim (dispatch-cases sha256 api r c s) [
  | inl (e, t, raised, still) ↦ inl (e, ap (λ x. x.0) raised, ap (λ x. x.1.sent) raised ∙ still.1)
  | inr (found, is_checked, same, p) ↦ inr (record {
    found = found;
    posts = p.posted.posts;
    is_found = is_checked;
    is_sent = rw (same, p.left) (after-sent sha256 api r c found s p);
    bounded = p.posted.bounded;
    once = p.posted.once;
    row = rw (same, p.left) (after-own sha256 api r c found s p);
    reserved = rw (same, p.left) (after-reserved sha256 api r c found s p);
  })
]
