-- ===== src/Api/Call.antt =====
-- `_call` and `__call__` of witness/providers.py. SHA-256 and `json.loads` are parameters.
use witness_subnet.Base.{ℕ, Bool, true, false, Option, none, some, List, [], ◌∷◌, if◌then◌else◌}
use witness_subnet.Base.Eq.{nat_eq}
use witness_subnet.Base.Text.{Text, text_eq}
use witness_subnet.Base.Dict.{contains}
use witness_subnet.Base.Outcome.{ok, err}
use witness_subnet.Base.Method.{Action, ◌>>=◌, ◌>>◌, guard, lift, pure}
use witness_subnet.Errors.{Error, json_decode_error, api_queue_deadline_expired}
use witness_subnet.Json.{Json}
use witness_subnet.Storage.{read}
use witness_subnet.Budget.{open_budget}
use witness_subnet.Api.{ApiText, Rates}
use witness_subnet.Api.Checks.{Checked, checks}
use witness_subnet.Api.Request.{Request, body, digest, cache_name, upper_input, reserve_price}
use witness_subnet.Api.World.{World, in_budget, Circumstances}
use witness_subnet.Api.Send.{prepare, Ended, attempts}
use witness_subnet.Api.Finish.{add_note, finish}

-- A call that has been dispatched: its limit, rates and reservation, and the end of its attempts.
pub record Dispatch : Type 0 where
  pub limit : Option ℕ
  pub rates : Rates
  pub price : ℕ
  pub ended : Ended

-- What a cached answer is returned as
unfoldable pub cached_answer : Text → Action Error World Json
cached_answer d w = elim (read (cache_name d) w.cache) [
  | none ↦ (err json_decode_error, w)
  | some answer ↦ (ok answer.result, add_note d true 0 answer.response_id w)
]

-- The two attempts
unfoldable pub send :
    Text → Json → Circumstances → Checked → Option ℕ → ℕ → Action Error World Dispatch
send id json c found limit price =
    attempts id found.endpoint found.key json c.timeout (c.first ∷ c.second ∷ []) >>= λ ended.
    pure (record { limit = limit; rates = found.prices; price = price; ended = ended })

-- The budget is opened, the call is reserved and entered, and the request is sent.
unfoldable pub pay :
    (List ℕ → Text) → ApiText → Request → Circumstances → Checked → Action Error World Dispatch
pay sha256 api r c found =
    let price = reserve_price api found.prices (upper_input r) in
    in_budget (open_budget api.daily_limit_usd) >>= λ limit.
    prepare api limit c.fresh c.day (digest sha256 api r) price
    >> send c.fresh (body api r) c found limit price

-- From the test of the cache-only mode to the end of the attempts
unfoldable pub dispatch :
    (List ℕ → Text) → ApiText → Request → Circumstances → Action Error World Dispatch
dispatch sha256 api r c = lift (checks api r c) >>= λ found. pay sha256 api r c found

unfoldable pub _call :
    (List ℕ → Text)
    → (Text → Option Json)
    → ApiText
    → Request
    → Circumstances
    → Action Error World Json
_call sha256 loads api r c w =
    if contains (cache_name (digest sha256 api r)) w.cache.current
    then cached_answer (digest sha256 api r) w
    else (dispatch sha256 api r c >>= λ d.
          finish loads api d.limit d.rates c.fresh d.price c.fault c.temporary (digest sha256 api r)
            d.ended)
        w

-- `__call__`: whether the request's lock, and one of the four slots, came free in time.
unfoldable pub call :
    (List ℕ → Text)
    → (Text → Option Json)
    → (Bool × Bool)
    → ApiText
    → Request
    → Circumstances
    → Action Error World Json
call sha256 loads (lock, slot) api r c =
    guard (if lock then false else true) api_queue_deadline_expired
    >> guard (if slot then false else true) api_queue_deadline_expired
    >> _call sha256 loads api r c
