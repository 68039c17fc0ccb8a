-- ===== src/Api/Send.antt =====
-- The start of a paid call in `_call` of witness/providers.py: the reservation, the row of the call,
-- and the posts.
use witness_subnet.Base.{
  ℕ, Bool, true, false, ◌&&◌, ◌||◌, Option, none, some, List, [], ◌∷◌, leb, if◌then◌else◌, any,
}
use witness_subnet.Base.Eq.{◌==◌, nat_eq}
use witness_subnet.Base.Text.{Text, text, text_eq}
use witness_subnet.Base.Dict.{contains, insert}
use witness_subnet.Base.Outcome.{Outcome, ok, err}
use witness_subnet.Base.Method.{Action, ◌>>◌, modify, guard}
use witness_subnet.Errors.{Error, api_outcome_unknown, integrity_error}
use witness_subnet.Json.{Json}
use witness_subnet.Budget.{Usd, on_file, reserve}
use witness_subnet.Api.{ApiText}
use witness_subnet.Api.World.{
  usage_not_received, is_unknown, Row, Response, Met, response, connect_error, connect_timeout,
  transport, broken, World, in_budget, Attempt,
}

-- The row of a dispatched call of the request without a recorded outcome
abbrev pub awaits : Text → Text × Row → Bool
awaits digest (id, row) = row.input_hash == digest && is_unknown row.recorded

unfoldable pub insert_call : Text → Text → ℕ → Text → World → World
insert_call id digest price model w = record w {
  rows =
      insert id
        (record {
          input_hash = digest;
          reserve = price;
          cost = none;
          recorded = usage_not_received model;
        })
        w.rows;
}

-- `budget.reserve(…)`, on an object with that limit
abbrev pub reserve_call : ApiText → Option ℕ → Text → Text → Text → ℕ → Action Error World Text
reserve_call api limit id day digest price = in_budget (
    on_file limit
      (reserve id day (text "validator") api.provider digest (Usd.decimal price 9) (some id)))

-- The block from `BEGIN IMMEDIATE` to `INSERT`. The reservation is in another database, and stays if
-- the insertion raises.
unfoldable pub prepare : ApiText → Option ℕ → Text → Text → Text → ℕ → Action Error World (Unit {0})
prepare api limit id day digest price w =
    (guard (any (awaits digest) w.rows) api_outcome_unknown
        >> reserve_call api limit id day digest price
        >> guard (contains id w.rows) integrity_error
        >> modify (insert_call id digest price api.model))
      w

-- What the attempts end in: a response, or a `TransportError` by the name of its class.
pub data Ended : Type 0 where
  responded : Response → Ended
  lost : Text → Ended

-- No handler stands for another exception, so it ends the method there.
abbrev pub ended : Met → Outcome Error Ended
ended (response r) = ok (responded r)
ended connect_error = ok (lost (text "ConnectError"))
ended connect_timeout = ok (lost (text "ConnectTimeout"))
ended (transport name) = ok (lost name)
ended (broken e) = err e

abbrev pub is_connect_failure : Met → Bool
is_connect_failure connect_error = true
is_connect_failure connect_timeout = true
is_connect_failure met = false

abbrev pub has_more : List Attempt → Bool
has_more [] = false
has_more (a ∷ rest) = true

-- `remaining <= 0`
abbrev pub is_late : ℕ → Attempt → Bool
is_late timeout a = a.timeout == 0 || leb timeout a.elapsed

unfoldable pub post : Text → Text → Text → Json → Met → World → World
post id endpoint key body met w = record w {
  sent = record { call_id = id; endpoint = endpoint; key = key; body = body; met = met } ∷ w.sent;
}

-- The loop of attempts: only a failure to connect leads to the next one.
unfoldable pub attempts : Text → Text → Text → Json → ℕ → List Attempt → Action Error World Ended
attempts id endpoint key body timeout [] w = (ok (lost (text "ConnectTimeout")), w)
attempts id endpoint key body timeout (a ∷ rest) w =
    let w' = post id endpoint key body a.met w in
    if is_late timeout a
    then (ok (lost (text "ConnectTimeout")), w)
    else (elim (is_connect_failure a.met && has_more rest) [
      | true ↦ attempts id endpoint key body timeout rest w'
      | false ↦ (ended a.met, w')
    ])
