-- ===== src/Api/Tests.antt =====
-- A call of the API that is answered, one that is lost, and one whose process is killed.
use witness_subnet.Base.{
  ◌≢◌, sym, ap, ◌∙◌, length, ℕ, ◌+◌, ◌≤◌, ◌≡◌, ◌⊎◌, refl, arith, Bool, true, false, Option, none,
  some, List, [], ◌∷◌,
}
use witness_subnet.Base.Eq.{◌==◌, nat_eq}
use witness_subnet.Base.Text.{Text, text, text_eq, text_beq}
use witness_subnet.Base.Dict.{lookup, contains}
use witness_subnet.Base.Outcome.{ok, err}
use witness_subnet.Errors.{os_error, Error, provider_transport, provider_status}
use witness_subnet.Json.{Json, int, string, array, object, nil, cons, end, field}
use witness_subnet.Events.{content_hash}
use witness_subnet.Budget.{File, Usd}
use witness_subnet.Api.{ApiText, Rates, rates}
use witness_subnet.Api.Request.{Request, digest, cache_name, upper_input, reserve_price}
use witness_subnet.Api.Answer.{Usage, read_usage, token_cost}
use witness_subnet.Api.World.{
  World, Attempt, Circumstances, Met, Response, transport_error, provider_error,
}
use witness_subnet.Api.Send.{Ended, lost, responded}
use witness_subnet.Api.Finish.{lost_metadata, rejected_metadata}
use witness_subnet.Api.Call.{Dispatch, dispatch, _call}
use witness_subnet.Api.Once.{Runs, never_sent_twice}
use witness_subnet.Api.Money.{Sent, cost_within_reserve, paid_first}
use witness_subnet.Api.Settled.{Closed, lost_call_settled, rejected_call_settled}
use witness_subnet.Api.Cached.{answered_once}

-- Not a hash that could be used, but a function.
abbrev sha256 : List ℕ → Text
sha256 bytes = text "d"

abbrev loads : Text → Option Json
loads s = some (string s)

abbrev api : ApiText
api = record {
  provider = text "openai";
  model = text "gpt-6-luna";
  effort = text "low";
  max_tokens = 100;
  cache_only = false;
  budget_path = some (text "b");
  daily_limit_usd = some (Usd.decimal 9 0);
}

abbrev request : Request
request = record { prompt = text "p"; value = object end; schema = object end; images = [] }

abbrev environ : Text → Option Text
environ name = some (text "k")

abbrev try : Met → Attempt
try met = record { timeout = 300; elapsed = 0; met = met }

abbrev meeting : Met → Circumstances
meeting met = record {
  environ = environ;
  fresh = text "1";
  day = text "2026-01-01";
  timeout = 300;
  first = try Met.connect_error;
  second = try met;
  temporary = text "t";
  fault = none;
}

abbrev start : World
start = record {
  cache = record { next = 0; inodes = []; current = []; pending = [] };
  rows = [];
  budget = record { policy = none; rows = [] };
  calls = [];
  sent = [];
}

-- {"usage":{"input_tokens":10,"output_tokens":5},…}
abbrev usage : Json
usage = object (field (text "input_tokens") (int 10) (field (text "output_tokens") (int 5) end))

abbrev raw : Json
raw = object (
    field (text "usage") usage (
      field (text "status") (string (text "completed")) (
        field (text "model") (string (text "gpt-6-luna-1")) (
          field (text "id") (string (text "r")) (
            field (text "output")
              (array (
                cons
                  (object (
                    field (text "type") (string (text "message")) (
                      field (text "content")
                        (array (
                          cons
                            (object (
                              field (text "type") (string (text "output_text"))
                                (field (text "text") (string (text "yes")) end)))
                            nil))
                        end)))
                  nil))
              end)))))

abbrev answer : Response
answer = record { status_code = 200; json = some raw }

abbrev refusal : Response
refusal = record { status_code = 429; json = none }

-- 4102 bytes and bounds of input, at 125 nano-dollars, and 100 tokens of output at 500
abbrev sent : Ended → Dispatch
sent ended = record {
  limit = some 9000000000;
  rates = record { input = 100; cached = 10; output = 500 };
  price = 562625;
  ended = ended;
}

is_sent :
    (dispatch sha256 api request (meeting (Met.response answer)) start).0
    ≡ ok (sent (responded answer))
unfolding witness_subnet.Api.Request.upper_input witness_subnet.Api.Request.reserve_price
    witness_subnet.Api.World.in_budget witness_subnet.Api.Checks.checks
    witness_subnet.Api.Send.prepare witness_subnet.Api.Send.attempts witness_subnet.Api.Call.send
    witness_subnet.Api.Call.pay witness_subnet.Api.Call.dispatch witness_subnet.Budget.nanos
    witness_subnet.Budget.spent witness_subnet.Budget.connect witness_subnet.Budget.reserve_block
    witness_subnet.Budget.reserve_amount witness_subnet.Budget.reserve
    witness_subnet.Budget.check_policy witness_subnet.Budget.open_budget
    witness_subnet.Budget.on_file witness_subnet.Json.dumps witness_subnet.Events.encode_utf8
    witness_subnet.Events.canonical_bytes witness_subnet.Base.Dict.lookup
    witness_subnet.Base.Dict.setdefault witness_subnet.Base.Text.text_beq
    witness_subnet.Base.Method.transaction witness_subnet.Json.emit witness_subnet.Json.normal
is_sent = refl

is_lost :
    (dispatch sha256 api request (meeting (Met.transport (text "ReadTimeout"))) start).0
    ≡ ok (sent (lost (text "ReadTimeout")))
unfolding witness_subnet.Api.Request.upper_input witness_subnet.Api.Request.reserve_price
    witness_subnet.Api.World.in_budget witness_subnet.Api.Checks.checks
    witness_subnet.Api.Send.prepare witness_subnet.Api.Send.attempts witness_subnet.Api.Call.send
    witness_subnet.Api.Call.pay witness_subnet.Api.Call.dispatch witness_subnet.Budget.nanos
    witness_subnet.Budget.spent witness_subnet.Budget.connect witness_subnet.Budget.reserve_block
    witness_subnet.Budget.reserve_amount witness_subnet.Budget.reserve
    witness_subnet.Budget.check_policy witness_subnet.Budget.open_budget
    witness_subnet.Budget.on_file witness_subnet.Json.dumps witness_subnet.Events.encode_utf8
    witness_subnet.Events.canonical_bytes witness_subnet.Base.Dict.lookup
    witness_subnet.Base.Dict.setdefault witness_subnet.Base.Text.text_beq
    witness_subnet.Base.Method.transaction witness_subnet.Json.emit witness_subnet.Json.normal
is_lost = refl

is_rejected :
    (dispatch sha256 api request (meeting (Met.response refusal)) start).0
    ≡ ok (sent (responded refusal))
unfolding witness_subnet.Api.Request.upper_input witness_subnet.Api.Request.reserve_price
    witness_subnet.Api.World.in_budget witness_subnet.Api.Checks.checks
    witness_subnet.Api.Send.prepare witness_subnet.Api.Send.attempts witness_subnet.Api.Call.send
    witness_subnet.Api.Call.pay witness_subnet.Api.Call.dispatch witness_subnet.Budget.nanos
    witness_subnet.Budget.spent witness_subnet.Budget.connect witness_subnet.Budget.reserve_block
    witness_subnet.Budget.reserve_amount witness_subnet.Budget.reserve
    witness_subnet.Budget.check_policy witness_subnet.Budget.open_budget
    witness_subnet.Budget.on_file witness_subnet.Json.dumps witness_subnet.Events.encode_utf8
    witness_subnet.Events.canonical_bytes witness_subnet.Base.Dict.lookup
    witness_subnet.Base.Dict.setdefault witness_subnet.Base.Text.text_beq
    witness_subnet.Base.Method.transaction witness_subnet.Json.emit witness_subnet.Json.normal
is_rejected = refl

is_answered :
    (_call sha256 loads api request (meeting (Met.response answer)) start).0
    ≡ ok (string (text "yes"))
unfolding witness_subnet.Api.Request.upper_input witness_subnet.Api.Request.reserve_price
    witness_subnet.Api.Answer.find witness_subnet.Api.Answer.item witness_subnet.Api.Answer.get
    witness_subnet.Api.Answer.cached_tokens witness_subnet.Api.Answer.read_usage
    witness_subnet.Api.Answer.token_cost witness_subnet.Api.Answer.cost_of
    witness_subnet.Api.Answer.read_reply witness_subnet.Api.Answer.output_texts
    witness_subnet.Api.Answer.message_texts witness_subnet.Api.Answer.join
    witness_subnet.Api.Answer.output_of witness_subnet.Api.Answer.result_of
    witness_subnet.Api.World.in_budget witness_subnet.Api.World.in_cache
    witness_subnet.Api.World.record_call witness_subnet.Api.Checks.checks
    witness_subnet.Api.Send.insert_call witness_subnet.Api.Send.prepare witness_subnet.Api.Send.post
    witness_subnet.Api.Send.attempts witness_subnet.Api.Finish.close_call
    witness_subnet.Api.Finish.keep_answer witness_subnet.Api.Finish.finish_reply
    witness_subnet.Api.Finish.finish_answered witness_subnet.Api.Finish.finish
    witness_subnet.Api.Call.send witness_subnet.Api.Call.pay witness_subnet.Api.Call.dispatch
    witness_subnet.Api.Call._call witness_subnet.Budget.nanos witness_subnet.Budget.spent
    witness_subnet.Budget.insert_reservation witness_subnet.Budget.connect
    witness_subnet.Budget.reserve_block witness_subnet.Budget.reserve_amount
    witness_subnet.Budget.reserve witness_subnet.Budget.settle_block
    witness_subnet.Budget.settle_amount witness_subnet.Budget.settle
    witness_subnet.Budget.check_policy witness_subnet.Budget.open_budget
    witness_subnet.Budget.on_file witness_subnet.Storage.write_private witness_subnet.Json.dumps
    witness_subnet.Events.encode_utf8 witness_subnet.Events.canonical_bytes
    witness_subnet.Base.Dict.lookup witness_subnet.Base.Dict.insert
    witness_subnet.Base.Dict.setdefault witness_subnet.Base.Text.text_beq
    witness_subnet.Base.Method.transaction witness_subnet.Protocol.Record.starts_with
    witness_subnet.Json.emit witness_subnet.Json.normal
is_answered = refl

no_cache : contains (cache_name (digest sha256 api request)) start.cache.current ≡ false
unfolding contains lookup
no_cache = refl

-- 12 tokens cost 10 * 100 + 5 * 500 nano-dollars.
abbrev tokens : Usage
tokens = record { input = 10; cached = 0; output = 5 }

is_usage : read_usage usage ≡ ok tokens
unfolding witness_subnet.Api.Answer.find witness_subnet.Api.Answer.get
    witness_subnet.Api.Answer.cached_tokens witness_subnet.Api.Answer.read_usage
    witness_subnet.Base.Text.text_beq
is_usage = refl

is_rates : lookup api.model rates ≡ some (record { input = 100; cached = 10; output = 500 })
unfolding lookup text_beq
is_rates = refl

few : 10 ≤ upper_input request
unfolding upper_input
few = omega arith

-- The process is killed in the middle of its second post; then another one calls.
abbrev dying : Circumstances
dying = meeting (Met.broken os_error)

abbrev killed : World
killed = (dispatch sha256 api request dying start).1

two_posts : length killed.sent ≡ 2
unfolding witness_subnet.Api.Request.upper_input witness_subnet.Api.Request.reserve_price
    witness_subnet.Api.World.in_budget witness_subnet.Api.Checks.checks
    witness_subnet.Api.Send.prepare witness_subnet.Api.Send.attempts witness_subnet.Api.Call.send
    witness_subnet.Api.Call.pay witness_subnet.Api.Call.dispatch witness_subnet.Budget.nanos
    witness_subnet.Budget.spent witness_subnet.Budget.connect witness_subnet.Budget.reserve_block
    witness_subnet.Budget.reserve_amount witness_subnet.Budget.reserve
    witness_subnet.Budget.check_policy witness_subnet.Budget.open_budget
    witness_subnet.Budget.on_file witness_subnet.Json.dumps witness_subnet.Events.encode_utf8
    witness_subnet.Events.canonical_bytes witness_subnet.Base.Dict.lookup
    witness_subnet.Base.Dict.setdefault witness_subnet.Base.Text.text_beq
    witness_subnet.Base.Method.transaction witness_subnet.Json.emit witness_subnet.Json.normal
    witness_subnet.Api.Send.post witness_subnet.Api.Send.insert_call
two_posts = refl

killed-sent : killed.sent ≢ start.sent
killed-sent h = let n : 2 ≡ 0 = sym two_posts ∙ ap (λ ps. length ps) h in omega (arith, n)

abbrev later : World
later = (_call sha256 loads api request (meeting Met.connect_error) killed).1

never_sent_twice_example :
    (_call sha256 loads api request (meeting (Met.response answer)) later).1.sent ≡ later.sent
never_sent_twice_example =
    never_sent_twice sha256 loads api api request request dying (meeting (Met.response answer))
      start later killed-sent (Runs.called api request (meeting Met.connect_error) Runs.start) refl

paid_first_example :
    ((e : Error) × ((dispatch sha256 api request dying start).0 ≡ err e)
      × ((dispatch sha256 api request dying start).1.sent ≡ start.sent))
    ⊎ Sent sha256 api request dying start
paid_first_example = paid_first sha256 api request dying start

lost_call_settled_example :
    ((_call sha256 loads api request (meeting (Met.transport (text "ReadTimeout"))) start).0
      ≡ err (provider_transport (text "openai") (text "ReadTimeout")))
    × Closed api
        (meeting (Met.transport (text "ReadTimeout")))
        (digest sha256 api request)
        562625
        (transport_error (text "ReadTimeout"))
        562625
        (lost_metadata (text "openai") (text "ReadTimeout"))
        (_call sha256 loads api request (meeting (Met.transport (text "ReadTimeout"))) start).1
lost_call_settled_example =
    lost_call_settled sha256 loads api request (meeting (Met.transport (text "ReadTimeout"))) start
      (sent (lost (text "ReadTimeout"))) (text "ReadTimeout") no_cache is_lost refl

rejected_call_settled_example :
    ((_call sha256 loads api request (meeting (Met.response refusal)) start).0
      ≡ err (provider_status (text "openai") 429))
    × Closed api
        (meeting (Met.response refusal))
        (digest sha256 api request)
        562625
        (provider_error 429)
        0
        (rejected_metadata (text "openai") 429)
        (_call sha256 loads api request (meeting (Met.response refusal)) start).1
rejected_call_settled_example =
    rejected_call_settled sha256 loads api request (meeting (Met.response refusal)) start
      (sent (responded refusal)) refusal no_cache is_rejected refl refl

cost_within_reserve_example :
    token_cost (record { input = 100; cached = 10; output = 500 }) tokens
    ≤ reserve_price api (record { input = 100; cached = 10; output = 500 }) (upper_input request)
cost_within_reserve_example =
    cost_within_reserve api request usage tokens (record { input = 100; cached = 10; output = 500 })
      is_rates is_usage few (omega arith)

abbrev answered_world : World
answered_world = (_call sha256 loads api request (meeting (Met.response answer)) start).1

apart : (text "t" == cache_name (digest sha256 api request)) ≡ false
unfolding digest content_hash text_beq
apart = refl

answered_once_example :
    ((_call sha256 loads api request (meeting Met.connect_error) answered_world).0
      ≡ ok (string (text "yes")))
    × ((_call sha256 loads api request (meeting Met.connect_error) answered_world).1.sent
        ≡ answered_world.sent)
    × ((_call sha256 loads api request (meeting Met.connect_error) answered_world).1.budget
        ≡ answered_world.budget)
answered_once_example =
    answered_once sha256 loads api api request request (meeting (Met.response answer))
      (meeting Met.connect_error) start (string (text "yes")) apart is_answered refl
