-- ===== src/Api/Finish.antt =====
-- What `_call` of witness/providers.py does with the end of its attempts.
use witness_subnet.Base.{ℕ, Bool, false, Option, some, [], ◌∷◌, ◌++◌, if◌then◌else◌}
use witness_subnet.Base.Eq.{◌==◌, nat_eq}
use witness_subnet.Base.Text.{Text, text, text_eq}
use witness_subnet.Base.Method.{Action, ◌>>=◌, ◌>>◌, modify, lift, or_raise, pure, raise}
use witness_subnet.Errors.{Error, provider_transport, provider_status, json_decode_error}
use witness_subnet.Json.{Json, string, int, object, field, end}
use witness_subnet.Storage.{write_private}
use witness_subnet.Budget.{Usd, on_file, settle}
use witness_subnet.Api.{ApiText, Rates}
use witness_subnet.Api.Request.{cache_name}
use witness_subnet.Api.Answer.{Reply, read_reply, result_of}
use witness_subnet.Api.World.{
  Record, transport_error, provider_error, answered, Answer, World, in_budget, in_cache,
  record_call,
}
use witness_subnet.Api.Send.{Ended, responded, lost}

-- `_record(…)` and `budget.settle(…)`
unfoldable pub close_call : Option ℕ → Text → Record → ℕ → Json → Action Error World (Unit {0})
close_call limit id recorded cost metadata =
    modify (record_call id recorded (some cost))
    >> in_budget (on_file limit (settle id (Usd.decimal cost 9) metadata))

-- What the budget keeps of each end
abbrev pub lost_metadata : Text → Text → Json
lost_metadata provider name =
    object
      (field (text "provider") (string provider) (field (text "transport_error") (string name) end))

abbrev pub rejected_metadata : Text → ℕ → Json
rejected_metadata provider status =
    object (field (text "provider") (string provider) (field (text "http_status") (int status) end))

abbrev pub answered_metadata : Text → Reply → Json
answered_metadata provider reply =
    object
      (field (text "provider") (string provider) (field (text "response_id") reply.response_id end))

-- No answer: the whole reservation stays charged.
unfoldable pub finish_lost : ApiText → Option ℕ → Text → ℕ → Text → Action Error World Json
finish_lost api limit id price name =
    close_call limit id (transport_error name) price (lost_metadata api.provider name)
    >> raise (provider_transport api.provider name)

-- A rejected request is not billed.
unfoldable pub finish_rejected : ApiText → Option ℕ → Text → ℕ → Action Error World Json
finish_rejected api limit id status =
    close_call limit id (provider_error status) 0 (rejected_metadata api.provider status)
    >> raise (provider_status api.provider status)

unfoldable pub add_note : Text → Bool → ℕ → Json → World → World
add_note digest cache_hit cost response_id w = record w {
  calls =
      w.calls
      ++ record {
        input_hash = digest;
        cache_hit = cache_hit;
        cost = cost;
        response_id = response_id;
      }
        ∷ [];
}

-- The answer as a file of the cache
abbrev pub answer_of : ApiText → Text → Json → Reply → Answer
answer_of api digest result reply = record {
  input_hash = digest;
  result = result;
  recorded = answered api.model reply;
  response_id = reply.response_id;
}

-- The result is cached, noted and returned.
unfoldable pub keep_answer :
    ApiText → Option ℕ → Text → Text → Reply → Json → Action Error World Json
keep_answer api fault temporary digest reply result =
    in_cache (write_private fault temporary (cache_name digest) (answer_of api digest result reply))
    >> modify (add_note digest false reply.cost reply.response_id)
    >> pure result

-- An answer whose tokens and charge have been read
unfoldable pub finish_reply :
    (Text → Option Json)
    → ApiText
    → Option ℕ
    → Text
    → Option ℕ
    → Text
    → Text
    → Json
    → Reply
    → Action Error World Json
finish_reply loads api limit id fault temporary digest raw reply =
    close_call limit id (answered api.model reply) reply.cost (answered_metadata api.provider reply)
    >> (lift (result_of loads api.model reply raw) >>= keep_answer api fault temporary digest reply)

-- An answer with status 200
unfoldable pub finish_answered :
    (Text → Option Json)
    → ApiText
    → Option ℕ
    → Rates
    → Text
    → Option ℕ
    → Text
    → Text
    → Json
    → Action Error World Json
finish_answered loads api limit rates id fault temporary digest raw =
    lift (read_reply api.provider rates raw)
    >>= finish_reply loads api limit id fault temporary digest raw

unfoldable pub finish :
    (Text → Option Json)
    → ApiText
    → Option ℕ
    → Rates
    → Text
    → ℕ
    → Option ℕ
    → Text
    → Text
    → Ended
    → Action Error World Json
finish loads api limit rates id price fault temporary digest (lost name) =
    finish_lost api limit id price name
finish loads api limit rates id price fault temporary digest (responded r) =
    if r.status_code == 200
    then (or_raise r.json json_decode_error
        >>= finish_answered loads api limit rates id fault temporary digest)
    else finish_rejected api limit id r.status_code
