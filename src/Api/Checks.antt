-- ===== src/Api/Checks.antt =====
-- The tests of `_call` in witness/providers.py before anything is paid.
use witness_subnet.Base.{Option, none, some, [], ltb}
use witness_subnet.Base.Eq.{◌==◌, nat_eq}
use witness_subnet.Base.Text.{Text, text_eq}
use witness_subnet.Base.Dict.{lookup}
use witness_subnet.Base.Outcome.{Outcome, ok, ◌>>=◌, ◌>>◌, raise_if, or_raise}
use witness_subnet.Errors.{
  Error, key_error, api_cache_miss, api_key_unavailable, request_exceeds_priced_context_bound,
  persistent_budget_path_required, api_evaluation_deadline_expired,
}
use witness_subnet.Api.{ApiText, Rates, rates, providers, max_context, is_missing}
use witness_subnet.Api.Request.{Request, upper_input}
use witness_subnet.Api.World.{Circumstances}

-- `os.environ.get(key_name)`, where an empty text is none
abbrev pub key_of : Option Text → Option Text
key_of none = none
key_of (some []) = none
key_of (some key) = some key

-- What the tests before the budget is opened find: the endpoint, the key and the rates.
pub record Checked : Type 0 where
  pub endpoint : Text
  pub key : Text
  pub prices : Rates

-- From the test of the cache-only mode to that of the deadline
unfoldable pub checks : ApiText → Request → Circumstances → Outcome Error Checked
checks api r c =
    raise_if api.cache_only api_cache_miss
    >> (or_raise (lookup api.provider providers) key_error >>= λ (endpoint, key_name).
        or_raise (key_of (c.environ key_name)) api_key_unavailable >>= λ key.
        raise_if (ltb max_context (upper_input r)) request_exceeds_priced_context_bound
        >> (or_raise (lookup api.model rates) key_error >>= λ prices.
            raise_if (is_missing api.budget_path) persistent_budget_path_required
            >> (raise_if (c.timeout == 0) api_evaluation_deadline_expired
                >> ok (record { endpoint = endpoint; key = key; prices = prices }))))
