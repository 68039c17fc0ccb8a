-- ===== src/Api.antt =====
-- The paid labelling and judging API, witness/providers.py. Dollars are exact here: a rate is whole
-- nano-dollars per token, which are the dollars of a million tokens times 1000.
pub mod Request
pub mod Answer
pub mod World
pub mod Checks
pub mod Send
pub mod Finish
pub mod Call
pub mod Dispatch
pub mod After
pub mod Own
pub mod Once
pub mod Money
pub mod Settled
pub mod Cached
pub mod Tests
use witness_subnet.Base.{ℕ, Bool, Option, none, some, List, [], ◌∷◌, ◌++◌, not}
use witness_subnet.Base.Text.{Text, text, text_eq}
use witness_subnet.Base.Dict.{Dict, contains}
use witness_subnet.Base.Outcome.{Outcome, ok, err, ◌>>◌, raise_if}
use witness_subnet.Errors.{Error, model_has_no_verified_rate, unsupported_api_provider}
use witness_subnet.Json.{Json, int, string, object, end, field}
use witness_subnet.Budget.{Usd}
use witness_subnet.Events.{content_hash}

pub record Rates : Type 0 where
  pub input : ℕ
  pub cached : ℕ
  pub output : ℕ

abbrev pub rates : Dict Text Rates
rates =
    (text "gpt-5.6-sol", record { input = 4000; cached = 400; output = 20000 })
    ∷ (text "gpt-5.6-terra", record { input = 2000; cached = 200; output = 12000 })
    ∷ (text "gpt-5.6-luna", record { input = 200; cached = 20; output = 1200 })
    ∷ (text "gpt-6-luna", record { input = 100; cached = 10; output = 500 })
    ∷ []

-- The endpoint and the variable of the key.
abbrev pub providers : Dict Text (Text × Text)
providers =
    (text "openai", (text "https://api.openai.com/v1/responses", text "OPENAI_API_KEY"))
    ∷ (text "saygm", (text "https://api.saygm.com/v1/responses", text "GM_API_KEY"))
    ∷ []

abbrev pub max_context : ℕ
max_context = 272000

abbrev pub image_tokens : ℕ
image_tokens = 4096

-- The fields of an `ApiText` that do not change after its construction.
pub record ApiText : Type 0 where
  pub provider : Text
  pub model : Text
  pub effort : Text
  pub max_tokens : ℕ
  pub cache_only : Bool
  pub budget_path : Option Text
  pub daily_limit_usd : Option Usd

-- `a or b` on a text that may be missing
abbrev pub or_else : Option Text → Option Text → Option Text
or_else none other = other
or_else (some []) other = other
or_else (some s) other = some s

-- `not s`
abbrev pub is_missing : Option Text → Bool
is_missing none = Bool.true
is_missing (some []) = Bool.true
is_missing (some (c ∷ s)) = Bool.false

-- `__init__`, with the environment variables as a function
unfoldable pub new_api :
    (Text → Option Text)
    → (model provider effort : Text) → ℕ
    → Option Text
    → Bool
    → Option Usd
    → Outcome Error ApiText
new_api environ model provider effort max_tokens budget_path cache_only daily_limit_usd =
    raise_if (not (contains model rates)) model_has_no_verified_rate
    >> (raise_if (not (contains provider providers)) unsupported_api_provider
        >> ok (record {
          provider = provider;
          model = model;
          effort = effort;
          max_tokens = max_tokens;
          cache_only = cache_only;
          budget_path = or_else budget_path (environ (text "WITNESS_BUDGET_DB"));
          daily_limit_usd = daily_limit_usd;
        }))

-- `identity`
unfoldable pub identity : (List ℕ → Text) → ApiText → Text
identity sha256 api =
    api.provider
    ++ text "-responses:"
    ++ content_hash sha256 (
        object (
          field (text "model") (string api.model) (
            field (text "effort") (string api.effort) (
              field (text "max_tokens") (int api.max_tokens)
                (field (text "adapter") (string (text "api-text-v3")) end)))))
