-- ===== src/Api/Answer.antt =====
-- How `_call` of witness/providers.py reads the answer of the provider.
use witness_subnet.Base.{
  ℕ, ◌+◌, ◌-◌, ◌*◌, Bool, false, Option, none, some, List, [], ◌∷◌, ◌++◌, ltb, if◌then◌else◌, not,
}
use witness_subnet.Base.Eq.{◌==◌}
use witness_subnet.Base.Text.{Text, text, text_eq}
use witness_subnet.Base.Outcome.{Outcome, ok, err, ◌>>=◌, or_raise, ◌>>◌, raise_if}
use witness_subnet.Errors.{
  Error, key_error, type_error, attribute_error, invalid_provider_usage,
  invalid_provider_settlement, provider_changed_model, api_output_incomplete, json_decode_error,
}
use witness_subnet.Json.{Json, Items, Fields, int, string, array, object, nil, cons, end, field}
use witness_subnet.Protocol.Record.{starts_with}
use witness_subnet.Api.{Rates}

unfoldable pub find : Text → Fields → Option Json
find name end = none
find name (field key v fields) = if key == name then some v else find name fields

-- `value[name]`
unfoldable pub item : Text → Json → Outcome Error Json
item name (object fields) = or_raise (find name fields) key_error
item name value = err type_error

-- `value.get(name)`
unfoldable pub get : Text → Json → Outcome Error (Option Json)
get name (object fields) = ok (find name fields)
get name value = err attribute_error

-- An integer that is not negative; `bool` is not `int` for `type`.
abbrev pub natural : Option Json → Option ℕ
natural (some (int n)) = some n
natural other = none

pub record Usage : Type 0 where
  pub input : ℕ
  pub cached : ℕ
  pub output : ℕ

-- `usage.get("input_tokens_details", {}).get("cached_tokens", 0)`
unfoldable pub cached_tokens : Json → Outcome Error Json
cached_tokens usage = get (text "input_tokens_details") usage >>= λ details. elim details [
  | none ↦ ok (int 0)
  | some d ↦ get (text "cached_tokens") d >>= λ c. elim c [ none ↦ ok (int 0) | some v ↦ ok v ]
]

abbrev pub check_usage : Option ℕ → Option ℕ → Option ℕ → Outcome Error Usage
check_usage (some input) (some output) (some cached) =
    if ltb input cached
    then err invalid_provider_usage
    else ok (record { input = input; cached = cached; output = output })
check_usage _ _ _ = err invalid_provider_usage

unfoldable pub read_usage : Json → Outcome Error Usage
read_usage usage = cached_tokens usage >>= λ cached. get (text "input_tokens") usage >>= λ input.
    get (text "output_tokens") usage >>= λ output.
    check_usage (natural input) (natural output) (natural (some cached))

-- What the tokens cost at the rates, and what is charged: SayGM names the charge itself.
unfoldable pub token_cost : Rates → Usage → ℕ
token_cost rates u =
    (u.input - u.cached) * rates.input + u.cached * rates.cached + u.output * rates.output

unfoldable pub cost_of : Text → Rates → Json → Usage → Outcome Error ℕ
cost_of provider rates usage u =
    if provider == text "saygm"
    then (get (text "cost_nano_usd") usage >>= λ nano.
        or_raise (natural nano) invalid_provider_settlement)
    else ok (token_cost rates u)

-- The fields of `record` that the answer gives.
pub record Reply : Type 0 where
  pub status : Json
  pub model_returned : Json
  pub response_id : Json
  pub usage : Json
  pub cost : ℕ

unfoldable pub read_reply : Text → Rates → Json → Outcome Error Reply
read_reply provider rates raw = item (text "usage") raw >>= λ usage. read_usage usage >>= λ u.
    cost_of provider rates usage u >>= λ cost. item (text "status") raw >>= λ status.
    item (text "model") raw >>= λ model. item (text "id") raw >>= λ id. ok (record {
      status = status;
      model_returned = model;
      response_id = id;
      usage = usage;
      cost = cost;
    })

-- `value == name`, for a text
abbrev pub is_text : Text → Json → Bool
is_text name (string s) = s == name
is_text name value = false

-- `raw["model"] != self.model and not raw["model"].startswith(self.model + "-")`
abbrev pub model_changed : Text → Json → Outcome Error Bool
model_changed model (string s) =
    if s == model then ok false else ok (not (starts_with (model ++ text "-") s))
model_changed model value = err attribute_error

-- `for … in value`: a text or an object that is not empty yields texts, which have no items.
abbrev pub elements : Json → Outcome Error Items
elements (array items) = ok items
elements (object end) = ok nil
elements (string []) = ok nil
elements value = err type_error

unfoldable pub output_texts : Items → Outcome Error (List Json)
output_texts nil = ok []
output_texts (cons c rest) =
    let more = output_texts rest in
    item (text "type") c >>= λ kind.
    if is_text (text "output_text") kind
    then (item (text "text") c >>= λ t. more >>= λ ts. ok (t ∷ ts))
    else more

unfoldable pub message_texts : Items → Outcome Error (List Json)
message_texts nil = ok []
message_texts (cons i rest) =
    let more = message_texts rest in
    item (text "type") i >>= λ kind.
    if is_text (text "message") kind
    then (item (text "content") i >>= λ content. elements content >>= λ contents.
        output_texts contents >>= λ ts. more >>= λ others. ok (ts ++ others))
    else more

-- `"".join(…)`
unfoldable pub join : List Json → Outcome Error Text
join [] = ok []
join (string s ∷ rest) = join rest >>= λ t. ok (s ++ t)
join (_ ∷ rest) = err type_error

-- `output`
unfoldable pub output_of : Json → Outcome Error Text
output_of raw = item (text "output") raw >>= λ output.
    elements output >>= λ items. message_texts items >>= λ ts. join ts

-- The checks of an answer whose charge is settled, and its result
unfoldable pub result_of : (Text → Option Json) → Text → Reply → Json → Outcome Error Json
result_of loads model reply raw = model_changed model reply.model_returned >>= λ changed.
    raise_if changed provider_changed_model
    >> (raise_if (not (is_text (text "completed") reply.status)) api_output_incomplete
        >> (output_of raw >>= λ output. or_raise (loads output) json_decode_error))
