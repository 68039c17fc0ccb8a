-- ===== src/Api/Request.antt =====
-- What a request to the API holds, its digest and its price, `_call` and `__call__` of
-- witness/providers.py.
use witness_subnet.Base.{
  ℕ, ◌+◌, ◌-◌, ◌*◌, ◌/◌, ◌%◌, true, false, List, [], ◌∷◌, ◌++◌, ltb, if◌then◌else◌, length, take,
}
use witness_subnet.Base.Eq.{◌==◌, nat_eq}
use witness_subnet.Base.Text.{Text, text}
use witness_subnet.Json.{
  Json, Items, bool, int, string, array, object, nil, cons, end, field, dumps,
}
use witness_subnet.Events.{encode_utf8, canonical_bytes, content_hash}
use witness_subnet.Protocol.Codec.Hex.{hex_value}
use witness_subnet.Api.{ApiText, Rates, identity, image_tokens}

-- The arguments of a call. An image is its bytes.
pub record Request : Type 0 where
  pub prompt : Text
  pub value : Json
  pub schema : Json
  pub images : List (List ℕ)

-- `base64.b64encode`
unfoldable pub b64_char : ℕ → ℕ
b64_char n =
    if ltb n 26
    then n + 65
    else if ltb n 52
    then n + 71
    else if ltb n 62
    then n - 52 + 48
    else if n == 62
    then b'+'
    else b'/'

unfoldable pub b64encode : List ℕ → Text
b64encode [] = []
b64encode (a ∷ []) = b64_char (a / 4) ∷ b64_char (a % 4 * 16) ∷ b'=' ∷ b'=' ∷ []
b64encode (a ∷ b ∷ []) =
    b64_char (a / 4) ∷ b64_char (a % 4 * 16 + b / 16) ∷ b64_char (b % 16 * 4) ∷ b'=' ∷ []
b64encode (a ∷ b ∷ c ∷ rest) =
    b64_char (a / 4)
    ∷ b64_char (a % 4 * 16 + b / 16)
    ∷ b64_char (b % 16 * 4 + c / 64)
    ∷ b64_char (c % 64)
    ∷ b64encode rest

unfoldable pub image_items : List (List ℕ) → Items
image_items [] = nil
image_items (image ∷ images) =
    cons
      (object (
        field (text "type") (string (text "input_image")) (
          field (text "detail") (string (text "high")) (
            field (text "image_url") (string (text "data:image/jpeg;base64," ++ b64encode image))
              end))))
      (image_items images)

-- `canonical_bytes(value).decode()`
abbrev pub value_text : Request → Text
value_text r = dumps r.value

-- `content`
unfoldable pub content : Request → Items
content r =
    cons
      (object (
        field (text "type") (string (text "input_text"))
          (field (text "text") (string (value_text r)) end)))
      (image_items r.images)

-- `request`
unfoldable pub body : ApiText → Request → Json
body api r = object (
    field (text "model") (string api.model) (
      field (text "store") (bool false) (
        field (text "instructions") (string r.prompt) (
          field (text "input")
            (array (
              cons
                (object (
                  field (text "role") (string (text "user"))
                    (field (text "content") (array (content r)) end)))
                nil))
            (field (text "max_output_tokens") (int api.max_tokens) (
              field (text "reasoning") (object (field (text "effort") (string api.effort) end)) (
                field (text "text")
                  (object (
                    field (text "format")
                      (object (
                        field (text "type") (string (text "json_schema")) (
                          field (text "name") (string (text "result")) (
                            field (text "strict") (bool true)
                              (field (text "schema") r.schema end)))))
                      end))
                  end)))))))

-- `digest`
unfoldable pub digest : (List ℕ → Text) → ApiText → Request → Text
digest sha256 api r = content_hash sha256 (
    object (
      field (text "adapter") (string (identity sha256 api))
        (field (text "request") (body api r) end)))

-- `digest + ".json"`
abbrev pub cache_name : Text → Text
cache_name d = d ++ text ".json"

-- `upper_input`
unfoldable pub upper_input : Request → ℕ
upper_input r =
    length (encode_utf8 r.prompt)
    + length (encode_utf8 (value_text r))
    + length (canonical_bytes r.schema)
    + 4096
    + image_tokens * length r.images

-- `reserve`, in nano-dollars: every input token at 1.25 times its rate, every output token that may come.
unfoldable pub reserve_price : ApiText → Rates → ℕ → ℕ
reserve_price api rates upper = upper * (rates.input * 5 / 4) + api.max_tokens * rates.output

unfoldable pub hash_items : (List ℕ → Text) → List (List ℕ) → Items
hash_items sha256 [] = nil
hash_items sha256 (image ∷ images) = cons (string (sha256 image)) (hash_items sha256 images)

-- `key` of `__call__`; `folder` is `str(self.cache.resolve())`.
unfoldable pub request_key : (List ℕ → Text) → Text → ApiText → Request → Text
request_key sha256 folder api r = content_hash sha256 (
    object (
      field (text "cache") (string folder) (
        field (text "identity") (string (identity sha256 api)) (
          field (text "prompt") (string r.prompt) (
            field (text "value") r.value (
              field (text "schema") r.schema
                (field (text "images") (array (hash_items sha256 r.images)) end)))))))

-- `int(text, 16)`, on digits
unfoldable pub hex_number : ℕ → Text → ℕ
hex_number n [] = n
hex_number n (c ∷ s) = hex_number (n * 16 + hex_value c) s

-- The lock of a request, one of 64.
unfoldable pub lock_of : Text → ℕ
lock_of key = hex_number 0 (take 8 key) % 64
