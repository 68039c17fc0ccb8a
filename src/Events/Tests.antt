-- ===== src/Events/Tests.antt =====
-- Canonical bytes of small values.
use witness_subnet.Base.{◌≡◌, ◌↔◌, refl, [], ◌∷◌}
use witness_subnet.Base.Text.{text, text_leb}
use witness_subnet.Json.{
  Json, null, int, string, array, object, nil, cons, end, field, normal, dumps, emit, emit_chars,
  emit_digits, insert_field, escape,
}
use witness_subnet.Json.Same.{Same}
use witness_subnet.Events.{canonical_bytes, encode_utf8}
use witness_subnet.Events.Canonical.{canonical_bytes-Same}

-- {"b": "é", "a": [null, 10]} and the same object with its keys in the other order
abbrev one : Json
one = object (
    field (text "b") (string (233 ∷ []))
      (field (text "a") (array (cons null (cons (int 10) nil))) end))

abbrev two : Json
two = object (
    field (text "a") (array (cons null (cons (int 10) nil)))
      (field (text "b") (string (233 ∷ [])) end))

-- {"a":[null,10],"b":"é"} in UTF-8
bytes_one :
    canonical_bytes one
    ≡ 123 ∷ 34 ∷ 97 ∷ 34 ∷ 58 ∷ 91 ∷ 110 ∷ 117 ∷ 108 ∷ 108 ∷ 44 ∷ 49 ∷ 48 ∷ 93 ∷ 44 ∷ 34 ∷ 98 ∷ 34
      ∷ 58 ∷ 34 ∷ 195 ∷ 169 ∷ 34 ∷ 125 ∷ []
unfolding canonical_bytes encode_utf8 dumps normal emit emit_chars emit_digits insert_field escape
    text_leb
bytes_one = refl

canonical_bytes-Same_example : (canonical_bytes one ≡ canonical_bytes two) ↔ Same one two
canonical_bytes-Same_example = canonical_bytes-Same one two
