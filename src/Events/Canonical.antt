-- ===== src/Events/Canonical.antt =====
-- When two values have the same canonical bytes, and the same hash, in witness/events.py.
use witness_subnet.Base.{
  ℕ, ◌+◌, ◌-◌, ◌*◌, ◌≡◌, ◌≢◌, ◌↔◌, refl, ap, sym, ◌∙◌, List, [], ◌∷◌, ltb, if◌then◌else◌, arith,
}
use witness_subnet.Base.Text.{Text}
use witness_subnet.Json.{Json, dumps}
use witness_subnet.Json.Same.{Same, dumps-Same}
use witness_subnet.Events.{utf8_char, encode_utf8, canonical_bytes}

-- The first code point of a byte string, and the rest.
abbrev decode_char : List ℕ → ℕ × List ℕ
decode_char [] = (0, [])
decode_char (a ∷ []) = (a, [])
decode_char (a ∷ b ∷ []) = if ltb a 128 then (a, b ∷ []) else ((a - 192) * 64 + (b - 128), [])
decode_char (a ∷ b ∷ c ∷ []) =
    if ltb a 128
    then (a, b ∷ c ∷ [])
    else if ltb a 224
    then ((a - 192) * 64 + (b - 128), c ∷ [])
    else ((a - 224) * 4096 + (b - 128) * 64 + (c - 128), [])
decode_char (a ∷ b ∷ c ∷ d ∷ rest) =
    if ltb a 128
    then (a, b ∷ c ∷ d ∷ rest)
    else if ltb a 224
    then ((a - 192) * 64 + (b - 128), c ∷ d ∷ rest)
    else if ltb a 240
    then ((a - 224) * 4096 + (b - 128) * 64 + (c - 128), d ∷ rest)
    else ((a - 240) * 262144 + (b - 128) * 4096 + (c - 128) * 64 + (d - 128), rest)

decode_char-utf8_char : (c : ℕ) (rest : List ℕ) → decode_char (utf8_char c rest) ≡ (c, rest)
unfolding utf8_char
decode_char-utf8_char c [] = ground arith
decode_char-utf8_char c (x ∷ []) = ground arith
decode_char-utf8_char c (x ∷ y ∷ []) = ground arith
decode_char-utf8_char c (x ∷ y ∷ z ∷ rest) = ground arith

abbrev head : List ℕ → ℕ
head [] = 0
head (c ∷ s) = c

utf8_char-cons : (c : ℕ) (s : List ℕ) → utf8_char c s ≢ []
unfolding utf8_char
utf8_char-cons c s = ground arith

pub encode_utf8-injective : (s t : Text) → encode_utf8 s ≡ encode_utf8 t → s ≡ t
unfolding encode_utf8
encode_utf8-injective [] [] h = refl
encode_utf8-injective [] (d ∷ t) h = absurd (utf8_char-cons d (encode_utf8 t) (sym h))
encode_utf8-injective (c ∷ s) [] h = absurd (utf8_char-cons c (encode_utf8 s) h)
encode_utf8-injective (c ∷ s) (d ∷ t) h =
    let both : (c, encode_utf8 s) ≡ (d, encode_utf8 t) =
      sym (decode_char-utf8_char c (encode_utf8 s))
      ∙ ap decode_char h
      ∙ decode_char-utf8_char d (encode_utf8 t) in
    let more = encode_utf8-injective s t (ap (λ p. p.1) both) in
    let char = ap (λ p. p.0) both in λ i. char i ∷ more i

-- Two JSON values have the same canonical bytes exactly when they are the same up to the order in
-- which their objects list their fields.
pub canonical_bytes-Same : (v w : Json) → (canonical_bytes v ≡ canonical_bytes w) ↔ Same v w
unfolding canonical_bytes
canonical_bytes-Same v w = (
  λ h. (dumps-Same v w).0 (encode_utf8-injective (dumps v) (dumps w) h),
  λ s. ap encode_utf8 ((dumps-Same v w).1 s),
)
