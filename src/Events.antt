-- ===== src/Events.antt =====
-- Canonical JSON and its hash, witness/events.py. SHA-256 is a parameter, from bytes to the hexadecimal
-- digest; a text is a list of code points without surrogates, which Python refuses to encode.
pub mod Canonical
pub mod Tests
use witness_subnet.Base.{ℕ, ◌+◌, ◌/◌, ◌%◌, List, [], ◌∷◌, ltb, if◌then◌else◌}
use witness_subnet.Base.Text.{Text}
use witness_subnet.Json.{Json, dumps}

-- UTF-8, one code point before the bytes that follow.
unfoldable pub utf8_char : ℕ → List ℕ → List ℕ
utf8_char c rest =
    if ltb c 128
    then c ∷ rest
    else if ltb c 2048
    then (192 + c / 64) ∷ (128 + c % 64) ∷ rest
    else if ltb c 65536
    then (224 + c / 4096) ∷ (128 + c / 64 % 64) ∷ (128 + c % 64) ∷ rest
    else (240 + c / 262144) ∷ (128 + c / 4096 % 64) ∷ (128 + c / 64 % 64) ∷ (128 + c % 64) ∷ rest

-- `.encode("utf-8")`
unfoldable pub encode_utf8 : Text → List ℕ
unfolding utf8_char
encode_utf8 [] = []
encode_utf8 (c ∷ s) = utf8_char c (encode_utf8 s)

unfoldable pub canonical_bytes : Json → List ℕ
canonical_bytes value = encode_utf8 (dumps value)

unfoldable pub content_hash : (List ℕ → Text) → Json → Text
content_hash sha256 value = sha256 (canonical_bytes value)
