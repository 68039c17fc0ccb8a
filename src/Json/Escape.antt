-- ===== src/Json/Escape.antt =====
-- The characters of a JSON string, read back.
use witness_subnet.Base.{ℕ, ◌+◌, ◌*◌, ◌≡◌, ◌≢◌, refl, ap, sym, ◌∙◌, [], ◌∷◌, if◌then◌else◌, arith}
use witness_subnet.Base.Eq.{◌==◌, nat_eq}
use witness_subnet.Base.Text.{Text}
use witness_subnet.Protocol.Codec.Hex.{hex_digit, hex_value}
use witness_subnet.Json.{escape, emit_chars}

-- The character that follows a backslash, and `\u00xx`.
abbrev unescape_short : ℕ → ℕ
unescape_short e =
    if e == 98
    then 8
    else if e == 102
    then 12
    else if e == 110
    then 10
    else if e == 114
    then 13
    else if e == 116
    then 9
    else e

abbrev unicode : Text → ℕ × Text
unicode (a ∷ b ∷ h ∷ l ∷ more) = (hex_value h * 16 + hex_value l, more)
unicode other = (0, other)

abbrev after_backslash : Text → ℕ × Text
after_backslash [] = (0, [])
after_backslash (e ∷ rest) = if e == 117 then unicode rest else (unescape_short e, rest)

-- The first character of what stands between the quotes, and the rest.
abbrev unescape : Text → ℕ × Text
unescape [] = (0, [])
unescape (c ∷ rest) = if c == 92 then after_backslash rest else (c, rest)

unescape-escape : (c : ℕ) (rest : Text) → unescape (escape c rest) ≡ (c, rest)
unfolding escape hex_digit hex_value
unescape-escape c rest = ground arith

pub escape-injective : (c d : ℕ) (s t : Text) → escape c s ≡ escape d t → (c ≡ d) × (s ≡ t)
escape-injective c d s t h =
    let both : (c, s) ≡ (d, t) = sym (unescape-escape c s) ∙ ap unescape h ∙ unescape-escape d t in
    (ap (λ p. p.0) both, ap (λ p. p.1) both)

abbrev head : Text → ℕ
head [] = 0
head (c ∷ s) = c

escape-no_quote : (c : ℕ) (s : Text) → head (escape c s) ≢ 34
unfolding escape
escape-no_quote c s = ground arith

-- The closing quote ends a string.
pub emit_chars-injective : (a b s t : Text) → emit_chars a s ≡ emit_chars b t → (a ≡ b) × (s ≡ t)
unfolding emit_chars
emit_chars-injective [] [] s t h = (refl, cc)
emit_chars-injective [] (d ∷ b) s t h =
    absurd (escape-no_quote d (emit_chars b t) (sym (ap head h)))
emit_chars-injective (c ∷ a) [] s t h = absurd (escape-no_quote c (emit_chars a s) (ap head h))
emit_chars-injective (c ∷ a) (d ∷ b) s t h =
    let (same, rest) = escape-injective c d (emit_chars a s) (emit_chars b t) h in
    let (more, end) = emit_chars-injective a b s t rest in (cc (same, more), end)
