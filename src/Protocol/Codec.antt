-- ===== src/Protocol/Codec.antt =====
-- Bytes as text in witness/benchmark/protocol.py (`encode_bytes`, `decode_bytes`): unpadded
-- base64url, and the hexadecimal digits that the digests are kept in.
pub mod Base64
pub mod Hex
use witness_subnet.Base.{
  ℕ, ◌+◌, ◌-◌, ◌*◌, ◌/◌, ◌%◌, Bool, true, false, ◌&&◌, ◌||◌, Option, none, some, List, [], ◌∷◌,
  ◌++◌, ltb, leb, if◌then◌else◌, length, replicate, not,
}
use witness_subnet.Base.Eq.{◌==◌, nat_eq}
use witness_subnet.Base.Text.{Text, text_eq, text_beq}
use witness_subnet.Base.Outcome.{Outcome, ok, err}
use witness_subnet.Errors.{Error, invalid_commitment_encoding, noncanonical_commitment}

-- The URL-safe alphabet.
unfoldable pub encode_char : ℕ → ℕ
encode_char n =
    if ltb n 26
    then n + 65
    else if ltb n 52
    then n + 71
    else if ltb n 62
    then n - 52 + 48
    else if n == 62
    then b'-'
    else b'_'

-- `altchars=b"-_"` is translated to `+/`, so both spellings of the last two digits decode.
unfoldable pub decode_char : ℕ → Option ℕ
decode_char c =
    if leb b'A' c && leb c b'Z'
    then some (c - 65)
    else if leb b'a' c && leb c b'z'
    then some (c - 71)
    else if leb b'0' c && leb c b'9'
    then some (c - 48 + 52)
    else if c == b'-' || c == b'+'
    then some 62
    else if c == b'_' || c == b'/'
    then some 63
    else none

-- `base64.urlsafe_b64encode(value).decode().rstrip("=")`
unfoldable pub encode_bytes : List ℕ → Text
encode_bytes [] = []
encode_bytes (a ∷ []) = encode_char (a / 4) ∷ encode_char (a % 4 * 16) ∷ []
encode_bytes (a ∷ b ∷ []) =
    encode_char (a / 4) ∷ encode_char (a % 4 * 16 + b / 16) ∷ encode_char (b % 16 * 4) ∷ []
encode_bytes (a ∷ b ∷ c ∷ rest) =
    encode_char (a / 4)
    ∷ encode_char (a % 4 * 16 + b / 16)
    ∷ encode_char (b % 16 * 4 + c / 64)
    ∷ encode_char (c % 64)
    ∷ encode_bytes rest

-- `value + "=" * (-len(value) % 4)`
unfoldable pub pad : Text → Text
pad value = value ++ replicate ((4 - length value % 4) % 4) b'='

-- The last group, with one or two pads; and a full group before what follows.
abbrev pub last_one : Option ℕ → Option ℕ → Option (List ℕ)
last_one (some w) (some x) = some ((w * 4 + x / 16) ∷ [])
last_one _ _ = none

abbrev pub last_two : Option ℕ → Option ℕ → Option ℕ → Option (List ℕ)
last_two (some w) (some x) (some y) = some ((w * 4 + x / 16) ∷ (x % 16 * 16 + y / 4) ∷ [])
last_two _ _ _ = none

abbrev pub group : Option ℕ → Option ℕ → Option ℕ → Option ℕ → Option (List ℕ) → Option (List ℕ)
group (some w) (some x) (some y) (some z) (some rest) =
    some ((w * 4 + x / 16) ∷ (x % 16 * 16 + y / 4) ∷ (y % 4 * 64 + z) ∷ rest)
group _ _ _ _ _ = none

abbrev pub is_empty : Text → Bool
is_empty [] = true
is_empty (c ∷ s) = false

-- `base64.b64decode(…, altchars=b"-_", validate=True)`: pads stand at the very end, and nothing
-- but digits stands before them.
unfoldable pub b64decode : Text → Option (List ℕ)
b64decode [] = some []
b64decode (a ∷ b ∷ c ∷ d ∷ rest) =
    let others = b64decode rest in
    if c == b'='
    then (if d == b'=' && is_empty rest then last_one (decode_char a) (decode_char b) else none)
    else if d == b'='
    then (if is_empty rest then last_two (decode_char a) (decode_char b) (decode_char c) else none)
    else group (decode_char a) (decode_char b) (decode_char c) (decode_char d) others
b64decode _ = none

-- The length that the caller expects, and the one spelling that `encode_bytes` produces.
abbrev pub canonical : Text → ℕ → List ℕ → Outcome Error (List ℕ)
canonical value size bytes =
    if not (length bytes == size) || not (encode_bytes bytes == value)
    then err noncanonical_commitment
    else ok bytes

unfoldable pub decode_bytes : Text → ℕ → Outcome Error (List ℕ)
decode_bytes value size = elim (b64decode (pad value)) [
  | none ↦ err invalid_commitment_encoding
  | some bytes ↦ canonical value size bytes
]
