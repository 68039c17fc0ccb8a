-- ===== src/Protocol/Codec/Base64.antt =====
-- The base64url text of witness/benchmark/protocol.py.
use witness_subnet.Base.{
  ℕ, suc, ◌+◌, ◌-◌, ◌*◌, ◌/◌, ◌%◌, ◌<◌, ◌≡◌, ◌≢◌, refl, ap, ◌∙◌, not, ◌||◌, Option, none, some,
  List, [], ◌∷◌, ◌++◌, arith, length, replicate, All, Option-cases, Bool-cases, inl, inr,
}
use witness_subnet.Base.Eq.{◌==◌, nat_eq, eq_refl, eq_iff}
use witness_subnet.Base.Text.{Text, text_eq}
use witness_subnet.Base.Outcome.{ok}
use witness_subnet.Protocol.Codec.{
  encode_char, decode_char, encode_bytes, pad, b64decode, canonical, decode_bytes, group, last_one,
  last_two,
}

abbrev pub IsByte : ℕ → Type 0
IsByte n = n < 256

decode_char-encode_char : (n : ℕ) → n < 64 → decode_char (encode_char n) ≡ some n
unfolding decode_char encode_char
decode_char-encode_char n h = ground arith

encode_char-ne-pad : (n : ℕ) → n < 64 → encode_char n ≢ b'='
unfolding encode_char
encode_char-ne-pad n h = ground arith

pad-cons : (w x y z : ℕ) (s : Text) → pad (w ∷ x ∷ y ∷ z ∷ s) ≡ w ∷ x ∷ y ∷ z ∷ pad s
unfolding pad
pad-cons w x y z s =
    ap (λ k. w ∷ x ∷ y ∷ z ∷ s ++ replicate k b'=')
      (let n = length s in
        let e : (4 - suc (suc (suc (suc n))) % 4) % 4 ≡ (4 - n % 4) % 4 = omega arith in e)

module _ (p q : ℕ) {w x : ℕ} (hp : decode_char p ≡ some w) (hq : decode_char q ≡ some x) where
  b64decode-one : b64decode (p ∷ q ∷ b'=' ∷ b'=' ∷ []) ≡ some ((w * 4 + x / 16) ∷ [])
  unfolding b64decode
  b64decode-one = rw (hp, hq)

  module _ (r : ℕ) {y : ℕ} (hr : decode_char r ≡ some y) (nr : r ≢ b'=') where
    b64decode-two :
        b64decode (p ∷ q ∷ r ∷ b'=' ∷ []) ≡ some ((w * 4 + x / 16) ∷ (x % 16 * 16 + y / 4) ∷ [])
    unfolding b64decode
    b64decode-two = ground arith

    b64decode-full :
        (t : ℕ) {z : ℕ} (s : Text) {bytes : List ℕ}
        → decode_char t ≡ some z
        → t ≢ b'='
        → b64decode s ≡ some bytes
        → b64decode (p ∷ q ∷ r ∷ t ∷ s)
          ≡ some ((w * 4 + x / 16) ∷ (x % 16 * 16 + y / 4) ∷ (y % 4 * 64 + z) ∷ bytes)
    unfolding b64decode
    b64decode-full t s ht nt e = ground arith

-- Decoding undoes encoding, whatever the number of bytes.
pub b64decode-pad-encode_bytes :
    (bytes : List ℕ) → All IsByte bytes → b64decode (pad (encode_bytes bytes)) ≡ some bytes
unfolding encode_bytes
b64decode-pad-encode_bytes [] h = unfold pad b64decode in refl
b64decode-pad-encode_bytes (a ∷ []) h =
    unfold pad in
    b64decode-one _ _ (decode_char-encode_char (a / 4) (omega arith))
      (decode_char-encode_char (a % 4 * 16) (omega arith))
    ∙ ap (λ n. some (n ∷ [])) (omega arith)
b64decode-pad-encode_bytes (a ∷ b ∷ []) h =
    unfold pad in
    b64decode-two _ _ (decode_char-encode_char (a / 4) (omega arith))
      (decode_char-encode_char (a % 4 * 16 + b / 16) (omega arith)) _
      (decode_char-encode_char (b % 16 * 4) (omega arith))
      (encode_char-ne-pad (b % 16 * 4) (omega arith))
    ∙ ground arith
b64decode-pad-encode_bytes (a ∷ b ∷ c ∷ rest) h = rw pad-cons (
    b64decode-full _ _ (decode_char-encode_char (a / 4) (omega arith))
      (decode_char-encode_char (a % 4 * 16 + b / 16) (omega arith)) _
      (decode_char-encode_char (b % 16 * 4 + c / 64) (omega arith))
      (encode_char-ne-pad (b % 16 * 4 + c / 64) (omega arith)) _ (pad (encode_bytes rest))
      (decode_char-encode_char (c % 64) (omega arith)) (encode_char-ne-pad (c % 64) (omega arith))
      (b64decode-pad-encode_bytes rest h.1.1.1)
    ∙ ground arith)

-- `decode_bytes` gives back the bytes that `encode_bytes` was given, when it expects that many.
pub decode_bytes-encode_bytes :
    (bytes : List ℕ)
    → All IsByte bytes
    → decode_bytes (encode_bytes bytes) (length bytes) ≡ ok bytes
unfolding decode_bytes
decode_bytes-encode_bytes bytes h =
    ground (arith, b64decode-pad-encode_bytes bytes h, eq_refl (encode_bytes bytes))

-- What `decode_bytes` returns has the expected length, and the text is the one that encodes to
-- it.
pub decode_bytes_canonical :
    (value : Text) (size : ℕ) (bytes : List ℕ)
    → decode_bytes value size ≡ ok bytes
    → (length bytes ≡ size) × (encode_bytes bytes ≡ value)
unfolding decode_bytes
decode_bytes_canonical value size bytes h = elim (Option-cases (b64decode (pad value))) [
  | inl e ↦ ground arith
  | inr (b, e) ↦ ground (arith, eq_iff (encode_bytes b) value)
]

-- Encoded text is ASCII, and its size depends on the number of bytes alone.
abbrev IsAscii : ℕ → Type 0
IsAscii c = c < 128

encode_char-IsAscii : (n : ℕ) → n < 64 → IsAscii (encode_char n)
unfolding encode_char
encode_char-IsAscii n h = ground arith

pub encode_bytes-ascii :
    (bytes : List ℕ) → All IsByte bytes → All (λ c. c < 128) (encode_bytes bytes)
unfolding encode_bytes
encode_bytes-ascii [] h = tt
encode_bytes-ascii (a ∷ []) h = (
  encode_char-IsAscii (a / 4) (omega arith),
  (encode_char-IsAscii (a % 4 * 16) (omega arith), tt),
)
encode_bytes-ascii (a ∷ b ∷ []) h = (
  encode_char-IsAscii (a / 4) (omega arith),
  (
    encode_char-IsAscii (a % 4 * 16 + b / 16) (omega arith),
    (encode_char-IsAscii (b % 16 * 4) (omega arith), tt),
  ),
)
encode_bytes-ascii (a ∷ b ∷ c ∷ rest) h = (
  encode_char-IsAscii (a / 4) (omega arith),
  (
    encode_char-IsAscii (a % 4 * 16 + b / 16) (omega arith),
    (
      encode_char-IsAscii (b % 16 * 4 + c / 64) (omega arith),
      (encode_char-IsAscii (c % 64) (omega arith), encode_bytes-ascii rest h.1.1.1),
    ),
  ),
)

pub length-encode_bytes :
    (bytes : List ℕ) → length (encode_bytes bytes) ≡ (length bytes * 4 + 2) / 3
unfolding encode_bytes
length-encode_bytes [] = refl
length-encode_bytes (a ∷ []) = refl
length-encode_bytes (a ∷ b ∷ []) = refl
length-encode_bytes (a ∷ b ∷ c ∷ rest) = omega (arith, length-encode_bytes rest)

-- What decodes is bytes.
abbrev IsDigit : Option ℕ → Type 0
IsDigit none = Unit
IsDigit (some n) = n < 64

abbrev AreBytes : Option (List ℕ) → Type 0
AreBytes none = Unit
AreBytes (some bytes) = All IsByte bytes

decode_char-IsDigit : (c : ℕ) → IsDigit (decode_char c)
unfolding decode_char
decode_char-IsDigit c = ground arith

last_one-bytes : (w x : Option ℕ) → IsDigit w → IsDigit x → AreBytes (last_one w x)
last_one-bytes (some w) (some x) hw hx = (omega arith, tt)
last_one-bytes none _ hw hx = tt
last_one-bytes _ _ hw hx = tt

last_two-bytes : (w x y : Option ℕ) → IsDigit w → IsDigit x → IsDigit y → AreBytes (last_two w x y)
last_two-bytes (some w) (some x) (some y) hw hx hy = (omega arith, (omega arith, tt))
last_two-bytes none _ _ hw hx hy = tt
last_two-bytes _ none _ hw hx hy = tt
last_two-bytes _ _ _ hw hx hy = tt

group-bytes :
    (w x y z : Option ℕ) (rest : Option (List ℕ))
    → IsDigit w
    → IsDigit x
    → IsDigit y
    → IsDigit z
    → AreBytes rest
    → AreBytes (group w x y z rest)
group-bytes (some w) (some x) (some y) (some z) (some rest) hw hx hy hz h =
    (omega arith, (omega arith, (omega arith, h)))
group-bytes none _ _ _ _ hw hx hy hz h = tt
group-bytes _ none _ _ _ hw hx hy hz h = tt
group-bytes _ _ none _ _ hw hx hy hz h = tt
group-bytes _ _ _ none _ hw hx hy hz h = tt
group-bytes _ _ _ _ _ hw hx hy hz h = tt

b64decode-AreBytes : (s : Text) → AreBytes (b64decode s)
unfolding b64decode
b64decode-AreBytes [] = tt
b64decode-AreBytes (a ∷ []) = tt
b64decode-AreBytes (a ∷ b ∷ []) = tt
b64decode-AreBytes (a ∷ b ∷ c ∷ []) = tt
b64decode-AreBytes (a ∷ b ∷ c ∷ d ∷ rest) = ground (
  arith,
  last_one-bytes (decode_char a) (decode_char b) (decode_char-IsDigit a) (decode_char-IsDigit b),
  last_two-bytes (decode_char a) (decode_char b) (decode_char c) (decode_char-IsDigit a)
      (decode_char-IsDigit b) (decode_char-IsDigit c),
  group-bytes (decode_char a) (decode_char b) (decode_char c) (decode_char d) (b64decode rest)
      (decode_char-IsDigit a) (decode_char-IsDigit b) (decode_char-IsDigit c)
      (decode_char-IsDigit d) (b64decode-AreBytes rest),
)

canonical-bytes :
    (value : Text) (size : ℕ) (bytes result : List ℕ)
    → All IsByte bytes
    → canonical value size bytes ≡ ok result
    → All IsByte result
canonical-bytes value size bytes result h e =
    elim (Bool-cases (not (length bytes == size) || not (encode_bytes bytes == value))) [
      | inl bad ↦ absurd (ground arith)
      | inr good ↦ let same : bytes ≡ result = ground arith in rw (← same) h
    ]

pub decode_bytes-bytes :
    (value : Text) (size : ℕ) (bytes : List ℕ)
    → decode_bytes value size ≡ ok bytes
    → All IsByte bytes
unfolding decode_bytes
decode_bytes-bytes value size bytes h = elim (Option-cases (b64decode (pad value))) [
  | inl e ↦ absurd (ground arith)
  | inr (b, e) ↦
      canonical-bytes value size b bytes (rw e at (b64decode-AreBytes (pad value))) (ground arith)
]
