-- ===== src/Protocol/Codec/Hex.antt =====
-- `bytes.hex()` and `bytes.fromhex()` on lower-case digits, as witness/benchmark/protocol.py and
-- submission.py use them on validated digests.
use witness_subnet.Base.{
  ℕ, ◌+◌, ◌-◌, ◌*◌, ◌/◌, ◌%◌, ◌<◌, ◌≡◌, refl, ap, ◌∙◌, Bool, true, ◌&&◌, ◌||◌, List, [], ◌∷◌, arith,
  ltb, leb, if◌then◌else◌, length, All, all,
}
use witness_subnet.Base.Text.{Text}

unfoldable pub hex_digit : ℕ → ℕ
hex_digit n = if ltb n 10 then n + b'0' else n + 87

-- `c in "0123456789abcdef"`
abbrev pub is_hex : ℕ → Bool
is_hex c = (leb b'0' c && leb c b'9') || (leb b'a' c && leb c b'f')

unfoldable pub hex_value : ℕ → ℕ
hex_value c = if leb c b'9' then c - b'0' else c - 87

unfoldable pub to_hex : List ℕ → Text
to_hex [] = []
to_hex (b ∷ bytes) = hex_digit (b / 16) ∷ hex_digit (b % 16) ∷ to_hex bytes

unfoldable pub from_hex : Text → List ℕ
from_hex (c ∷ d ∷ s) = (hex_value c * 16 + hex_value d) ∷ from_hex s
from_hex _ = []

pub from_hex-to_hex : (bytes : List ℕ) → All (λ b. b < 256) bytes → from_hex (to_hex bytes) ≡ bytes
unfolding from_hex to_hex hex_value hex_digit
from_hex-to_hex [] h = refl
from_hex-to_hex (b ∷ bytes) h = ground (arith, from_hex-to_hex bytes h.1)

hex_value-lt : (c : ℕ) → is_hex c ≡ true → hex_value c < 16
unfolding hex_value
hex_value-lt c h = ground arith

hex_digit-hex_value : (c : ℕ) → is_hex c ≡ true → hex_digit (hex_value c) ≡ c
unfolding hex_value hex_digit
hex_digit-hex_value c h = ground arith

two_digits :
    (c d x y : ℕ)
    → x < 16
    → y < 16
    → hex_digit x ≡ c
    → hex_digit y ≡ d
    → (hex_digit ((x * 16 + y) / 16) ≡ c) × (hex_digit ((x * 16 + y) % 16) ≡ d)
two_digits c d x y hx hy ec ed =
    let high : (x * 16 + y) / 16 ≡ x = omega arith in
    let low : (x * 16 + y) % 16 ≡ y = omega arith in (ap hex_digit high ∙ ec, ap hex_digit low ∙ ed)

digits_back :
    (c d : ℕ)
    → is_hex c ≡ true
    → is_hex d ≡ true
    → (hex_digit ((hex_value c * 16 + hex_value d) / 16) ≡ c)
      × (hex_digit ((hex_value c * 16 + hex_value d) % 16) ≡ d)
digits_back c d hc hd =
    two_digits c d (hex_value c) (hex_value d) (hex_value-lt c hc) (hex_value-lt d hd)
      (hex_digit-hex_value c hc) (hex_digit-hex_value d hd)

both : (a b : Bool) → a && b ≡ true → (a ≡ true) × (b ≡ true)
both a b h = ground arith

unfold_cons :
    (c d : ℕ) (s : Text)
    → to_hex (from_hex (c ∷ d ∷ s))
      ≡ hex_digit ((hex_value c * 16 + hex_value d) / 16)
        ∷ hex_digit ((hex_value c * 16 + hex_value d) % 16)
        ∷ to_hex (from_hex s)
unfold_cons c d s = unfold from_hex to_hex in refl

pub to_hex-from_hex :
    (n : ℕ) (s : Text) → length s ≡ n + n → all is_hex s ≡ true → to_hex (from_hex s) ≡ s
to_hex-from_hex n [] l h = unfold from_hex to_hex in refl
to_hex-from_hex n (c ∷ []) l h = absurd (omega arith)
to_hex-from_hex n (c ∷ d ∷ s) l h =
    let (hc, rest) = both (is_hex c) (all is_hex (d ∷ s)) h in
    let (hd, hs) = both (is_hex d) (all is_hex s) rest in
    let (ec, ed) = digits_back c d hc hd in
    unfold_cons c d s ∙ cc (ec, ed, to_hex-from_hex (n - 1) s (omega arith) hs)

pub length-from_hex : (n : ℕ) (s : Text) → length s ≡ n + n → length (from_hex s) ≡ n
unfolding from_hex
length-from_hex n [] l = omega arith
length-from_hex n (c ∷ []) l = absurd (omega arith)
length-from_hex n (c ∷ d ∷ s) l = omega (arith, length-from_hex (n - 1) s (omega arith))

pub length-to_hex : (bytes : List ℕ) → length (to_hex bytes) ≡ length bytes + length bytes
unfolding to_hex
length-to_hex [] = omega arith
length-to_hex (b ∷ bytes) = omega (arith, length-to_hex bytes)

pub from_hex-bytes : (s : Text) → all is_hex s ≡ true → All (λ b. b < 256) (from_hex s)
unfolding from_hex hex_value
from_hex-bytes [] h = tt
from_hex-bytes (c ∷ []) h = tt
from_hex-bytes (c ∷ d ∷ s) h = (ground arith, from_hex-bytes s (ground arith))

pub to_hex-is_hex : (bytes : List ℕ) → All (λ b. b < 256) bytes → all is_hex (to_hex bytes) ≡ true
unfolding to_hex hex_digit
to_hex-is_hex [] h = refl
to_hex-is_hex (b ∷ bytes) h = ground (arith, to_hex-is_hex bytes h.1)
