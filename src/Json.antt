-- ===== src/Json.antt =====
-- JSON values and the text that `json.dumps` makes of them with `sort_keys`, the shortest separators
-- and `ensure_ascii=False`, as witness/events.py calls it. Floats are not modelled. A value that is
-- written stands before the text that follows it.
pub mod Escape
pub mod Digits
pub mod Injective
pub mod Same
use witness_subnet.Base.{
  ℕ, zero, suc, ◌+◌, ◌-◌, ◌*◌, ◌/◌, ◌%◌, Bool, true, false, List, [], ◌∷◌, ltb, if◌then◌else◌,
}
use witness_subnet.Base.Eq.{◌==◌, nat_eq}
use witness_subnet.Base.Text.{Text, text, text_leb}
use witness_subnet.Protocol.Codec.Hex.{hex_digit}

mutual
  -- `below n` is the integer -(n + 1).
  pub data Json : Type 0 where
    null : Json
    bool : Bool → Json
    int : ℕ → Json
    below : ℕ → Json
    string : Text → Json
    array : Items → Json
    object : Fields → Json

  pub data Items : Type 0 where
    nil : Items
    cons : Json → Items → Items

  pub data Fields : Type 0 where
    end : Fields
    field : Text → Json → Fields → Fields

-- One character of a string, between the quotes.
unfoldable pub escape : ℕ → Text → Text
escape c rest =
    if c == 34
    then 92 ∷ 34 ∷ rest
    else if c == 92
    then 92 ∷ 92 ∷ rest
    else if c == 8
    then 92 ∷ 98 ∷ rest
    else if c == 12
    then 92 ∷ 102 ∷ rest
    else if c == 10
    then 92 ∷ 110 ∷ rest
    else if c == 13
    then 92 ∷ 114 ∷ rest
    else if c == 9
    then 92 ∷ 116 ∷ rest
    else if ltb c 32
    then 92 ∷ 117 ∷ 48 ∷ 48 ∷ hex_digit (c / 16) ∷ hex_digit (c % 16) ∷ rest
    else c ∷ rest

unfoldable pub emit_chars : Text → Text → Text
unfolding escape
emit_chars [] rest = 34 ∷ rest
emit_chars (c ∷ s) rest = escape c (emit_chars s rest)

-- Decimal digits; a number has fewer of them than it has units, and one more is enough for 0.
unfoldable pub emit_digits : ℕ → ℕ → Text → Text
emit_digits zero n rest = rest
emit_digits (suc fuel) n rest = elim (ltb n 10) [
  | true ↦ (48 + n) ∷ rest
  | false ↦ emit_digits fuel (n / 10) ((48 + n % 10) ∷ rest)
]

abbrev pub emit_nat : ℕ → Text → Text
emit_nat n rest = emit_digits (n + 1) n rest

unfoldable mutual
  pub emit : Json → Text → Text
  emit null rest = 110 ∷ 117 ∷ 108 ∷ 108 ∷ rest
  emit (bool true) rest = 116 ∷ 114 ∷ 117 ∷ 101 ∷ rest
  emit (bool false) rest = 102 ∷ 97 ∷ 108 ∷ 115 ∷ 101 ∷ rest
  emit (int n) rest = emit_nat n rest
  emit (below n) rest = 45 ∷ emit_nat (n + 1) rest
  emit (string s) rest = 34 ∷ emit_chars s rest
  emit (array xs) rest = 91 ∷ emit_items xs rest
  emit (object fs) rest = 123 ∷ emit_fields fs rest

  pub emit_items : Items → Text → Text
  emit_items nil rest = 93 ∷ rest
  emit_items (cons x xs) rest = emit x (emit_more xs rest)

  pub emit_more : Items → Text → Text
  emit_more nil rest = 93 ∷ rest
  emit_more (cons x xs) rest = 44 ∷ emit x (emit_more xs rest)

  pub emit_fields : Fields → Text → Text
  emit_fields end rest = 125 ∷ rest
  emit_fields (field k v fs) rest = 34 ∷ emit_chars k (58 ∷ emit v (emit_others fs rest))

  pub emit_others : Fields → Text → Text
  emit_others end rest = 125 ∷ rest
  emit_others (field k v fs) rest = 44 ∷ 34 ∷ emit_chars k (58 ∷ emit v (emit_others fs rest))

-- `sort_keys=True`
unfoldable pub insert_field : Text → Json → Fields → Fields
insert_field k v end = field k v end
insert_field k v (field j w fs) =
    if text_leb k j then field k v (field j w fs) else field j w (insert_field k v fs)

unfoldable mutual
  pub normal : Json → Json
  normal null = null
  normal (bool b) = bool b
  normal (int n) = int n
  normal (below n) = below n
  normal (string s) = string s
  normal (array xs) = array (normal_items xs)
  normal (object fs) = object (normal_fields fs)

  pub normal_items : Items → Items
  normal_items nil = nil
  normal_items (cons x xs) = cons (normal x) (normal_items xs)

  pub normal_fields : Fields → Fields
  normal_fields end = end
  normal_fields (field k v fs) = insert_field k (normal v) (normal_fields fs)

unfoldable pub dumps : Json → Text
dumps v = emit (normal v) []
