-- ===== src/Json/Digits.antt =====
-- The digits of a JSON number, read back.
use witness_subnet.Base.{
  ℕ, zero, suc, ◌+◌, ◌-◌, ◌*◌, ◌/◌, ◌%◌, ◌<◌, ◌≡◌, refl, ap, sym, ◌∙◌, Bool, true, false, ◌&&◌, [],
  ◌∷◌, ltb, leb, if◌then◌else◌, arith, Bool-cases, inl, inr,
}
use witness_subnet.Base.Text.{Text}
use witness_subnet.Json.{emit_digits, emit_nat}

abbrev pub is_digit : ℕ → Bool
is_digit c = leb 48 c && leb c 57

-- What may follow a number: nothing, or no digit.
abbrev pub IsEnd : Text → Type 0
IsEnd [] = Unit
IsEnd (c ∷ s) = is_digit c ≡ false

unfoldable pub read : ℕ → Text → ℕ × Text
read n [] = (n, [])
read n (c ∷ s) = let more = read (n * 10 + (c - 48)) s in if is_digit c then more else (n, c ∷ s)

read-IsEnd : (n : ℕ) (s : Text) → IsEnd s → read n s ≡ (n, s)
unfolding read
read-IsEnd n [] h = refl
read-IsEnd n (c ∷ s) h = rw h

read-digit : (n d : ℕ) (s : Text) → d < 10 → read n ((48 + d) ∷ s) ≡ read (n * 10 + d) s
unfolding read
read-digit n d s h =
    let digit : is_digit (48 + d) ≡ true = ground arith in
    let same : 48 + d - 48 ≡ d = omega arith in rw (digit, same)

read-emit_digits : (fuel n : ℕ) (s : Text) → n < fuel → read 0 (emit_digits fuel n s) ≡ read n s
unfolding emit_digits
read-emit_digits zero n s h = absurd (omega arith)
read-emit_digits (suc fuel) n s h = elim (Bool-cases (ltb n 10)) [
  | inl small ↦
      rw (small, emit_digits) (read-digit 0 n s (ground arith) ∙ ap (λ k. read k s) (omega arith))
  | inr large ↦
      rw (large, emit_digits)
        (read-emit_digits fuel (n / 10) ((48 + n % 10) ∷ s) (ground arith)
          ∙ read-digit (n / 10) (n % 10) s (omega arith)
          ∙ ap (λ k. read k s) (omega arith))
]

pub emit_nat-injective :
    (n m : ℕ) (s t : Text) → IsEnd s → IsEnd t → emit_nat n s ≡ emit_nat m t → (n ≡ m) × (s ≡ t)
emit_nat-injective n m s t hs ht h =
    let left = read-emit_digits (n + 1) n s (omega arith) ∙ read-IsEnd n s hs in
    let right = read-emit_digits (m + 1) m t (omega arith) ∙ read-IsEnd m t ht in
    let both : (n, s) ≡ (m, t) = sym left ∙ ap (read 0) h ∙ right in
    (ap (λ p. p.0) both, ap (λ p. p.1) both)

abbrev pub first : Text → ℕ
first [] = 0
first (c ∷ s) = c

-- A number begins with a digit.
pub emit_digits-digit :
    (fuel n : ℕ) (s : Text) → n < fuel → is_digit (first (emit_digits fuel n s)) ≡ true
unfolding emit_digits
emit_digits-digit zero n s h = absurd (omega arith)
emit_digits-digit (suc fuel) n s h = elim (Bool-cases (ltb n 10)) [
  | inl small ↦ rw (small, emit_digits) (ground arith)
  | inr large ↦
      rw (large, emit_digits) (emit_digits-digit fuel (n / 10) ((48 + n % 10) ∷ s) (ground arith))
]
