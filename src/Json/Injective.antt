-- ===== src/Json/Injective.antt =====
-- Two JSON values that are written alike are the same.
use witness_subnet.Base.{
  ℕ, ◌+◌, ◌<◌, ◌≡◌, ◌≢◌, refl, ap, sym, ◌∙◌, true, false, [], ◌∷◌, if◌then◌else◌, arith,
}
use witness_subnet.Base.Eq.{◌==◌, nat_eq}
use witness_subnet.Base.Text.{Text}
use witness_subnet.Json.{Json, Items, Fields, emit, emit_items, emit_more, emit_fields, emit_others}
use witness_subnet.Json.Escape.{emit_chars-injective}
use witness_subnet.Json.Digits.{IsEnd, is_digit, first, emit_nat-injective, emit_digits-digit}

-- The kind of value that a first character announces, and the kind of a value.
abbrev kind : ℕ → ℕ
kind c =
    if is_digit c
    then 3
    else if c == 110
    then 0
    else if c == 116
    then 1
    else if c == 102
    then 2
    else if c == 45
    then 4
    else if c == 34
    then 5
    else if c == 91
    then 6
    else if c == 123
    then 7
    else 8

abbrev kind_of : Json → ℕ
kind_of Json.null = 0
kind_of (Json.bool true) = 1
kind_of (Json.bool false) = 2
kind_of (Json.int n) = 3
kind_of (Json.below n) = 4
kind_of (Json.string s) = 5
kind_of (Json.array xs) = 6
kind_of (Json.object fs) = 7

kind-emit : (v : Json) (s : Text) → kind (first (emit v s)) ≡ kind_of v
unfolding emit
kind-emit Json.null s = refl
kind-emit (Json.bool true) s = refl
kind-emit (Json.bool false) s = refl
kind-emit (Json.int n) s = rw (emit_digits-digit (n + 1) n s (omega arith))
kind-emit (Json.below n) s = refl
kind-emit (Json.string a) s = refl
kind-emit (Json.array xs) s = refl
kind-emit (Json.object fs) s = refl

kind_of-lt : (v : Json) → kind_of v < 8
kind_of-lt Json.null = omega arith
kind_of-lt (Json.bool true) = omega arith
kind_of-lt (Json.bool false) = omega arith
kind_of-lt (Json.int n) = omega arith
kind_of-lt (Json.below n) = omega arith
kind_of-lt (Json.string s) = omega arith
kind_of-lt (Json.array xs) = omega arith
kind_of-lt (Json.object fs) = omega arith

same_kind : (v w : Json) (s t : Text) → emit v s ≡ emit w t → kind_of v ≡ kind_of w
same_kind v w s t h = sym (kind-emit v s) ∙ ap (λ x. kind (first x)) h ∙ kind-emit w t

-- The bracket that closes a list begins no value.
not_bracket : (v : Json) (s t : Text) → emit v s ≢ 93 ∷ t
not_bracket v s t h =
    let k : kind_of v ≡ 8 = sym (kind-emit v s) ∙ ap (λ x. kind (first x)) h in
    omega (arith, k, kind_of-lt v)

abbrev rest : Text → Text
rest [] = []
rest (c ∷ s) = s

more-IsEnd : (xs : Items) (s : Text) → IsEnd (emit_more xs s)
unfolding emit_more
more-IsEnd Items.nil s = refl
more-IsEnd (Items.cons x xs) s = refl

others-IsEnd : (fs : Fields) (s : Text) → IsEnd (emit_others fs s)
unfolding emit_others
others-IsEnd Fields.end s = refl
others-IsEnd (Fields.field k v fs) s = refl

mutual
  unfolding emit

  inj : (v w : Json) (s t : Text) → IsEnd s → IsEnd t → emit v s ≡ emit w t → (v ≡ w) × (s ≡ t)
  inj Json.null Json.null s t hs ht h = (refl, ap (λ x. rest (rest (rest (rest x)))) h)
  inj (Json.bool true) (Json.bool true) s t hs ht h =
      (refl, ap (λ x. rest (rest (rest (rest x)))) h)
  inj (Json.bool false) (Json.bool false) s t hs ht h =
      (refl, ap (λ x. rest (rest (rest (rest (rest x))))) h)
  inj (Json.int n) (Json.int m) s t hs ht h =
      let (same, end) = emit_nat-injective n m s t hs ht h in (ap Json.int same, end)
  inj (Json.below n) (Json.below m) s t hs ht h =
      let (same, end) = emit_nat-injective (n + 1) (m + 1) s t hs ht (ap rest h) in
      (ap Json.below (omega (arith, same)), end)
  inj (Json.string a) (Json.string b) s t hs ht h =
      let (same, end) = emit_chars-injective a b s t (ap rest h) in (ap Json.string same, end)
  inj (Json.array xs) (Json.array ys) s t hs ht h =
      let (same, end) = inj_items xs ys s t (ap rest h) in (ap Json.array same, end)
  inj (Json.object fs) (Json.object gs) s t hs ht h =
      let (same, end) = inj_fields fs gs s t (ap rest h) in (ap Json.object same, end)
  inj v w s t hs ht h = let k = same_kind v w s t h in absurd (grind (arith, k))

  inj_items : (xs ys : Items) (s t : Text) → emit_items xs s ≡ emit_items ys t → (xs ≡ ys) × (s ≡ t)
  inj_items Items.nil Items.nil s t h = (refl, ap rest h)
  inj_items Items.nil (Items.cons y ys) s t h = absurd (not_bracket y (emit_more ys t) s (sym h))
  inj_items (Items.cons x xs) Items.nil s t h = absurd (not_bracket x (emit_more xs s) t h)
  inj_items (Items.cons x xs) (Items.cons y ys) s t h =
      let (same, more) =
        inj x y (emit_more xs s) (emit_more ys t) (more-IsEnd xs s) (more-IsEnd ys t) h in
      let (others, end) = inj_more xs ys s t more in (λ i. Items.cons (same i) (others i), end)

  inj_more : (xs ys : Items) (s t : Text) → emit_more xs s ≡ emit_more ys t → (xs ≡ ys) × (s ≡ t)
  inj_more Items.nil Items.nil s t h = (refl, ap rest h)
  inj_more Items.nil (Items.cons y ys) s t h = let k = ap first h in absurd (omega (arith, k))
  inj_more (Items.cons x xs) Items.nil s t h = let k = ap first h in absurd (omega (arith, k))
  inj_more (Items.cons x xs) (Items.cons y ys) s t h =
      let (same, more) =
        inj x y (emit_more xs s) (emit_more ys t) (more-IsEnd xs s) (more-IsEnd ys t) (ap rest h) in
      let (others, end) = inj_more xs ys s t more in (λ i. Items.cons (same i) (others i), end)

  inj_fields :
      (fs gs : Fields) (s t : Text) → emit_fields fs s ≡ emit_fields gs t → (fs ≡ gs) × (s ≡ t)
  inj_fields Fields.end Fields.end s t h = (refl, ap rest h)
  inj_fields Fields.end (Fields.field k v gs) s t h =
      let c = ap first h in absurd (omega (arith, c))
  inj_fields (Fields.field k v fs) Fields.end s t h =
      let c = ap first h in absurd (omega (arith, c))
  inj_fields (Fields.field k v fs) (Fields.field j w gs) s t h =
      let (key, after) = emit_chars-injective k j _ _ (ap rest h) in
      let (value, more) =
        inj v w (emit_others fs s) (emit_others gs t) (others-IsEnd fs s) (others-IsEnd gs t)
          (ap rest after) in
      let (others, end) = inj_others fs gs s t more in
      (λ i. Fields.field (key i) (value i) (others i), end)

  inj_others :
      (fs gs : Fields) (s t : Text) → emit_others fs s ≡ emit_others gs t → (fs ≡ gs) × (s ≡ t)
  inj_others Fields.end Fields.end s t h = (refl, ap rest h)
  inj_others Fields.end (Fields.field k v gs) s t h =
      let c = ap first h in absurd (omega (arith, c))
  inj_others (Fields.field k v fs) Fields.end s t h =
      let c = ap first h in absurd (omega (arith, c))
  inj_others (Fields.field k v fs) (Fields.field j w gs) s t h =
      let (key, after) = emit_chars-injective k j _ _ (ap (λ x. rest (rest x)) h) in
      let (value, more) =
        inj v w (emit_others fs s) (emit_others gs t) (others-IsEnd fs s) (others-IsEnd gs t)
          (ap rest after) in
      let (others, end) = inj_others fs gs s t more in
      (λ i. Fields.field (key i) (value i) (others i), end)

-- Whatever text follows each value, if it does not go on with a digit.
pub emit-injective : (v w : Json) → emit v [] ≡ emit w [] → v ≡ w
emit-injective v w h = (inj v w [] [] tt tt h).0
