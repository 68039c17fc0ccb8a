-- ===== src/Triggers/Fair/Laws.antt =====
-- The dispatch order of witness/benchmark/triggers.py against a reference: all the heads of the
-- groups, then all the second items, and so on.
use mathlib.Core.List.{append-nil}
use witness_subnet.Base.{
  length-take_le, take-append_short, take-append_long, take_all, ℕ, zero, suc, ◌+◌, ◌-◌, ◌≤◌, ◌<◌,
  ◌≡◌, refl, ap, ◌∙◌, Bool, List, [], ◌∷◌, ◌++◌, arith, length, take, All, inl, inr, le_cases,
}
use witness_subnet.Base.Eq.{Eq}
use witness_subnet.Triggers.Fair.{round, rounds}

module _ {K A : Type 0} where
  -- The heads of the groups, and what is left of them.
  abbrev pub heads : List (K × List A) → List A
  heads [] = []
  heads ((k, []) ∷ groups) = heads groups
  heads ((k, x ∷ xs) ∷ groups) = x ∷ heads groups

  abbrev pub tails : List (K × List A) → List (K × List A)
  tails [] = []
  tails ((k, []) ∷ groups) = tails groups
  tails ((k, x ∷ []) ∷ groups) = tails groups
  tails ((k, x ∷ y ∷ xs) ∷ groups) = (k, y ∷ xs) ∷ tails groups

  -- The reference: round after round, as many as `rounds_left` allows.
  abbrev pub fair_order : ℕ → List (K × List A) → List A
  fair_order zero groups = []
  fair_order (suc rounds_left) groups = heads groups ++ fair_order rounds_left (tails groups)

  abbrev pub size : List (K × List A) → ℕ
  size [] = 0
  size ((k, xs) ∷ groups) = length xs + size groups

  -- No group is empty.
  abbrev pub IsFull : List (K × List A) → Type 0
  IsFull groups = All (λ g. 0 < length g.1) groups

  tails-IsFull : (groups : List (K × List A)) → IsFull (tails groups)
  tails-IsFull [] = tt
  tails-IsFull ((k, []) ∷ groups) = tails-IsFull groups
  tails-IsFull ((k, x ∷ []) ∷ groups) = tails-IsFull groups
  tails-IsFull ((k, x ∷ y ∷ xs) ∷ groups) = (omega arith, tails-IsFull groups)

  size-tails :
      (groups : List (K × List A)) → size (tails groups) + length (heads groups) ≡ size groups
  size-tails [] = refl
  size-tails ((k, []) ∷ groups) = omega (arith, size-tails groups)
  size-tails ((k, x ∷ []) ∷ groups) = omega (arith, size-tails groups)
  size-tails ((k, x ∷ y ∷ xs) ∷ groups) = omega (arith, size-tails groups)

module _ {K A : Type 0} ⦃e : Eq K⦄ (owner : A → K) (held : A → Bool) where
  -- A round takes as many heads as there is room for, in the order of the groups.
  pub round-heads :
      (count : ℕ) (groups : List (K × List A))
      → (round owner held count groups).0 ≡ take count (heads groups)
  unfolding round
  round-heads zero groups = refl
  round-heads (suc count) [] = refl
  round-heads (suc count) ((k, []) ∷ groups) = round-heads (suc count) groups
  round-heads (suc count) ((k, x ∷ []) ∷ groups) = ap (λ l. x ∷ l) (round-heads count groups)
  round-heads (suc count) ((k, x ∷ y ∷ xs) ∷ groups) = ap (λ l. x ∷ l) (round-heads count groups)

  round-tails :
      (count : ℕ) (groups : List (K × List A))
      → IsFull groups
      → length (heads groups) ≤ count
      → (round owner held count groups).1 ≡ tails groups
  unfolding round
  round-tails zero [] f h = refl
  round-tails zero ((k, []) ∷ groups) f h = absurd (omega arith)
  round-tails zero ((k, x ∷ xs) ∷ groups) f h = absurd (omega arith)
  round-tails (suc count) [] f h = refl
  round-tails (suc count) ((k, []) ∷ groups) f h = round-tails (suc count) groups f.1 h
  round-tails (suc count) ((k, x ∷ []) ∷ groups) f h = round-tails count groups f.1 (omega arith)
  round-tails (suc count) ((k, x ∷ y ∷ xs) ∷ groups) f h =
      ap (λ l. (k, y ∷ xs) ∷ l) (round-tails count groups f.1 (omega arith))

  rounds_zero : (fuel : ℕ) (groups : List (K × List A)) → rounds owner held fuel 0 groups ≡ []
  unfolding rounds
  rounds_zero zero groups = refl
  rounds_zero (suc fuel) groups = refl

  fair_order-nil : (n : ℕ) → fair_order {K = K} {A = A} n [] ≡ []
  fair_order-nil zero = refl
  fair_order-nil (suc n) = fair_order-nil n

  heads-IsFull :
      (g : K × List A) (groups : List (K × List A))
      → IsFull (g ∷ groups)
      → 0 < length (heads (g ∷ groups))
  heads-IsFull (k, []) groups f = absurd (omega arith)
  heads-IsFull (k, x ∷ xs) groups f = omega arith

  -- What a round adds, and what the next rounds have room for.
  rounds_step :
      (fuel count : ℕ) (g : K × List A) (groups : List (K × List A))
      → rounds owner held (suc fuel) (suc count) (g ∷ groups)
        ≡ take (suc count) (heads (g ∷ groups))
          ++ rounds owner held fuel
              (suc count - length (take (suc count) (heads (g ∷ groups))))
              (round owner held (suc count) (g ∷ groups)).1
  unfolding rounds
  rounds_step fuel count g groups = rw (round-heads (suc count) (g ∷ groups))

  pub rounds_fair :
      (fuel n count : ℕ) (groups : List (K × List A))
      → IsFull groups
      → count ≤ fuel
      → size groups ≤ n
      → rounds owner held fuel count groups ≡ take count (fair_order n groups)
  rounds_fair zero n zero groups f h k = unfold rounds in refl
  rounds_fair zero n (suc count) groups f h k = absurd (omega arith)
  rounds_fair (suc fuel) n zero groups f h k = unfold rounds in refl
  rounds_fair (suc fuel) n (suc count) [] f h k = unfold rounds in rw (fair_order-nil n)
  rounds_fair (suc fuel) zero (suc count) (g ∷ groups) f h k =
      absurd (omega (arith, heads-IsFull g groups f, size-tails (g ∷ groups)))
  rounds_fair (suc fuel) (suc n) (suc count) (g ∷ groups) f h k =
      let all_heads = heads (g ∷ groups) in
      let others = fair_order n (tails (g ∷ groups)) in
      let some_head = heads-IsFull g groups f in
      let less = size-tails (g ∷ groups) in
      rounds_step fuel count g groups ∙ elim (le_cases (suc count) (length all_heads)) [
        | inl full ↦
            let none_left : suc count - length (take (suc count) all_heads) ≡ 0 =
              omega (arith, length-take_le (suc count) all_heads full) in
            rw (
              none_left,
              rounds_zero,
              append-nil,
              take-append_short (suc count) all_heads others full,
            )
        | inr room ↦
            let rest_count : suc count - length all_heads ≤ fuel = omega arith in
            rw (
              take_all (suc count) all_heads room,
              round-tails (suc count) (g ∷ groups) f room,
              take-append_long (suc count) all_heads others room,
              rounds_fair fuel n (suc count - length all_heads) (tails (g ∷ groups))
                  (tails-IsFull (g ∷ groups)) rest_count (omega arith),
            )
      ]
