-- ===== src/Protocol/Weights/Sums.antt =====
-- Who gets the weight by `weight_vector` of witness/benchmark/protocol.py.
use witness_subnet.Base.{
  ℕ, ◌+◌, ◌≤◌, ◌≡◌, refl, ◌⊎◌, inl, inr, Option, none, some, List, [], ◌∷◌, map, arith, Bool-cases,
  ◌∙◌,
}
use witness_subnet.Base.Eq.{◌==◌, nat_eq}
use witness_subnet.Base.Text.{text_eq}
use witness_subnet.Base.Dict.{Dict, lookup, insert}
use witness_subnet.Base.Sort.{sort, insert_sorted}
use witness_subnet.Protocol.Snapshot.{Snapshot, Entry}
use witness_subnet.Protocol.Weights.{whole, allocate, pair_leb, uid_of, weight_vector}

abbrev pub sum : List ℕ → ℕ
sum [] = 0
sum (x ∷ xs) = x + sum xs

abbrev total : Dict ℕ ℕ → ℕ
total d = sum (map (λ p. p.1) d)

total-insert_sorted :
    (p : ℕ × ℕ) (d : Dict ℕ ℕ) → total (insert_sorted pair_leb p d) ≡ p.1 + total d
unfolding insert_sorted
total-insert_sorted p [] = refl
total-insert_sorted p (q ∷ d) = elim (Bool-cases (pair_leb p q)) [
  | inl e ↦ rw e
  | inr e ↦ rw e (omega (arith, total-insert_sorted p d))
]

total-sort : (d : Dict ℕ ℕ) → total (sort pair_leb d) ≡ total d
unfolding sort
total-sort [] = refl
total-sort (p ∷ d) = total-insert_sorted p (sort pair_leb d) ∙ omega (arith, total-sort d)

allocate-whole :
    (uid burn : Option ℕ) (f : ℕ)
    → f ≤ whole
    → (allocate uid burn f ≡ []) ⊎ (total (allocate uid burn f) ≡ whole)
unfolding allocate insert lookup
allocate-whole none none f h = inl refl
allocate-whole none (some b) f h = inr refl
allocate-whole (some u) none f h = elim (Bool-cases (f == 0)) [
  | inl e ↦ inr (rw e (ground arith))
  | inr e ↦ inl (rw e)
]
allocate-whole (some u) (some b) f h = inr (ground arith)

-- With a burn fraction of at most one, the weights add up to one, unless there are none.
pub weights_whole :
    (king : Option Entry) (s : Snapshot) (f : ℕ)
    → f ≤ whole
    → let v = weight_vector king s f in (v.weights ≡ []) ⊎ (sum v.weights ≡ whole)
unfolding weight_vector
weights_whole king s f h = elim (allocate-whole (uid_of king s) s.burn_uid f h) [
  | inl e ↦ inl (unfold sort in rw e)
  | inr e ↦ inr (total-sort (allocate (uid_of king s) s.burn_uid f) ∙ e)
]
