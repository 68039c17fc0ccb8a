-- ===== src/Base/Sort.antt =====
-- Python's stable `sorted`, over a total order on what is sorted.
use mathlib.Core.Path.{◌≡◌, refl, ◌∙◌}
use mathlib.Core.Logic.{◌⊎◌, inl, inr, ∥∥₁_elim}
use mathlib.Core.Bool.{Bool, true, false}
use mathlib.Core.List.{List, [], ◌∷◌, Perm, Permᴰ}
use Prim.Native.Nat.{ℕ}
use native.Mathlib.Omega.{arith}
use witness_subnet.Base.Tests.{if◌then◌else◌, leb, Bool-cases}
use witness_subnet.Base.Lists.{All}
use witness_subnet.Base.Text.{Text, text_leb, text_leb_total, text_leb_trans, text_leb_antisymm}

Permᴰ-refl {ℓ} : {A : Type ℓ} (xs : List A) → Permᴰ xs xs
Permᴰ-refl [] = Permᴰ.nil
Permᴰ-refl (x ∷ xs) = Permᴰ.cons refl (Permᴰ-refl xs)

module _ {ℓ} {A : Type ℓ} (le : A → A → Bool) where
  -- Before the first item that is not smaller, so equal items keep their order.
  unfoldable pub insert_sorted : A → List A → List A
  insert_sorted x [] = x ∷ []
  insert_sorted x (y ∷ ys) = if le x y then x ∷ y ∷ ys else y ∷ insert_sorted x ys

  unfoldable pub sort : List A → List A
  unfolding insert_sorted
  sort [] = []
  sort (x ∷ xs) = insert_sorted x (sort xs)

  pub insert_sorted-perm : (x : A) (xs : List A) → Permᴰ (insert_sorted x xs) (x ∷ xs)
  unfolding insert_sorted
  insert_sorted-perm x [] = Permᴰ-refl _
  insert_sorted-perm x (y ∷ ys) = elim (Bool-cases (le x y)) [
    | inl e ↦ rw e (Permᴰ-refl _)
    | inr e ↦ rw e (Permᴰ.trans (Permᴰ.cons refl (insert_sorted-perm x ys)) (Permᴰ.swap refl refl))
  ]

  pub sort-perm : (xs : List A) → Permᴰ (sort xs) xs
  unfolding sort
  sort-perm [] = Permᴰ-refl _
  sort-perm (x ∷ xs) = Permᴰ.trans (insert_sorted-perm x (sort xs)) (Permᴰ.cons refl (sort-perm xs))

  -- A property of all the items is one of all the sorted items.
  pub insert_sorted-All {κ} :
      (P : A → Type κ) (x : A) (xs : List A) → P x → All P xs → All P (insert_sorted x xs)
  unfolding insert_sorted
  insert_sorted-All P x [] p h = (p, h)
  insert_sorted-All P x (y ∷ ys) p h = elim (Bool-cases (le x y)) [
    | inl e ↦ rw e (p, h)
    | inr e ↦ rw e (h.0, insert_sorted-All P x ys p h.1)
  ]

  pub sort-All {κ} : (P : A → Type κ) (xs : List A) → All P xs → All P (sort xs)
  unfolding sort
  sort-All P [] h = tt
  sort-All P (x ∷ xs) h = insert_sorted-All P x (sort xs) h.0 (sort-All P xs h.1)

-- A total order as the interface that a sort relies on.
pub record Order {ℓ} (A : Type ℓ) : Type ℓ where
  pub le : A → A → Bool
  pub total : (a b : A) → (le a b ≡ true) ⊎ (le b a ≡ true)
  pub trans : (a b c : A) → le a b ≡ true → le b c ≡ true → le a c ≡ true
  pub antisymm : (a b : A) → le a b ≡ true → le b a ≡ true → a ≡ b

pub nat_total : (a b : ℕ) → (leb a b ≡ true) ⊎ (leb b a ≡ true)
nat_total a b = ground arith

pub nat_trans : (a b c : ℕ) → leb a b ≡ true → leb b c ≡ true → leb a c ≡ true
nat_trans a b c p q = ground arith

pub nat_antisymm : (a b : ℕ) → leb a b ≡ true → leb b a ≡ true → a ≡ b
nat_antisymm a b p q = ground arith

abbrev pub nat_order : Order ℕ
nat_order = record { le = leb; total = nat_total; trans = nat_trans; antisymm = nat_antisymm }

abbrev pub text_order : Order Text
text_order = record {
  le = text_leb;
  total = text_leb_total;
  trans = text_leb_trans;
  antisymm = text_leb_antisymm;
}

-- Tuples, compared component by component.
module _ {ℓ} {A B : Type ℓ} (o : Order A) (p : Order B) where
  abbrev pub pair_le : A × B → A × B → Bool
  pair_le (a, b) (c, d) = if o.le a c then (if o.le c a then p.le b d else true) else false

  pub pair_total : (x y : A × B) → (pair_le x y ≡ true) ⊎ (pair_le y x ≡ true)
  pair_total (a, b) (c, d) = ground (arith, o.total a c, p.total b d)

  pub pair_trans : (x y z : A × B) → pair_le x y ≡ true → pair_le y z ≡ true → pair_le x z ≡ true
  pair_trans (a, b) (c, d) (e, f) h k =
      ground (arith, o.trans a c e, o.trans c e a, o.trans e a c, p.trans b d f)

  pub pair_antisymm : (x y : A × B) → pair_le x y ≡ true → pair_le y x ≡ true → x ≡ y
  pair_antisymm (a, b) (c, d) h k = ground (arith, o.antisymm a c, p.antisymm b d)

  abbrev pub pair_order : Order (A × B)
  pair_order = record {
    le = pair_le;
    total = pair_total;
    trans = pair_trans;
    antisymm = pair_antisymm;
  }

-- By a key that tells any two items apart.
module _ {ℓ} {A B : Type ℓ} (o : Order B) (key : A → B)
    (inj : (a b : A) → key a ≡ key b → a ≡ b) where
  abbrev pub key_order : Order A
  key_order = record {
    le = λ a b. o.le (key a) (key b);
    total = λ a b. o.total (key a) (key b);
    trans = λ a b c. o.trans (key a) (key b) (key c);
    antisymm = λ a b p q. inj a b (o.antisymm (key a) (key b) p q);
  }

module _ {ℓ} {A : Type ℓ} (o : Order A) where
  insert_sorted_comm :
      (x y : A) (l : List A)
      → insert_sorted o.le x (insert_sorted o.le y l)
        ≡ insert_sorted o.le y (insert_sorted o.le x l)
  unfolding insert_sorted
  insert_sorted_comm x y [] = ground (arith, o.total x y, o.antisymm x y)
  insert_sorted_comm x y (z ∷ l) =
      ground
        (arith, o.total x y, o.antisymm x y, o.trans x y z, o.trans y x z, insert_sorted_comm x y l)

  sort-Permᴰ : {xs ys : List A} → Permᴰ xs ys → sort o.le xs ≡ sort o.le ys
  unfolding sort
  sort-Permᴰ Permᴰ.nil = refl
  sort-Permᴰ (Permᴰ.cons {a = a} e p) = rw (e, sort-Permᴰ p)
  sort-Permᴰ (Permᴰ.swap {a' = a} {b' = b} {l = l} e f) =
      rw (e, f) (insert_sorted_comm b a (sort o.le l))
  sort-Permᴰ (Permᴰ.trans p q) = sort-Permᴰ p ∙ sort-Permᴰ q

  -- What is sorted does not depend on the order in which it came.
  pub sort-perm_eq :
      (list_set : IsSet (List A)) (xs ys : List A) → Perm xs ys → sort o.le xs ≡ sort o.le ys
  sort-perm_eq list_set xs ys p = ∥∥₁_elim p (list_set (sort o.le xs) (sort o.le ys)) sort-Permᴰ
