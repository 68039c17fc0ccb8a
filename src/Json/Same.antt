-- ===== src/Json/Same.antt =====
-- Python's equality of JSON values, and the text that is written of them.
use witness_subnet.Base.{
  ◌≡◌, ◌≢◌, ◌↔◌, refl, ap, sym, ◌∙◌, true, ◌||◌, arith, Bool-cases, inl, inr, [],
}
use witness_subnet.Base.Text.{Text, text_leb, text_leb_total, text_leb_trans, text_leb_antisymm}
use witness_subnet.Json.{
  Json, Items, Fields, insert_field, normal, normal_items, normal_fields, dumps, emit,
}
use witness_subnet.Json.Injective.{emit-injective}

-- `==`: the fields of an object may stand in any order, if their keys differ.
mutual
  pub data Same : Json → Json → Type 0 where
    equal : {v : Json} → Same v v
    arrays : {xs ys : Items} → SameItems xs ys → Same (Json.array xs) (Json.array ys)
    objects : {fs gs : Fields} → SameFields fs gs → Same (Json.object fs) (Json.object gs)

  pub data SameItems : Items → Items → Type 0 where
    done : SameItems Items.nil Items.nil
    next :
        {v w : Json} {xs ys : Items}
        → Same v w
        → SameItems xs ys
        → SameItems (Items.cons v xs) (Items.cons w ys)

  pub data SameFields : Fields → Fields → Type 0 where
    empty : SameFields Fields.end Fields.end
    keep :
        {k : Text} {v w : Json} {fs gs : Fields}
        → Same v w
        → SameFields fs gs
        → SameFields (Fields.field k v fs) (Fields.field k w gs)
    swap :
        {k j : Text} {v w : Json} {fs : Fields}
        → k ≢ j
        → SameFields
            (Fields.field k v (Fields.field j w fs))
            (Fields.field j w (Fields.field k v fs))
    chain : {fs gs hs : Fields} → SameFields fs gs → SameFields gs hs → SameFields fs hs

total_bool : (k j : Text) → text_leb k j || text_leb j k ≡ true
total_bool k j = elim (text_leb_total k j) [ inl e ↦ ground (arith, e) | inr e ↦ ground (arith, e) ]

leb_refl : (k : Text) → text_leb k k ≡ true
leb_refl k = ground (arith, total_bool k k)

insert_comm :
    (k j : Text) (v w : Json) (fs : Fields)
    → k ≢ j
    → insert_field k v (insert_field j w fs) ≡ insert_field j w (insert_field k v fs)
unfolding insert_field
insert_comm k j v w Fields.end ne = ground (arith, total_bool k j, text_leb_antisymm k j)
insert_comm k j v w (Fields.field i u fs) ne = ground (
  arith,
  total_bool k j,
  text_leb_antisymm k j,
  total_bool k i,
  total_bool j i,
  text_leb_trans k j i,
  text_leb_trans j k i,
  text_leb_trans k i j,
  text_leb_trans j i k,
  insert_comm k j v w fs ne,
)

mutual
  unfolding normal

  Same-normal : {v w : Json} → Same v w → normal v ≡ normal w
  Same-normal Same.equal = refl
  Same-normal (Same.arrays s) = ap Json.array (SameItems-normal s)
  Same-normal (Same.objects s) = ap Json.object (SameFields-normal s)

  SameItems-normal : {xs ys : Items} → SameItems xs ys → normal_items xs ≡ normal_items ys
  SameItems-normal SameItems.done = refl
  SameItems-normal (SameItems.next s more) =
      let x = Same-normal s in let xs = SameItems-normal more in λ i. Items.cons (x i) (xs i)

  SameFields-normal : {fs gs : Fields} → SameFields fs gs → normal_fields fs ≡ normal_fields gs
  SameFields-normal SameFields.empty = refl
  SameFields-normal (SameFields.keep {k} s more) =
      let x = Same-normal s in let fs = SameFields-normal more in λ i. insert_field k (x i) (fs i)
  SameFields-normal (SameFields.swap {k} {j} {v} {w} {fs} ne) =
      insert_comm k j (normal v) (normal w) (normal_fields fs) ne
  SameFields-normal (SameFields.chain s t) = SameFields-normal s ∙ SameFields-normal t

fields_equal : (fs : Fields) → SameFields fs fs
fields_equal Fields.end = SameFields.empty
fields_equal (Fields.field k v fs) = SameFields.keep Same.equal (fields_equal fs)

insert_field-SameFields :
    (k : Text) (v : Json) (fs : Fields) → SameFields (Fields.field k v fs) (insert_field k v fs)
unfolding insert_field
insert_field-SameFields k v Fields.end = fields_equal _
insert_field-SameFields k v (Fields.field j w fs) = elim (Bool-cases (text_leb k j)) [
  | inl low ↦ rw low (fields_equal _)
  | inr high ↦ rw high (
      SameFields.chain (SameFields.swap (λ e. absurd (ground (arith, e, leb_refl k))))
        (SameFields.keep Same.equal (insert_field-SameFields k v fs)))
]

mutual
  unfolding normal

  normal-Same : (v : Json) → Same v (normal v)
  normal-Same Json.null = Same.equal
  normal-Same (Json.bool b) = Same.equal
  normal-Same (Json.int n) = Same.equal
  normal-Same (Json.below n) = Same.equal
  normal-Same (Json.string s) = Same.equal
  normal-Same (Json.array xs) = Same.arrays (normal-SameItems xs)
  normal-Same (Json.object fs) = Same.objects (normal-SameFields fs)

  normal-SameItems : (xs : Items) → SameItems xs (normal_items xs)
  normal-SameItems Items.nil = SameItems.done
  normal-SameItems (Items.cons x xs) = SameItems.next (normal-Same x) (normal-SameItems xs)

  normal-SameFields : (fs : Fields) → SameFields fs (normal_fields fs)
  normal-SameFields Fields.end = SameFields.empty
  normal-SameFields (Fields.field k v fs) =
      SameFields.chain (SameFields.keep (normal-Same v) (normal-SameFields fs))
        (insert_field-SameFields k (normal v) (normal_fields fs))

mutual
  Same-sym : {v w : Json} → Same v w → Same w v
  Same-sym Same.equal = Same.equal
  Same-sym (Same.arrays s) = Same.arrays (SameItems-sym s)
  Same-sym (Same.objects s) = Same.objects (SameFields-sym s)

  SameItems-sym : {xs ys : Items} → SameItems xs ys → SameItems ys xs
  SameItems-sym SameItems.done = SameItems.done
  SameItems-sym (SameItems.next s more) = SameItems.next (Same-sym s) (SameItems-sym more)

  SameFields-sym : {fs gs : Fields} → SameFields fs gs → SameFields gs fs
  SameFields-sym SameFields.empty = SameFields.empty
  SameFields-sym (SameFields.keep s more) = SameFields.keep (Same-sym s) (SameFields-sym more)
  SameFields-sym (SameFields.swap ne) = SameFields.swap (λ e. ne (sym e))
  SameFields-sym (SameFields.chain s t) = SameFields.chain (SameFields-sym t) (SameFields-sym s)

mutual
  Same-trans : {u v w : Json} → Same u v → Same v w → Same u w
  Same-trans Same.equal t = t
  Same-trans (Same.arrays s) Same.equal = Same.arrays s
  Same-trans (Same.arrays s) (Same.arrays t) = Same.arrays (SameItems-trans s t)
  Same-trans (Same.objects s) Same.equal = Same.objects s
  Same-trans (Same.objects s) (Same.objects t) = Same.objects (SameFields.chain s t)

  SameItems-trans : {xs ys zs : Items} → SameItems xs ys → SameItems ys zs → SameItems xs zs
  SameItems-trans SameItems.done SameItems.done = SameItems.done
  SameItems-trans (SameItems.next s more) (SameItems.next t others) =
      SameItems.next (Same-trans s t) (SameItems-trans more others)

pub dumps-Same : (v w : Json) → (dumps v ≡ dumps w) ↔ Same v w
unfolding dumps
dumps-Same v w = (
  λ h.
      let n : normal v ≡ normal w = emit-injective (normal v) (normal w) h in
      Same-trans (normal-Same v) (rw (← sym n) (Same-sym (normal-Same w))),
  λ s. ap (λ x. emit x []) (Same-normal s),
)
