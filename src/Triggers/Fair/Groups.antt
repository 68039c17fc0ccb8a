-- ===== src/Triggers/Fair/Groups.antt =====
-- The groups of `Triggers.pending` in witness/benchmark/triggers.py, and the whole dispatch.
use mathlib.Core.List.{append_assoc, append-nil}
use witness_subnet.Base.{
  ℕ, ◌+◌, ◌≤◌, ◌≡◌, refl, ◌∙◌, sym, Bool, List, [], ◌∷◌, ◌++◌, arith, if◌then◌else◌, length,
  length-append, take, keep, All, Bool-cases, inl, inr,
}
use witness_subnet.Base.Eq.{Eq, ◌==◌, eq_iff}
use witness_subnet.Triggers.Fair.{append_to, group, head_held, release, dispatch}
use witness_subnet.Triggers.Fair.Laws.{IsFull, size, fair_order, rounds_fair}

module _ {K A : Type 0} ⦃e : Eq K⦄ where
  -- `groups.get(k, [])`
  abbrev pub items_of : K → List (K × List A) → List A
  items_of k [] = []
  items_of k ((j, xs) ∷ groups) = if j == k then xs else items_of k groups

module _ {K A : Type 0} ⦃e : Eq K⦄ (owner : A → K) (held : A → Bool) where
  items_of-append_to :
      (k j : K) (x : A) (groups : List (K × List A))
      → items_of j (append_to owner held k x groups)
        ≡ (if k == j then items_of j groups ++ x ∷ [] else items_of j groups)
  unfolding append_to
  items_of-append_to k j x [] = ground arith
  items_of-append_to k j x ((i, xs) ∷ groups) =
      ground (arith, eq_iff i k, eq_iff i j, eq_iff k j, items_of-append_to k j x groups)

  -- Grouping a list appends to the group of each owner the items that are his, in their order.
  pub items_of-group :
      (k : K) (groups : List (K × List A)) (xs : List A)
      → items_of k (group owner held groups xs) ≡ items_of k groups ++ keep (λ x. owner x == k) xs
  unfolding group
  items_of-group k groups [] = sym (append-nil (items_of k groups))
  items_of-group k groups (x ∷ xs) =
      items_of-group k (append_to owner held (owner x) x groups) xs
      ∙ elim (Bool-cases (owner x == k)) [
        | inl own ↦
            rw (items_of-append_to (owner x) k x groups, own)
              (append_assoc (items_of k groups) (x ∷ []) (keep (λ x. owner x == k) xs))
        | inr other ↦ rw (items_of-append_to (owner x) k x groups, other)
      ]

  append_to-IsFull :
      (k : K) (x : A) (groups : List (K × List A))
      → IsFull groups
      → IsFull (append_to owner held k x groups)
  unfolding append_to
  append_to-IsFull k x [] f = (omega arith, tt)
  append_to-IsFull k x ((j, xs) ∷ groups) f = elim (Bool-cases (j == k)) [
    | inl own ↦ rw (own, All) (omega (arith, length-append xs (x ∷ [])), f.1)
    | inr other ↦ rw (other, All) (f.0, append_to-IsFull k x groups f.1)
  ]

  size-append_to :
      (k : K) (x : A) (groups : List (K × List A))
      → size (append_to owner held k x groups) ≡ size groups + 1
  unfolding append_to
  size-append_to k x [] = refl
  size-append_to k x ((j, xs) ∷ groups) =
      ground (arith, length-append xs (x ∷ []), size-append_to k x groups)

  group-IsFull :
      (groups : List (K × List A)) (xs : List A)
      → IsFull groups
      → IsFull (group owner held groups xs)
  unfolding group
  group-IsFull groups [] f = f
  group-IsFull groups (x ∷ xs) f =
      group-IsFull (append_to owner held (owner x) x groups) xs
        (append_to-IsFull (owner x) x groups f)

  size-group :
      (groups : List (K × List A)) (xs : List A)
      → size (group owner held groups xs) ≡ size groups + length xs
  unfolding group
  size-group groups [] = omega arith
  size-group groups (x ∷ xs) = omega (
    arith,
    size-group (append_to owner held (owner x) x groups) xs,
    size-append_to (owner x) x groups,
  )

  release-IsFull : (groups : List (K × List A)) → IsFull groups → IsFull (release owner held groups)
  unfolding release
  release-IsFull [] f = tt
  release-IsFull ((k, xs) ∷ groups) f = elim (Bool-cases (head_held owner held xs)) [
    | inl h ↦ rw (h, All) (release-IsFull groups f.1)
    | inr h ↦ rw (h, All) (f.0, release-IsFull groups f.1)
  ]

  size-release : (groups : List (K × List A)) → size (release owner held groups) ≤ size groups
  unfolding release
  size-release [] = omega arith
  size-release ((k, xs) ∷ groups) = ground (arith, size-release groups)

  -- The dispatch of at most `count` items of a queue is the front of the fair order of the
  -- owners' groups, those with a held head left out: all the owners' first items in turn, then
  -- all the second ones, and so on.
  pub dispatch_fair :
      (count : ℕ) (queue : List A)
      → dispatch owner held count queue
        ≡ take count (fair_order (length queue) (release owner held (group owner held [] queue)))
  unfolding dispatch
  dispatch_fair count queue =
      let groups = group owner held [] queue in
      rounds_fair owner held count (length queue) count (release owner held groups)
        (release-IsFull groups (group-IsFull [] queue tt)) (omega arith)
        (omega (arith, size-release groups, size-group [] queue))
