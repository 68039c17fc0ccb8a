-- ===== src/Triggers/Fair.antt =====
-- The dispatch order of `Triggers.pending` in witness/benchmark/triggers.py: the queue is grouped
-- by owner, and each round takes the head of every group.
pub mod Laws
pub mod Groups
use witness_subnet.Base.{
  ℕ, zero, suc, ◌+◌, ◌-◌, Bool, true, false, Option, none, some, List, [], ◌∷◌, ◌++◌, if◌then◌else◌,
  length,
}
use witness_subnet.Base.Eq.{Eq, ◌==◌}

module _ {K A : Type 0} ⦃e : Eq K⦄ (owner : A → K) (held : A → Bool) where
  -- `groups.setdefault(r['coldkey'], []).append(r)`
  unfoldable pub append_to : K → A → List (K × List A) → List (K × List A)
  append_to k x [] = (k, x ∷ []) ∷ []
  append_to k x ((j, xs) ∷ groups) =
      if j == k then (j, xs ++ x ∷ []) ∷ groups else (j, xs) ∷ append_to k x groups

  unfoldable pub group : List (K × List A) → List A → List (K × List A)
  group groups [] = groups
  group groups (x ∷ xs) = group (append_to (owner x) x groups) xs

  unfoldable pub head_held : List A → Bool
  head_held [] = false
  head_held (x ∷ xs) = held x

  -- `for key in list(groups): if groups[key][0]['retry_block'] > current_block: del groups[key]`
  unfoldable pub release : List (K × List A) → List (K × List A)
  release [] = []
  release ((k, xs) ∷ groups) =
      let rest = release groups in if head_held xs then rest else (k, xs) ∷ rest

  -- One round of the `for` loop with room for `count` more: what it takes, and the groups that are
  -- left (those after a `break` are never looked at again).
  unfoldable pub round : ℕ → List (K × List A) → List A × List (K × List A)
  round zero groups = ([], groups)
  round (suc count) [] = ([], [])
  round (suc count) ((k, []) ∷ groups) = round (suc count) groups
  round (suc count) ((k, x ∷ []) ∷ groups) =
      let (taken, left) = round count groups in (x ∷ taken, left)
  round (suc count) ((k, x ∷ y ∷ xs) ∷ groups) =
      let (taken, left) = round count groups in (x ∷ taken, (k, y ∷ xs) ∷ left)

  -- `while groups and len(result) < count`; each round takes at least one, so `count` rounds do.
  unfoldable pub rounds : ℕ → ℕ → List (K × List A) → List A
  rounds zero count groups = []
  rounds (suc fuel) zero groups = []
  rounds (suc fuel) (suc count) [] = []
  rounds (suc fuel) (suc count) (g ∷ groups) =
      let (taken, left) = round (suc count) (g ∷ groups) in
      taken ++ rounds fuel (suc count - length taken) left

  unfoldable pub dispatch : ℕ → List A → List A
  unfolding group append_to release head_held round rounds
  dispatch count queue = rounds count count (release (group [] queue))
