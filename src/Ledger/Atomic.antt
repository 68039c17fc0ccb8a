-- ===== src/Ledger/Atomic.antt =====
-- The outcomes of `Ledger.ingest` of witness/benchmark/ledger.py.
use mathlib.Core.List.{Perm}
use witness_subnet.Base.{◌+◌, ◌≡◌, refl, ap, false, List, [], ◌∷◌, ◌++◌, Bool-cases, inl, inr, ltb}
use witness_subnet.Base.Eq.{◌==◌, nat_eq, eq_iff}
use witness_subnet.Base.Text.{Text}
use witness_subnet.Base.Dict.{contains}
use witness_subnet.Base.Outcome.{Outcome, ok, err}
use witness_subnet.Base.Sort.{sort-perm_eq}
use witness_subnet.Base.Method.{◌>>◌, transaction}
use witness_subnet.Errors.{Error}
use witness_subnet.Protocol.Snapshot.{Snapshot, Row, row_order}
use witness_subnet.Ledger.State.{Ledger, cursor}
use witness_subnet.Ledger.Turn.{Step}
use witness_subnet.Ledger.Log.{Appends, all_uses, all_pending, all_submissions, Grows}
use witness_subnet.Ledger.Ingest.{ingest, ingest_window, add_block, window_of}
use witness_subnet.Ledger.Grows.{ingest_window-Grows}

-- What a block adds to the ledger.
pub record TakenIn (s : Snapshot) (l m : Ledger) : Type 0 where
  pub next : s.block ≡ cursor l + 1
  pub reached : ltb s.epoch_index l.activation_epoch ≡ false
  pub moved : cursor m ≡ s.block
  pub block : m.blocks ≡ l.blocks ++ (s.block, (s.block_hash, s.epoch_index)) ∷ []
  pub uses : Appends (all_uses l) (all_uses m)
  pub pending : Appends (all_pending l) (all_pending m)
  pub submissions : Appends (all_submissions l) (all_submissions m)
  pub commitments : Appends l.commitments m.commitments

-- The two ends of a run.
abbrev pub Ends : Snapshot → Ledger → Outcome Error Unit × Ledger → Type 0
Ends s l (ok a, m) = TakenIn s l m
Ends s l (err e, m) = m ≡ l

module _ (s : Snapshot) (l : Ledger) (next : s.block ≡ cursor l + 1)
    (reached : ltb s.epoch_index l.activation_epoch ≡ false) where
  abbrev BodyEnds : Outcome Error Unit × Ledger → Type 0
  BodyEnds (ok a, m) = TakenIn s l m
  BodyEnds (err e, m) = Unit

  add_block-BodyEnds : (m : Ledger) → Grows l m → BodyEnds (add_block s m)
  unfolding add_block
  add_block-BodyEnds m g = elim (Bool-cases (contains s.block m.blocks)) [
    | inl h ↦ rw (h, BodyEnds) tt
    | inr h ↦
        rw (h, BodyEnds)
          (record {
            next = next;
            reached = reached;
            moved = refl;
            block = ap (λ b. b ++ (s.block, (s.block_hash, s.epoch_index)) ∷ []) g.blocks;
            uses = g.uses;
            pending = g.pending;
            submissions = g.submissions;
            commitments = g.commitments;
          })
  ]

  bind-BodyEnds :
      (r : Outcome Error Unit × Ledger)
      → Grows l r.1
      → BodyEnds (elim r.0 as (λ x. Outcome Error Unit × Ledger) [
        | ok a ↦ add_block s r.1
        | err e ↦ (err e, r.1)
      ])
  bind-BodyEnds (ok a, m) g = add_block-BodyEnds m g
  bind-BodyEnds (err e, m) g = tt

  transaction-Ends : (m : Step) → BodyEnds (m l) → Ends s l (transaction m l)
  unfolding transaction
  transaction-Ends m h = go (m l) h
    where
      go :
          (r : Outcome Error Unit × Ledger)
          → BodyEnds r
          → Ends s l (elim r.0 as (λ x. Outcome Error Unit × Ledger) [
            | ok a ↦ (ok a, r.1)
            | err e ↦ (err e, l)
          ])
      go (ok a, m) h = h
      go (err e, m) h = refl

-- Ingest takes in the next block of an epoch that has begun: it adds the block's row, moves the
-- cursor there and only appends to the uses, the pending results, the submissions (each with what
-- a reset archived) and the commitments. Or it raises, and the ledger is what it was.
pub ingest_atomic :
    (challenge_id : Text → Text → Text) (s : Snapshot) (rows : List Row) (l : Ledger)
    → Ends s l (ingest challenge_id s rows l)
unfolding ingest
ingest_atomic challenge_id s rows l = elim (Bool-cases (s.block == cursor l + 1)) [
  | inr other ↦ rw (other, Ends) refl
  | inl next ↦ elim (Bool-cases (ltb s.epoch_index l.activation_epoch)) [
    | inl early ↦ rw (next, early, Ends) refl
    | inr reached ↦
        let at : s.block ≡ cursor l + 1 = (eq_iff s.block (cursor l + 1)).0 next in
        let body = ingest_window challenge_id s (window_of s l) rows in
        rw (next, reached)
          (transaction-Ends s l at reached (body >> add_block s) (
            bind-BodyEnds s l at reached (body l)
              (ingest_window-Grows challenge_id s (window_of s l) rows l)))
  ]
]

Row-list_set : IsSet (List Row)
Row-list_set = hlevel

-- Two lists of a block's rows that are permutations of each other have the same effect and
-- outcome.
pub ingest_perm :
    (challenge_id : Text → Text → Text) (s : Snapshot) (xs ys : List Row) (l : Ledger)
    → Perm xs ys
    → ingest challenge_id s xs l ≡ ingest challenge_id s ys l
unfolding ingest ingest_window
ingest_perm challenge_id s xs ys l p = rw (sort-perm_eq row_order Row-list_set xs ys p)
