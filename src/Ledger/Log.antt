-- ===== src/Ledger/Log.antt =====
-- The relation between two states of the ledger of witness/benchmark/ledger.py in which no row of
-- the later one's tables, the archive of a reset included, has changed or gone.
use witness_subnet.Base.{ℕ, ◌≡◌, refl, ap, sym, ◌∙◌, List, [], ◌∷◌, ◌++◌, map, Bool-cases, inl, inr}
use witness_subnet.Base.Eq.{Eq, nat_eq, pair_eq}
use witness_subnet.Base.Text.{Text, text_eq}
use witness_subnet.Base.Dict.{Dict, contains, setdefault}
use witness_subnet.Base.Method.{Action, ◌>>=◌, ◌>>◌, >>=_keeps}
use witness_subnet.Errors.{Error}
use witness_subnet.Protocol.Snapshot.{Entry}
use witness_subnet.Ledger.State.{Ledger, Use}

abbrev pub Appends {ℓ} : {A : Type ℓ} → List A → List A → Type ℓ
Appends xs ys = (more : List _) × (ys ≡ xs ++ more)

pub append_nil {ℓ} : {A : Type ℓ} (xs : List A) → xs ≡ xs ++ []
append_nil [] = refl
append_nil (x ∷ xs) = ap (λ ys. x ∷ ys) (append_nil xs)

pub append_assoc {ℓ} : {A : Type ℓ} (xs ys zs : List A) → (xs ++ ys) ++ zs ≡ xs ++ (ys ++ zs)
append_assoc [] ys zs = refl
append_assoc (x ∷ xs) ys zs = ap (λ l. x ∷ l) (append_assoc xs ys zs)

pub Appends-refl {ℓ} : {A : Type ℓ} (xs : List A) → Appends xs xs
Appends-refl xs = ([], append_nil xs)

pub Appends-trans {ℓ} :
    {A : Type ℓ} (xs ys zs : List A) → Appends xs ys → Appends ys zs → Appends xs zs
Appends-trans xs ys zs (m, p) (n, q) = (m ++ n, rw (q, p) (append_assoc xs m n))

pub Appends-setdefault :
    {K V : Type 0} ⦃e : Eq K⦄ (k : K) (v : V) (front d : Dict K V)
    → Appends (front ++ d) (front ++ setdefault k v d)
unfolding setdefault
Appends-setdefault k v front d = elim (Bool-cases (contains k d)) [
  | inl h ↦ rw h (Appends-refl _)
  | inr h ↦ rw h ((k, v) ∷ [], sym (append_assoc front d _))
]

map_append {ℓ} :
    {A B : Type ℓ} (f : A → B) (xs ys : List A) → map f (xs ++ ys) ≡ map f xs ++ map f ys
map_append f [] ys = refl
map_append f (x ∷ xs) ys = ap (λ l. f x ∷ l) (map_append f xs ys)

pub Appends-values :
    {K V : Type 0} ⦃e : Eq K⦄ (k : K) (v : V) (front : List V) (d : Dict K V)
    → Appends (front ++ map (λ p. p.1) d) (front ++ map (λ p. p.1) (setdefault k v d))
unfolding setdefault
Appends-values k v front d = elim (Bool-cases (contains k d)) [
  | inl h ↦ rw h (Appends-refl _)
  | inr h ↦ rw (h, map_append (λ p. p.1) d ((k, v) ∷ [])) (v ∷ [], sym (append_assoc front _ _))
]

-- The logs: what the archive and the table hold together.
abbrev pub all_uses : Ledger → List ((Text × Text) × Use)
all_uses l = l.archived_uses ++ l.uses

abbrev pub all_pending : Ledger → List ((Text × (ℕ × Text)) × Use)
all_pending l = l.archived_pending ++ l.bootstrap_pending

abbrev pub all_submissions : Ledger → List Entry
all_submissions l = l.archived_submissions ++ map (λ p. p.1) l.submissions

pub record Grows (l m : Ledger) : Type 0 where
  pub uses : Appends (all_uses l) (all_uses m)
  pub pending : Appends (all_pending l) (all_pending m)
  pub submissions : Appends (all_submissions l) (all_submissions m)
  pub commitments : Appends l.commitments m.commitments
  pub blocks : m.blocks ≡ l.blocks

pub Grows-refl : (l : Ledger) → Grows l l
Grows-refl l = record {
  uses = Appends-refl _;
  pending = Appends-refl _;
  submissions = Appends-refl _;
  commitments = Appends-refl _;
  blocks = refl;
}

pub Grows-trans : (l m n : Ledger) → Grows l m → Grows m n → Grows l n
Grows-trans l m n g h = record {
  uses = Appends-trans _ _ _ g.uses h.uses;
  pending = Appends-trans _ _ _ g.pending h.pending;
  submissions = Appends-trans _ _ _ g.submissions h.submissions;
  commitments = Appends-trans _ _ _ g.commitments h.commitments;
  blocks = h.blocks ∙ g.blocks;
}

abbrev pub StepGrows : {A : Type 0} → Action Error Ledger A → Type 0
StepGrows m = (l : Ledger) → Grows l (m l).1

pub bind_grows :
    {A B : Type 0} (m : Action Error Ledger A) (k : A → Action Error Ledger B)
    → StepGrows m
    → ((a : A) → StepGrows (k a))
    → StepGrows (m >>= k)
bind_grows m k first next = >>=_keeps Grows m k Grows-trans first next

pub then_grows :
    {A B : Type 0} (m : Action Error Ledger A) (k : Action Error Ledger B)
    → StepGrows m
    → StepGrows k
    → StepGrows (m >> k)
then_grows m k first next = bind_grows m (λ _. k) first (λ _. next)
