-- ===== src/Protocol/Weights.antt =====
-- `weight_vector` of witness/benchmark/protocol.py. Fractions of the weight are whole tenths here
-- (the source has 0., .7 and 1.).
pub mod Sums
use witness_subnet.Base.{
  ℕ, ◌+◌, ◌-◌, Bool, true, false, ◌&&◌, ◌||◌, not, Option, none, some, List, [], ◌∷◌, map, leb,
  if◌then◌else◌,
}
use witness_subnet.Base.Eq.{◌==◌, nat_eq}
use witness_subnet.Base.Text.{Text, text_eq}
use witness_subnet.Base.Dict.{Dict, lookup, insert}
use witness_subnet.Base.Sort.{sort}
use witness_subnet.Protocol.Snapshot.{Snapshot, Entry}

pub data Source : Type 0 where
  scores burn_unavailable burn_no_king : Source

pub record WeightVector : Type 0 where
  pub king : Option Entry
  pub uids : List ℕ
  pub weights : List ℕ
  pub burn_uid : Option ℕ
  pub king_uid : Option ℕ
  pub burn_fraction : ℕ
  pub king_fraction : ℕ
  pub source : Source

abbrev pub whole : ℕ
whole = 10

-- `burn_fraction: float = BURN_FRACTION`
abbrev pub default_burn : ℕ
default_burn = 0

abbrev pub get_or_zero : ℕ → Dict ℕ ℕ → ℕ
get_or_zero k d = elim (lookup k d) [ none ↦ 0 | some v ↦ v ]

-- `allocations` with a registered king at `uid`, and with none.
unfoldable pub king_allocations : ℕ → Option ℕ → ℕ → Dict ℕ ℕ
king_allocations uid none burn_fraction =
    if burn_fraction == 0 then (uid, whole - burn_fraction) ∷ [] else []
king_allocations uid (some burn) burn_fraction =
    let own = (uid, whole - burn_fraction) ∷ [] in
    if burn_fraction == 0 then own else insert burn (get_or_zero burn own + burn_fraction) own

unfoldable pub allocate : Option ℕ → Option ℕ → ℕ → Dict ℕ ℕ
unfolding king_allocations
allocate (some uid) burn burn_fraction = king_allocations uid burn burn_fraction
allocate none none burn_fraction = []
allocate none (some burn) burn_fraction = (burn, whole) ∷ []

abbrev pub pair_leb : ℕ × ℕ → ℕ × ℕ → Bool
pair_leb (a, v) (b, w) = if leb a b then (if leb b a then leb v w else true) else false

abbrev pub is_some {ℓ} : {A : Type ℓ} → Option A → Bool
is_some none = false
is_some (some a) = true

-- `snapshot['uids'].get(king['hotkey']) if king else None`
unfoldable pub uid_of : Option Entry → Snapshot → Option ℕ
uid_of none snapshot = none
uid_of (some king) snapshot = lookup king.hotkey snapshot.uids

-- `king if uid is not None else None`
abbrev pub registered : Option Entry → Option ℕ → Option Entry
registered king none = none
registered king (some uid) = king

-- `'scores' if allocations and king else 'burn_unavailable' if burn is None else 'burn_no_king'`
abbrev pub source_of : Dict ℕ ℕ → Option Entry → Option ℕ → Source
source_of (p ∷ rest) (some king) burn = scores
source_of _ _ none = burn_unavailable
source_of _ _ (some b) = burn_no_king

-- The vector, from the uid that was looked up and the uid to burn to.
unfoldable pub vector_of : Option Entry → Option ℕ → Option ℕ → ℕ → WeightVector
vector_of king uid burn burn_fraction =
    let king' = registered king uid in
    let allocations = allocate uid burn burn_fraction in
    let pairs = sort pair_leb allocations in
    record {
      king = king';
      uids = map (λ p. p.0) pairs;
      weights = map (λ p. p.1) pairs;
      burn_uid = burn;
      king_uid = uid;
      burn_fraction = if is_some king' then burn_fraction else whole;
      king_fraction = if is_some king' then whole - burn_fraction else 0;
      source = source_of allocations king' burn;
    }

unfoldable pub weight_vector : Option Entry → Snapshot → ℕ → WeightVector
unfolding vector_of uid_of
weight_vector king snapshot burn_fraction =
    vector_of king (uid_of king snapshot) snapshot.burn_uid burn_fraction
