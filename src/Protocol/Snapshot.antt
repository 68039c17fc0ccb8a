-- ===== src/Protocol/Snapshot.antt =====
-- What witness/benchmark/protocol.py and ledger.py read of the finalized chain: the snapshot of a
-- block, a commitment, and an admitted submission. Uids and blocks are numbers; hotkeys, coldkeys
-- and digests are texts; stakes are whole rao (chain.py), so `Fraction(str(stake))` is exact.
use witness_subnet.Base.{ℕ, ◌≡◌, Option}
use witness_subnet.Base.Eq.{nat_eq}
use witness_subnet.Base.Text.{Text, text_eq}
use witness_subnet.Base.Dict.{Dict}
use witness_subnet.Base.Sort.{Order, nat_order, text_order, pair_order, key_order}

pub record Snapshot : Type 0 where
  pub block : ℕ
  pub block_hash : Text
  pub epoch_index : ℕ
  pub burn_uid : Option ℕ
  pub uids : Dict Text ℕ
  pub coldkeys : Dict Text Text
  pub validators : Dict Text ℕ

-- A commitment row.
pub record Row : Type 0 where
  pub block : ℕ
  pub hotkey : Text
  pub value : Text

-- A submission with its owner, as the ledger stores it and a decision carries it.
pub record Entry : Type 0 where
  pub block : ℕ
  pub hotkey : Text
  pub value : Text
  pub coldkey : Text
  pub uid : ℕ
  pub model_id : Text

abbrev pub row_key : Row → ℕ × (Text × Text)
row_key r = (r.block, (r.hotkey, r.value))

pub row_key_injective : (a b : Row) → row_key a ≡ row_key b → a ≡ b
row_key_injective a b h = λ i. record { block = (h i).0; hotkey = (h i).1.0; value = (h i).1.1 }

-- `key=lambda r: (r["block"], r["hotkey"], r["value"])`
abbrev pub row_order : Order Row
row_order =
    key_order (pair_order nat_order (pair_order text_order text_order)) row_key row_key_injective
