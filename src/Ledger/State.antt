-- ===== src/Ledger/State.antt =====
-- The tables and the state of witness/benchmark/ledger.py. A table with a primary key is a
-- dictionary; what the source stores as JSON is the value itself.
use witness_subnet.Base.{
  ℕ, ◌-◌, Bool, true, false, ◌&&◌, ◌||◌, Option, none, some, List, map, ltb, leb, if◌then◌else◌,
  keep,
}
use witness_subnet.Base.Eq.{◌==◌, nat_eq, pair_eq}
use witness_subnet.Base.Text.{Text, text_eq}
use witness_subnet.Base.Outcome.{ok, err}
use witness_subnet.Base.Dict.{Dict, lookup}
use witness_subnet.Base.Sort.{sort, nat_order, text_order, pair_order}
use witness_subnet.Protocol.Snapshot.{Row, Entry, row_order}
use witness_subnet.Protocol.Record.{Result, parse, baseline, early_stop}
use witness_subnet.Protocol.Decide.{Decision}
use witness_subnet.Ledger.Schedule.{Upgrade, policy_for_window}

pub record Opening : Type 0 where
  pub id : ℕ
  pub start_block : ℕ
  pub start_epoch : ℕ
  pub end_epoch : ℕ
  pub king : Option Entry
  pub candidates : Dict Text Entry
  pub policy_hash : Text

-- A decision with the block that closed its window.
pub record Closing : Type 0 where
  pub decision : Decision
  pub block : ℕ
  pub block_hash : Text
  pub end_epoch : ℕ

pub record Window : Type 0 where
  pub opening : Opening
  pub closing : Option Closing

-- A row of `uses` or `bootstrap_pending`: the public result and the commitment that it came in.
pub record Use : Type 0 where
  pub window : ℕ
  pub result : Result
  pub commitment : Text

pub record Ledger : Type 0 where
  -- the arguments of the constructor
  pub activation_block : ℕ
  pub activation_epoch : ℕ
  pub policy : Text
  pub policy_upgrade : Option Upgrade
  pub versioned_media : Bool
  -- the tables
  pub blocks : Dict ℕ (Text × ℕ)
  pub commitments : List Row
  pub submissions : Dict Text Entry
  pub windows : Dict ℕ Window
  pub uses : Dict (Text × Text) Use
  pub bootstrap_pending : Dict (Text × (ℕ × Text)) Use
  pub archived_submissions : List Entry
  pub archived_uses : Dict (Text × Text) Use
  pub archived_pending : Dict (Text × (ℕ × Text)) Use
  -- the table `state`
  pub last_block : Option ℕ
  pub active : Option Opening
  pub king : Option Entry
  pub decision : Option Closing
  pub bootstrap_retired : List Text
  pub bootstrap_after : Option Text
  pub hotkey_reset : Option (ℕ × ℕ)

-- `cursor`
abbrev pub cursor : Ledger → ℕ
cursor l = elim l.last_block [ none ↦ l.activation_block - 1 | some block ↦ block ]

abbrev pub policy_at : Ledger → ℕ → Text
policy_at l window = policy_for_window l.versioned_media l.policy_upgrade l.policy window

abbrev pub entry_le : Entry → Entry → Bool
entry_le a b = (pair_order nat_order text_order).le (a.block, a.hotkey) (b.block, b.hotkey)

-- `submissions()`
unfoldable pub submissions : Ledger → List Entry
submissions l = sort entry_le (map (λ p. p.1) l.submissions)

-- `history(start, end)`
unfoldable pub history : ℕ → ℕ → Ledger → List Row
history start end l =
    sort row_order.le (keep (λ r. leb start r.block && ltb r.block end) l.commitments)

-- `usage(evaluator).get(hotkey)`
abbrev pub usage : Text → Text → Ledger → Option Use
usage evaluator hotkey l = lookup (evaluator, hotkey) l.uses

abbrev pub in_window : Opening → Option Use → Bool
in_window active none = false
in_window active (some use_row) = use_row.window == active.id

abbrev pub is_none {ℓ} : {A : Type ℓ} → Option A → Bool
is_none none = true
is_none (some a) = false

abbrev pub used_by : Row → Option Use → Bool
used_by row none = false
used_by row (some use_row) = use_row.commitment == row.value

-- The test of `_voting_history` on one row.
unfoldable pub votes : Opening → Ledger → Row → Bool
votes active l row = elim (parse row.value) [
  | err e ↦ false
  | ok result ↦
      if baseline result.flags then true else elim (lookup result.model_id active.candidates) [
        | none ↦ false
        | some candidate ↦
            let found = usage row.hotkey candidate.hotkey l in
            if early_stop result.flags && (is_none found || in_window active found)
            then true
            else in_window active found && used_by row found
      ]
]

-- `_voting_history`
unfoldable pub voting_history : Opening → ℕ → Ledger → List Row
voting_history active end l = keep (votes active l) (history active.start_block end l)

-- `is_closed`
unfoldable pub is_closed : ℕ → Ledger → Bool
is_closed window l = elim (lookup window l.windows) [
  | none ↦ false
  | some w ↦ elim w.closing [ none ↦ false | some c ↦ true ]
]
