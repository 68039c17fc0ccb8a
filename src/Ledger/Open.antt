-- ===== src/Ledger/Open.antt =====
-- `Ledger._reset_admissions` and `Ledger._open` of witness/benchmark/ledger.py.
use witness_subnet.Base.{
  ℕ, ◌+◌, ◌*◌, false, ◌&&◌, ◌||◌, not, Option, none, some, List, [], ◌∷◌, ◌++◌, map, ltb,
  if◌then◌else◌, length, take, drop,
}
use witness_subnet.Base.Eq.{◌==◌, nat_eq}
use witness_subnet.Base.Text.{Text, text_eq}
use witness_subnet.Base.Dict.{Dict, lookup, contains, setdefault, insert, erase}
use witness_subnet.Base.Sort.{sort}
use witness_subnet.Base.Outcome.{ok, err}
use witness_subnet.Base.Method.{Action}
use witness_subnet.Errors.{Error, integrity_error}
use witness_subnet.Protocol.Snapshot.{Snapshot, Entry}
use witness_subnet.Protocol.Weights.{is_some}
use witness_subnet.Protocol.Decide.Tallying.{mem}
use witness_subnet.Triggers.Fair.{dispatch}
use witness_subnet.Ledger.Schedule.{hotkey_reset_window}
use witness_subnet.Ledger.State.{Ledger, Opening, submissions, entry_le, policy_at}

abbrev pub window_epochs : ℕ
window_epochs = 2

-- `_reset_admissions`. The rows that leave the three tables are kept in the archive.
unfoldable pub reset_admissions : Snapshot → ℕ → Ledger → Ledger
reset_admissions snapshot window l =
    if not l.versioned_media || ltb window hotkey_reset_window || is_some l.hotkey_reset
    then l
    else record l {
      archived_submissions = l.archived_submissions ++ map (λ p. p.1) l.submissions;
      archived_uses = l.archived_uses ++ l.uses;
      archived_pending = l.archived_pending ++ l.bootstrap_pending;
      submissions = [];
      uses = [];
      bootstrap_pending = [];
      bootstrap_retired = [];
      bootstrap_after = none;
      hotkey_reset = some (hotkey_reset_window, snapshot.block);
    }

module _ (snapshot : Snapshot) where
  -- The candidates: one for each model, the first that was submitted.
  unfoldable pub admit : List Text → List Entry → Dict Text Entry → Dict Text Entry
  admit retired [] candidates = candidates
  admit retired (row ∷ rows) candidates = elim (lookup row.hotkey snapshot.uids) [
    | none ↦ admit retired rows candidates
    | some uid ↦
        if ltb row.block snapshot.block && not (mem row.hotkey retired)
        then admit retired rows (setdefault row.model_id (record row { uid = uid }) candidates)
        else admit retired rows candidates
  ]

  -- The king under his present uid, if he is registered.
  unfoldable pub current_king : Option Entry → Option Entry
  current_king none = none
  current_king (some king) = elim (lookup king.hotkey snapshot.uids) [
    | none ↦ none
    | some uid ↦ some (record king { uid = uid })
  ]

-- `next((i + 1 for i, r in enumerate(order) if r['hotkey'] == after), 0)`
unfoldable pub index_after : Option Text → List Entry → ℕ
index_after none order = 0
index_after (some after) [] = 0
index_after (some after) (r ∷ order) =
    let rest = index_after (some after) order in
    if r.hotkey == after then 1 else if rest == 0 then 0 else rest + 1

unfoldable pub rotate : ℕ → List Entry → List Entry
rotate index order = drop index order ++ take index order

abbrev pub all_values : Dict Text Entry → List Entry
all_values d = map (λ p. p.1) d

-- The fair order of the bootstrap candidates, rotated to begin after the last pair.
unfoldable pub bootstrap_order : Option Text → Dict Text Entry → List Entry
unfolding rotate
bootstrap_order after candidates =
    let queue = sort entry_le (all_values candidates) in
    let order = dispatch (λ r. r.coldkey) (λ r. false) (length queue) queue in
    rotate (index_after after order) order

-- `order[:2] if len(order) >= 2 else []`
unfoldable pub pair_of : List Entry → List Entry
pair_of [] = []
pair_of (a ∷ []) = []
pair_of (a ∷ b ∷ rest) = a ∷ b ∷ []

-- `{r['model_id']: r for r in pair}`
unfoldable pub by_model : List Entry → Dict Text Entry → Dict Text Entry
by_model [] d = d
by_model (r ∷ rows) d = by_model rows (insert r.model_id r d)

-- `pair[-1]['hotkey']`
unfoldable pub last_hotkey : List Entry → Option Text → Option Text
last_hotkey [] after = after
last_hotkey (r ∷ rows) after = last_hotkey rows (some r.hotkey)

-- The king, the candidates and the next `bootstrap_after` of a window that opens.
unfoldable pub line_up :
    Snapshot
    → List Text
    → Option Text
    → Option Entry
    → List Entry
    → Option Entry × (Dict Text Entry × Option Text)
line_up snapshot retired after king queue =
    let candidates = admit snapshot retired queue [] in
    elim (current_king snapshot king) [
      | some king ↦ (some king, (erase king.model_id candidates, after))
      | none ↦
          let pair = pair_of (bootstrap_order after candidates) in
          (none, (by_model pair [], last_hotkey pair after))
    ]

unfoldable pub opening_of : Snapshot → ℕ → Ledger → Opening
opening_of snapshot window l =
    let (king, (candidates, after)) =
      line_up snapshot l.bootstrap_retired l.bootstrap_after l.king (submissions l) in
    record {
      id = window;
      start_block = snapshot.block;
      start_epoch = l.activation_epoch + window_epochs * window;
      end_epoch = l.activation_epoch + window_epochs * (window + 1);
      king = king;
      candidates = candidates;
      policy_hash = policy_at l window;
    }

unfoldable pub next_after : Snapshot → Ledger → Option Text
next_after snapshot l =
    let (king, (candidates, after)) =
      line_up snapshot l.bootstrap_retired l.bootstrap_after l.king (submissions l) in
    after

-- `_open`
unfoldable pub open_window : Snapshot → ℕ → Action Error Ledger (Unit {0})
open_window snapshot window l =
    let opening = opening_of snapshot window l in
    let l' = record l { bootstrap_after = next_after snapshot l } in
    if contains window l.windows then (err integrity_error, l') else (
      ok tt,
      record l' {
        windows = l.windows ++ (window, record { opening = opening; closing = none }) ∷ [];
        active = some opening;
      },
    )
